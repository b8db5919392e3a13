-- ===== src/BlockPage/Loading.antt =====
-- Which transactions a page asks for.
use blockcore_gateway.Common.{ℕ, ◌≡◌, none, some, arith}
use blockcore_gateway.Js.Text.{Text}
use blockcore_gateway.Api.{Error, Result, ok, err}
use blockcore_gateway.BlockPage.{BlockPage, block_url, transactions_url, asks, on_params}

module _ (lookup : Text → Result ℕ) (id : Text) (p : BlockPage) (height : ℕ) where
  -- Where the lookup fails after an earlier block was shown, the page keeps that block beside the error, and asks for
  -- the transactions of the earlier block.
  pub on_params-stale :
      (x : Error) (old : ℕ)
      → lookup (block_url id) ≡ err x
      → p.block ≡ some old
      → on_params lookup (ok height) id p ≡ (
        record {
          block = some old;
          error = some x;
          last_block_height = some height;
          transactions = none;
          details_visible = p.details_visible;
        },
        asks (transactions_url old),
      )
  unfolding on_params
  on_params-stale x old e b = ground arith
