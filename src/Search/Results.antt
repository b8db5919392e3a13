-- ===== src/Search/Results.antt =====
-- Where a search leads.
use blockcore_gateway.Common.{
  ℕ, ◌≤◌, ◌<◌, ◌≡◌, ◌≢◌, ◌↔◌, ◌⊎◌, refl, Option, none, some, length, arith,
}
use blockcore_gateway.Js.Text.{Text}
use blockcore_gateway.Js.Number.{decimal, parse_int-decimal}
use blockcore_gateway.Api.{Result, ok, err}
use blockcore_gateway.Search.{
  index, address, hash, input_type, block_number, block_hash, transaction_page, Indexer,
  found_block, search,
}

-- The length alone says what an input is taken for.
input_type_iff :
    (t : Text)
    → ((input_type t ≡ index) ↔ (length t < 20))
      × ((input_type t ≡ address) ↔ ((30 < length t) × (length t < 54)))
      × ((input_type t ≡ hash) ↔ (((20 ≤ length t) × (length t ≤ 30)) ⊎ (54 ≤ length t)))
unfolding input_type
input_type_iff t = (
  (λ e. ground arith, λ h. ground arith),
  (λ e. ground arith, λ h. ground arith),
  (λ e. ground arith, λ h. ground arith),
)

found_block-none :
    (r : Result (Option Text)) → ((b : Text) → r ≢ ok (some b)) → found_block r ≡ none
unfolding found_block
found_block-none (ok none) n = refl
found_block-none (ok (some b)) n = absurd (n b refl)
found_block-none (err e) n = refl

module _ (server : Indexer) where
  open server use {block_by_hash, transaction, round}

  -- A block number that is typed as it is printed leads to that block, if it is positive, has fewer than
  -- twenty digits and is a double.
  pub search-decimal :
      (n : ℕ)
      → 0 < n
      → length (decimal n) < 20
      → round n ≡ n
      → search server (some (decimal n)) ≡ ok (some (block_number n))
  unfolding search
  search-decimal n p h r = ground (arith, (input_type_iff (decimal n)).0.1 h, parse_int-decimal n)

  -- An input of the length of a hash leads to a block exactly when the block lookup finds that block, and to a
  -- transaction exactly when the block lookup fails or finds nothing and the other finds the transaction.
  pub search-hash :
      (t : Text)
      → input_type t ≡ hash
      → (h : Text)
      → ((search server (some t) ≡ ok (some (block_hash h))) ↔ (block_by_hash t ≡ ok (some h)))
        × ((search server (some t) ≡ ok (some (transaction_page h)))
            ↔ ((transaction t ≡ ok (some h)) × ((b : Text) → block_by_hash t ≢ ok (some b))))
  unfolding search
  search-hash t e h = (
    (λ q. ground arith, λ q. ground arith),
    (
      λ q. (ground arith, λ b z. absurd (ground arith)),
      λ (q, n). ground (arith, found_block-none (block_by_hash t) n),
    ),
  )
