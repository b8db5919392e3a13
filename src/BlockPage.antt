-- ===== src/BlockPage.antt =====
-- The page of a block: src/Blockcore.Hub/ClientApp/src/app/explorer/block/block.component.ts, without
-- the scrolling, which is in Paging.
pub mod Loading
pub mod Navigation
mod Tests
use blockcore_gateway.Common.{
  ℕ, zero, suc, ◌+◌, ◌-◌, String, Bool, false, not, Option, none, some, List, [], ◌∷◌, ◌++◌, ◌||◌,
  if◌then◌else◌, ltb, ◌==◌, str_eq, length,
}
use blockcore_gateway.Js.Text.{Text, text}
use blockcore_gateway.Js.Value.{ℤ, pos, negsuc}
use blockcore_gateway.Js.Number.{decimal}
use blockcore_gateway.Api.{Error, type_error, Result, ok, err}
use blockcore_gateway.Api.Download.{resolve}

-- `block` is `none` until one has been loaded; `transactions` are the ids that the
-- page lists, where `none` is the `null` that a new page begins with.
pub record BlockPage : Type 0 where
  pub block : Option ℕ
  pub error : Option Error
  pub last_block_height : Option ℕ
  pub transactions : Option (List Text)
  pub details_visible : Bool

pub new : BlockPage
new = record {
  block = none;
  error = none;
  last_block_height = none;
  transactions = none;
  details_visible = false;
}

-- The request for a block: by its index if the id is short.
unfoldable pub block_url : Text → Text
block_url id =
    if ltb (length id) 20 then text "/query/block/index/" ++ id else text "/query/block/" ++ id

-- The block's own transactions, in pages of `limit`.
unfoldable pub transactions_url : ℕ → Text
transactions_url index =
    text "/api/query/block/index/" ++ (decimal index ++ text "/transactions?limit=20")

-- How the subscription to the route's parameters ends: with an exception, or by asking for the
-- transactions at a url.
pub data Ending : Type 0 where
  throws : Error → Ending
  asks : Text → Ending

-- The lookup of the block, whose error is kept.
pub on_block : Result ℕ → BlockPage → BlockPage
on_block (ok index) p = record p { block = some index; error = none }
on_block (err e) p = record p { error = some e }

-- Behind the lookup of the last block.
pub on_last_block : Result ℕ → BlockPage → BlockPage × Ending
on_last_block (err e) p = (p, throws e)
on_last_block (ok height) p = elim p.block [
  | none ↦ (record p { last_block_height = some height }, throws type_error)
  | some index ↦ (record p { last_block_height = some height }, asks (transactions_url index))
]

-- The subscription: the id is looked up, and then the last block. The `index` of a block stands for the block.
pub on_params : (Text → Result ℕ) → Result ℕ → Text → BlockPage → BlockPage × Ending
unfolding on_block on_last_block
on_params lookup last id p =
    on_last_block last (on_block (lookup (block_url id)) (record p { transactions = none }))

-- The blocks that a key press navigates to, for a page that shows the block `index` below `height`.
previous_block : ℕ → List ℤ
previous_block index =
    if index == 1 then [] else (if index == 0 then negsuc 0 else pos (index - 1)) ∷ []

next_block : ℕ → ℕ → List ℤ
next_block index height = if index == height then [] else pos (index + 1) ∷ []

unfoldable pub key_event : String → ℕ → ℕ → List ℤ
unfolding previous_block next_block
key_event key index height =
    (if str_eq key "ArrowRight" || str_eq key "PageUp" then next_block index height else [])
    ++ ((if str_eq key "ArrowLeft" || str_eq key "PageDown" then previous_block index else [])
        ++ ((if str_eq key "Home" then pos 1 ∷ [] else [])
            ++ (if str_eq key "End" then pos height ∷ [] else [])))

-- `lastBlock()`, where `none` is the `undefined` of a page whose last lookup has not succeeded yet.
abbrev pub last_block : BlockPage → Option ℤ
last_block p = elim p.last_block_height [ none ↦ none | some height ↦ some (pos height) ]

abbrev pub toggle_block_details : BlockPage → BlockPage
toggle_block_details p = record p { details_visible = not p.details_visible }
