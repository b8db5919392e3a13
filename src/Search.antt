-- ===== src/Search.antt =====
-- The search box: src/Blockcore.Hub/ClientApp/src/app/search/search.component.ts.
pub mod Results
mod Tests
use blockcore_gateway.Common.{
  ℕ, zero, suc, ◌<◌, ◌≡◌, Bool, Option, none, some, List, [], ◌∷◌, ◌&&◌, if◌then◌else◌, ltb, length,
}
use blockcore_gateway.Js.Text.{Text}
use blockcore_gateway.Js.Value.{ℤ, pos, negsuc}
use blockcore_gateway.Js.Number.{parse_int}
use blockcore_gateway.Api.{Error, type_error, Result, ok, err, ◌>>=◌, or_throw}

pub data InputType : Type 0 where
  index address hash : InputType

unfoldable pub input_type : Text → InputType
input_type value =
    if ltb (length value) 20
    then index
    else if ltb 30 (length value) && ltb (length value) 54
    then address
    else hash

-- Where `router.navigate` is sent, below the chain and `explorer`.
pub data Target : Type 0 where
  block_number : ℕ → Target
  block_hash address_page transaction_page : Text → Target

-- What the search asks of the indexer, and the rounding of a whole number to a double. A lookup gives the
-- `blockHash` or the `transactionId` of what is found, or `none` where the body is `null`.
pub record Indexer : Type 0 where
  pub block_by_hash : Text → Result (Option Text)
  pub transaction : Text → Result (Option Text)
  pub round : ℕ → ℕ

-- The block that is found, if any: every error of that lookup is swallowed.
found_block : Result (Option Text) → Option Text
found_block (ok b) = b
found_block (err e) = none

module _ (server : Indexer) where
  open server use {block_by_hash, transaction, round}

  -- `index !== NaN` holds of every number; `index > 0` rules NaN out.
  by_index : Option ℤ → Result (Option Target)
  by_index none = ok none
  by_index (some (negsuc n)) = ok none
  by_index (some (pos n)) = if ltb 0 (round n) then ok (some (block_number (round n))) else ok none

  by_hash : Text → Result (Option Target)
  unfolding found_block
  by_hash text = elim (found_block (block_by_hash text)) [
    | some h ↦ ok (some (block_hash h))
    | none ↦ do
      found ← transaction text
      id ← or_throw found type_error
      ok (some (transaction_page id))
  ]

  -- `search()`: the navigation, if there is one. A box that was never filled throws.
  pub search : Option Text → Result (Option Target)
  unfolding by_index by_hash
  search none = err type_error
  search (some text) = elim (input_type text) [
    | index ↦ by_index (parse_int text)
    | address ↦ ok (some (address_page text))
    | hash ↦ by_hash text
  ]
