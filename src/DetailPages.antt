-- ===== src/DetailPages.antt =====
-- The pages of a transaction and of an address: src/Blockcore.Hub/ClientApp/src/app/explorer/
-- transaction/transaction.component.ts and explorer/address/address.component.ts. The scrolling of the latter is
-- in Paging.
pub mod Loading
mod Tests
use blockcore_gateway.Common.{ℕ, ◌+◌, Bool, not, Option, none, some, List, [], ◌∷◌, ◌++◌}
use blockcore_gateway.Js.Text.{Text, text}
use blockcore_gateway.Js.Value.{Value}
use blockcore_gateway.Api.{Error, Result, ok, err}
use blockcore_gateway.Paging.{Pager, Page, Outcome, update_address_transactions}

pub record TransactionPage : Type 0 where
  pub transaction : Value
  pub error : Option Error
  pub details_visible : Bool

-- The subscription to the route's parameters, given what the lookup of the id gives.
unfoldable pub on_transaction_params : Result Value → TransactionPage → TransactionPage
on_transaction_params (ok transaction) p = record p { transaction = transaction; error = none }
on_transaction_params (err e) p = record p { error = some e }

unfoldable pub toggle_details : TransactionPage → TransactionPage
toggle_details p = record p { details_visible = not p.details_visible }

-- `pager` are the fields that the scrolling uses; an address is `none` before the first one.
pub record AddressPage {ℓ} (A : Type ℓ) : Type ℓ where
  pub address : Option Text
  pub balance : Value
  pub pager : Pager A
  pub details_visible : Bool

-- The list of an address, in pages of ten.
unfoldable pub address_transactions_url : Text → Text
address_transactions_url id = text "/api/query/address/" ++ (id ++ text "/transactions?limit=10")

module _ {ℓ} {A : Type ℓ} (base : Text) (server : Text → Option (Page A)) where
  -- Behind the lookup of the balance.
  unfoldable pub on_balance : Text → Value → AddressPage A → AddressPage A × Option Error
  on_balance id balance p =
      let (pager, thrown) =
        update_address_transactions base server (some (address_transactions_url id)) p.pager in
      (record p { balance = balance; pager = pager }, thrown)

  -- The subscription to the route's parameters, and the exception that it ends with, if any.
  unfoldable pub on_address_params :
      (Text → Result Value) → Text → AddressPage A → AddressPage A × Option Error
  unfolding on_balance
  on_address_params lookup id p =
      let q = record p { address = some id; pager = record p.pager { items = none } } in
      elim (lookup id) [ err e ↦ (q, some e) | ok balance ↦ on_balance id balance q ]

-- `toggleDetails` of the page of an address.
abbrev pub toggle_address_details {ℓ} : {A : Type ℓ} → AddressPage A → AddressPage A
toggle_address_details p = record p { details_visible = not p.details_visible }

-- `amount(outputs)`, on the balances of the outputs as whole numbers: `reduce` adds them up from the first one.
abbrev sum_from : ℕ → List ℕ → ℕ
sum_from acc [] = acc
sum_from acc (balance ∷ rest) = sum_from (acc + balance) rest

abbrev pub amount : List ℕ → ℕ
amount outputs = sum_from 0 outputs
