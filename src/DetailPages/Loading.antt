-- ===== src/DetailPages/Loading.antt =====
-- What the pages show when another id is opened.
use blockcore_gateway.Common.{◌≡◌, refl, Option, none, some, List, ◌++◌, arith}
use blockcore_gateway.Js.Text.{Text, text}
use blockcore_gateway.Js.Value.{Value}
use blockcore_gateway.Api.{Result, ok}
use blockcore_gateway.LinkHeader.{link, parse_link_header}
use blockcore_gateway.Paging.{Page, page_base, present}
use blockcore_gateway.Paging.Server.{update_address_transactions-more}
use blockcore_gateway.DetailPages.{
  AddressPage, address_transactions_url, on_balance, on_address_params,
}

present-url :
    (id : Text) → present (some (address_transactions_url id)) ≡ some (address_transactions_url id)
unfolding address_transactions_url
present-url id = refl

module _ {ℓ} {A : Type ℓ} (base : Text) (server : Text → Option (Page A))
    (lookup : Text → Result Value) where
  -- An address whose lookup succeeds: the page shows it with its balance and the first page of its own
  -- transactions alone, whatever it showed before.
  pub on_address_params-ok :
      (id : Text) (p : AddressPage A) (balance : Value) (page : Page A) (header : Text)
      (xs : List A)
      → lookup id ≡ ok balance
      → server (page_base base ++ address_transactions_url id) ≡ some page
      → page.link_header ≡ some header
      → page.body ≡ some xs
      → let (q, thrown) = on_address_params base server lookup id p in
        (thrown ≡ none)
        × (q.address ≡ some id)
        × (q.balance ≡ balance)
        × (q.pager.items ≡ some xs)
        × (q.pager.next ≡ link (text "previous") (parse_link_header header))
  unfolding on_address_params on_balance
  on_address_params-ok id p balance page header xs l s h b = ground (
    arith,
    update_address_transactions-more base server (record p.pager { items = none })
        (some (address_transactions_url id)) (address_transactions_url id) header page xs
        (present-url id) s h b,
  )
