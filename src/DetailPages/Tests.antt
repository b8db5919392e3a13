-- ===== src/DetailPages/Tests.antt =====
-- A server with one page of one transaction, and an indexer that knows one address.
use blockcore_gateway.Common.{
  ℕ, ◌≡◌, refl, true, false, Option, none, some, [], ◌∷◌, ◌++◌, if◌then◌else◌,
}
use blockcore_gateway.Js.Text.{Text, text, equal, replace, index_of}
use blockcore_gateway.Js.Value.{Value, bool}
use blockcore_gateway.Api.{network_error, Result, ok, err}
use blockcore_gateway.Paging.{Page, page_base}
use blockcore_gateway.DetailPages.{
  AddressPage, address_transactions_url, toggle_address_details, amount,
}

abbrev page : Page ℕ
page = record { pagination_total = some (text "1"); link_header = some []; body = some (7 ∷ []) }

abbrev base : Text
base = text "http://x/api"

abbrev server : Text → Option (Page ℕ)
server url =
    if equal url (text "http://x/api/query/address/ab/transactions?limit=10")
    then some page
    else none

abbrev find_balance : Text → Result Value
find_balance id = if equal id (text "ab") then ok (bool true) else err network_error

abbrev shown : AddressPage ℕ
shown = record {
  address = some (text "cd");
  balance = bool false;
  pager = record {
    items = some (1 ∷ []);
    next = some (text "/next");
    total = none;
    count = 1;
    loading = false;
    requested = [];
    scheduled = 0;
  };
  details_visible = false;
}

serves : server (page_base base ++ address_transactions_url (text "ab")) ≡ some page
unfolding page_base replace index_of address_transactions_url
serves = refl

details : (toggle_address_details shown).details_visible ≡ true
details = refl

added_up : amount (3 ∷ 4 ∷ 5 ∷ []) ≡ 12
added_up = refl
