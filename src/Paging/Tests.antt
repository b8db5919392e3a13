-- ===== src/Paging/Tests.antt =====
-- A list of two pages.
use blockcore_gateway.Common.{
  refl, true, Option, ◌≡◌, none, some, [], ◌∷◌, arith, ℕ, Bool, if◌then◌else◌,
}
use blockcore_gateway.Js.Sort.{sort_desc}
use blockcore_gateway.Js.Text.{Text, text, replace, index_of, equal, split, split_from}
use blockcore_gateway.LinkHeader.{link, parse_link_header, assign_sections, key_of, value_of}
use blockcore_gateway.Paging.{
  Pager, Page, Block, page_base, new, update, on_scroll, on_timeout, scrolls, blocks_kind,
}
use blockcore_gateway.Paging.Chains.{}
use blockcore_gateway.Common.{◌++◌}
use blockcore_gateway.Paging.Chains.{first_blocks}
use blockcore_gateway.Paging.{begin, on_response}
use blockcore_gateway.Paging.Interleaved.{
  Browsing, page_opened, ask_blocks, respond_to, read_body_of, Reach, set_base_url, choose, respond,
  body_there, here, next,
}
use blockcore_gateway.Paging.Accounted.{IsAccounted, Reach-IsAccounted}
use blockcore_gateway.Paging.Server.{Serves, last, more, Complete, update-scrolls-Complete}

abbrev block : ℕ → Block
block n = record { block_index = n; block_hash = [] }

abbrev base : Text
base = text "http://x/api"

abbrev first_page : Page Block
first_page = record {
  pagination_total = some (text "3");
  link_header = some (text "</b>; rel=\"previous\"");
  body = some (block 2 ∷ block 3 ∷ []);
}

abbrev second_page : Page Block
second_page = record {
  pagination_total = some (text "3");
  link_header = some (text "</a>; rel=\"next\"");
  body = some (block 1 ∷ []);
}

abbrev server : Text → Option (Page Block)
server url =
    if equal url (text "http://x/a")
    then some first_page
    else if equal url (text "http://x/b")
    then some second_page
    else none

serves :
    Serves blocks_kind base server
      (some (text "/a"))
      ((block 2 ∷ block 3 ∷ []) ∷ (block 1 ∷ []) ∷ [])
unfolding page_base replace index_of link parse_link_header assign_sections key_of value_of split
    split_from
serves =
    more (text "/a") (text "</b>; rel=\"previous\"") first_page refl refl refl refl
      (more (text "/b") (text "</a>; rel=\"next\"") second_page refl refl refl refl (last refl))

both : Pager Block
both = scrolls 1 blocks_kind base server (update blocks_kind base server (some (text "/a")) new).0

update-scrolls-Complete_example :
    Complete blocks_kind base server (block 3 ∷ block 2 ∷ block 1 ∷ []) 2 both
unfolding both sort_desc
update-scrolls-Complete_example =
    update-scrolls-Complete blocks_kind base server (some (text "/a")) _ 1 serves (omega arith)

abbrev at_b : Pager Block
at_b = record {
  items = some [];
  next = some (text "/b");
  total = none;
  count = 1;
  loading = Bool.false;
  requested = [];
  scheduled = 0;
}

abbrev twice : Pager Block
twice = on_timeout base (on_timeout base (on_scroll true (on_scroll true at_b)))

-- Two chains are chosen, and the first one answers last.
abbrev other_base : Text
other_base = text "http://y/api"

abbrev always : Text → Option (Page Block)
always url = some first_page

abbrev first_url : Text
first_url = page_base base ++ first_blocks

abbrev other_url : Text
other_url = page_base other_base ++ first_blocks

abbrev crossed : Browsing
crossed = respond_to first_url first_page [] (
    respond_to other_url first_page (first_url ∷ []) (
      ask_blocks (some first_blocks)
        (record (ask_blocks (some first_blocks) (page_opened (some base))) {
          base = some other_base;
        })))

crossing :
    Reach always
      (page_opened (some base))
      (read_body_of first_url first_page (other_url ∷ []) crossed)
unfolding page_opened ask_blocks respond_to read_body_of on_response
crossing =
    next
      (next
        (next (next (next (next here (choose _)) (set_base_url _ (some other_base))) (choose _))
          (respond _ (first_url ∷ []) [] other_url first_page refl refl))
        (respond _ [] [] first_url first_page refl refl))
      (body_there _ (other_url ∷ []) [] first_url first_page refl refl)

Reach-IsAccounted_example :
    IsAccounted always (read_body_of first_url first_page (other_url ∷ []) crossed)
Reach-IsAccounted_example = Reach-IsAccounted always (some base) crossing

-- What the next page is asked for: one of the chain that is no longer shown, from the indexer of the other.
asked-crossed :
    (ask_blocks crossed.pager.next crossed).pager.requested
    ≡ first_url ∷ other_url ∷ (page_base other_base ++ text "/b") ∷ []
unfolding ask_blocks respond_to on_response page_opened link parse_link_header assign_sections split
    split_from key_of replace index_of value_of begin new
asked-crossed = refl

-- Without a base url nothing is asked for.
asked-without_base : ask_blocks (some first_blocks) (page_opened none) ≡ page_opened none
unfolding ask_blocks page_opened
asked-without_base = refl
