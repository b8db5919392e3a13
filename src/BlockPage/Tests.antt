-- ===== src/BlockPage/Tests.antt =====
-- A page on which the second lookup fails.
use blockcore_gateway.Common.{◌≡◌, refl, none, some, [], ◌∷◌, arith, All, false, true}
use blockcore_gateway.Js.Value.{pos}
use blockcore_gateway.BlockPage.{BlockPage, key_event, last_block, toggle_block_details}
use blockcore_gateway.BlockPage.Navigation.{IsBlock, key_event-IsBlock}

abbrev on_seven : BlockPage
on_seven = record {
  block = some 7;
  error = none;
  last_block_height = some 9;
  transactions = some [];
  details_visible = false;
}

key_event-IsBlock_example : All (IsBlock 9) (key_event "PageUp" 7 9)
key_event-IsBlock_example = key_event-IsBlock "PageUp" 7 9 (omega arith) (omega arith)

page_up : key_event "PageUp" 7 9 ≡ pos 8 ∷ []
unfolding key_event
page_up = refl

details : (toggle_block_details on_seven).details_visible ≡ true
details = refl

end_of_chain : last_block on_seven ≡ some (pos 9)
end_of_chain = refl
