-- ===== src/Paging/Scrolling.antt =====
-- Scrolls that overlap, scrolls that fail, and the url that a page is asked from.
use blockcore_gateway.Common.{
  ◌≡◌, ◌≢◌, ◌↔◌, ◌⊎◌, true, Option, none, some, List, [], ◌∷◌, ◌++◌, arith,
}
use blockcore_gateway.Js.Text.{Text}
use blockcore_gateway.Paging.{
  Pager, Page, Kind, page_base, present, begin, on_response, or_empty, on_body, on_scroll,
  on_timeout, scroll,
}

module _ {ℓ} {A : Type ℓ} (k : Kind A) (base : Text) where
  -- An update that throws leaves the component loading for good; one that does not ends the loading.
  -- When it throws, the list is as it was.
  pub scroll_outcome :
      (server : Text → Option (Page A)) (p : Pager A)
      → (((scroll k base server p).0.loading ≡ true) ↔ ((scroll k base server p).1 ≢ none))
        × (((scroll k base server p).1 ≡ none) ⊎ ((scroll k base server p).0.items ≡ p.items))
  unfolding scroll
  scroll_outcome server p = ((λ e. ground arith, λ e. ground arith), ground arith)

  -- What a response with this page does, from its headers to its body.
  abbrev pub respond : Page A → Pager A → Pager A
  respond page p = (on_body k page (on_response k page p).0).0

  -- A second scroll to the bottom before the first page is there: both ask for the same url, and the page is
  -- appended twice.
  pub overlapping_scrolls :
      (p : Pager A) (u header : Text) (page : Page A) (xs : List A)
      → present p.next ≡ some u
      → page.link_header ≡ some header
      → page.body ≡ some xs
      → let q = on_timeout base (on_timeout base (on_scroll true (on_scroll true p))) in
        (q.requested ≡ (p.requested ++ (page_base base ++ u) ∷ []) ++ (page_base base ++ u) ∷ [])
        × ((respond page (respond page q)).items
            ≡ some ((or_empty p.items ++ k.arrange xs) ++ k.arrange xs))
  unfolding on_timeout on_scroll begin on_response on_body
  overlapping_scrolls p u header page xs e l b = (ground arith, ground arith)
