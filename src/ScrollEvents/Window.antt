-- ===== src/ScrollEvents/Window.antt =====
-- The scrolls of the window in the directive that reports scrolls, and what of a scroll reaches the handler:
-- windowScrollEvent, scrolled and windowScrolled of shared/scroll.directive.ts.
use blockcore_gateway.Common.{
  ℕ, zero, suc, ◌+◌, ◌≡◌, ◌↔◌, ◌<◌, true, Option, none, some, List, [], ◌∷◌, ltb, arith,
}
use blockcore_gateway.ScrollEvents.{ScrollEvent, Offsets, Element, element_scroll_event}

-- The measures of the window and of the document, in whole pixels.
pub record Window : Type 0 where
  pub page_y_offset : ℕ
  pub document_scroll_top : ℕ
  pub body_scroll_top : ℕ
  pub inner_height : ℕ

-- `a || b` on numbers.
abbrev or_else : ℕ → ℕ → ℕ
or_else zero b = b
or_else (suc a) b = suc a

unfoldable pub window_scroll_top : Window → ℕ
window_scroll_top w =
    or_else w.page_y_offset (or_else w.document_scroll_top (or_else w.body_scroll_top 0))

-- `windowScrollEvent`, given the height of the body of its target, if it has a target with a body. The difference
-- may be negative: `a - b < d` is `a < b + d`.
unfoldable pub window_scroll_event : Offsets → Window → Option ℕ → Option ScrollEvent
unfolding window_scroll_top
window_scroll_event o w none = none
window_scroll_event o w (some offset_height) = some (record {
  is_reaching_bottom = ltb offset_height (w.inner_height + window_scroll_top w + o.bottom_offset);
  is_reaching_top = ltb (window_scroll_top w) o.top_offset;
  is_window_event = true;
})

-- The bodies of `scrolled` and of `windowScrolled`, which the debouncing calls: what they emit.
unfoldable pub scrolled : Offsets → Option Element → List ScrollEvent
scrolled o none = []
scrolled o (some target) = element_scroll_event o target ∷ []

abbrev emitted : Option ScrollEvent → List ScrollEvent
emitted none = []
emitted (some e) = e ∷ []

unfoldable pub window_scrolled : Offsets → Window → Option ℕ → List ScrollEvent
window_scrolled o w body = emitted (window_scroll_event o w body)

-- A scroll of the window reports the bottom exactly when the body ends less than the offset below the window, and
-- the top exactly when the window stands less than the offset below the body's start.
pub window_scroll_event-ends :
    (o : Offsets) (w : Window) (offset_height : ℕ) (e : ScrollEvent)
    → window_scroll_event o w (some offset_height) ≡ some e
    → ((e.is_reaching_bottom ≡ true)
        ↔ (offset_height < w.inner_height + window_scroll_top w + o.bottom_offset))
      × ((e.is_reaching_top ≡ true) ↔ (window_scroll_top w < o.top_offset))
unfolding window_scroll_event
window_scroll_event-ends o w offset_height e h = (ground (arith), ground (arith))
