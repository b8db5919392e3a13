-- ===== src/ScrollEvents/Tests.antt =====
-- Two events, of which the second cancels the first.
use blockcore_gateway.Common.{none}
use blockcore_gateway.ScrollEvents.Window.{
  window_scroll_top, window_scroll_event, scrolled, window_scrolled,
}
use blockcore_gateway.ScrollEvents.Throttle.{throttle, call_throttled, calls_throttled}
use blockcore_gateway.Common.{ℕ, ◌+◌, ◌≤◌, ◌≡◌, ◌≢◌, ◌⊎◌, refl, true, false, some, [], ◌∷◌, length}
use blockcore_gateway.ScrollEvents.{
  Debounced, new, clear_timeout, on_event, on_timeout, event, timeout, Reach, here, next,
  default_offsets, element_scroll_event,
}
use blockcore_gateway.ScrollEvents.Debouncing.{final, debounced}

abbrev burst : Debounced ℕ
burst = on_timeout 1 8 (on_event 8 (on_event 7 new))

burst-Reach : Reach new burst
unfolding new on_event clear_timeout
burst-Reach =
    next (next (next here (event 7 new)) (event 8 (on_event 7 new)))
      (timeout 1 8 [] [] (on_event 8 (on_event 7 new)) refl)

debounced_example :
    (length burst.armed ≤ 1)
    × (length burst.called + length burst.armed ≤ 2)
    × ((burst.armed ≢ []) ⊎ (final burst.called ≡ some 8))
unfolding burst-Reach
debounced_example = debounced burst-Reach

called_once : burst.called ≡ 8 ∷ []
unfolding new on_event on_timeout
called_once = refl

-- A page that is shorter than the window is at its top and at its bottom.
short_page :
    element_scroll_event default_offsets
      (record { scroll_height = 300; scroll_top = 0; offset_height = 500 })
    ≡ record { is_reaching_bottom = true; is_reaching_top = true; is_window_event = false }
unfolding element_scroll_event
short_page = refl

-- Calls within the wait of ten are dropped.
throttled :
    (calls_throttled 10 (1005 ∷ 1011 ∷ 1020 ∷ 1030 ∷ []) (throttle 10 1000)).runs ≡ 1011 ∷ 1030 ∷ []
unfolding calls_throttled throttle call_throttled
throttled = refl

-- The document keeps the offset where the window itself has none.
end_of_window :
    window_scrolled default_offsets
      (record {
        page_y_offset = 0;
        document_scroll_top = 400;
        body_scroll_top = 0;
        inner_height = 600;
      })
      (some 1000)
    ≡ record { is_reaching_bottom = true; is_reaching_top = false; is_window_event = true } ∷ []
unfolding window_scrolled window_scroll_event window_scroll_top
end_of_window = refl

no_target : scrolled default_offsets none ≡ []
unfolding scrolled
no_target = refl
