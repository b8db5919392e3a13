-- ===== src/ScrollEvents.antt =====
-- The directive that reports scrolls, and its debouncing:
-- src/Blockcore.Hub/ClientApp/src/app/shared/scroll.directive.ts.
pub mod Debouncing
pub mod Throttle
pub mod Window
mod Tests
use blockcore_gateway.Common.{
  ℕ, suc, ◌+◌, ◌≡◌, Bool, true, false, Option, none, some, List, [], ◌∷◌, ◌++◌, ltb, ◌==◌, not,
  filter_by,
}

-- The state that a debounced method keeps on its object: `key` is the handle under `__timeout__…`; `armed`
-- are the timeouts that are to come, with the arguments of their calls; `called` are the arguments of the calls
-- of the original method, oldest first.
pub record Debounced (E : Type 0) : Type 0 where
  pub key : Option ℕ
  pub armed : List (ℕ × E)
  pub next_handle : ℕ
  pub called : List E

module _ {E : Type 0} where
  pub new : Debounced E
  new = record { key = none; armed = []; next_handle = 0; called = [] }

  unfoldable pub clear_timeout : Option ℕ → List (ℕ × E) → List (ℕ × E)
  clear_timeout none armed = armed
  clear_timeout (some h) armed = filter_by (λ t. not (t.0 == h)) armed

  -- The method that takes the place of the original.
  pub on_event : E → Debounced E → Debounced E
  on_event e s = record s {
    armed = (s.next_handle, e) ∷ clear_timeout s.key s.armed;
    key = some s.next_handle;
    next_handle = suc s.next_handle;
  }

  -- The timeout `h` calls the original with its arguments.
  pub on_timeout : ℕ → E → Debounced E → Debounced E
  on_timeout h e s = record s {
    armed = clear_timeout (some h) s.armed;
    called = s.called ++ e ∷ [];
  }

  pub data Step : Debounced E → Debounced E → Type 0 where
    event : (e : E) (s : Debounced E) → Step s (on_event e s)
    timeout :
        (h : ℕ) (e : E) (before behind : List (ℕ × E)) (s : Debounced E)
        → s.armed ≡ before ++ (h, e) ∷ behind
        → Step s (on_timeout h e s)

  pub data Reach (s : Debounced E) : Debounced E → Type 0 where
    here : Reach s s
    next : {t u : Debounced E} → Reach s t → Step t u → Reach s u

-- What a scroll handler gets, but for the event itself.
pub record ScrollEvent : Type 0 where
  pub is_reaching_bottom : Bool
  pub is_reaching_top : Bool
  pub is_window_event : Bool

pub record Offsets : Type 0 where
  pub bottom_offset : ℕ
  pub top_offset : ℕ

abbrev pub default_offsets : Offsets
default_offsets = record { bottom_offset = 100; top_offset = 100 }

-- The measures of a scrolled element, in whole pixels.
pub record Element : Type 0 where
  pub scroll_height : ℕ
  pub scroll_top : ℕ
  pub offset_height : ℕ

-- `elementScrollEvent`. The difference may be negative: `a - b - c < d` is `a < b + c + d`.
unfoldable pub element_scroll_event : Offsets → Element → ScrollEvent
element_scroll_event o t = record {
  is_reaching_bottom = ltb t.scroll_height (t.scroll_top + t.offset_height + o.bottom_offset);
  is_reaching_top = ltb t.scroll_top o.top_offset;
  is_window_event = false;
}
