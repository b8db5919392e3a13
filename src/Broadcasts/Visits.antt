-- ===== src/Broadcasts/Visits.antt =====
-- The page of hubs over the visits that the user pays to it: the constructor, `subscribeToEvents` and `ngOnDestroy` of
-- hubs/hubs.component.ts against the emitter of the hub service, which lives as long as the client.
use mathlib.Core.List.{append-nil, append_assoc}
use blockcore_gateway.Common.{
  ◌≡◌, refl, sym, ap, ap₂, ◌∙◌, Bool, true, false, List, [], ◌∷◌, ◌++◌, map,
}

-- The events that each component has in its list, for every component that was made, the newest first; and whether
-- the newest one is on the screen.
pub record HubPages (D : Type 0) : Type 0 where
  pub collected : List (List D)
  pub shown : Bool

pub data Visit (D : Type 0) : Type 0 where
  enters leaves : Visit D
  emits : D → Visit D

module _ {D : Type 0} where
  abbrev pub unvisited : HubPages D
  unvisited = record { collected = []; shown = false }

  -- The constructor, which subscribes.
  pub enter_hubs : HubPages D → HubPages D
  enter_hubs s = record s { collected = [] ∷ s.collected; shown = true }

  -- `ngOnDestroy` unsubscribes from nothing.
  pub ng_on_destroy_hubs : HubPages D → HubPages D
  ng_on_destroy_hubs s = record s { shown = false }

  -- The emitter calls every subscription.
  pub emit_event : D → HubPages D → HubPages D
  emit_event d s = record s { collected = map (λ list. list ++ d ∷ []) s.collected }

  pub visits : List (Visit D) → HubPages D → HubPages D
  unfolding enter_hubs ng_on_destroy_hubs emit_event
  visits [] s = s
  visits (enters ∷ vs) s = visits vs (enter_hubs s)
  visits (leaves ∷ vs) s = visits vs (ng_on_destroy_hubs s)
  visits (emits d ∷ vs) s = visits vs (emit_event d s)

  abbrev pub events : List (Visit D) → List D
  events [] = []
  events (enters ∷ vs) = events vs
  events (leaves ∷ vs) = events vs
  events (emits d ∷ vs) = d ∷ events vs

  -- For each entry, the events behind it, the newest entry first.
  abbrev pub events_since : List (Visit D) → List (List D)
  events_since [] = []
  events_since (enters ∷ vs) = events_since vs ++ events vs ∷ []
  events_since (leaves ∷ vs) = events_since vs
  events_since (emits d ∷ vs) = events_since vs

  with_nothing : (lists : List (List D)) → lists ≡ map (λ list. list ++ []) lists
  with_nothing [] = refl
  with_nothing (list ∷ lists) = ap₂ ◌∷◌ (sym (append-nil list)) (with_nothing lists)

  with_event :
      (d : D) (ds : List D) (lists : List (List D))
      → map (λ list. list ++ ds) (map (λ list. list ++ d ∷ []) lists)
        ≡ map (λ list. list ++ d ∷ ds) lists
  with_event d ds [] = refl
  with_event d ds (list ∷ lists) = ap₂ ◌∷◌ (append_assoc list (d ∷ []) ds) (with_event d ds lists)

  visits-collected :
      (vs : List (Visit D)) (s : HubPages D)
      → (visits vs s).collected ≡ events_since vs ++ map (λ list. list ++ events vs) s.collected
  unfolding visits enter_hubs ng_on_destroy_hubs emit_event
  visits-collected [] s = with_nothing s.collected
  visits-collected (enters ∷ vs) s =
      visits-collected vs (enter_hubs s) ∙ sym (append_assoc (events_since vs) (events vs ∷ []) _)
  visits-collected (leaves ∷ vs) s = visits-collected vs (ng_on_destroy_hubs s)
  visits-collected (emits d ∷ vs) s =
      visits-collected vs (emit_event d s)
      ∙ ap (events_since vs ++◌) (with_event d (events vs) s.collected)

  -- Every page of hubs that was ever entered collects all events from then on, whether it has been left or not:
  -- no subscription ends.
  pub visits-events_since :
      (vs : List (Visit D)) → (visits vs unvisited).collected ≡ events_since vs
  visits-events_since vs = visits-collected vs unvisited ∙ append-nil _
