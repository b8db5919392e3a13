-- ===== src/Peers/Tests.antt =====
-- A session of `PeerService`.
use blockcore_gateway.Common.{
  arith, String, none, some, [], ◌∷◌, ◌≡◌, refl, All, str_eq, str_eq_iff, false, ◌≢◌,
}
use blockcore_gateway.Js.Array.{splice, assign}
use blockcore_gateway.Peers.{HubEvent, PeerService, new, same_id, find_index, on_event, after, run}
use blockcore_gateway.Peers.Located.{HasData, HasOtherId, Located}
use blockcore_gateway.Peers.Handler.{on_event-HasData}

abbrev event : String → String → HubEvent
event name id = record { event_name = name; info = some (record { id = some id; other = "" }) }

abbrev added : String → HubEvent
added = event "ConnectionAddedEvent"

abbrev three : PeerService
three = record { peers = added "a" ∷ added "b" ∷ added "c" ∷ []; stray = none }

abbrev removed : String → HubEvent
removed = event "ConnectionRemovedEvent"

abbrev updated : String → HubEvent
updated = event "ConnectionUpdatedEvent"

session :
    run new (added "a" ∷ added "b" ∷ added "c" ∷ updated "b" ∷ removed "c" ∷ [])
    ≡ record { peers = added "a" ∷ updated "b" ∷ []; stray = none }
unfolding run on_event find_index same_id splice assign
session = refl

-- `b` and `c` are gone, though only `b` was removed.
removal_of_b : after three (on_event (removed "b") three) ≡ record three { peers = added "a" ∷ [] }
unfolding on_event find_index same_id splice
removal_of_b = refl

ids_differ : (s t : String) → str_eq s t ≡ false → some s ≢ some t
ids_differ s t h e = ground (arith, str_eq_iff s t)

other : (s t : String) → str_eq s t ≡ false → HasOtherId (some t) (added s)
other s t h = (_, refl, ids_differ s t h)

z_not_in_three : All (HasOtherId (some "z")) three.peers
z_not_in_three = (other "a" "z" refl, (other "b" "z" refl, (other "c" "z" refl, tt)))

abbrev b_in_three : Located (some "b") three.peers
b_in_three = record {
  before = added "a" ∷ [];
  peer = added "b";
  behind = added "c" ∷ [];
  parts = refl;
  found = ("", refl);
  others = (other "a" "b" refl, tt);
}

on_event-HasData_example :
    (t : PeerService) × (on_event (removed "z") three ≡ some t) × All HasData t.peers
on_event-HasData_example =
    on_event-HasData (removed "z") three (_, refl) ((_, refl), ((_, refl), ((_, refl), tt)))
