-- ===== src/Peers.antt =====
-- The list of peers of src/Blockcore.Hub/ClientApp/src/app/services/peer.service.ts: the handler
-- that `PeerService` subscribes to the events of `HubService`.
pub mod Located
pub mod Handler
pub mod Session
mod Tests
use blockcore_gateway.Common.{
  ℕ, suc, String, Option, none, some, List, [], ◌∷◌, ◌++◌, Bool, true, false, if◌then◌else◌, str_eq,
  opt_eq,
}
use blockcore_gateway.Js.Array.{splice, assign}
use mathlib.Core.Option

-- `data` of an event. `other` stands for the fields that the service does not read.
pub record Data : Type 0 where
  pub id : Option String
  pub other : String

-- `none` is an event without `data`, on which `data.id` throws a TypeError.
pub record HubEvent : Type 0 where
  pub event_name : String
  pub info : Option Data

-- `stray` is the property "-1" of the array, which an update of an unknown peer sets.
pub record PeerService : Type 0 where
  pub peers : List HubEvent
  pub stray : Option HubEvent

abbrev pub new : PeerService
new = record { peers = []; stray = none }

-- `p.data.id === message.data.id`; `none` is the TypeError.
unfoldable pub same_id : HubEvent → HubEvent → Option Bool
same_id p message = elim p.info [
  | none ↦ none
  | some d ↦ elim message.info [ none ↦ none | some m ↦ some (opt_eq d.id m.id) ]
]

abbrev hit : Option Bool → Option (Option ℕ) → Option (Option ℕ)
hit none rest = none
hit (some true) rest = some (some 0)
hit (some false) rest = Option.map (Option.map suc) rest

-- `this.peers.findIndex(p => p.data.id === message.data.id)`
unfoldable pub find_index : HubEvent → List HubEvent → Option (Option ℕ)
find_index message [] = some none
find_index message (p ∷ ps) = hit (same_id p message) (find_index message ps)

abbrev remove_at : PeerService → Option ℕ → PeerService
remove_at s i = record s { peers = splice i s.peers }

abbrev kept : HubEvent → Option ℕ → Option HubEvent → Option HubEvent
kept message none old = some message
kept message (some i) old = old

abbrev replace_at : HubEvent → PeerService → Option ℕ → PeerService
replace_at message s i = record { peers = assign i message s.peers; stray = kept message i s.stray }

-- The handler; `none` is a TypeError, which leaves the service as it was.
unfoldable pub on_event : HubEvent → PeerService → Option PeerService
on_event message s =
    if str_eq message.event_name "ConnectionAddedEvent"
    then some (record s { peers = s.peers ++ message ∷ [] })
    else if str_eq message.event_name "ConnectionRemovedEvent"
    then Option.map (remove_at s) (find_index message s.peers)
    else if str_eq message.event_name "ConnectionUpdatedEvent"
    then Option.map (replace_at message s) (find_index message s.peers)
    else if str_eq message.event_name "ConnectionStartedEvent"
    then Option.map (replace_at message s) (find_index message s.peers)
    else some s

abbrev pub after : PeerService → Option PeerService → PeerService
after s none = s
after s (some t) = t

-- A session: the events in the order in which they arrive.
unfoldable pub run : PeerService → List HubEvent → PeerService
run s [] = s
run s (e ∷ es) = run (after s (on_event e s)) es
