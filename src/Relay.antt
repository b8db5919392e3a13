-- ===== src/Relay.antt =====
-- How the client follows the connections of its hub: the handlers of messages about other hubs in
-- src/Blockcore.Hub.Networking (Handlers/HubHandlers/InfoMessageHandler.cs and NotificationMessageHandler.cs, on
-- ConnectionManagerBase.cs), the forwarding of their events in Managers/HubManager.cs, and the list of Peers, which takes
-- each event as it comes.
pub mod Following
pub mod InStep
mod Tests
use blockcore_gateway.Common.{
  ℕ, suc, String, Bool, true, false, Option, none, some, List, [], ◌∷◌, ◌++◌, if◌then◌else◌, str_eq,
  find_by,
}
use blockcore_gateway.Peers.{Data, HubEvent, PeerService, run as run_events}

-- A connection of the hub; `other` stands for all but the id, as in the data of an event.
pub record Connection : Type 0 where
  pub id : String
  pub other : String

-- What the gateway tells the hub, in messages that can be parsed, and the endpoint that a thread of it has found for a connection.
pub data Told : Type 0 where
  info : Connection → Told
  disconnected : String → Told
  server_shutdown : Told
  found_endpoint : String → Told

-- `hubContext.Clients.All.SendAsync("Event", e)`, for an event of the type that is named.
abbrev pub event_of : String → Connection → HubEvent
event_of name c = record {
  event_name = name;
  info = some (record { id = some c.id; other = c.other });
}

-- `GetConnection(id)`
unfoldable pub get_connection : String → List Connection → Option Connection
get_connection id = find_by (λ c. str_eq c.id id)

-- `Connections.Remove` of what `GetConnection(id)` has found, and a change of it in its place.
unfoldable pub remove_connection : String → List Connection → List Connection
remove_connection id [] = []
remove_connection id (c ∷ cs) =
    let rest = c ∷ remove_connection id cs in if str_eq c.id id then cs else rest

-- `merge old new` is the rest of a connection after `HubInfo.Update`.
module _ (merge : String → String → String) where
  abbrev merged : Connection → Connection → Connection
  merged m c = record c { other = merge c.other m.other }

  unfoldable pub update_connection : Connection → List Connection → List Connection
  update_connection m [] = []
  update_connection m (c ∷ cs) =
      let rest = c ∷ update_connection m cs in if str_eq c.id m.id then merged m c ∷ cs else rest

  -- The connections after a message, and the events that it causes.
  unfoldable pub handle : Told → List Connection → List Connection × List HubEvent
  handle (info m) cs = elim (get_connection m.id cs) [
    | none ↦ (cs ++ m ∷ [], event_of "ConnectionAddedEvent" m ∷ [])
    | some c ↦ (update_connection m cs, event_of "ConnectionUpdatedEvent" (merged m c) ∷ [])
  ]
  handle (disconnected id) cs = elim (get_connection id cs) [
    | none ↦ (cs, [])
    | some c ↦ (remove_connection id cs, event_of "ConnectionRemovedEvent" c ∷ [])
  ]
  handle server_shutdown cs = ([], record { event_name = "GatewayShutdownEvent"; info = none } ∷ [])
  handle (found_endpoint id) cs = elim (get_connection id cs) [
    | none ↦ (cs, [])
    | some c ↦ (cs, event_of "ConnectionStartedEvent" c ∷ [])
  ]

  -- The hub and its client, whose events arrive in their order.
  unfoldable pub relay : List Told → List Connection → PeerService → List Connection × PeerService
  relay [] cs s = (cs, s)
  relay (m ∷ ms) cs s = let (ds, events) = handle m cs in relay ms ds (run_events s events)
