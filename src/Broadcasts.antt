-- ===== src/Broadcasts.antt =====
-- The pages that talk to the hub: src/Blockcore.Hub/ClientApp/src/app/messages/messages.component.ts and
-- hubs/hubs.component.ts, on the connection of HubConnection.
pub mod Sent
pub mod Visits
mod Tests
use blockcore_gateway.Common.{ℕ, String, List, [], ◌∷◌, ◌++◌}
use blockcore_gateway.HubConnection.{
  Message, Invocation, broadcast_to_hubs, broadcast_to_hubs_relayed, broadcast_to_gateways,
  connect_to_peer, disconnect_to_peer, HubService, invoke,
}

-- The two pages and the service that they share. `messages` are the ones that the user has sent, without
-- their date; `received` are the events that the list of hubs shows.
pub record Pages (D : Type 0) : Type 0 where
  pub message : String
  pub messages : List Message
  pub received : List D
  pub hub : HubService D

-- What the user does, and what the hub sends.
pub data Action (D : Type 0) : Type 0 where
  types : String → Action D
  sends_to_hubs sends_relayed sends_to_gateways : Action D
  connects disconnects : ℕ → Action D
  receives : D → Action D

module _ {D : Type 0} where
  abbrev pub own : Pages D → Message
  own p = record { from = "me"; content = p.message }

  -- The three broadcasts of the page of messages.
  pub send : (Message → Invocation) → Pages D → Pages D
  send kind p = record p {
    hub = invoke (kind (own p)) p.hub;
    messages = p.messages ++ own p ∷ [];
    message = "";
  }

  pub broadcast_hubs : Pages D → Pages D
  unfolding send
  broadcast_hubs = send broadcast_to_hubs

  pub broadcast_hubs_relayed : Pages D → Pages D
  unfolding send
  broadcast_hubs_relayed = send broadcast_to_hubs_relayed

  pub broadcast_gateways : Pages D → Pages D
  unfolding send
  broadcast_gateways = send broadcast_to_gateways

  -- `connect` and `disconnect` of the page of hubs.
  pub connect : ℕ → Pages D → Pages D
  connect id p = record p { hub = invoke (connect_to_peer id) p.hub }

  pub disconnect : ℕ → Pages D → Pages D
  disconnect id p = record p { hub = invoke (disconnect_to_peer id) p.hub }

  -- `subscribeToEvents`
  pub on_event_received : D → Pages D → Pages D
  on_event_received d p = record p { received = p.received ++ d ∷ [] }

  pub act : Action D → Pages D → Pages D
  unfolding broadcast_hubs broadcast_hubs_relayed broadcast_gateways connect disconnect
      on_event_received
  act (types s) p = record p { message = s }
  act sends_to_hubs p = broadcast_hubs p
  act sends_relayed p = broadcast_hubs_relayed p
  act sends_to_gateways p = broadcast_gateways p
  act (connects id) p = connect id p
  act (disconnects id) p = disconnect id p
  act (receives d) p = on_event_received d p

  pub run : List (Action D) → Pages D → Pages D
  unfolding act
  run [] p = p
  run (a ∷ rest) p = run rest (act a p)
