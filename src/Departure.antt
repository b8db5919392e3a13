-- ===== src/Departure.antt =====
-- From a gateway to the hubs that are connected to it and on to their clients: what a hub is told by what Gateway
-- sends it by TCP, read one by one by ListenTCP of src/Blockcore.Hub.Networking/Managers/HubManager.cs and handled by
-- Handlers/HubHandlers.
pub mod Inboxes
pub mod Followed
mod Tests
use blockcore_gateway.Common.{
  ℕ, String, Option, none, some, List, [], ◌∷◌, ◌++◌, ◌==◌, if◌then◌else◌,
}
use blockcore_gateway.Gateway.{HubInfo, Entity, hub_info, req, broadcast, other}
use blockcore_gateway.Relay.{Told, info, disconnected, server_shutdown}

-- `rest` is what is sent of a hub beside its id. A notification whose tag is null throws in the hub, where this is
-- caught and logged, and a message from the server is only written to its log; for a request see Asking, for a broadcast HubBroadcast. The connections of Relay all have an
-- id, so a hub without one is passed over.
module _ (rest : HubInfo → String) where
  unfoldable pub told_of : Entity → List Told
  told_of (Entity.disconnected none) = []
  told_of (Entity.disconnected (some id)) = disconnected id ∷ []
  told_of Entity.server_shutdown = server_shutdown ∷ []
  told_of (hub_info x) = elim x.id [
    | none ↦ []
    | some id ↦ info (record { id = id; other = rest x }) ∷ []
  ]
  told_of (req id recipient_id) = []
  told_of (broadcast m) = []
  told_of (other text) = []

  -- Of what is sent, the messages to one client, in their order.
  unfoldable pub inbox : ℕ → List (ℕ × Entity) → List Told
  inbox c [] = []
  inbox c ((d, e) ∷ sent) = let later = inbox c sent in if d == c then told_of e ++ later else later
