-- ===== src/Asking.antt =====
-- A hub asks another one to connect: ConnectToClient of src/Blockcore.Hub.Networking/Managers/HubManager.cs, the relay of
-- its request in Handlers/GatewayHandlers/ReqMessageGatewayHandler.cs, and Handlers/HubHandlers/ReqMessageHandler.cs.
pub mod Recipient
mod Tests
use blockcore_gateway.Common.{ℕ, String, Bool, Option, none, some, List, [], ◌∷◌, if◌then◌else◌}
use blockcore_gateway.Js.Text.{Text, text, equal}
use blockcore_gateway.Gateway.{Entity, Gateway, req, send_tcp}
use blockcore_gateway.Gateway.Joining.{get_hub}
use blockcore_gateway.HubNode.{HubInfo}
use blockcore_gateway.HubNode.Reaching.{
  Ack, Attempt, Reached, by_lan, by_internet, unreachable, null_reference, still_searching,
  find_reachable_endpoint,
}
use blockcore_gateway.HubNode.Acking.{IpEndpoint, get_hub_info}

-- What the hub publishes.
pub data ConnectionEvent : Type 0 where
  starting : HubInfo IpEndpoint Text → ConnectionEvent
  started : HubInfo IpEndpoint Text → IpEndpoint → ConnectionEvent
  updated : HubInfo IpEndpoint Text → ConnectionEvent

abbrev pub endpoint_of : Reached IpEndpoint → Option IpEndpoint
endpoint_of (by_lan e) = some e
endpoint_of (by_internet e) = some e
endpoint_of unreachable = none
endpoint_of null_reference = none
endpoint_of still_searching = none

-- The request that `ConnectToClient(id)` sends to the gateway, by the id of the local hub.
abbrev pub request_to : String → String → String × String
request_to local_id id = (local_id, id)

-- The handler of the gateway, for a request with the ids of its sender and its recipient.
unfoldable pub relay_req : String × String → Gateway → Gateway
relay_req (id, recipient_id) g = elim (get_hub (some recipient_id) g.connections) [
  | none ↦ g
  | some x ↦ send_tcp (req id recipient_id) x.client g
]

-- The hubs that the subscription to the updates of connections calls `ConnectToClient` for, on a hub with the id
-- `local_id`.
unfoldable pub auto_connects : Text → List ConnectionEvent → List (HubInfo IpEndpoint Text)
auto_connects local_id [] = []
auto_connects local_id (starting h ∷ vs) = auto_connects local_id vs
auto_connects local_id (started h e ∷ vs) = auto_connects local_id vs
auto_connects local_id (updated h ∷ vs) =
    let rest = auto_connects local_id vs in if equal local_id h.id then rest else h ∷ rest

-- `new IPEndPoint(IP, endpoint.Port)`
abbrev at_address : Text → IpEndpoint → IpEndpoint
at_address a e = record e { address = a }

module _ (connected : ℕ → Bool) (arriving : ℕ → List Ack) (learning : ℕ → List Text)
    (rounds : ℕ) where
  -- What the thread of `ConnectToClient` publishes.
  unfoldable pub connect_to_client :
      HubInfo IpEndpoint Text → Attempt IpEndpoint → Attempt IpEndpoint × List ConnectionEvent
  connect_to_client h s =
      let (t, outcome) =
        find_reachable_endpoint connected arriving learning rounds at_address h s in
      (t, elim (endpoint_of outcome) [ none ↦ [] | some e ↦ started h e ∷ [] ])

  -- The handler of the hub that gets the request. An exception in the search ends it.
  unfoldable pub process_req :
      String × String
      → List (HubInfo IpEndpoint Text)
      → Attempt IpEndpoint
      → Attempt IpEndpoint × List ConnectionEvent
  process_req (id, recipient_id) hs s = elim (get_hub_info (text recipient_id) hs) [
    | none ↦ (s, [])
    | some h ↦
        let (t, outcome) =
          find_reachable_endpoint connected arriving learning rounds at_address h s in
        elim (endpoint_of outcome) [
          | none ↦ (t, starting h ∷ [])
          | some e ↦ (t, starting h ∷ started h e ∷ updated h ∷ [])
        ]
  ]

  -- What a hub publishes for what the gateway sends it, if this is a request.
  unfoldable pub publishes :
      Entity → List (HubInfo IpEndpoint Text) → Attempt IpEndpoint → List ConnectionEvent
  publishes (req id recipient_id) hs s = (process_req (id, recipient_id) hs s).1
  publishes (Entity.disconnected id) hs s = []
  publishes Entity.server_shutdown hs s = []
  publishes (Entity.hub_info x) hs s = []
  publishes (Entity.broadcast m) hs s = []
  publishes (Entity.other t) hs s = []
