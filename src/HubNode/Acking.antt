-- ===== src/HubNode/Acking.antt =====
-- How a hub answers another one that looks for its endpoint:
-- src/Blockcore.Hub.Networking/Handlers/HubHandlers/AckMessageHandler.cs.
use blockcore_gateway.Common.{
  ℕ, Bool, true, false, not, ◌&&◌, ◌||◌, Option, none, some, List, [], ◌∷◌, ◌++◌, if◌then◌else◌,
  ◌==◌, find_by,
}
use blockcore_gateway.Js.Text.{Text, equal}
use blockcore_gateway.HubNode.{HubInfo}
use blockcore_gateway.HubNode.Reaching.{Ack}

pub record IpEndpoint : Type 0 where
  pub address : Text
  pub port : ℕ

pub record AckMessage : Type 0 where
  pub id : Text
  pub recipient_id : Option Text
  pub response : Bool

-- What the handler reads and writes: the id of the local hub, the connections, the responses that the search reads,
-- the messages that were sent by UDP with their endpoints, and the connections that an update was published for.
pub record AckState : Type 0 where
  pub local_id : Text
  pub connections : List (HubInfo IpEndpoint Text)
  pub ack_responces : List Ack
  pub sent : List (IpEndpoint × AckMessage)
  pub published : List (HubInfo IpEndpoint Text)

abbrev among : Text → List Text → Bool
among t [] = false
among t (u ∷ us) = equal u t || among t us

-- The other port of an endpoint with the same address, and a new address.
unfoldable pub learn_port : IpEndpoint → IpEndpoint → IpEndpoint
learn_port from known =
    if equal known.address from.address && not (known.port == from.port)
    then record known { port = from.port }
    else known

unfoldable pub learn_address : IpEndpoint → IpEndpoint → List Text → List Text
learn_address from known addresses =
    if not (equal known.address from.address) && not (among from.address addresses)
    then addresses ++ from.address ∷ []
    else addresses

unfoldable pub get_hub_info :
    Text → List (HubInfo IpEndpoint Text) → Option (HubInfo IpEndpoint Text)
get_hub_info id = find_by (λ h. equal h.id id)

-- A change of the object that `GetConnection(id)` gives.
unfoldable pub change_hub_info :
    Text → HubInfo IpEndpoint Text → List (HubInfo IpEndpoint Text) → List (HubInfo IpEndpoint Text)
change_hub_info id g [] = []
change_hub_info id g (h ∷ hs) =
    let rest = h ∷ change_hub_info id g hs in if equal h.id id then g ∷ hs else rest

-- The answer to a request of the hub `h`, whose external endpoint is `known`.
unfoldable pub answer_to :
    AckMessage → IpEndpoint → HubInfo IpEndpoint Text → IpEndpoint → AckState → AckState
answer_to m from h known s =
    let moved = record h { external_endpoint = some (learn_port from known) } in
    let learned = record moved {
      internal_addresses = learn_address from known h.internal_addresses;
    } in
    record s {
      connections = change_hub_info m.id learned s.connections;
      published =
          if equal known.address from.address && not (known.port == from.port)
          then s.published ++ moved ∷ []
          else s.published;
      sent =
          s.sent
          ++ (from, record { id = m.id; recipient_id = some s.local_id; response = true }) ∷ [];
    }

-- `Process`; none is an exception on a hub or an endpoint that is null.
unfoldable pub process_ack : AckMessage → IpEndpoint → AckState → Option AckState
process_ack m from s =
    if m.response
    then some (record s {
      ack_responces = s.ack_responces ++ record { id = m.id; recipient_id = m.recipient_id } ∷ [];
    })
    else elim (get_hub_info m.id s.connections) [
      | none ↦ none
      | some h ↦ elim h.external_endpoint [
        | none ↦ none
        | some known ↦ some (answer_to m from h known s)
      ]
    ]
