-- ===== src/Gateway/Joining.antt =====
-- How a hub joins the gateway: src/Blockcore.Hub.Networking/Handlers/GatewayHandlers/InfoMessageGatewayHandler.cs.
use blockcore_gateway.Common.{
  ℕ, String, true, false, Option, none, some, List, [], ◌∷◌, ◌++◌, if◌then◌else◌, opt_eq, find_by,
}
use blockcore_gateway.Gateway.{HubInfo, hub_info, other, Gateway, send_tcp, send_udp, broadcast_tcp}

-- The message of a hub about itself: its id and the endpoint that it gives, if any.
pub record InfoMessage : Type 0 where
  pub id : Option String
  pub external_endpoint : Option ℕ

pub data ProtocolType : Type 0 where
  tcp udp : ProtocolType

abbrev pub or_kept : Option ℕ → Option ℕ → Option ℕ
or_kept none old = old
or_kept (some a) old = some a

-- `GetConnection(id)`
unfoldable pub get_hub : Option String → List HubInfo → Option HubInfo
get_hub id = find_by (λ x. opt_eq x.id id)

-- A change of the object that `GetConnection(id)` gives.
unfoldable pub change : Option String → (HubInfo → HubInfo) → List HubInfo → List HubInfo
change id f [] = []
change id f (x ∷ xs) = let rest = x ∷ change id f xs in if opt_eq x.id id then f x ∷ xs else rest

-- The hub is added or updated.
unfoldable pub add_or_update : InfoMessage → List HubInfo → List HubInfo
add_or_update m xs = elim (get_hub m.id xs) [
  | none ↦
      xs
      ++ record {
        id = m.id;
        client = none;
        external_endpoint = m.external_endpoint;
        initialized = false;
      }
        ∷ []
  | some x ↦
      change m.id
        (λ h. record h { external_endpoint = or_kept m.external_endpoint h.external_endpoint }) xs
]

-- Where the message came from is kept as well.
unfoldable pub enrol : InfoMessage → Option ℕ → Option ℕ → List HubInfo → List HubInfo
enrol m endpoint client xs =
    change m.id
      (λ h. record h {
        external_endpoint = or_kept endpoint h.external_endpoint;
        client = or_kept client h.client;
      })
      (add_or_update m xs)

-- The loop that sends what is known of each hub.
unfoldable pub send_connections : List HubInfo → Option ℕ → Gateway → Gateway
send_connections [] endpoint g = g
send_connections (x ∷ xs) endpoint g =
    send_connections xs endpoint (send_udp (hub_info x) endpoint g)

abbrev pub test_udp : ProtocolType → HubInfo → Gateway → Gateway
test_udp tcp x g = g
test_udp udp x g = elim x.external_endpoint [
  | none ↦ g
  | some e ↦ send_udp (other "UDP Communication Test") (some e) g
]

abbrev pub test_tcp : ProtocolType → HubInfo → Gateway → Gateway
test_tcp udp x g = g
test_tcp tcp x g = send_tcp (other "TCP Communication Test") x.client g

-- The hub is told of all hubs once both of its ends are known.
unfoldable pub tell : HubInfo → Gateway → Gateway
tell x g = elim x.client [
  | none ↦ g
  | some c ↦ elim x.external_endpoint [
    | none ↦ g
    | some e ↦
        let h = send_connections g.connections (some e) g in
        record h { connections = change x.id (λ y. record y { initialized = true }) h.connections }
  ]
]

unfoldable pub greet : ProtocolType → HubInfo → Gateway → Gateway
greet protocol x g =
    let greeted = tell x (test_tcp protocol x (test_udp protocol x g)) in
    if x.initialized then g else greeted

-- `Process`
unfoldable pub process_info : ProtocolType → InfoMessage → Option ℕ → Option ℕ → Gateway → Gateway
process_info protocol m endpoint client g =
    let h = record g { connections = enrol m endpoint client g.connections } in
    elim (get_hub m.id h.connections) [
      | none ↦ h
      | some x ↦ greet protocol x (broadcast_tcp (hub_info x) h)
    ]
