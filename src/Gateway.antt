-- ===== src/Gateway.antt =====
-- The connections of a gateway and what it sends to them: src/Blockcore.Hub.Networking/
-- ConnectionManagerBase.cs and the sending half of Managers/GatewayManager.cs.
pub mod Sending
pub mod Disconnecting
pub mod Joining
pub mod Told
pub mod Writing
pub mod Written
mod Tests
use blockcore_gateway.Common.{
  ℕ, ◌≡◌, String, Bool, true, false, not, Option, none, some, List, [], ◌∷◌, ◌++◌, ◌||◌,
  if◌then◌else◌, ◌==◌, find_by, filter_by,
}

-- What the gateway knows of a hub. TCP clients and UDP endpoints stand as numbers, which are equal where
-- the source's references are.
pub record HubInfo : Type 0 where
  pub id : Option String
  pub client : Option ℕ
  pub external_endpoint : Option ℕ
  pub initialized : Bool

-- A broadcast, or the message of one; `recipients` is its `To`.
pub record Broadcast : Type 0 where
  pub id : String
  pub from : String
  pub recipients : String
  pub content : String

-- What is sent: the notification of a hub that has left, the one of a shutdown, what is known of a hub, a request to
-- connect with the ids of its sender and its recipient, a broadcast, or another entity.
pub data Entity : Type 0 where
  disconnected : Option String → Entity
  server_shutdown : Entity
  hub_info : HubInfo → Entity
  req : String → String → Entity
  broadcast : Broadcast → Entity
  other : String → Entity

-- `opened` are the TCP clients that are connected; `sent_tcp` and `sent_udp` are the receivers of what was
-- sent, with it, oldest first; `udp_endpoint` is the field of that name, which begins as the gateway's own endpoint
-- and is overwritten by each `Receive` with that of the sender.
pub record Gateway : Type 0 where
  pub connections : List HubInfo
  pub opened : List ℕ
  pub sent_tcp : List (ℕ × Entity)
  pub sent_udp : List (ℕ × Entity)
  pub udp_endpoint : ℕ

abbrev pub has_client : ℕ → HubInfo → Bool
has_client c x = elim x.client [ none ↦ false | some d ↦ d == c ]

abbrev pub is_tcp : HubInfo → Bool
is_tcp x = elim x.client [ none ↦ false | some d ↦ true ]

-- `GetConnection(client)`
unfoldable pub get_connection : ℕ → List HubInfo → Option HubInfo
get_connection c = find_by (has_client c)

-- `Connections.Remove(connection)` for the connection that `GetConnection(client)` has found: an earlier element that
-- is the same object would have been found in its place.
unfoldable pub remove_connection : ℕ → List HubInfo → List HubInfo
remove_connection c [] = []
remove_connection c (x ∷ xs) =
    let rest = x ∷ remove_connection c xs in if has_client c x then xs else rest

unfoldable pub get_broadcast_connections : Bool → List HubInfo → List HubInfo
get_broadcast_connections true xs = filter_by is_tcp xs
get_broadcast_connections false xs = xs

unfoldable pub connected : ℕ → List ℕ → Bool
connected c [] = false
connected c (d ∷ ds) = (d == c) || connected c ds

-- `SendTCP` where the write does not fail, as here and in what is built on it; Writing has the other case. `none` is
-- `null`.
unfoldable pub send_tcp : Entity → Option ℕ → Gateway → Gateway
send_tcp e none g = g
send_tcp e (some c) g =
    if connected c g.opened then record g { sent_tcp = g.sent_tcp ++ (c, e) ∷ [] } else g

-- `Udp.Receive(ref udpEndpoint)`, for a datagram from `sender`.
unfoldable pub receive_udp : ℕ → Gateway → Gateway
receive_udp sender g = record g { udp_endpoint = sender }

-- `SendUDP`, whose parameter `EP` is not used.
unfoldable pub send_udp : Entity → Option ℕ → Gateway → Gateway
send_udp e endpoint g = record g { sent_udp = g.sent_udp ++ (g.udp_endpoint, e) ∷ [] }

-- The loops of the broadcasts.
unfoldable pub send_all_tcp : Entity → List HubInfo → Gateway → Gateway
send_all_tcp e [] g = g
send_all_tcp e (x ∷ xs) g = send_all_tcp e xs (send_tcp e x.client g)

unfoldable pub send_all_udp : Entity → List HubInfo → Gateway → Gateway
send_all_udp e [] g = g
send_all_udp e (x ∷ xs) g = send_all_udp e xs (send_udp e x.external_endpoint g)

unfoldable pub broadcast_tcp : Entity → Gateway → Gateway
broadcast_tcp e g = send_all_tcp e (get_broadcast_connections true g.connections) g

unfoldable pub broadcast_udp : Entity → Gateway → Gateway
broadcast_udp e g = send_all_udp e (get_broadcast_connections false g.connections) g

-- `client.Close()`
unfoldable pub close : ℕ → List ℕ → List ℕ
close c = filter_by (λ d. not (d == c))

unfoldable pub disconnect : ℕ → Gateway → Gateway
disconnect c g = elim (get_connection c g.connections) [
  | none ↦ g
  | some x ↦
      broadcast_tcp (disconnected x.id)
        (record g { connections = remove_connection c g.connections; opened = close c g.opened })
]

-- `StopAsync`
unfoldable pub stop : Gateway → Gateway
stop g = broadcast_tcp server_shutdown g
