-- ===== src/Gateway/Writing.antt =====
-- The same code where a write to a socket fails: `SendTCP`, `BroadcastTCP` and `Disconnect` of
-- src/Blockcore.Hub.Networking/Managers/GatewayManager.cs and the handler of hub information, with the exceptions that
-- leave them.
use blockcore_gateway.Common.{ℕ, Bool, true, Option, none, some, List, [], ◌∷◌, ◌&&◌, if◌then◌else◌}
use blockcore_gateway.Gateway.{
  HubInfo, Entity, disconnected, hub_info, other, Gateway, get_connection, remove_connection,
  get_broadcast_connections, connected, send_tcp, close,
}
use blockcore_gateway.Gateway.Joining.{
  InfoMessage, ProtocolType, tcp, udp, get_hub, enrol, test_udp, tell,
}

-- What a handler can throw: the exception of a text that cannot be parsed, and of a write. Datagrams are taken to be
-- sent without one.
pub data HandlerException : Type 0 where
  format_exception io_exception : HandlerException

-- What is left, and the exception, if any.
abbrev pub Outcome : Type 0
Outcome = Gateway × Option HandlerException

abbrev pub and_then : Outcome → (Gateway → Outcome) → Outcome
and_then o f = elim o.1 [ none ↦ f o.0 | some e ↦ (o.0, some e) ]

-- Whether the write to a client fails, after what has gone before. The client counts as connected all the same.
module _ (write_fails : ℕ → Gateway → Bool) where
  unfoldable pub try_send_tcp : Entity → Option ℕ → Gateway → Outcome
  try_send_tcp e none g = (g, none)
  try_send_tcp e (some c) g =
      if connected c g.opened && write_fails c g
      then (g, some io_exception)
      else (send_tcp e (some c) g, none)

  -- The loop of a broadcast, which an exception ends.
  unfoldable pub try_send_all_tcp : Entity → List HubInfo → Gateway → Outcome
  try_send_all_tcp e [] g = (g, none)
  try_send_all_tcp e (x ∷ xs) g = and_then (try_send_tcp e x.client g) (try_send_all_tcp e xs)

  unfoldable pub try_broadcast_tcp : Entity → Gateway → Outcome
  try_broadcast_tcp e g = try_send_all_tcp e (get_broadcast_connections true g.connections) g

  unfoldable pub try_disconnect : ℕ → Gateway → Outcome
  try_disconnect c g = elim (get_connection c g.connections) [
    | none ↦ (g, none)
    | some x ↦
        try_broadcast_tcp (disconnected x.id)
          (record g { connections = remove_connection c g.connections; opened = close c g.opened })
  ]

  abbrev pub try_test_tcp : ProtocolType → HubInfo → Gateway → Outcome
  try_test_tcp udp x g = (g, none)
  try_test_tcp tcp x g = try_send_tcp (other "TCP Communication Test") x.client g

  unfoldable pub try_greet : ProtocolType → HubInfo → Gateway → Outcome
  try_greet protocol x g =
      let greeted =
        and_then (try_test_tcp protocol x (test_udp protocol x g)) (λ h. (tell x h, none)) in
      if x.initialized then (g, none) else greeted

  unfoldable pub try_process_info :
      ProtocolType → InfoMessage → Option ℕ → Option ℕ → Gateway → Outcome
  try_process_info protocol m endpoint client g =
      let h = record g { connections = enrol m endpoint client g.connections } in
      elim (get_hub m.id h.connections) [
        | none ↦ (h, none)
        | some x ↦ and_then (try_broadcast_tcp (hub_info x) h) (try_greet protocol x)
      ]
