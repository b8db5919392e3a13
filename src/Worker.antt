-- ===== src/Worker.antt =====
-- The thread of the gateway that serves one client: the loop in `TcpWorker` of
-- src/Blockcore.Hub.Networking/Managers/GatewayManager.cs, on Serializer, Dispatch and the handlers of the gateway.
pub mod Knowing
pub mod Ending
pub mod Endless
mod Tests
use blockcore_gateway.Common.{
  ℕ, zero, suc, String, Bool, true, false, Option, none, some, List, [], ◌∷◌, if◌then◌else◌, str_eq,
}
use blockcore_gateway.Dispatch.{Handler, MessageMaps, Failure, process}
use blockcore_gateway.Serializer.{Bytes, Codec, Reading, message, failed, deserialize}
use blockcore_gateway.Gateway.{
  HubInfo, Broadcast, req, broadcast, Gateway, connected, get_broadcast_connections,
}
use blockcore_gateway.Gateway.Joining.{InfoMessage, tcp, or_kept, get_hub, change}
use blockcore_gateway.Gateway.Writing.{
  HandlerException, format_exception, Outcome, try_send_tcp, try_send_all_tcp, try_disconnect,
  try_process_info,
}

-- How far `HubInfo` comes with the texts of an info message, which it parses one after the other: through all of them,
-- not to the external endpoint, or past it but not to the end.
pub data Parsed : Type 0 where
  to_the_end not_to_external past_external : Parsed

-- The messages that the gateway has handlers for; of a message to a hub it only writes to its log.
pub data GatewayMessage : Type 0 where
  info_message : InfoMessage → Parsed → GatewayMessage
  req_message : String → String → GatewayMessage
  broadcast_message : Broadcast → GatewayMessage
  keep_alive_message : GatewayMessage
  message_message : GatewayMessage

-- `HubInfo.Update` up to an exception behind the external endpoint; a hub that is new is not added then.
unfoldable pub update_past_external : InfoMessage → List HubInfo → List HubInfo
update_past_external m xs = elim (get_hub m.id xs) [
  | none ↦ xs
  | some x ↦
      change m.id
        (λ h. record h { external_endpoint = or_kept m.external_endpoint h.external_endpoint }) xs
]

module _ (write_fails : ℕ → Gateway → Bool) where
  -- `ReqMessageGatewayHandler.Process` and `BroadcastMessageGatewayHandler.Process`, which a write can end.
  unfoldable pub try_relay_req : String × String → Gateway → Outcome
  try_relay_req (id, recipient_id) g = elim (get_hub (some recipient_id) g.connections) [
    | none ↦ (g, none)
    | some x ↦ try_send_tcp write_fails (req id recipient_id) x.client g
  ]

  unfoldable pub try_process_broadcast : Broadcast → Gateway → Outcome
  try_process_broadcast m g =
      if str_eq m.recipients "HUB"
      then try_send_all_tcp write_fails (broadcast m)
          (get_broadcast_connections false g.connections) g
      else (g, none)

  -- The handler of a message that came from the client by TCP, and the exception that it throws, if any.
  unfoldable pub process_message : ℕ → GatewayMessage → Gateway → Outcome
  process_message client (info_message m to_the_end) g =
      try_process_info write_fails tcp m none (some client) g
  process_message client (info_message m not_to_external) g = (g, some format_exception)
  process_message client (info_message m past_external) g =
      (record g { connections = update_past_external m g.connections }, some format_exception)
  process_message client (req_message id recipient_id) g = try_relay_req (id, recipient_id) g
  process_message client (broadcast_message m) g = try_process_broadcast m g
  process_message client keep_alive_message g = (g, none)
  process_message client message_message g = (g, none)

-- What follows on the body of the loop, if no exception leaves it.
abbrev pub unless_thrown : Outcome → Option Outcome → Option Outcome
unless_thrown o later = elim o.1 [ none ↦ later | some e ↦ some (o.0, some e) ]

module _ (write_fails : ℕ → Gateway → Bool) (c : Codec GatewayMessage) (maps : MessageMaps)
    (client : ℕ) where
  -- Each handler that is registered for the command of the message is the one for it.
  abbrev pub call_handler : GatewayMessage → Handler → Gateway → Outcome
  call_handler m h g = process_message write_fails client m g

  -- `messageProcessing.Process`
  abbrev pub dispatch : GatewayMessage → Gateway → Gateway × Option (Failure HandlerException)
  dispatch m g = process (call_handler m) maps (some (c.command m)) g

  -- The body of the loop behind the reading: an exception disconnects the client. One of this disconnection is caught by
  -- nothing.
  unfoldable pub serve_reading : Reading GatewayMessage → Gateway → Outcome
  serve_reading (failed e) g = try_disconnect write_fails client g
  serve_reading (message m) g = elim (dispatch m g).1 [
    | none ↦ ((dispatch m g).0, none)
    | some e ↦ try_disconnect write_fails client (dispatch m g).0
  ]

  -- So many rounds of the loop, on all that the client sends until it ends its stream, with the state in which the
  -- thread ends and the exception that it ends with, if it does. The client counts as connected until the gateway closes
  -- it: the end of a stream is no failure of the socket.
  unfoldable pub serve : ℕ → ℕ → Bytes → Gateway → Option Outcome
  serve zero arrived bytes g = none
  serve (suc n) arrived bytes g =
      let (r, rest) = deserialize c maps arrived bytes in
      let o = serve_reading r g in
      let later = serve n arrived rest o.0 in
      if connected client g.opened
      then unless_thrown o later
      else some (try_disconnect write_fails client g)
