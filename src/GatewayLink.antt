-- ===== src/GatewayLink.antt =====
-- The link of a hub to its gateway: the loop of StartAsync, ConnectGateway, DisconnectedGateway and the keep-alive
-- threads of src/Blockcore.Hub.Networking/Managers/HubManager.cs.
pub mod Once
pub mod Retrying
mod Tests
use blockcore_gateway.Common.{
  ℕ, zero, suc, String, Bool, true, false, List, [], ◌∷◌, ◌++◌, if◌then◌else◌, ◌-◌,
}
use blockcore_gateway.Relay.{
  Connection, Told, info, disconnected, server_shutdown, found_endpoint, handle,
}

-- How an attempt goes: an exception before the new client is made, one from its Connect, or a connection, which
-- is still there after the pause, or not. What follows Connect catches the exceptions of its sockets itself.
pub data ConnectAttempt : Type 0 where
  no_adapter : ConnectAttempt
  refused : ConnectAttempt
  accepted : Bool → ConnectAttempt

pub data LinkMessage : Type 0 where
  simplified_info : LinkMessage
  local_hub_info : LinkMessage
  keep_alive : LinkMessage

pub data LinkEvent : Type 0 where
  gateway_connected : LinkEvent
  gateway_error : LinkEvent
  gateway_shutdown : LinkEvent

-- `tcp_connected` is `TCPClientGateway.Connected`; `connected_to_gateway` is the variable of the loop; `keep_alives`
-- counts the threads that sleep between two messages; `sent` is what was sent to the gateway.
pub record HubLink : Type 0 where
  pub tcp_connected : Bool
  pub udp_listen : Bool
  pub tcp_listen : Bool
  pub connected_to_gateway : Bool
  pub keep_alives : ℕ
  pub connections : List Connection
  pub sent : List LinkMessage
  pub events : List LinkEvent

abbrev pub unconnected : HubLink
unconnected = record {
  tcp_connected = false;
  udp_listen = false;
  tcp_listen = false;
  connected_to_gateway = false;
  keep_alives = 0;
  connections = [];
  sent = [];
  events = [];
}

abbrev publish : LinkEvent → HubLink → HubLink
publish e s = record s { events = s.events ++ e ∷ [] }

-- `SendMessageTCP`, where the stream can be written.
unfoldable pub send_message_tcp : LinkMessage → HubLink → HubLink
send_message_tcp m s = if s.tcp_connected then record s { sent = s.sent ++ m ∷ [] } else s

abbrev send_message_udp : LinkMessage → HubLink → HubLink
send_message_udp m s = record s { sent = s.sent ++ m ∷ [] }

-- The keep-alive thread starts, and ends at once if the client is not connected.
abbrev start_keep_alive : HubLink → HubLink
start_keep_alive s = if s.tcp_connected then record s { keep_alives = suc s.keep_alives } else s

unfoldable pub connect_gateway : ConnectAttempt → HubLink → HubLink × Bool
connect_gateway no_adapter s = (publish gateway_error s, false)
connect_gateway refused s = (publish gateway_error (record s { tcp_connected = false }), false)
connect_gateway (accepted still) s =
    let s1 = record s { tcp_connected = true; udp_listen = true; tcp_listen = true } in
    let s2 = record (send_message_udp simplified_info s1) { tcp_connected = still } in
    let s3 = send_message_tcp local_hub_info s2 in
    (publish gateway_connected (start_keep_alive s3), true)

abbrev pub disconnected_gateway : HubLink → HubLink
disconnected_gateway s = record s {
  tcp_connected = false;
  udp_listen = false;
  tcp_listen = false;
  connections = [];
}

-- A round of the loop.
unfoldable pub retry_round : ConnectAttempt → HubLink → HubLink
retry_round a s =
    let (t, b) = connect_gateway a s in
    if s.connected_to_gateway then s else record t { connected_to_gateway = b }

-- A keep-alive thread wakes, sends and tests the connection.
unfoldable pub wake_keep_alive : HubLink → HubLink
wake_keep_alive s =
    let t = send_message_tcp keep_alive s in
    if s.tcp_connected then t else record t { keep_alives = t.keep_alives - 1 }

-- What can happen: a round of the loop; a message, or an endpoint that is found; the loss of the connection; the end
-- of a pause of a keep-alive thread, if there is one.
pub data LinkAction : Type 0 where
  round : ConnectAttempt → LinkAction
  told : Told → LinkAction
  lost : LinkAction
  wake : LinkAction

module _ (merge : String → String → String) where
  abbrev take_in : Told → HubLink → HubLink
  take_in m s = record s { connections = (handle merge m s.connections).0 }

  -- A shutdown is handled where the socket's Disconnect does not throw; if it does, nothing else is done.
  unfoldable pub read_message : Told → HubLink → HubLink
  read_message (info c) s = take_in (info c) s
  read_message (disconnected id) s = take_in (disconnected id) s
  read_message server_shutdown s = publish gateway_shutdown (disconnected_gateway s)
  read_message (found_endpoint id) s = take_in (found_endpoint id) s

  unfoldable pub take_action : LinkAction → HubLink → HubLink
  take_action (round a) s = retry_round a s
  take_action (told m) s = read_message m s
  take_action lost s = record s { tcp_connected = false }
  take_action wake s = elim s.keep_alives [ zero ↦ s | suc n ↦ wake_keep_alive s ]

  unfoldable pub run : List LinkAction → HubLink → HubLink
  run [] s = s
  run (a ∷ rest) s = run rest (take_action a s)
