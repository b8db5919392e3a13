-- ===== src/Worker/Tests.antt =====
-- A hub that is connected says nothing but a keep-alive and ends its stream; another client says nothing at all. What
-- fails are the writes to the other hub.
use blockcore_gateway.Common.{ℕ, Bool, ◌==◌, ◌≡◌, refl, true, none, some, [], ◌∷◌}
use blockcore_gateway.Dispatch.{MessageMaps, build}
use blockcore_gateway.Serializer.{Bytes, Codec, deserialize}
use blockcore_gateway.Gateway.{
  HubInfo, Gateway, connected, get_connection, remove_connection, get_broadcast_connections, close,
}
use blockcore_gateway.Gateway.Joining.{}
use blockcore_gateway.Gateway.Writing.{
  format_exception, io_exception, try_disconnect, try_broadcast_tcp, try_send_all_tcp, try_send_tcp,
}
use blockcore_gateway.Worker.{
  GatewayMessage, info_message, keep_alive_message, not_to_external, process_message, serve_reading,
  serve,
}
use blockcore_gateway.Worker.Endless.{serve-endless}

abbrev keep_alives : Codec GatewayMessage
keep_alives = record {
  command = λ m. 3;
  type_of = λ m. "KeepAliveMessage";
  pack = λ m. [];
  unpack = λ t bs. some keep_alive_message;
}

abbrev maps : MessageMaps
maps = build [] (
    record {
      command = 3;
      message_type = "KeepAliveMessage";
      name = "KeepAliveMessageGatewayHandler";
    }
    ∷ [])

abbrev hub : HubInfo
hub = record { id = some "a"; client = some 1; external_endpoint = some 1; initialized = true }

abbrev one_hub : Gateway
one_hub = record {
  connections = hub ∷ [];
  opened = 1 ∷ 2 ∷ [];
  sent_tcp = [];
  sent_udp = [];
  udp_endpoint = 1;
}

abbrev one_keep_alive : Bytes
one_keep_alive = 1 ∷ 0 ∷ 0 ∷ 0 ∷ 0 ∷ 0 ∷ 3 ∷ 0 ∷ 0 ∷ 0 ∷ []

-- Another hub, whose connection breaks: every write to it fails.
abbrev two_hubs : Gateway
two_hubs = record one_hub {
  connections =
      hub
      ∷ record { id = some "b"; client = some 2; external_endpoint = some 2; initialized = true }
      ∷ [];
}

abbrev fails : ℕ → Gateway → Bool
fails c g = c == 2

-- The first client is closed, the other one is not told, and the exception ends the thread.
serve-broken :
    serve fails keep_alives maps 1 12 8 [] two_hubs
    ≡ some (
      record two_hubs {
        connections =
            record {
              id = some "b";
              client = some 2;
              external_endpoint = some 2;
              initialized = true;
            }
            ∷ [];
        opened = 2 ∷ [];
      },
      some io_exception,
    )
unfolding serve serve_reading deserialize connected try_disconnect try_broadcast_tcp
    try_send_all_tcp try_send_tcp get_connection remove_connection get_broadcast_connections close
serve-broken = refl

-- An info message whose texts cannot be parsed.
info-unparsed :
    process_message fails 1
      (info_message (record { id = some "a"; external_endpoint = some 7 }) not_to_external)
      one_hub
    ≡ (one_hub, some format_exception)
unfolding process_message
info-unparsed = refl

serve-endless_example : serve fails keep_alives maps 2 1000 8 [] one_hub ≡ none
unfolding connected
serve-endless_example = serve-endless fails keep_alives maps 2 8 1000 one_hub refl refl
