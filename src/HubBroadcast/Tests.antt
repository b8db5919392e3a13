-- ===== src/HubBroadcast/Tests.antt =====
-- One of two hubs sends a broadcast.
use blockcore_gateway.Common.{ℕ, String, ◌≡◌, true, some, [], ◌∷◌}
use blockcore_gateway.Gateway.{HubInfo, broadcast, Gateway, connected}
use blockcore_gateway.HubBroadcast.{relayed_broadcast, gateway_broadcast, process_broadcast}
use blockcore_gateway.HubBroadcast.Spreading.{process_broadcast-receivers}

abbrev hub : String → ℕ → HubInfo
hub id client = record {
  id = some id;
  client = some client;
  external_endpoint = some client;
  initialized = true;
}

abbrev two_hubs : Gateway
two_hubs = record {
  connections = hub "a" 1 ∷ hub "b" 2 ∷ [];
  opened = 1 ∷ 2 ∷ [];
  sent_tcp = [];
  sent_udp = [];
  udp_endpoint = 2;
}

process_broadcast-receivers_example :
    (process_broadcast (relayed_broadcast "a" "hello") two_hubs ≡ record two_hubs {
      sent_tcp =
          (1, broadcast (relayed_broadcast "a" "hello"))
          ∷ (2, broadcast (relayed_broadcast "a" "hello"))
          ∷ [];
    })
    × (process_broadcast (gateway_broadcast "a" "hello") two_hubs ≡ two_hubs)
unfolding connected
process_broadcast-receivers_example = process_broadcast-receivers "a" "hello" two_hubs
