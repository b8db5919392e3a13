-- ===== src/Gateway/Tests.antt =====
-- Two hubs that are connected by TCP, and one that is not.
use blockcore_gateway.Common.{◌≡◌, refl, none, some, [], ◌∷◌}
use blockcore_gateway.Common.{true, false, ◌++◌}
use blockcore_gateway.Gateway.Joining.{
  InfoMessage, udp, get_hub, enrol, add_or_update, change, process_info,
}
use blockcore_gateway.Gateway.Told.{to_each, process_info-tells}
use blockcore_gateway.Gateway.{
  other, HubInfo, server_shutdown, Gateway, receive_udp, get_connection, connected,
}
use blockcore_gateway.Gateway.Sending.{receivers}

abbrev first : HubInfo
first = record { id = some "a"; client = some 1; external_endpoint = some 11; initialized = true }

abbrev gateway : Gateway
gateway = record {
  connections =
      first
      ∷ record { id = some "b"; client = none; external_endpoint = some 12; initialized = false }
      ∷ record { id = some "c"; client = some 3; external_endpoint = none; initialized = false }
      ∷ [];
  opened = 1 ∷ 3 ∷ [];
  sent_tcp = [];
  sent_udp = [];
  udp_endpoint = 9;
}

both_get_it :
    receivers (1 ∷ 3 ∷ []) server_shutdown gateway.connections
    ≡ (1, server_shutdown) ∷ (3, server_shutdown) ∷ []
unfolding connected
both_get_it = refl

found : get_connection 1 gateway.connections ≡ some first
unfolding get_connection
found = refl

-- The third hub has said who it is by TCP; now a datagram of it comes in, from 13.
abbrev by_udp : InfoMessage
by_udp = record { id = some "c"; external_endpoint = none }

abbrev after_udp : Gateway
after_udp = process_info udp by_udp (some 13) none (receive_udp 13 gateway)

abbrev third : HubInfo
third = record { id = some "c"; client = some 3; external_endpoint = some 13; initialized = false }

enrolled : get_hub (some "c") (enrol by_udp (some 13) none gateway.connections) ≡ some third
unfolding get_hub enrol add_or_update change
enrolled = refl

process_info-tells_example :
    (after_udp.sent_udp
      ≡ ((13, other "UDP Communication Test") ∷ [])
        ++ to_each 13 (enrol by_udp (some 13) none gateway.connections))
    × (get_hub (some "c") after_udp.connections ≡ some (record third { initialized = true }))
unfolding receive_udp
process_info-tells_example =
    process_info-tells udp by_udp (some 13) none (receive_udp 13 gateway) third 3 13 enrolled refl
      refl refl

found_first : get_hub (some "a") gateway.connections ≡ some first
unfolding get_hub
found_first = refl
