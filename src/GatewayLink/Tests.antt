-- ===== src/GatewayLink/Tests.antt =====
-- A hub whose gateway is away at first, comes up, and shuts down.
use blockcore_gateway.Common.{String, ◌≡◌, refl, true, false, List, [], ◌∷◌, ◌++◌, map, arith}
use blockcore_gateway.Relay.{info, server_shutdown}
use blockcore_gateway.GatewayLink.{
  ConnectAttempt, no_adapter, refused, accepted, simplified_info, local_hub_info, gateway_connected,
  gateway_error, HubLink, unconnected, LinkAction, round, told, wake, run,
}
use blockcore_gateway.GatewayLink.Once.{IsSingle, run-IsSingle, never_reconnects}
use blockcore_gateway.GatewayLink.Retrying.{run-connected}

abbrev newer : String → String → String
newer old later = later

abbrev away : List ConnectAttempt
away = no_adapter ∷ refused ∷ refused ∷ []

abbrev later : List LinkAction
later =
    told (info (record { id = "a"; other = "" }))
    ∷ round (accepted true)
    ∷ wake
    ∷ told server_shutdown
    ∷ round (accepted true)
    ∷ wake
    ∷ []

run-IsSingle_example : IsSingle (run newer (map round away ++ later) unconnected)
run-IsSingle_example =
    run-IsSingle newer (map round away ++ later) unconnected (refl, omega arith, omega arith)

abbrev shut_down : HubLink
shut_down = record unconnected {
  connected_to_gateway = true;
  keep_alives = 1;
  sent = local_hub_info ∷ [];
}

never_reconnects_example :
    ((run newer (wake ∷ later) shut_down).tcp_connected ≡ false)
    × ((run newer (wake ∷ later) shut_down).sent ≡ local_hub_info ∷ [])
never_reconnects_example = never_reconnects newer (wake ∷ later) shut_down refl refl

run-connected_example :
    let t = run newer (map round away ++ round (accepted true) ∷ []) unconnected in
    (t.tcp_connected ≡ true)
    × (t.tcp_listen ≡ true)
    × (t.udp_listen ≡ true)
    × (t.sent ≡ simplified_info ∷ local_hub_info ∷ [])
    × (t.keep_alives ≡ 1)
    × (t.connections ≡ [])
    × (t.events ≡ gateway_error ∷ gateway_error ∷ gateway_error ∷ gateway_connected ∷ [])
run-connected_example = run-connected newer away unconnected (tt, (tt, (tt, tt))) refl
