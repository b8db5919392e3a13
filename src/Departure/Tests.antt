-- ===== src/Departure/Tests.antt =====
-- Three hubs at a gateway, of which the first one leaves, as the second one is told.
use blockcore_gateway.Common.{ℕ, String, ◌≡◌, refl, true, some, List, [], ◌∷◌, ◌++◌}
use blockcore_gateway.Peers.{new}
use blockcore_gateway.Gateway.{
  HubInfo, Entity, Gateway, get_connection, remove_connection, connected, close, disconnect,
}
use blockcore_gateway.Relay.{Connection, Told, info, handle, relay}
use blockcore_gateway.Relay.InStep.{InStep, Holds}
use blockcore_gateway.Departure.{inbox}
use blockcore_gateway.Departure.Followed.{disconnect-followed}

abbrev hub : String → ℕ → HubInfo
hub id client = record {
  id = some id;
  client = some client;
  external_endpoint = some client;
  initialized = true;
}

abbrev three_hubs : Gateway
three_hubs = record {
  connections = hub "a" 1 ∷ hub "b" 2 ∷ hub "c" 3 ∷ [];
  opened = 1 ∷ 2 ∷ 3 ∷ [];
  sent_tcp = [];
  sent_udp = [];
  udp_endpoint = 3;
}

abbrev connection : String → Connection
connection id = record { id = id; other = "" }

abbrev told : List Told
told = info (connection "a") ∷ info (connection "b") ∷ info (connection "c") ∷ []

abbrev unnamed : HubInfo → String
unnamed x = ""

abbrev newer : String → String → String
newer old later = later

held : Holds "a" (relay newer told [] new).0
unfolding relay handle blockcore_gateway.Relay.get_connection
held = record {
  before = [];
  connection = connection "a";
  behind = connection "b" ∷ connection "c" ∷ [];
  whole = refl;
  same = refl;
  differ = tt;
}

disconnect-followed_example :
    (sent : List (ℕ × Entity)) × ((disconnect 1 three_hubs).sent_tcp ≡ [] ++ sent)
    × (let after_it = relay newer (told ++ inbox unnamed 2 sent) [] new in
        (after_it.0 ≡ held.before ++ held.behind) × InStep held.before after_it.1.peers)
unfolding get_connection remove_connection connected close
disconnect-followed_example =
    disconnect-followed unnamed newer told "a" 1 2 three_hubs (hub "a" 1) (tt, (tt, (tt, tt))) held
      refl refl refl refl
