-- ===== src/Arrival/Tests.antt =====
-- Hub a joins the gateway at which hub b is, which knows only itself.
use blockcore_gateway.Common.{ℕ, String, ◌≡◌, refl, true, some, none, List, [], ◌∷◌, ◌++◌}
use blockcore_gateway.Peers.{new}
use blockcore_gateway.Gateway.{HubInfo, Entity, Gateway, connected}
use blockcore_gateway.Gateway.Joining.{
  InfoMessage, tcp, enrol, process_info, get_hub, change, add_or_update,
}
use blockcore_gateway.Relay.{Connection, Told, info, relay, get_connection}
use blockcore_gateway.Relay.InStep.{InStep}
use blockcore_gateway.Departure.{inbox}
use blockcore_gateway.Arrival.Listed.{process_info-listed}

abbrev hub_b : Gateway
hub_b = record {
  connections =
      record { id = some "b"; client = some 2; external_endpoint = some 2; initialized = true }
      ∷ [];
  opened = 1 ∷ 2 ∷ [];
  sent_tcp = [];
  sent_udp = [];
  udp_endpoint = 2;
}

abbrev hub_a : InfoMessage
hub_a = record { id = some "a"; external_endpoint = some 1 }

abbrev unnamed : HubInfo → String
unnamed x = ""

abbrev newer : String → String → String
newer old told = told

abbrev told : List Told
told = info (record { id = "b"; other = "" }) ∷ []

process_info-listed_example :
    (sent : List (ℕ × Entity)) × ((process_info tcp hub_a none (some 1) hub_b).sent_tcp
      ≡ [] ++ sent)
    × (let after_it = relay newer (told ++ inbox unnamed 2 sent) [] new in
        ((c : Connection) × (get_connection "a" after_it.0 ≡ some c))
        × InStep after_it.0 after_it.1.peers)
unfolding enrol connected get_hub change add_or_update
process_info-listed_example =
    process_info-listed newer unnamed told tcp hub_a none (some 1) hub_b "a" 2 (tt, tt) refl refl
      refl
