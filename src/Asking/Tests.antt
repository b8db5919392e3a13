-- ===== src/Asking/Tests.antt =====
-- Hub a asks hub b to connect.
use blockcore_gateway.Common.{ℕ, String, ◌≡◌, refl, true, none, some, List, [], ◌∷◌, ◌++◌, All}
use blockcore_gateway.Js.Text.{Text, text}
use blockcore_gateway.Gateway.{Gateway, req, connected}
use blockcore_gateway.Gateway as Gateway
use blockcore_gateway.Gateway.Joining.{get_hub}
use blockcore_gateway.HubNode.{HubInfo, unknown}
use blockcore_gateway.HubNode.Reaching.{Attempt}
use blockcore_gateway.HubNode.Acking.{IpEndpoint, get_hub_info}
use blockcore_gateway.Asking.{auto_connects}
use blockcore_gateway.Asking.{ConnectionEvent, starting, request_to, relay_req, publishes}
use blockcore_gateway.Asking.Recipient.{hub_of, publishes-recipient}

abbrev joined : String → ℕ → Gateway.HubInfo
joined id client = record {
  id = some id;
  client = some client;
  external_endpoint = some client;
  initialized = true;
}

abbrev two_hubs : Gateway
two_hubs = record {
  connections = joined "a" 1 ∷ joined "b" 2 ∷ [];
  opened = 1 ∷ 2 ∷ [];
  sent_tcp = [];
  sent_udp = [];
  udp_endpoint = 2;
}

abbrev known_hub : String → HubInfo IpEndpoint Text
known_hub id = record {
  id = text id;
  name = none;
  external_endpoint = some (record { address = text "20.0.0.1"; port = 6610 });
  internal_endpoint = none;
  first_name = none;
  connection_type = unknown;
  internal_addresses = [];
}

abbrev untried : Attempt IpEndpoint
untried = record { ack_responces = []; sent = []; learned = []; checks = 0; sleeps = 0 }

publishes-recipient_example :
    ((relay_req (request_to "a" "b") two_hubs).sent_tcp ≡ [] ++ (2, req "a" "b") ∷ [])
    × ((later : List ConnectionEvent) × (publishes
            (λ n. true)
            (λ n. [])
            (λ n. [])
            1
            (req "a" "b")
            (known_hub "a" ∷ known_hub "b" ∷ [])
            untried
          ≡ starting (known_hub "b") ∷ later)
        × All (λ v. hub_of v ≡ known_hub "b") later)
    × (text "b" ≡ text "b")
    × (auto_connects (text "b") (
          publishes
            (λ n. true)
            (λ n. [])
            (λ n. [])
            1
            (req "a" "b")
            (known_hub "a" ∷ known_hub "b" ∷ [])
            untried)
        ≡ [])
unfolding get_hub connected get_hub_info
publishes-recipient_example =
    publishes-recipient (λ n. true) (λ n. []) (λ n. []) 1 "a" "b" two_hubs (joined "b" 2) 2
      (known_hub "a" ∷ known_hub "b" ∷ []) untried (known_hub "b") refl refl refl refl
