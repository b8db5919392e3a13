-- ===== src/HubNode/Meeting/Tests.antt =====
-- A hub that answers from behind a port that is new, and one that waits for the answer.
use blockcore_gateway.HubNode.Answering.{added}
use blockcore_gateway.Common.{zero, suc}
use blockcore_gateway.Common.{◌≡◌, refl, true, false, none, some, List, [], ◌∷◌, if◌then◌else◌}
use blockcore_gateway.Common.{ℕ, ◌==◌, ◌≤◌, ◌↔◌, length, arith}
use blockcore_gateway.HubNode.Reaching.{Attempt, unreachable, take_ack, find_reachable_endpoint}
use blockcore_gateway.HubNode.Answering.{}
use blockcore_gateway.HubNode.Acking.{IpEndpoint, AckMessage, AckState, get_hub_info, learn_port}
use blockcore_gateway.HubNode.Acknowledged.{known_endpoint}
use blockcore_gateway.HubNode.Met.{arriving_from, find_reachable_endpoint-met_iff}
use blockcore_gateway.Js.Text.{Text, text}
use blockcore_gateway.HubNode.{unknown, HubInfo}
use blockcore_gateway.HubNode.Updating.{}
use blockcore_gateway.Common.{◌+◌}
use blockcore_gateway.HubNode.Meeting.{heard_before}
use blockcore_gateway.HubNode.Publishing.{pending, heard_before-published}

-- A hub that knows `h` at port 80 is asked from another port of that address.
abbrev at_port : ℕ → IpEndpoint
at_port n = record { address = text "20.0.0.1"; port = n }

abbrev asker : HubInfo IpEndpoint Text
asker = record {
  id = text "h";
  name = none;
  external_endpoint = some (at_port 80);
  internal_endpoint = none;
  first_name = none;
  connection_type = unknown;
  internal_addresses = [];
}

abbrev asking : AckMessage
asking = record { id = text "h"; recipient_id = none; response = false }

abbrev asked : AckState
asked = record {
  local_id = text "me";
  connections = asker ∷ [];
  ack_responces = [];
  sent = [];
  published = [];
}

abbrev idle : AckState
idle = record asked { local_id = text "h"; connections = [] }

knows : get_hub_info (text "h") asked.connections ≡ some asker
unfolding get_hub_info
knows = refl

-- The new port is kept.
learned : learn_port (at_port 81) (at_port 80) ≡ at_port 81
unfolding learn_port
learned = refl

-- The hub `h` searches for it; its first Ack is lost, and the answer to the second one comes in a sleep late.
abbrev wanted : HubInfo IpEndpoint Text
wanted = record {
  id = text "me";
  name = none;
  external_endpoint = some (at_port 91);
  internal_endpoint = some (at_port 90);
  first_name = none;
  connection_type = unknown;
  internal_addresses = [];
}

abbrev not_begun : Attempt IpEndpoint
not_begun = record { ack_responces = []; sent = []; learned = []; checks = 0; sleeps = 0 }

abbrev one_late : ℕ → List ℕ
one_late k = if k == 2 then 1 ∷ [] else []

abbrev address_in : Text → IpEndpoint → IpEndpoint
address_in a e = record e { address = a }

none_added : (k : ℕ) → added {A = Text} (λ n. []) k ≤ 0
none_added zero = omega arith
none_added (suc k) = omega (arith, none_added k)

find_reachable_endpoint-met_iff_example :
    ((find_reachable_endpoint
        (λ n. true)
        (arriving_from (text "h") (λ n. at_port 81) (λ n. n == 1) asked one_late)
        (λ n. [])
        0
        address_in
        wanted
        not_begun).1
      ≡ unreachable)
    ↔ (known_endpoint (text "h") asked ≡ none)
unfolding take_ack
find_reachable_endpoint-met_iff_example =
    find_reachable_endpoint-met_iff (text "h") (λ n. at_port 81) (λ n. n == 1) asked one_late
      (λ n. true) (λ n. refl) (λ n. []) 0 0 address_in none_added wanted (at_port 90) (at_port 91)
      (omega arith) refl refl refl not_begun refl 2 1 [] [] refl refl (omega arith) (omega arith)

-- Three Acks from the new port.
heard_before-published_example :
    let heard = heard_before (text "h") (λ k. at_port 81) (λ n. true) asked 3 in
    (length heard.published + pending (text "h") (at_port 81) heard ≡ 1)
    × (length heard.published ≤ 1)
unfolding get_hub_info
heard_before-published_example = heard_before-published (text "h") (at_port 81) (λ n. true) asked 3
