-- ===== src/HubNode/Tests.antt =====
-- Two hubs that tell of themselves, on a platform that prints endpoints and addresses behind a colon.
use blockcore_gateway.Common.{
  ◌≡◌, refl, Bool, true, false, Option, none, some, List, [], ◌∷◌, if◌then◌else◌,
}
use blockcore_gateway.Common.{ℕ, zero, suc, ◌==◌, ◌≤◌, ◌≢◌, length, ltb, arith}
use blockcore_gateway.HubNode.Reaching.{
  Ack, Attempt, take_ack, by_lan, still_searching, find_reachable_endpoint, reach_lan, attempts,
  send_ack, look,
}
use blockcore_gateway.HubNode.Answering.{added}
use blockcore_gateway.HubNode.Searching.{find_reachable_endpoint-ends}
use blockcore_gateway.Js.Text.{Text, text, equal}
use blockcore_gateway.HubNode.{
  ConnectionTypes, unknown, lan, wan, HubInfo, Platform, to_message, update,
}
use blockcore_gateway.HubNode.Updating.{Prints, update-to_message}

abbrev behind_colon : Text → Option Text
behind_colon [] = none
behind_colon (c ∷ t) = some t

abbrev is_blank : Option Text → Bool
is_blank none = true
is_blank (some []) = true
is_blank (some (c ∷ t)) = false

abbrev name_of : ConnectionTypes → Text
name_of unknown = text "Unknown"
name_of lan = text "LAN"
name_of wan = text "WAN"

abbrev parse_name : Option Text → Option ConnectionTypes
parse_name none = none
parse_name (some t) =
    if equal t (text "LAN")
    then some lan
    else if equal t (text "WAN")
    then some wan
    else if equal t (text "Unknown")
    then some unknown
    else none

abbrev platform : Platform Text Text
platform = record {
  is_null_or_white_space = is_blank;
  parse_endpoint = behind_colon;
  parse_address = behind_colon;
  parse_type = parse_name;
  endpoint_text = λ t. 58 ∷ t;
  address_text = λ t. 58 ∷ t;
  type_text = name_of;
}

parse_name-name_of : (t : ConnectionTypes) → parse_name (some (name_of t)) ≡ some t
parse_name-name_of unknown = refl
parse_name-name_of lan = refl
parse_name-name_of wan = refl

platform-Prints : Prints platform
platform-Prints = record {
  white_space-null = refl;
  white_space-endpoint = λ e. refl;
  parse_endpoint-text = λ e. refl;
  parse_address-text = λ a. refl;
  parse_type-text = parse_name-name_of;
}

abbrev known : HubInfo Text Text
known = record {
  id = text "h";
  name = some (text "old");
  external_endpoint = some (text "20.0.0.1");
  internal_endpoint = none;
  first_name = some (text "Ada");
  connection_type = lan;
  internal_addresses = text "10.0.0.1" ∷ [];
}

abbrev told : HubInfo Text Text
told = record known {
  name = some (text "new");
  external_endpoint = none;
  internal_endpoint = some (text "10.0.0.2");
  connection_type = wan;
  internal_addresses = [];
}

update-to_message_example : update platform (to_message platform told) known ≡ (
  record known {
    name = some (text "new");
    connection_type = wan;
    first_name = none;
    internal_endpoint = some (text "10.0.0.2");
  },
  some true,
)
update-to_message_example = update-to_message platform-Prints told known refl

-- A hub that answers on its second address, in the second attempt there.
abbrev answer : Ack
answer = record { id = text "me"; recipient_id = some (text "h") }

abbrev arriving : ℕ → List Ack
arriving n = if n == 4 then answer ∷ [] else []

abbrev two_addresses : HubInfo Text Text
two_addresses = record known {
  internal_endpoint = some (text "p");
  internal_addresses = text "10.0.0.1" ∷ text "10.0.0.2" ∷ [];
}

abbrev start : Attempt Text
start = record { ack_responces = []; sent = []; learned = []; checks = 0; sleeps = 0 }

-- A third address is added in the second sleep.
abbrev third : ℕ → List Text
third n = if n == 1 then text "10.0.0.3" ∷ [] else []

third-added : (k : ℕ) → added third k ≤ (if ltb 1 k then 1 else 0)
third-added zero = omega arith
third-added (suc k) = ground (arith, third-added k)

third-le : (k : ℕ) → added third k ≤ 1
third-le k = ground (arith, third-added k)

find_reachable_endpoint-ends_example :
    let search =
      find_reachable_endpoint (λ n. true) arriving third 3 (λ a p. a) two_addresses start in
    (search.1 ≢ still_searching) × (length search.0.sent ≤ 108)
find_reachable_endpoint-ends_example =
    find_reachable_endpoint-ends (λ n. true) arriving third (λ a p. a) 1 two_addresses start
      third-le

-- One that is added while the last address is tried is tried as well.
added_late :
    (find_reachable_endpoint
      (λ n. true)
      (λ n. if n == 7 then answer ∷ [] else [])
      third
      3
      (λ a p. a)
      two_addresses
      start).1
    ≡ by_lan (text "10.0.0.3")
unfolding find_reachable_endpoint reach_lan attempts send_ack look take_ack
added_late = refl

-- An answer is credited to the endpoint that is tried when it comes in: one to the third attempt at the first address
-- that comes in after the next attempt counts for the second address.
credited_late :
    (find_reachable_endpoint
      (λ n. true)
      (λ n. if n == 3 then answer ∷ [] else [])
      (λ n. [])
      2
      (λ a p. a)
      two_addresses
      start).1
    ≡ by_lan (text "10.0.0.2")
unfolding find_reachable_endpoint reach_lan attempts send_ack look take_ack
credited_late = refl
