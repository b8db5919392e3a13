-- ===== src/HubNode/Reaching.antt =====
-- The search for an endpoint at which another hub answers: `FindReachableEndpoint` of
-- src/Blockcore.Hub.Networking/Managers/HubManager.cs. It writes the kind of connection of an outcome into the hub as well.
use blockcore_gateway.Common.{
  ℕ, zero, suc, Bool, true, false, Option, none, some, List, [], ◌∷◌, ◌++◌, map, if◌then◌else◌,
}
use blockcore_gateway.Js.Text.{Text, equal}
use blockcore_gateway.HubNode.{HubInfo}

-- An acknowledgement that has come in; the recipient may be null.
pub record Ack : Type 0 where
  pub id : Text
  pub recipient_id : Option Text

-- `ack_responces` is the field of HubManager; `sent` are the endpoints that an Ack was sent to, oldest first; `checks`
-- and `sleeps` count how often the connection to the gateway was looked at and how often the thread slept; `learned` are
-- the endpoints of the internal addresses that the list of the hub has got in addition since a new address was begun.
pub record Attempt (Endpoint : Type 0) : Type 0 where
  pub ack_responces : List Ack
  pub sent : List Endpoint
  pub learned : List Endpoint
  pub checks : ℕ
  pub sleeps : ℕ

-- `a.RecipientId == id`
abbrev pub is_from : Text → Ack → Bool
is_from id a = elim a.recipient_id [ none ↦ false | some r ↦ equal r id ]

-- `AckResponces.FirstOrDefault(a => a.RecipientId == id)` with the removal of what it finds.
unfoldable pub take_ack : Text → List Ack → Option (List Ack)
take_ack id [] = none
take_ack id (a ∷ rest) =
    let later = take_ack id rest in
    if is_from id a then some rest else elim later [ none ↦ none | some xs ↦ some (a ∷ xs) ]

-- How a search ends: at an endpoint by LAN or by Internet, at none, or by an exception on an endpoint that is null; or
-- it is not at its end after the rounds that were given.
pub data Reached (Endpoint : Type 0) : Type 0 where
  by_lan by_internet : Endpoint → Reached Endpoint
  unreachable null_reference still_searching : Reached Endpoint

-- The same of the loop over the internal addresses.
pub data Lan (Endpoint : Type 0) : Type 0 where
  answered : Endpoint → Lan Endpoint
  tried_all rounds_out : Lan Endpoint

-- A look at the connection to the gateway.
unfoldable pub look : {Endpoint : Type 0} → Attempt Endpoint → Attempt Endpoint
look s = record s { checks = suc s.checks }

-- An Ack is sent, and the thread sleeps; `arriving n` are the acknowledgements that come in during the n-th sleep, and
-- `learning n` the internal addresses that are added to the hub during it, as those that ask from a new address are.
unfoldable pub send_ack :
    {Endpoint : Type 0}
    → (ℕ → List Ack)
    → (ℕ → List Endpoint)
    → Endpoint
    → Attempt Endpoint
    → Attempt Endpoint
send_ack arriving learning endpoint s = record s {
  sent = s.sent ++ endpoint ∷ [];
  sleeps = suc s.sleeps;
  ack_responces = s.ack_responces ++ arriving s.sleeps;
  learned = s.learned ++ learning s.sleeps;
}

-- `connected n` is whether the gateway is connected at the n-th look.
module _ {Endpoint : Type 0} (connected : ℕ → Bool) (arriving : ℕ → List Ack)
    (learning : ℕ → List Endpoint) where
  -- One of the inner loops, with so many attempts left, and whether it has found an answer.
  unfoldable pub attempts : ℕ → Text → Endpoint → Attempt Endpoint → Attempt Endpoint × Bool
  unfolding look send_ack
  attempts zero id endpoint s = (s, false)
  attempts (suc n) id endpoint s =
      let t = send_ack arriving learning endpoint (look s) in
      let later = attempts n id endpoint t in
      if connected s.checks
      then elim (take_ack id t.ack_responces) [
        | none ↦ later
        | some rest ↦ (record t { ack_responces = rest }, true)
      ]
      else (look s, false)

  -- The loop over the internal addresses, given as the endpoints that are made of them: the one that answers, if one
  -- does. The length of the list is read before each of them. The number is that of the addresses that are tried at most.
  unfoldable pub reach_lan :
      ℕ → Text → List Endpoint → Attempt Endpoint → Attempt Endpoint × Lan Endpoint
  unfolding look
  reach_lan n id [] s = (s, tried_all)
  reach_lan zero id (e ∷ rest) s = (s, rounds_out)
  reach_lan (suc n) id (e ∷ rest) s =
      let (t, found) = attempts 3 id e (look s) in
      let later = reach_lan n id (rest ++ t.learned) (record t { learned = [] }) in
      if connected s.checks then if found then (t, answered e) else later else (look s, tried_all)

  unfoldable pub reach_internet :
      Text → Option Endpoint → Attempt Endpoint → Attempt Endpoint × Reached Endpoint
  reach_internet id none s = (s, unreachable)
  reach_internet id (some external) s =
      let (t, found) = attempts 99 id external s in
      (t, if found then by_internet external else unreachable)

  abbrev pub or_internet :
      Text → Option Endpoint → Attempt Endpoint × Lan Endpoint → Attempt Endpoint × Reached Endpoint
  or_internet id external (s, answered endpoint) = (s, by_lan endpoint)
  or_internet id external (s, tried_all) = reach_internet id external s
  or_internet id external (s, rounds_out) = (s, still_searching)

-- `new IPEndPoint(IP, endpoint.Port)`, as `at_address`, for each of the addresses.
abbrev pub endpoints_at :
    {Endpoint Address : Type 0}
    → (Address → Endpoint → Endpoint)
    → Endpoint
    → List Address
    → List Endpoint
endpoints_at at_address internal = map (λ a. at_address a internal)

-- The internal endpoint is read for the first address, if the gateway is connected. Of what is known of the hub only the
-- internal addresses change meanwhile.
module _ {Endpoint Address : Type 0} (connected : ℕ → Bool) (arriving : ℕ → List Ack)
    (learning : ℕ → List Address) (rounds : ℕ) (at_address : Address → Endpoint → Endpoint) where
  unfoldable pub find_reachable_endpoint :
      HubInfo Endpoint Address → Attempt Endpoint → Attempt Endpoint × Reached Endpoint
  find_reachable_endpoint h s = elim h.internal_endpoint [
    | some internal ↦
        or_internet connected arriving (λ n. endpoints_at at_address internal (learning n)) h.id
          h.external_endpoint
          (reach_lan connected arriving (λ n. endpoints_at at_address internal (learning n)) rounds
            h.id (endpoints_at at_address internal h.internal_addresses)
            (record s { learned = [] }))
    | none ↦ elim h.internal_addresses [
      | [] ↦ reach_internet connected arriving (λ n. []) h.id h.external_endpoint s
      | a ∷ rest ↦
          if connected s.checks
          then (look s, null_reference)
          else reach_internet connected arriving (λ n. []) h.id h.external_endpoint (look s)
    ]
  ]
