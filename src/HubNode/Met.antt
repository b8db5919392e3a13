-- ===== src/HubNode/Met.antt =====
-- When a search ends at the hub that it is for.
use mathlib.Core.List.{append-nil}
use blockcore_gateway.Common.{
  ℕ, zero, suc, ◌+◌, ◌*◌, ◌≤◌, ◌<◌, Bool, true, false, none, some, List, [], ◌∷◌, ◌++◌, ◌≡◌, ◌≢◌,
  ◌↔◌, refl, ap, ◌∙◌, length, arith, inl, inr, Option-cases,
}
use blockcore_gateway.Js.Text.{Text}
use blockcore_gateway.HubNode.{HubInfo}
use blockcore_gateway.HubNode.Reaching.{
  Ack, Attempt, Reached, Lan, answered, tried_all, rounds_out, endpoints_at, take_ack, unreachable,
  send_ack, look, attempts, reach_lan, reach_internet, or_internet, find_reachable_endpoint,
}
use blockcore_gateway.HubNode.Answering.{added}
use blockcore_gateway.HubNode.Searching.{
  with_internal, lan_of, lan-done, find_reachable_endpoint-heard,
}
use blockcore_gateway.HubNode.Acking.{IpEndpoint, AckState}
use blockcore_gateway.HubNode.Acknowledged.{known_endpoint}
use blockcore_gateway.HubNode.Meeting.{coming_in}
use blockcore_gateway.HubNode.Heard.{coming_in-unknown, coming_in-known}

-- A search during which nothing comes in, from a state without an answer of the hub.
module _ {Endpoint : Type 0} (connected : ℕ → Bool) (arriving : ℕ → List Ack)
    (learning : ℕ → List Endpoint) (nothing : (k : ℕ) → arriving k ≡ []) where
  attempts-nothing :
      (n : ℕ) (id : Text) (e : Endpoint) (s : Attempt Endpoint)
      → take_ack id s.ack_responces ≡ none
      → ((attempts connected arriving learning n id e s).1 ≡ false)
        × (take_ack id (attempts connected arriving learning n id e s).0.ack_responces ≡ none)
  unfolding attempts look send_ack
  attempts-nothing zero id e s a = (refl, a)
  attempts-nothing (suc n) id e s a =
      let t = send_ack arriving learning e (look s) in
      ground (arith, nothing s.sleeps, append-nil s.ack_responces, attempts-nothing n id e t)

  reach_lan-nothing :
      (n : ℕ) (id : Text) (es : List Endpoint) (s : Attempt Endpoint)
      → take_ack id s.ack_responces ≡ none
      → let r = reach_lan connected arriving learning n id es s in
        (r.1 ≢ rounds_out → r.1 ≡ tried_all) × (take_ack id r.0.ack_responces ≡ none)
  unfolding reach_lan look
  reach_lan-nothing n id [] s a = (λ done. refl, a)
  reach_lan-nothing zero id (e ∷ es) s a = (λ done. absurd (done refl), a)
  reach_lan-nothing (suc n) id (e ∷ es) s a =
      let t = (attempts connected arriving learning 3 id e (look s)).0 in
      ground (
        arith,
        attempts-nothing 3 id e (look s),
        reach_lan-nothing n id (es ++ t.learned) (record t { learned = [] }),
      )

  or_internet-nothing :
      (id : Text) (x : Endpoint) (r : Attempt Endpoint × Lan Endpoint)
      → r.1 ≡ tried_all
      → take_ack id r.0.ack_responces ≡ none
      → (or_internet connected arriving learning id (some x) r).1 ≡ unreachable
  unfolding reach_internet
  or_internet-nothing id x (s, answered e) n a = absurd (ground arith)
  or_internet-nothing id x (s, rounds_out) n a = absurd (ground arith)
  or_internet-nothing id x (s, tried_all) n a = ground (arith, attempts-nothing 99 id x s)

-- The hub `id` searches for the hub that is `first` at the start; during the k-th sleep the answers to the Acks with
-- the numbers in `numbers k` come in.
module _ (id : Text) (source : ℕ → IpEndpoint) (delivered : ℕ → Bool) (first : AckState)
    (numbers : ℕ → List ℕ) where
  abbrev pub arriving_from : ℕ → List Ack
  arriving_from k = coming_in id source delivered first (numbers k)

  module _ (connected : ℕ → Bool) (learning : ℕ → List Text) (rounds bound : ℕ)
      (at_address : Text → IpEndpoint → IpEndpoint) (limit : (m : ℕ) → added learning m ≤ bound)
      (h : HubInfo IpEndpoint Text) (internal external : IpEndpoint)
      (i : h.internal_endpoint ≡ some internal) (x : h.external_endpoint ≡ some external)
      (s : Attempt IpEndpoint) (enough : length h.internal_addresses + bound ≤ rounds) where
    abbrev outcome : Reached IpEndpoint
    outcome = (find_reachable_endpoint connected arriving_from learning rounds at_address h s).1

    outcome-unknown :
        known_endpoint id first ≡ none
        → take_ack h.id s.ack_responces ≡ none
        → outcome ≡ unreachable
    outcome-unknown unknown a =
        let nothing : ((k : ℕ) → arriving_from k ≡ []) =
          λ k. coming_in-unknown id source delivered first unknown (numbers k) in
        let others = λ (m : ℕ). endpoints_at at_address internal (learning m) in
        let lan = lan_of connected arriving_from learning at_address rounds h internal s in
        let (ended, unheard) =
          reach_lan-nothing connected arriving_from others nothing rounds h.id
            (endpoints_at at_address internal h.internal_addresses) (record s { learned = [] }) a in
        let stays : ((or_internet connected arriving_from others h.id h.external_endpoint lan).1
            ≡ unreachable) =
          rw x (
            or_internet-nothing connected arriving_from others nothing h.id external lan
              (ended (
                lan-done connected arriving_from learning at_address rounds bound h internal s limit
                  enough))
              unheard) in
        ap (λ r. r.1)
          (with_internal connected arriving_from learning at_address rounds h s internal i)
        ∙ stays

    outcome-known :
        ((n : ℕ) → connected n ≡ true)
        → h.id ≡ first.local_id
        → known_endpoint id first ≢ none
        → (k n : ℕ) (before after : List ℕ) → numbers k ≡ before ++ n ∷ after
        → delivered n ≡ true
        → s.sleeps ≤ k
        → k < s.sleeps + (3 * length h.internal_addresses + 99)
        → outcome ≢ unreachable
    outcome-known always own known k n before after there d from to lost =
        let heard = coming_in-known id source delivered first known before after n d in
        elim (find_reachable_endpoint-heard connected arriving_from learning at_address always
          rounds bound h internal external limit enough i x k (rw (own, there) heard) s from to) [
            | inl (e, found) ↦ absurd (ground (arith, found, lost))
            | inr found ↦ absurd (ground (arith, found, lost))
          ]

  -- A hub searches for another one of which it knows both endpoints and of which no answer is left over from before.
  -- While the gateway is connected, if one of its Acks gets to that hub and, if it is answered, its answer comes in during
  -- one of the sleeps of the search, the search comes to no endpoint exactly when that hub does not know the one that
  -- searches with its external endpoint. The others of the Acks and of the answers may be lost, late, doubled or out of
  -- order, and internal addresses may be added during the search, no more than a number which, with those that are
  -- there, the rounds of the loop are enough for.
  pub find_reachable_endpoint-met_iff :
      (connected : ℕ → Bool)
      → ((n : ℕ) → connected n ≡ true)
      → (learning : ℕ → List Text) (rounds bound : ℕ) (at_address : Text → IpEndpoint → IpEndpoint)
      → ((m : ℕ) → added learning m ≤ bound)
      → (h : HubInfo IpEndpoint Text) (internal external : IpEndpoint)
      → length h.internal_addresses + bound ≤ rounds
      → h.id ≡ first.local_id
      → h.internal_endpoint ≡ some internal
      → h.external_endpoint ≡ some external
      → (s : Attempt IpEndpoint) → take_ack h.id s.ack_responces ≡ none
      → (k n : ℕ) (before after : List ℕ) → numbers k ≡ before ++ n ∷ after
      → delivered n ≡ true
      → s.sleeps ≤ k
      → k < s.sleeps + (3 * length h.internal_addresses + 99)
      → ((find_reachable_endpoint connected arriving_from learning rounds at_address h s).1
          ≡ unreachable)
        ↔ (known_endpoint id first ≡ none)
  find_reachable_endpoint-met_iff connected always learning rounds bound at_address limit h internal
        external enough own i x s a k n before after there d from to =
      (
        λ lost. elim (Option-cases (known_endpoint id first)) [
          | inl e ↦ e
          | inr (e, known) ↦ absurd (
              outcome-known connected learning rounds bound at_address limit h internal external i x
                s enough always own (λ unknown. ground (arith, known, unknown)) k n before after
                there d from to lost)
        ],
        λ unknown.
            outcome-unknown connected learning rounds bound at_address limit h internal external i x
              s enough unknown a,
      )
