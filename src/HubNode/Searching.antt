-- ===== src/HubNode/Searching.antt =====
-- The search for an endpoint from its beginning to its end.
use blockcore_gateway.Common.{
  ℕ, map, zero, suc, ◌+◌, ◌*◌, ◌≤◌, ◌<◌, ◌≡◌, ◌≢◌, ◌⊎◌, refl, ap, Bool, true, Option, none, some,
  List, [], ◌∷◌, length, arith, Option-cases, inl, inr,
}
use blockcore_gateway.Js.Text.{Text}
use blockcore_gateway.HubNode.{HubInfo}
use blockcore_gateway.HubNode.Reaching.{
  Ack, Attempt, take_ack, Reached, by_lan, by_internet, still_searching, Lan, answered, tried_all,
  rounds_out, look, attempts, reach_lan, reach_internet, or_internet, endpoints_at,
  find_reachable_endpoint,
}
use blockcore_gateway.HubNode.Answering.{
  added, attempts-sent, reach_lan-sent, reach_lan-done, reach_lan-sleeps, attempts-heard,
  reach_lan-missed,
}

length-map : {A B : Type 0} (f : A → B) (xs : List A) → length (map f xs) ≡ length xs
length-map f [] = refl
length-map f (x ∷ xs) = ap suc (length-map f xs)

-- A list of the outcomes of the loop over the addresses.
Lan-cases :
    {Endpoint : Type 0} (l : Lan Endpoint)
    → ((e : Endpoint) × (l ≡ answered e)) ⊎ ((l ≡ tried_all) ⊎ (l ≡ rounds_out))
Lan-cases (answered e) = inl (e, refl)
Lan-cases tried_all = inr (inl refl)
Lan-cases rounds_out = inr (inr refl)

module _ {Endpoint Address : Type 0} (connected : ℕ → Bool) (arriving : ℕ → List Ack)
    (learning : ℕ → List Address) (at_address : Address → Endpoint → Endpoint) where
  added-endpoints_at :
      (internal : Endpoint) (n : ℕ)
      → added (λ k. endpoints_at at_address internal (learning k)) n ≡ added learning n
  added-endpoints_at internal zero = refl
  added-endpoints_at internal (suc n) =
      omega
        (arith, added-endpoints_at internal n, length-map (λ a. at_address a internal) (learning n))

  abbrev pub lan_of :
      ℕ → HubInfo Endpoint Address → Endpoint → Attempt Endpoint → Attempt Endpoint × Lan Endpoint
  lan_of n h internal s =
      reach_lan connected arriving (λ k. endpoints_at at_address internal (learning k)) n h.id
        (endpoints_at at_address internal h.internal_addresses) (record s { learned = [] })

  abbrev pub found_by :
      ℕ → HubInfo Endpoint Address → Attempt Endpoint → Attempt Endpoint × Reached Endpoint
  found_by n h s = find_reachable_endpoint connected arriving learning n at_address h s

  module _ (rest : ℕ → List Endpoint) where
    internet-sent :
        (id : Text) (x : Option Endpoint) (s : Attempt Endpoint)
        → (length (reach_internet connected arriving rest id x s).0.sent ≤ length s.sent + 99)
          × ((reach_internet connected arriving rest id x s).1 ≢ still_searching)
    unfolding reach_internet
    internet-sent id none s = (omega arith, λ e. ground arith)
    internet-sent id (some e) s =
        (attempts-sent connected arriving rest 99 id e s, λ k. ground arith)

    or_internet-sent :
        (id : Text) (x : Option Endpoint) (r : Attempt Endpoint × Lan Endpoint)
        → (length (or_internet connected arriving rest id x r).0.sent ≤ length r.0.sent + 99)
          × (r.1 ≢ rounds_out → (or_internet connected arriving rest id x r).1 ≢ still_searching)
    or_internet-sent id x (s, answered e) = (omega arith, λ n k. ground arith)
    or_internet-sent id x (s, tried_all) = let (a, b) = internet-sent id x s in (a, λ n. b)
    or_internet-sent id x (s, rounds_out) = (omega arith, λ n k. n refl)

  without_internal :
      (n : ℕ) (h : HubInfo Endpoint Address) (s : Attempt Endpoint)
      → h.internal_endpoint ≡ none
      → ((found_by n h s).1 ≢ still_searching)
        × (length (found_by n h s).0.sent ≤ length s.sent + 99)
  unfolding find_reachable_endpoint look
  without_internal n h s e =
      let (a, b) = internet-sent (λ k. []) h.id h.external_endpoint s in
      let (c, d) = internet-sent (λ k. []) h.id h.external_endpoint (look s) in
      ground (arith, e, a, b, c, d)

  pub with_internal :
      (n : ℕ) (h : HubInfo Endpoint Address) (s : Attempt Endpoint) (internal : Endpoint)
      → h.internal_endpoint ≡ some internal
      → found_by n h s
        ≡ or_internet connected arriving
            (λ k. endpoints_at at_address internal (learning k))
            h.id
            h.external_endpoint
            (lan_of n h internal s)
  unfolding find_reachable_endpoint
  with_internal n h s internal i = rw (find_reachable_endpoint, i) refl

  pub lan-done :
      (n bound : ℕ) (h : HubInfo Endpoint Address) (internal : Endpoint) (s : Attempt Endpoint)
      → ((k : ℕ) → added learning k ≤ bound)
      → length h.internal_addresses + bound ≤ n
      → (lan_of n h internal s).1 ≢ rounds_out
  lan-done n bound h internal s limit enough =
      reach_lan-done connected arriving _ n bound h.id _ (record s { learned = [] })
        (λ k. omega (arith, limit k, added-endpoints_at internal k)) refl
        (omega (arith, length-map (λ a. at_address a internal) h.internal_addresses))

  sent-le :
      (n : ℕ) (h : HubInfo Endpoint Address) (s : Attempt Endpoint)
      → length (found_by n h s).0.sent ≤ length s.sent + (3 * n + 99)
  sent-le n h s = elim (Option-cases h.internal_endpoint) [
    | inl e ↦ omega (arith, without_internal n h s e)
    | inr (internal, i) ↦
        let others = λ (k : ℕ). endpoints_at at_address internal (learning k) in
        rw (with_internal n h s internal i) (
          omega (
            arith,
            or_internet-sent others h.id h.external_endpoint (lan_of n h internal s),
            reach_lan-sent connected arriving others n h.id
                (endpoints_at at_address internal h.internal_addresses) (record s { learned = [] }),
          ))
  ]

  -- Enough rounds for the addresses and those that are added.
  pub find_reachable_endpoint-done :
      (n bound : ℕ) (h : HubInfo Endpoint Address) (s : Attempt Endpoint)
      → ((k : ℕ) → added learning k ≤ bound)
      → length h.internal_addresses + bound ≤ n
      → (found_by n h s).1 ≢ still_searching
  find_reachable_endpoint-done n bound h s limit enough = elim (Option-cases h.internal_endpoint) [
    | inl e ↦ (without_internal n h s e).0
    | inr (internal, i) ↦ rw (with_internal n h s internal i) (
        (or_internet-sent _ h.id h.external_endpoint (lan_of n h internal s)).1
          (lan-done n bound h internal s limit enough))
  ]

  -- If no more than so many internal addresses are added to the hub while it is searched for, the search ends, after at
  -- most three attempts for each of its addresses, with those that are added, and 99 for its external endpoint: it sends
  -- no more than that, however the connection behaves and whatever acknowledgements come in.
  pub find_reachable_endpoint-ends :
      (bound : ℕ) (h : HubInfo Endpoint Address) (s : Attempt Endpoint)
      → ((k : ℕ) → added learning k ≤ bound)
      → let rounds = length h.internal_addresses + bound in
        ((found_by rounds h s).1 ≢ still_searching)
        × (length (found_by rounds h s).0.sent ≤ length s.sent + (3 * rounds + 99))
  find_reachable_endpoint-ends bound h s limit =
      let n = length h.internal_addresses + bound in
      (find_reachable_endpoint-done n bound h s limit (omega arith), sent-le n h s)

  or_internet-found :
      (rest : ℕ → List Endpoint) (id : Text) (external : Endpoint)
      (r : Attempt Endpoint × Lan Endpoint)
      → r.1 ≢ rounds_out
      → (r.1 ≡ tried_all → (attempts connected arriving rest 99 id external r.0).1 ≡ true)
      → let outcome = (or_internet connected arriving rest id (some external) r).1 in
        ((e : Endpoint) × (outcome ≡ by_lan e)) ⊎ (outcome ≡ by_internet external)
  unfolding reach_internet
  or_internet-found rest id external (s, answered e) done found = inl (e, refl)
  or_internet-found rest id external (s, tried_all) done found = inr (rw (found refl) refl)
  or_internet-found rest id external (s, rounds_out) done found = absurd (done refl)

  -- While the gateway is connected, an acknowledgement from the hub that comes in during one of the sleeps in which
  -- it is waited for is not missed: the search ends at an internal address or at the external endpoint.
  pub find_reachable_endpoint-heard :
      ((m : ℕ) → connected m ≡ true)
      → (n bound : ℕ) (h : HubInfo Endpoint Address) (internal external : Endpoint)
      → ((m : ℕ) → added learning m ≤ bound)
      → length h.internal_addresses + bound ≤ n
      → h.internal_endpoint ≡ some internal
      → h.external_endpoint ≡ some external
      → (k : ℕ) → take_ack h.id (arriving k) ≢ none
      → (s : Attempt Endpoint) → s.sleeps ≤ k
      → k < s.sleeps + (3 * length h.internal_addresses + 99)
      → ((e : Endpoint) × ((found_by n h s).1 ≡ by_lan e))
        ⊎ ((found_by n h s).1 ≡ by_internet external)
  find_reachable_endpoint-heard always n bound h internal external limit enough i x k heard s from
        to =
      let others = λ (m : ℕ). endpoints_at at_address internal (learning m) in
      let es = endpoints_at at_address internal h.internal_addresses in
      let begun = record s { learned = [] } in
      rw (with_internal n h s internal i, x)
        (or_internet-found others h.id external (lan_of n h internal s)
          (lan-done n bound h internal s limit enough)
          (λ missed.
            attempts-heard connected arriving others always h.id k heard 99 external _
              (reach_lan-missed connected arriving others always h.id k heard n es begun from
                missed)
              (omega (
                arith,
                length-map (λ a. at_address a internal) h.internal_addresses,
                reach_lan-sleeps connected arriving others always n h.id es begun missed,
              ))))
