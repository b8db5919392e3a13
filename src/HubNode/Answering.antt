-- ===== src/HubNode/Answering.antt =====
-- How long the search for an endpoint takes, and when it finds one.
use blockcore_gateway.Common.{
  ℕ, subst, zero, suc, ◌+◌, ◌*◌, ◌≤◌, ◌<◌, ◌≡◌, ◌≢◌, refl, Bool, true, false, none, List, [], ◌∷◌,
  ◌++◌, length, length-append, arith,
}
use blockcore_gateway.Js.Text.{Text}
use blockcore_gateway.HubNode.{}
use blockcore_gateway.HubNode.Reaching.{
  Ack, Attempt, take_ack, tried_all, rounds_out, send_ack, look, attempts, reach_lan,
}

pub take_ack-append :
    (id : Text) (xs ys : List Ack) → take_ack id (xs ++ ys) ≡ none → take_ack id ys ≡ none
unfolding take_ack
take_ack-append id [] ys e = e
take_ack-append id (x ∷ xs) ys e = take_ack-append id xs ys (ground arith)

-- How many addresses are added before the n-th sleep.
abbrev pub added {ℓ} : {A : Type ℓ} → (ℕ → List A) → ℕ → ℕ
added learning zero = 0
added learning (suc n) = added learning n + length (learning n)

module _ {Endpoint : Type 0} (connected : ℕ → Bool) (arriving : ℕ → List Ack)
    (learning : ℕ → List Endpoint) where
  pub attempts-sent :
      (n : ℕ) (id : Text) (e : Endpoint) (s : Attempt Endpoint)
      → length (attempts connected arriving learning n id e s).0.sent ≤ length s.sent + n
  unfolding attempts look send_ack
  attempts-sent zero id e s = omega arith
  attempts-sent (suc n) id e s =
      let t = send_ack arriving learning e (look s) in
      ground (arith, attempts-sent n id e t, length-append s.sent (e ∷ []))

  -- What is added during the attempts is learned.
  attempts-learned :
      (n : ℕ) (id : Text) (e : Endpoint) (s : Attempt Endpoint)
      → let t = (attempts connected arriving learning n id e s).0 in
        length t.learned + added learning s.sleeps ≡ length s.learned + added learning t.sleeps
  unfolding attempts look send_ack
  attempts-learned zero id e s = refl
  attempts-learned (suc n) id e s =
      let t = send_ack arriving learning e (look s) in
      ground (arith, attempts-learned n id e t, length-append s.learned (learning s.sleeps))

  pub reach_lan-sent :
      (n : ℕ) (id : Text) (es : List Endpoint) (s : Attempt Endpoint)
      → length (reach_lan connected arriving learning n id es s).0.sent ≤ length s.sent + 3 * n
  unfolding reach_lan look
  reach_lan-sent n id [] s = omega arith
  reach_lan-sent zero id (e ∷ es) s = omega arith
  reach_lan-sent (suc n) id (e ∷ es) s =
      let t = (attempts connected arriving learning 3 id e (look s)).0 in
      ground (
        arith,
        attempts-sent 3 id e (look s),
        reach_lan-sent n id (es ++ t.learned) (record t { learned = [] }),
      )

  -- As many rounds as there are addresses, with those that are added, are enough.
  pub reach_lan-done :
      (n bound : ℕ) (id : Text) (es : List Endpoint) (s : Attempt Endpoint)
      → ((k : ℕ) → added learning k ≤ bound)
      → s.learned ≡ []
      → length es + bound ≤ n + added learning s.sleeps
      → (reach_lan connected arriving learning n id es s).1 ≢ rounds_out
  unfolding reach_lan look
  reach_lan-done n bound id [] s limit fresh enough lost = ground arith
  reach_lan-done zero bound id (e ∷ es) s limit fresh enough lost = omega (arith, limit s.sleeps)
  reach_lan-done (suc n) bound id (e ∷ es) s limit fresh enough lost =
      let t = (attempts connected arriving learning 3 id e (look s)).0 in
      ground (
        arith,
        attempts-learned 3 id e (look s),
        length-append es t.learned,
        reach_lan-done n bound id (es ++ t.learned) (record t { learned = [] }) limit refl,
      )

  module _ (always : (n : ℕ) → connected n ≡ true) where
    attempts-sleeps :
        (n : ℕ) (id : Text) (e : Endpoint) (s : Attempt Endpoint)
        → (attempts connected arriving learning n id e s).1 ≡ false
        → (attempts connected arriving learning n id e s).0.sleeps ≡ s.sleeps + n
    unfolding attempts look send_ack
    attempts-sleeps zero id e s missed = omega arith
    attempts-sleeps (suc n) id e s missed =
        let t = send_ack arriving learning e (look s) in
        ground (arith, always s.checks, attempts-sleeps n id e t)

    pub reach_lan-sleeps :
        (n : ℕ) (id : Text) (es : List Endpoint) (s : Attempt Endpoint)
        → (reach_lan connected arriving learning n id es s).1 ≡ tried_all
        → s.sleeps + 3 * length es ≤ (reach_lan connected arriving learning n id es s).0.sleeps
    unfolding reach_lan look
    reach_lan-sleeps n id [] s missed = omega arith
    reach_lan-sleeps zero id (e ∷ es) s missed = absurd (ground arith)
    reach_lan-sleeps (suc n) id (e ∷ es) s missed =
        let t = (attempts connected arriving learning 3 id e (look s)).0 in
        ground (
          arith,
          always s.checks,
          attempts-sleeps 3 id e (look s),
          length-append es t.learned,
          reach_lan-sleeps n id (es ++ t.learned) (record t { learned = [] }),
        )

    module _ (id : Text) (k : ℕ) (heard : take_ack id (arriving k) ≢ none) where
      pub attempts-heard :
          (n : ℕ) (e : Endpoint) (s : Attempt Endpoint)
          → s.sleeps ≤ k
          → k < s.sleeps + n
          → (attempts connected arriving learning n id e s).1 ≡ true
      unfolding attempts look send_ack
      attempts-heard zero e s from to = absurd (omega arith)
      attempts-heard (suc n) e s from to =
          let t = send_ack arriving learning e (look s) in
          let here : (s.sleeps ≡ k → take_ack id (s.ack_responces ++ arriving s.sleeps) ≢ none) =
            λ q none_left. heard (
              subst (λ j. take_ack id (arriving j) ≡ none) q
                (take_ack-append id s.ack_responces _ none_left)) in
          ground (arith, always s.checks, here, attempts-heard n e t)

      -- Where all addresses were tried in vain, the answer is still to come.
      pub reach_lan-missed :
          (n : ℕ) (es : List Endpoint) (s : Attempt Endpoint)
          → s.sleeps ≤ k
          → (reach_lan connected arriving learning n id es s).1 ≡ tried_all
          → (reach_lan connected arriving learning n id es s).0.sleeps ≤ k
      unfolding reach_lan look
      reach_lan-missed n [] s from missed = omega arith
      reach_lan-missed zero (e ∷ es) s from missed = absurd (ground arith)
      reach_lan-missed (suc n) (e ∷ es) s from missed =
          let t = (attempts connected arriving learning 3 id e (look s)).0 in
          ground (
            arith,
            always s.checks,
            attempts-sleeps 3 id e (look s),
            attempts-heard 3 e (look s),
            reach_lan-missed n (es ++ t.learned) (record t { learned = [] }),
          )
