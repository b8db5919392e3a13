-- ===== src/ScrollEvents/Debouncing.antt =====
-- What a burst of events comes to.
use blockcore_gateway.Common.{
  ℕ, suc, ◌+◌, ◌≤◌, ◌≡◌, ◌≢◌, ◌⊎◌, inl, inr, refl, sym, ap, ◌∙◌, Option, none, some, List, [], ◌∷◌,
  ◌++◌, length, length-append, arith, ==_iff,
}
use blockcore_gateway.ScrollEvents.{
  Debounced, new, clear_timeout, on_event, on_timeout, event, timeout, Reach, here, next,
}

module _ {E : Type 0} where
  -- Nothing is armed, or the timeout under the key alone.
  abbrev LatestArmed : Debounced E → Option E → Type 0
  LatestArmed s last =
      (s.armed ≡ [])
      ⊎ ((h : ℕ) × (e : E) × (s.armed ≡ (h, e) ∷ []) × (s.key ≡ some h) × (last ≡ some e))

  -- The last event of a run, and how many there were.
  abbrev pub last_event : {s t : Debounced E} → Reach s t → Option E
  last_event here = none
  last_event (next r (event e s)) = some e
  last_event (next r (timeout h e before behind s a)) = last_event r

  abbrev pub events : {s t : Debounced E} → Reach s t → ℕ
  events here = 0
  events (next r (event e s)) = suc (events r)
  events (next r (timeout h e before behind s a)) = events r

  clear-none : (k : Option ℕ) → clear_timeout {E = E} k [] ≡ []
  unfolding clear_timeout
  clear-none none = refl
  clear-none (some h) = refl

  clear-one : (h : ℕ) (e : E) → clear_timeout (some h) ((h, e) ∷ []) ≡ []
  unfolding clear_timeout
  clear-one h e = ground (arith, ==_iff h h)

  clear-key :
      (s : Debounced E) (last : Option E) → LatestArmed s last → clear_timeout s.key s.armed ≡ []
  clear-key s last (inl a) = rw a (clear-none s.key)
  clear-key s last (inr (h, d, a, k, l)) = rw a (rw k (clear-one h d))

  append-ne_nil : (xs ys : List (ℕ × E)) (x : ℕ × E) → xs ++ x ∷ ys ≢ []
  append-ne_nil xs ys x e = absurd (omega (arith, ap length e, length-append xs (x ∷ ys)))

  -- The one timeout that is armed is the one that runs.
  only : (x y : ℕ × E) (before behind : List (ℕ × E)) → x ∷ [] ≡ before ++ y ∷ behind → x ≡ y
  only x y [] behind e = ground arith
  only x y (b ∷ bs) behind e =
      absurd (omega (arith, ap length e, length-append (b ∷ bs) (y ∷ behind)))

  abbrev pub final : List E → Option E
  final [] = none
  final (x ∷ []) = some x
  final (x ∷ y ∷ xs) = final (y ∷ xs)

  final-append : (xs : List E) (x : E) → final (xs ++ x ∷ []) ≡ some x
  final-append [] x = refl
  final-append (y ∷ []) x = refl
  final-append (y ∷ z ∷ xs) x = final-append (z ∷ xs) x

  record Inv (s : Debounced E) (last : Option E) (n : ℕ) : Type 0 where
    one : LatestArmed s last
    idle : s.armed ≡ [] → final s.called ≡ last
    few : length s.called + length s.armed ≤ n

  on_event-Inv :
      (e : E) (s : Debounced E) (last : Option E) (n : ℕ)
      → Inv s last n
      → Inv (on_event e s) (some e) (suc n)
  unfolding on_event
  on_event-Inv e s last n v = record {
    one = inr (s.next_handle, e, ap ((s.next_handle, e) ∷◌) (clear-key s last v.one), refl, refl);
    idle = λ a. absurd (ground arith);
    few = omega (arith, v.few, ap length (clear-key s last v.one));
  }

  on_timeout-Inv :
      (h : ℕ) (e : E) (before behind : List (ℕ × E)) (s : Debounced E) (last : Option E) (n : ℕ)
      → s.armed ≡ before ++ (h, e) ∷ behind
      → Inv s last n
      → Inv (on_timeout h e s) last n
  unfolding on_timeout
  on_timeout-Inv h e before behind s last n a v = elim v.one [
    | inl b ↦ absurd (append-ne_nil before behind (h, e) (sym a ∙ b))
    | inr (k, d, b, key, l) ↦
        let same = only (k, d) (h, e) before behind (sym b ∙ a) in
        let empty =
          ap (clear_timeout (some h)) b
          ∙ ap (λ x. clear_timeout (some h) (x ∷ [])) same
          ∙ clear-one h e in
        record {
          one = inl empty;
          idle = λ _. final-append s.called e ∙ sym (l ∙ ap (λ x. some x.1) same);
          few = omega (arith, v.few, ap length empty, ap length b, length-append s.called (e ∷ []));
        }
  ]

  Reach-Inv : {s : Debounced E} (r : Reach new s) → Inv s (last_event r) (events r)
  unfolding new
  Reach-Inv here = record { one = inl refl; idle = λ _. refl; few = omega arith }
  Reach-Inv (next r (event e s)) = on_event-Inv e s _ _ (Reach-Inv r)
  Reach-Inv (next r (timeout h e before behind s a)) =
      on_timeout-Inv h e before behind s _ _ a (Reach-Inv r)

  -- However events and timeouts follow each other: at most one timeout is armed; the handler is called at most
  -- once for each event; and when nothing is armed it has been called with the last event at the last.
  pub debounced :
      {s : Debounced E} (r : Reach new s)
      → (length s.armed ≤ 1)
        × (length s.called + length s.armed ≤ events r)
        × ((s.armed ≢ []) ⊎ (final s.called ≡ last_event r))
  debounced {s} r =
      let v = Reach-Inv r in
      elim v.one [
        | inl b ↦ (omega (arith, ap length b), v.few, inr (v.idle b))
        | inr (h, e, b, k, l) ↦
            (omega (arith, ap length b), v.few, inl (λ c. absurd (ground arith)))
      ]
