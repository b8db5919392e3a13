-- ===== src/Dispatch/Processing.antt =====
-- Which handlers a message reaches.
use blockcore_gateway.Common.{
  ℕ, ◌≡◌, ◌≢◌, refl, sym, ap, ◌∙◌, Option, some, List, [], ◌∷◌, Bool-cases, Option-cases, inl, inr,
}
use blockcore_gateway.Dispatch.{
  Handler, MessageMaps, get_map, contains, build, Failure, no_handlers, run_handlers, run_map,
  process,
}
use blockcore_gateway.Dispatch.Registration.{handlers_for, build-registered, build-unregistered}

module _ {S E : Type 0} (call : Handler → S → S × Option E) where
  -- The handlers in their order, up to one that throws; without any handler an error.
  abbrev pub run_in_order : ℕ → List Handler → S → S × Option (Failure E)
  run_in_order c [] s = (s, some (no_handlers c))
  run_in_order c (h ∷ hs) s = run_handlers call (h ∷ hs) s

  run_in_order-ne :
      (c : ℕ) (hs : List Handler) (s : S) → hs ≢ [] → run_in_order c hs s ≡ run_handlers call hs s
  run_in_order-ne c [] s n = absurd (n refl)
  run_in_order-ne c (h ∷ hs) s n = refl

  run_handlers_inv :
      (P : S → Type 0)
      → ((h : Handler) (s : S) → P s → P (call h s).0)
      → (hs : List Handler) (s : S) → P s
      → P (run_handlers call hs s).0
  unfolding run_handlers
  run_handlers_inv P keeps [] s p = p
  run_handlers_inv P keeps (h ∷ hs) s p = elim (Option-cases (call h s).1) [
    | inl e ↦ rw (e, run_handlers) (run_handlers_inv P keeps hs _ (keeps h s p))
    | inr (x, e) ↦ rw (e, run_handlers) (keeps h s p)
  ]

  -- What every handler keeps, the processing of a message keeps.
  pub process_inv :
      (P : S → Type 0)
      → ((h : Handler) (s : S) → P s → P (call h s).0)
      → (ms : MessageMaps) (c : ℕ) (s : S) → P s
      → P (process call ms (some c) s).0
  unfolding process run_map
  process_inv P keeps ms c s p = elim (Bool-cases (contains c ms)) [
    | inl e ↦ elim (Option-cases (get_map c ms)) [
      | inl g ↦ rw (e, g, process) p
      | inr (m, g) ↦ rw (e, g, process) (run_handlers_inv P keeps m.handlers s p)
    ]
    | inr e ↦ rw (e, process) p
  ]

  -- A message reaches exactly the handlers that were registered for its command, in the order of their
  -- registration, until one throws; it is an error if there is none.
  pub process-build :
      (hs : List Handler) (c : ℕ) (s : S)
      → process call (build [] hs) (some c) s ≡ run_in_order c (handlers_for c hs) s
  unfolding process run_map
  process-build hs c s = elim (Bool-cases (contains c (build [] hs))) [
    | inl e ↦
        let (m, g, same, n) = build-registered c hs e in
        rw (e, process)
          (ap (λ o. run_map call o s) g
            ∙ ap (λ xs. run_handlers call xs s) same
            ∙ sym (run_in_order-ne c (handlers_for c hs) s n))
    | inr e ↦ rw (e, process) (ap (λ xs. run_in_order c xs s) (sym (build-unregistered c hs e)))
  ]
