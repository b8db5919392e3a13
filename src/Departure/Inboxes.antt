-- ===== src/Departure/Inboxes.antt =====
-- What a hub finds of what the gateway sends.
use mathlib.Core.List.{append-nil, append_assoc}
use blockcore_gateway.Common.{
  ℕ, String, ◌≡◌, refl, sym, ap, ◌∙◌, true, false, List, [], ◌∷◌, ◌++◌, arith, Option-cases,
  Bool-cases, inl, inr, ◌==◌,
}
use blockcore_gateway.Peers.{PeerService}
use blockcore_gateway.Gateway.{HubInfo, Entity, has_client, connected}
use blockcore_gateway.Gateway.Sending.{receiver, receivers}
use blockcore_gateway.Gateway.Disconnecting.{uses}
use blockcore_gateway.Relay.{Connection, Told, relay}
use blockcore_gateway.Departure.{told_of, inbox}

module _ (rest : HubInfo → String) where
  pub inbox-append :
      (c : ℕ) (xs ys : List (ℕ × Entity))
      → inbox rest c (xs ++ ys) ≡ inbox rest c xs ++ inbox rest c ys
  unfolding inbox
  inbox-append c [] ys = refl
  inbox-append c ((d, e) ∷ xs) ys = elim (Bool-cases (d == c)) [
    | inl h ↦
        rw (h, inbox-append c xs ys)
          (sym (append_assoc (told_of rest e) (inbox rest c xs) (inbox rest c ys)))
    | inr h ↦ rw (h) (inbox-append c xs ys)
  ]

  inbox-receiver :
      (c : ℕ) (opened : List ℕ) (e : Entity) (x : HubInfo)
      → has_client c x ≡ false
      → inbox rest c (receiver opened e x.client) ≡ []
  unfolding inbox
  inbox-receiver c opened e x h = elim (Option-cases x.client) [
    | inl n ↦ ground arith
    | inr (d, n) ↦ elim (Bool-cases (connected d opened)) [
      | inl k ↦ ground arith
      | inr k ↦ ground arith
    ]
  ]

  inbox-receiver_own :
      (c : ℕ) (opened : List ℕ) (e : Entity) (x : HubInfo)
      → has_client c x ≡ true
      → connected c opened ≡ true
      → inbox rest c (receiver opened e x.client) ≡ told_of rest e
  unfolding inbox
  inbox-receiver_own c opened e x h k = elim (Option-cases x.client) [
    | inl n ↦ ground arith
    | inr (d, n) ↦
        let same : d ≡ c = ground arith in
        ground (arith, ap (λ i. connected i opened) same ∙ k, append-nil (told_of rest e))
  ]

  inbox-receivers_none :
      (c : ℕ) (opened : List ℕ) (e : Entity) (xs : List HubInfo)
      → uses c xs ≡ 0
      → inbox rest c (receivers opened e xs) ≡ []
  unfolding inbox
  inbox-receivers_none c opened e [] u = refl
  inbox-receivers_none c opened e (x ∷ xs) u = elim (Bool-cases (has_client c x)) [
    | inl h ↦ absurd (ground arith)
    | inr h ↦
        inbox-append c (receiver opened e x.client) (receivers opened e xs)
        ∙ rw (inbox-receiver c opened e x h) (inbox-receivers_none c opened e xs (ground arith))
  ]

  -- Of a broadcast, a client that one connection has gets exactly one copy.
  pub inbox-receivers :
      (c : ℕ) (opened : List ℕ) (e : Entity) (xs : List HubInfo)
      → uses c xs ≡ 1
      → connected c opened ≡ true
      → inbox rest c (receivers opened e xs) ≡ told_of rest e
  unfolding inbox
  inbox-receivers c opened e [] u k = absurd (ground arith)
  inbox-receivers c opened e (x ∷ xs) u k =
      inbox-append c (receiver opened e x.client) (receivers opened e xs)
      ∙ elim (Bool-cases (has_client c x)) [
        | inl h ↦
            rw
              (
                inbox-receiver_own c opened e x h k,
                inbox-receivers_none c opened e xs (ground arith),
              )
              (append-nil (told_of rest e))
        | inr h ↦
            rw (inbox-receiver c opened e x h) (inbox-receivers c opened e xs (ground arith) k)
      ]

pub relay-append :
    (merge : String → String → String) (ms ns : List Told) (cs : List Connection) (s : PeerService)
    → relay merge (ms ++ ns) cs s ≡ relay merge ns (relay merge ms cs s).0 (relay merge ms cs s).1
unfolding relay
relay-append merge [] ns cs s = refl
relay-append merge (m ∷ ms) ns cs s = relay-append merge ms ns _ _
