-- ===== src/Arrival/Enrolled.antt =====
-- What the gateway sends by TCP when a hub joins.
use mathlib.Core.List.{append-nil, append_assoc}
use blockcore_gateway.Common.{
  ℕ, String, ◌≡◌, refl, sym, ap, ◌∙◌, true, false, Option, none, some, List, [], ◌∷◌, ◌++◌,
  opt_eq_iff, arith, Option-cases, Bool-cases, inl, inr,
}
use blockcore_gateway.Gateway.{HubInfo, Entity, hub_info, other, Gateway, connected, send_udp}
use blockcore_gateway.Gateway.Sending.{
  receiver, receivers, send_tcp-receiver, broadcast_tcp-receivers,
}
use blockcore_gateway.Gateway.Joining.{
  InfoMessage, ProtocolType, tcp, udp, get_hub, add_or_update, enrol, test_udp, test_tcp, tell,
  greet, process_info,
}
use blockcore_gateway.Gateway.Told.{
  get_hub-change, get_hub-id, enrol-known, send_connections-to_each, greet-new, greet-old,
}
use blockcore_gateway.Gateway.Disconnecting.{uses}
use blockcore_gateway.Relay.{info}
use blockcore_gateway.Departure.{told_of, inbox}
use blockcore_gateway.Departure.Inboxes.{inbox-append, inbox-receivers}

get_hub-append :
    (id : Option String) (xs : List HubInfo) (x : HubInfo)
    → get_hub id xs ≡ none
    → x.id ≡ id
    → get_hub id (xs ++ x ∷ []) ≡ some x
unfolding get_hub
get_hub-append id [] x e same = ground (arith, opt_eq_iff x.id id)
get_hub-append id (y ∷ ys) x e same = ground (arith, opt_eq_iff y.id id, get_hub-append id ys x)

add_or_update-unknown :
    (m : InfoMessage) (xs : List HubInfo)
    → get_hub m.id xs ≡ none
    → get_hub m.id (add_or_update m xs)
      ≡ some (record {
        id = m.id;
        client = none;
        external_endpoint = m.external_endpoint;
        initialized = false;
      })
unfolding add_or_update
add_or_update-unknown m xs e = rw (e, add_or_update) (get_hub-append m.id xs _ e refl)

-- A hub that has sent its message is on the list.
pub enrol-found :
    (m : InfoMessage) (endpoint client : Option ℕ) (xs : List HubInfo)
    → (x : HubInfo) × (get_hub m.id (enrol m endpoint client xs) ≡ some x)
unfolding enrol
enrol-found m endpoint client xs = elim (Option-cases (get_hub m.id xs)) [
  | inl e ↦
      (_, get_hub-change m.id _ _ (add_or_update m xs) (λ y. refl) (add_or_update-unknown m xs e))
  | inr (x, e) ↦ let (y, found, same) = enrol-known m endpoint client xs x e in (y, found)
]

tell-sent_tcp : (x : HubInfo) (g : Gateway) → (tell x g).sent_tcp ≡ g.sent_tcp
unfolding tell
tell-sent_tcp x g = elim (Option-cases x.client) [
  | inl e ↦ rw (e, tell) refl
  | inr (d, e) ↦ elim (Option-cases x.external_endpoint) [
    | inl k ↦ rw (e, k, tell) refl
    | inr (p, k) ↦ rw (e, k, tell, send_connections-to_each g.connections (some p) g) refl
  ]
]

test_udp-sent_tcp :
    (protocol : ProtocolType) (x : HubInfo) (g : Gateway)
    → (test_udp protocol x g).sent_tcp ≡ g.sent_tcp
unfolding send_udp
test_udp-sent_tcp tcp x g = refl
test_udp-sent_tcp udp x g = elim (Option-cases x.external_endpoint) [
  | inl e ↦ ground arith
  | inr (p, e) ↦ ground arith
]

process_info-broadcast :
    (protocol : ProtocolType) (m : InfoMessage) (endpoint client : Option ℕ) (g : Gateway)
    (x : HubInfo)
    → get_hub m.id (enrol m endpoint client g.connections) ≡ some x
    → process_info protocol m endpoint client g
      ≡ greet protocol x (record g {
        connections = enrol m endpoint client g.connections;
        sent_tcp =
            g.sent_tcp ++ receivers g.opened (hub_info x) (enrol m endpoint client g.connections);
      })
unfolding process_info
process_info-broadcast protocol m endpoint client g x found =
    rw (found, process_info)
      (ap (greet protocol x) (
        broadcast_tcp-receivers (hub_info x)
          (record g { connections = enrol m endpoint client g.connections })))

module _ (rest : HubInfo → String) (d : ℕ) where
  inbox-other :
      (opened : List ℕ) (text : String) (o : Option ℕ)
      → inbox rest d (receiver opened (other text) o) ≡ []
  unfolding inbox told_of
  inbox-other opened text none = refl
  inbox-other opened text (some c) = ground arith

  tests_sent :
      (protocol : ProtocolType) (x : HubInfo) (g : Gateway)
      → (l : List (ℕ × Entity)) × ((test_tcp protocol x (test_udp protocol x g)).sent_tcp
          ≡ g.sent_tcp ++ l)
        × (inbox rest d l ≡ [])
  unfolding inbox
  tests_sent udp x g = ([], test_udp-sent_tcp udp x g ∙ sym (append-nil g.sent_tcp), refl)
  tests_sent tcp x g = (
    receiver g.opened (other "TCP Communication Test") x.client,
    ap (λ (h : Gateway). h.sent_tcp)
        (send_tcp-receiver (other "TCP Communication Test") x.client g),
    inbox-other g.opened "TCP Communication Test" x.client,
  )

  -- The greeting sends nothing by TCP that a hub acts on.
  greet-sent_tcp :
      (protocol : ProtocolType) (x : HubInfo) (g : Gateway)
      → (l : List (ℕ × Entity)) × ((greet protocol x g).sent_tcp ≡ g.sent_tcp ++ l)
        × (inbox rest d l ≡ [])
  unfolding inbox
  greet-sent_tcp protocol x g = elim (Bool-cases x.initialized) [
    | inl e ↦ (
      [],
      ap (λ (h : Gateway). h.sent_tcp) (greet-old protocol x g e) ∙ sym (append-nil g.sent_tcp),
      refl,
    )
    | inr e ↦
        let (l, sent, quiet) = tests_sent protocol x g in
        (
          l,
          ap (λ (h : Gateway). h.sent_tcp) (greet-new protocol x g e)
              ∙ tell-sent_tcp x (test_tcp protocol x (test_udp protocol x g))
              ∙ sent,
          quiet,
        )
  ]

  told_of-hub_info :
      (x : HubInfo) (id : String)
      → x.id ≡ some id
      → told_of rest (hub_info x) ≡ info (record { id = id; other = rest x }) ∷ []
  unfolding told_of
  told_of-hub_info x id e = ground (arith, e)

  -- What a hub with the client `d` finds when another one has sent its message: its entry, once.
  pub process_info-inbox :
      (protocol : ProtocolType) (m : InfoMessage) (endpoint client : Option ℕ) (g : Gateway)
      (id : String)
      → m.id ≡ some id
      → uses d (enrol m endpoint client g.connections) ≡ 1
      → connected d g.opened ≡ true
      → (sent : List (ℕ × Entity)) × (other_ : String) × ((process_info protocol m endpoint client
            g).sent_tcp
          ≡ g.sent_tcp ++ sent)
        × (inbox rest d sent ≡ info (record { id = id; other = other_ }) ∷ [])
  unfolding told_of
  process_info-inbox protocol m endpoint client g id named one open_there =
      let xs = enrol m endpoint client g.connections in
      let (x, found) = enrol-found m endpoint client g.connections in
      let h = record g {
        connections = xs;
        sent_tcp = g.sent_tcp ++ receivers g.opened (hub_info x) xs;
      } in
      let (l, greeted, quiet) = greet-sent_tcp protocol x h in
      (
        receivers g.opened (hub_info x) xs ++ l,
        rest x,
        ap (λ (k : Gateway). k.sent_tcp)
              (process_info-broadcast protocol m endpoint client g x found)
            ∙ greeted
            ∙ append_assoc g.sent_tcp (receivers g.opened (hub_info x) xs) l,
        inbox-append rest d (receivers g.opened (hub_info x) xs) l
            ∙ ap (inbox rest d (receivers g.opened (hub_info x) xs) ++◌) quiet
            ∙ append-nil (inbox rest d (receivers g.opened (hub_info x) xs))
            ∙ inbox-receivers rest d g.opened (hub_info x) xs one open_there
            ∙ told_of-hub_info x id (get_hub-id m.id x xs found ∙ named),
      )
