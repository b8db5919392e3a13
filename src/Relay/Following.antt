-- ===== src/Relay/Following.antt =====
-- The client through what its hub is told.
use blockcore_gateway.Common.{
  String, ◌≡◌, ◌≢◌, ◌⊎◌, refl, sym, ap, ◌∙◌, subst, inl, inr, some, List, [], ◌∷◌, ◌++◌, All, arith,
  str_eq_iff,
}
use blockcore_gateway.Peers.{PeerService, on_event, after, run as run_events}
use blockcore_gateway.Peers.Located.{Located}
use blockcore_gateway.Peers.Handler.{on_event-removal, on_event-update}
use blockcore_gateway.Relay.{
  Connection, Told, info, disconnected, server_shutdown, found_endpoint, event_of, get_connection,
  remove_connection, merged, update_connection, handle, relay,
}
use blockcore_gateway.Relay.InStep.{
  InStep, Holds, holds, get_connection-unknown, get_connection-append, remove_connection-append,
  InStep-append_inv, InStep-append,
}

run_added :
    (c : Connection) (s : PeerService)
    → (run_events s (event_of "ConnectionAddedEvent" c ∷ [])).peers
      ≡ s.peers ++ event_of "ConnectionAddedEvent" c ∷ []
unfolding run_events on_event
run_added c s = refl

-- An update in its place.
run-event_of :
    (name id : String) (c : Connection) (s : PeerService)
    → (name ≡ "ConnectionUpdatedEvent") ⊎ (name ≡ "ConnectionStartedEvent")
    → c.id ≡ id
    → (l : Located (some id) s.peers)
    → (run_events s (event_of name c ∷ [])).peers ≡ l.before ++ event_of name c ∷ l.behind
unfolding run_events
run-event_of name id c s u same l =
    ap (λ t. (after s t).peers)
      (on_event-update (event_of name c) s (some id)
        (c.other, ap (λ i. some (record { id = some i; other = c.other })) same) u l)

run_removed :
    (id : String) (c : Connection) (s : PeerService)
    → c.id ≡ id
    → (l : Located (some id) s.peers)
    → (run_events s (event_of "ConnectionRemovedEvent" c ∷ [])).peers ≡ l.before
unfolding run_events
run_removed id c s same l =
    ap (λ t. (after s t).peers)
      (on_event-removal (event_of "ConnectionRemovedEvent" c) s (some id)
        (c.other, ap (λ i. some (record { id = some i; other = c.other })) same) refl l)

get_connection-held :
    (id : String) (cs : List Connection) (k : Holds id cs)
    → get_connection id cs ≡ some k.connection
get_connection-held id cs k =
    ap (get_connection id) k.whole
    ∙ get_connection-append id k.connection k.behind k.same k.before k.differ

abbrev pub StaysConnected : Told → Type 0
StaysConnected (info m) = Unit
StaysConnected (disconnected id) = ⊥
StaysConnected server_shutdown = ⊥
StaysConnected (found_endpoint id) = Unit

module _ (merge : String → String → String) where
  update_connection-append :
      (m c : Connection) (behind : List Connection)
      → c.id ≡ m.id
      → (before : List Connection) → All (λ d. d.id ≢ m.id) before
      → update_connection merge m (before ++ c ∷ behind) ≡ before ++ merged merge m c ∷ behind
  unfolding update_connection
  update_connection-append m c behind same [] n = ground (arith, str_eq_iff c.id m.id)
  update_connection-append m c behind same (b ∷ bs) (n, ns) =
      ground (arith, str_eq_iff b.id m.id, update_connection-append m c behind same bs ns)

  -- A peer that is replaced in place of its connection.
  InStep-replaced :
      (name id : String) (before : List Connection) (c d : Connection) (behind : List Connection)
      (s : PeerService)
      → (name ≡ "ConnectionUpdatedEvent") ⊎ (name ≡ "ConnectionStartedEvent")
      → c.id ≡ id
      → d.id ≡ id
      → All (λ d. d.id ≢ id) before
      → InStep (before ++ c ∷ behind) s.peers
      → InStep (before ++ d ∷ behind) (run_events s (event_of name d ∷ [])).peers
  InStep-replaced name id before c d behind s u same too n h =
      let (l, x, y) = InStep-append_inv id c behind same before s.peers n h in
      subst (InStep (before ++ d ∷ behind)) (sym (run-event_of name id d s u too l)) (
        InStep-append before (d ∷ behind) l.before (event_of name d ∷ l.behind) x
          ((d.other, refl), y))

  handle-info :
      (m : Connection) (cs : List Connection) (s : PeerService)
      → InStep cs s.peers
      → InStep (handle merge (info m) cs).0 (run_events s (handle merge (info m) cs).1).peers
  unfolding handle
  handle-info m cs s h = elim (holds m.id cs) [
    | inl k ↦
        rw
          (
            get_connection-held m.id cs k,
            handle,
            ap (update_connection merge m) k.whole
                ∙ update_connection-append m k.connection k.behind k.same k.before k.differ,
          )
          (InStep-replaced "ConnectionUpdatedEvent" m.id k.before k.connection
            (merged merge m k.connection) k.behind s (inl refl) k.same k.same k.differ
            (subst (λ xs. InStep xs s.peers) k.whole h))
    | inr n ↦
        rw (get_connection-unknown m.id cs n, handle, run_added m s)
          (InStep-append cs (m ∷ []) s.peers (event_of "ConnectionAddedEvent" m ∷ []) h
            ((m.other, refl), tt))
  ]

  handle-found_endpoint :
      (id : String) (cs : List Connection) (s : PeerService)
      → InStep cs s.peers
      → InStep
          (handle merge (found_endpoint id) cs).0
          (run_events s (handle merge (found_endpoint id) cs).1).peers
  unfolding handle run_events
  handle-found_endpoint id cs s h = elim (holds id cs) [
    | inl k ↦
        rw (get_connection-held id cs k, handle)
          (subst
            (λ xs.
              InStep xs (run_events s (event_of "ConnectionStartedEvent" k.connection ∷ [])).peers)
            (sym k.whole)
            (InStep-replaced "ConnectionStartedEvent" id k.before k.connection k.connection k.behind
              s (inr refl) k.same k.same k.differ (subst (λ xs. InStep xs s.peers) k.whole h)))
    | inr n ↦ rw (get_connection-unknown id cs n, handle) h
  ]

  handle-InStep :
      (m : Told) (cs : List Connection) (s : PeerService)
      → StaysConnected m
      → InStep cs s.peers
      → InStep (handle merge m cs).0 (run_events s (handle merge m cs).1).peers
  handle-InStep (info m) cs s u h = handle-info m cs s h
  handle-InStep (disconnected id) cs s u h = elim u [ ]
  handle-InStep server_shutdown cs s u h = elim u [ ]
  handle-InStep (found_endpoint id) cs s u h = handle-found_endpoint id cs s h

  -- As long as the hub is told of no disconnection and no shutdown, the client lists the connections of the hub, one peer for each
  -- and in their order, whatever it is told.
  pub relay-InStep :
      (ms : List Told) (cs : List Connection) (s : PeerService)
      → All StaysConnected ms
      → InStep cs s.peers
      → InStep (relay merge ms cs s).0 (relay merge ms cs s).1.peers
  unfolding relay
  relay-InStep [] cs s u h = h
  relay-InStep (m ∷ ms) cs s (u, us) h = relay-InStep ms _ _ us (handle-InStep m cs s u h)

  -- When one of the connections is ended, the hub keeps those before it and those behind it, and the client lists
  -- only those before it.
  pub relay-disconnected :
      (id : String) (cs : List Connection) (s : PeerService) (k : Holds id cs)
      → InStep cs s.peers
      → let after_it = relay merge (disconnected id ∷ []) cs s in
        (after_it.0 ≡ k.before ++ k.behind) × InStep k.before after_it.1.peers
  unfolding relay handle
  relay-disconnected id cs s k h =
      let (l, x, y) =
        InStep-append_inv id k.connection k.behind k.same k.before s.peers k.differ
          (subst (λ xs. InStep xs s.peers) k.whole h) in
      rw (get_connection-held id cs k, handle)
        (
          ap (remove_connection id) k.whole
              ∙ remove_connection-append id k.connection k.behind k.same k.before k.differ,
          subst (InStep k.before) (sym (run_removed id k.connection s k.same l)) x,
        )

  -- When the gateway shuts down, the hub has no connections left, and the client lists those that it had.
  relay-shutdown :
      (cs : List Connection) (s : PeerService)
      → let after_it = relay merge (server_shutdown ∷ []) cs s in
        (after_it.0 ≡ []) × (after_it.1.peers ≡ s.peers)
  unfolding relay handle run_events on_event
  relay-shutdown cs s = (refl, refl)
