-- ===== src/Arrival/Listed.antt =====
-- A hub that joins the gateway is on the lists of the other hubs and of their clients.
use blockcore_gateway.Common.{
  ℕ, String, ◌≡◌, subst, sym, true, Option, some, List, [], ◌∷◌, ◌++◌, All, All-append,
  Option-cases, Bool-cases, inl, inr, arith, str_eq, str_eq_iff, none,
}
use blockcore_gateway.Peers.{PeerService, new}
use blockcore_gateway.Gateway.{HubInfo, Entity, Gateway, connected}
use blockcore_gateway.Gateway.Disconnecting.{uses}
use blockcore_gateway.Gateway.Joining.{InfoMessage, ProtocolType, enrol, process_info}
use blockcore_gateway.Relay.{
  Connection, Told, info, handle, relay, get_connection, update_connection,
}
use blockcore_gateway.Relay.InStep.{InStep}
use blockcore_gateway.Relay.Following.{StaysConnected, relay-InStep}
use blockcore_gateway.Departure.{inbox}
use blockcore_gateway.Departure.Inboxes.{relay-append}
use blockcore_gateway.Arrival.Enrolled.{process_info-inbox}

get_connection-added :
    (m : Connection) (cs : List Connection)
    → get_connection m.id cs ≡ none
    → get_connection m.id (cs ++ m ∷ []) ≡ some m
unfolding get_connection
get_connection-added m [] e = ground (arith, str_eq_iff m.id m.id)
get_connection-added m (c ∷ cs) e = ground (arith, get_connection-added m cs)

module _ (merge : String → String → String) where
  get_connection-updated :
      (m : Connection) (cs : List Connection) (c : Connection)
      → get_connection m.id cs ≡ some c
      → (d : Connection) × (get_connection m.id (update_connection merge m cs) ≡ some d)
  unfolding get_connection update_connection
  get_connection-updated m [] c e = absurd (ground arith)
  get_connection-updated m (b ∷ bs) c e = elim (Bool-cases (str_eq b.id m.id)) [
    | inl h ↦ (record b { other = merge b.other m.other }, ground arith)
    | inr h ↦ let (d, f) = get_connection-updated m bs c (ground arith) in (d, ground arith)
  ]

  handle-info_listed :
      (m : Connection) (cs : List Connection)
      → (d : Connection) × (get_connection m.id (handle merge (info m) cs).0 ≡ some d)
  unfolding handle
  handle-info_listed m cs = elim (Option-cases (get_connection m.id cs)) [
    | inl e ↦ (m, rw (e, handle) (get_connection-added m cs e))
    | inr (c, e) ↦ let (d, f) = get_connection-updated m cs c e in (d, rw (e, handle) f)
  ]

  relay-info :
      (m : Connection) (cs : List Connection) (s : PeerService)
      → (d : Connection) × (get_connection m.id (relay merge (info m ∷ []) cs s).0 ≡ some d)
  unfolding relay
  relay-info m cs s = handle-info_listed m cs

  -- A hub that had no connections at first, with a client that had no peers, has been told `ms`, in which no connection
  -- ends. When another hub tells the gateway of itself, if one connection of the gateway has the client `d` of the first
  -- one then and it is connected, what the gateway sends by TCP puts the other hub on its list, or leaves it there; and
  -- its client lists the hubs of the list, one peer for each and in their order.
  pub process_info-listed :
      (rest : HubInfo → String) (ms : List Told) (protocol : ProtocolType) (m : InfoMessage)
      (endpoint client : Option ℕ) (g : Gateway) (id : String) (d : ℕ)
      → All StaysConnected ms
      → m.id ≡ some id
      → uses d (enrol m endpoint client g.connections) ≡ 1
      → connected d g.opened ≡ true
      → (sent : List (ℕ × Entity)) × ((process_info protocol m endpoint client g).sent_tcp
          ≡ g.sent_tcp ++ sent)
        × (let after_it = relay merge (ms ++ inbox rest d sent) [] new in
            ((c : Connection) × (get_connection id after_it.0 ≡ some c))
            × InStep after_it.0 after_it.1.peers)
  process_info-listed rest ms protocol m endpoint client g id d stays named one open_there =
      let (sent, other_, sent_so, found) =
        process_info-inbox rest d protocol m endpoint client g id named one open_there in
      let news : Connection = record { id = id; other = other_ } in
      (
        sent,
        sent_so,
        subst
            (λ ns.
              let after_it = relay merge (ms ++ ns) [] new in
              ((c : Connection) × (get_connection id after_it.0 ≡ some c))
              × InStep after_it.0 after_it.1.peers)
            (sym found)
            (
              subst (λ l. (c : Connection) × (get_connection id l.0 ≡ some c))
                  (sym (relay-append merge ms (info news ∷ []) [] new))
                  (relay-info news (relay merge ms [] new).0 (relay merge ms [] new).1),
              relay-InStep merge (ms ++ info news ∷ []) [] new
                  (All-append StaysConnected ms (info news ∷ []) stays (tt, tt)) tt,
            ),
      )
