-- ===== src/Departure/Followed.antt =====
-- A hub that leaves the gateway, as the other hubs and their clients see it.
use blockcore_gateway.Common.{
  ℕ, String, ◌≡◌, sym, ap, ◌∙◌, subst, true, Option, some, List, [], ◌∷◌, ◌++◌, All,
}
use blockcore_gateway.Peers.{new}
use blockcore_gateway.Gateway.{
  HubInfo, Entity, Gateway, connected, close, get_connection, remove_connection, disconnect,
}
use blockcore_gateway.Gateway.Sending.{receivers}
use blockcore_gateway.Gateway.Disconnecting.{uses, disconnect-known}
use blockcore_gateway.Relay.{Told, disconnected, relay}
use blockcore_gateway.Relay.InStep.{InStep, Holds}
use blockcore_gateway.Relay.Following.{StaysConnected, relay-InStep, relay-disconnected}
use blockcore_gateway.Departure.{told_of, inbox}
use blockcore_gateway.Departure.Inboxes.{inbox-receivers, relay-append}

module _ (rest : HubInfo → String) where
  told_of-disconnected :
      (o : Option String) (id : String)
      → o ≡ some id
      → told_of rest (Entity.disconnected o) ≡ disconnected id ∷ []
  unfolding told_of
  told_of-disconnected o id e = ap (λ i. told_of rest (Entity.disconnected i)) e

-- A hub that had no connections at first, with a client that had no peers, has been told `ms`, in which no connection
-- ends, and holds another hub, which leaves the gateway. If one connection of the gateway has the client `d` of the hub
-- and it is still connected, then what the gateway sends tells the hub of it once: the hub keeps the connections before
-- and behind the other one, and its client lists those before it only.
pub disconnect-followed :
    (rest : HubInfo → String) (merge : String → String → String) (ms : List Told) (id : String)
    (c d : ℕ) (g : Gateway) (x : HubInfo)
    → All StaysConnected ms
    → (k : Holds id (relay merge ms [] new).0) → get_connection c g.connections ≡ some x
    → x.id ≡ some id
    → uses d (remove_connection c g.connections) ≡ 1
    → connected d (close c g.opened) ≡ true
    → (sent : List (ℕ × Entity)) × ((disconnect c g).sent_tcp ≡ g.sent_tcp ++ sent)
      × (let after_it = relay merge (ms ++ inbox rest d sent) [] new in
          (after_it.0 ≡ k.before ++ k.behind) × InStep k.before after_it.1.peers)
disconnect-followed rest merge ms id c d g x stays k known named one still =
    let gone = remove_connection c g.connections in
    let opened = close c g.opened in
    let sent = receivers opened (Entity.disconnected x.id) gone in
    let told : inbox rest d sent ≡ disconnected id ∷ [] =
      inbox-receivers rest d opened (Entity.disconnected x.id) gone one still
      ∙ told_of-disconnected rest x.id id named in
    (
      sent,
      ap (λ (h : Gateway). h.sent_tcp) (disconnect-known c g x known),
      subst (λ l. (l.0 ≡ k.before ++ k.behind) × InStep k.before l.1.peers)
          (sym (
            relay-append merge ms (inbox rest d sent) [] new
            ∙ ap (λ ns. relay merge ns (relay merge ms [] new).0 (relay merge ms [] new).1) told))
          (relay-disconnected merge id (relay merge ms [] new).0 (relay merge ms [] new).1 k
            (relay-InStep merge ms [] new stays tt)),
    )
