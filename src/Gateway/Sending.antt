-- ===== src/Gateway/Sending.antt =====
-- Who gets a broadcast.
use mathlib.Core.List.{append-nil, append_assoc}
use blockcore_gateway.Common.{
  ℕ, ◌≡◌, sym, ap, ◌∙◌, Option, none, some, List, [], ◌∷◌, ◌++◌, if◌then◌else◌, filter_by, arith,
  Option-cases, inl, inr,
}
use blockcore_gateway.Gateway.{
  HubInfo, Entity, Gateway, is_tcp, get_broadcast_connections, connected, send_tcp, receive_udp,
  send_udp, send_all_tcp, send_all_udp, broadcast_tcp, broadcast_udp,
}

abbrev pub receiver : List ℕ → Entity → Option ℕ → List (ℕ × Entity)
receiver opened e none = []
receiver opened e (some c) = if connected c opened then (c, e) ∷ [] else []

-- The connected clients of some connections, in their order, each with what it gets.
abbrev pub receivers : List ℕ → Entity → List HubInfo → List (ℕ × Entity)
receivers opened e [] = []
receivers opened e (x ∷ xs) = receiver opened e x.client ++ receivers opened e xs

pub send_tcp-receiver :
    (e : Entity) (o : Option ℕ) (g : Gateway)
    → send_tcp e o g ≡ record g { sent_tcp = g.sent_tcp ++ receiver g.opened e o }
unfolding send_tcp
send_tcp-receiver e none g = ap (λ s. record g { sent_tcp = s }) (sym (append-nil g.sent_tcp))
send_tcp-receiver e (some c) g = ground (arith, append-nil g.sent_tcp)

-- A connection without a client changes nothing, whether it is filtered out or not.
send_all_tcp-cons :
    (e : Entity) (x : HubInfo) (xs : List HubInfo) (g : Gateway)
    → send_all_tcp e (filter_by is_tcp (x ∷ xs)) g
      ≡ send_all_tcp e (filter_by is_tcp xs) (send_tcp e x.client g)
unfolding send_all_tcp send_tcp
send_all_tcp-cons e x xs g = elim (Option-cases x.client) [
  | inl n ↦ ground arith
  | inr (c, n) ↦ ground arith
]

sent_first :
    (e : Entity) (x : HubInfo) (xs : List HubInfo) (g : Gateway)
    → (let h = send_tcp e x.client g in
        record h { sent_tcp = h.sent_tcp ++ receivers h.opened e xs })
      ≡ record g { sent_tcp = g.sent_tcp ++ receivers g.opened e (x ∷ xs) }
sent_first e x xs g =
    ap (λ (h : Gateway). record h { sent_tcp = h.sent_tcp ++ receivers h.opened e xs })
      (send_tcp-receiver e x.client g)
    ∙ ap (λ s. record g { sent_tcp = s })
        (append_assoc g.sent_tcp (receiver g.opened e x.client) (receivers g.opened e xs))

send_all_tcp-receivers :
    (e : Entity) (xs : List HubInfo) (g : Gateway)
    → send_all_tcp e (filter_by is_tcp xs) g
      ≡ record g { sent_tcp = g.sent_tcp ++ receivers g.opened e xs }
unfolding send_all_tcp
send_all_tcp-receivers e [] g = ap (λ s. record g { sent_tcp = s }) (sym (append-nil g.sent_tcp))
send_all_tcp-receivers e (x ∷ xs) g =
    send_all_tcp-cons e x xs g
    ∙ send_all_tcp-receivers e xs (send_tcp e x.client g)
    ∙ sent_first e x xs g

-- The same for connections of which some may have no client.
pub send_all_tcp-all :
    (e : Entity) (xs : List HubInfo) (g : Gateway)
    → send_all_tcp e xs g ≡ record g { sent_tcp = g.sent_tcp ++ receivers g.opened e xs }
unfolding send_all_tcp
send_all_tcp-all e [] g = ap (λ s. record g { sent_tcp = s }) (sym (append-nil g.sent_tcp))
send_all_tcp-all e (x ∷ xs) g = send_all_tcp-all e xs (send_tcp e x.client g) ∙ sent_first e x xs g

-- A broadcast by TCP sends to exactly the clients of the connections that are connected, in the order of the
-- connections, and changes nothing else.
pub broadcast_tcp-receivers :
    (e : Entity) (g : Gateway)
    → broadcast_tcp e g ≡ record g { sent_tcp = g.sent_tcp ++ receivers g.opened e g.connections }
unfolding broadcast_tcp get_broadcast_connections
broadcast_tcp-receivers e g = send_all_tcp-receivers e g.connections g

abbrev pub each_to {ℓ} : {A : Type ℓ} → ℕ → Entity → List A → List (ℕ × Entity)
each_to endpoint e [] = []
each_to endpoint e (x ∷ xs) = (endpoint, e) ∷ each_to endpoint e xs

send_all_udp-each_to :
    (e : Entity) (xs : List HubInfo) (g : Gateway)
    → send_all_udp e xs g ≡ record g { sent_udp = g.sent_udp ++ each_to g.udp_endpoint e xs }
unfolding send_all_udp send_udp
send_all_udp-each_to e [] g = ground (arith, append-nil g.sent_udp)
send_all_udp-each_to e (x ∷ xs) g =
    send_all_udp-each_to e xs _ ∙ ap (λ s. record g { sent_udp = s }) (append_assoc g.sent_udp _ _)

-- A broadcast by UDP after a datagram has come in: one datagram is sent for each connection, and all of them go to
-- the sender of that one, whatever endpoints the connections have.
pub broadcast_udp-each_to :
    (e : Entity) (sender : ℕ) (g : Gateway)
    → broadcast_udp e (receive_udp sender g)
      ≡ record g { udp_endpoint = sender; sent_udp = g.sent_udp ++ each_to sender e g.connections }
unfolding broadcast_udp get_broadcast_connections receive_udp
broadcast_udp-each_to e sender g = send_all_udp-each_to e g.connections (receive_udp sender g)
