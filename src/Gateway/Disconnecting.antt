-- ===== src/Gateway/Disconnecting.antt =====
-- What is left after a client has gone.
use blockcore_gateway.Common.{
  ℕ, ◌≤◌, ◌≡◌, refl, ap, ◌∙◌, none, some, List, [], ◌∷◌, ◌++◌, filter_by, length, arith,
  Option-cases, Bool-cases, inl, inr,
}
use blockcore_gateway.Gateway.{
  HubInfo, disconnected, Gateway, has_client, get_connection, remove_connection, close, disconnect,
}
use blockcore_gateway.Gateway.Sending.{receivers, broadcast_tcp-receivers}

-- A client that is known is taken off the list and closed, and the clients of the other connections that are
-- still connected are told its id, each once; nothing is sent by UDP.
pub disconnect-known :
    (c : ℕ) (g : Gateway) (x : HubInfo)
    → get_connection c g.connections ≡ some x
    → let rest = remove_connection c g.connections in
      let opened = close c g.opened in
      disconnect c g ≡ record g {
        connections = rest;
        opened = opened;
        sent_tcp = g.sent_tcp ++ receivers opened (disconnected x.id) rest;
      }
unfolding disconnect
disconnect-known c g x e = rw (e, disconnect) (broadcast_tcp-receivers _ _)

-- How many connections have the client.
abbrev pub uses : ℕ → List HubInfo → ℕ
uses c xs = length (filter_by (has_client c) xs)

pub get_connection-uses : (c : ℕ) (xs : List HubInfo) → uses c xs ≡ 0 → get_connection c xs ≡ none
unfolding get_connection
get_connection-uses c [] h = refl
get_connection-uses c (x ∷ xs) h = elim (Bool-cases (has_client c x)) [
  | inl e ↦ absurd (ground arith)
  | inr e ↦ ground (arith, get_connection-uses c xs)
]

uses-remove_connection :
    (c : ℕ) (xs : List HubInfo) → uses c xs ≤ 1 → uses c (remove_connection c xs) ≡ 0
unfolding remove_connection
uses-remove_connection c [] h = refl
uses-remove_connection c (x ∷ xs) h = elim (Bool-cases (has_client c x)) [
  | inl e ↦ ground arith
  | inr e ↦ ground (arith, uses-remove_connection c xs)
]

pub disconnect-unknown :
    (c : ℕ) (g : Gateway) → get_connection c g.connections ≡ none → disconnect c g ≡ g
unfolding disconnect
disconnect-unknown c g e = rw (e, disconnect) refl

connections-disconnect :
    (c : ℕ) (g : Gateway) (x : HubInfo)
    → get_connection c g.connections ≡ some x
    → (disconnect c g).connections ≡ remove_connection c g.connections
connections-disconnect c g x e = ap (λ h. h.connections) (disconnect-known c g x e)

-- The worker of a client disconnects it after an exception and again when its loop ends: where at most one
-- connection has the client, the second call changes nothing and tells nobody.
pub disconnect-disconnect :
    (c : ℕ) (g : Gateway)
    → uses c g.connections ≤ 1
    → disconnect c (disconnect c g) ≡ disconnect c g
disconnect-disconnect c g h = elim (Option-cases (get_connection c g.connections)) [
  | inl e ↦ ap (disconnect c) (disconnect-unknown c g e)
  | inr (x, e) ↦ disconnect-unknown c (disconnect c g) (
      ap (get_connection c) (connections-disconnect c g x e)
      ∙ get_connection-uses c _ (uses-remove_connection c g.connections h))
]
