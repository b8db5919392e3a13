-- ===== src/Network/Update.antt =====
-- What an update of the page leaves behind.
use blockcore_gateway.Common.{◌≡◌, ◌⊎◌, inl, inr, refl, none, some, List, arith, Option-cases}
use blockcore_gateway.Js.Value.{Value}
use blockcore_gateway.Api.{Error, Result, ok, err}
use blockcore_gateway.Network.{
  Peer, NetworkPage, group_peers, set_info, set_peers, set_node, update,
}

set_info-peers : (info : Result Value) (p : NetworkPage) → (set_info info p).0.peers ≡ p.peers
unfolding set_info set_node
set_info-peers info p = ground arith

-- An update that throws keeps the peers that are shown, whatever it has replaced of the rest; one that does
-- not shows the groups of the list that it has downloaded.
pub update_outcome :
    (info : Result Value) (list : Result (List Peer)) (p : NetworkPage)
    → ((x : Error) × ((update info list p).1 ≡ some x) × ((update info list p).0.peers ≡ p.peers))
      ⊎ ((l : List Peer) × (list ≡ ok l)
          × ((update info list p).1 ≡ none)
          × ((update info list p).0.peers ≡ some (group_peers l)))
unfolding update set_peers
update_outcome info (err y) p = elim (Option-cases (set_info info p).1) [
  | inr (x, e) ↦ inl (x, ground arith, ground (arith, set_info-peers info p))
  | inl e ↦ inl (y, ground arith, ground (arith, set_info-peers info p))
]
update_outcome info (ok l) p = elim (Option-cases (set_info info p).1) [
  | inr (x, e) ↦ inl (x, ground arith, ground (arith, set_info-peers info p))
  | inl e ↦ inr (l, refl, ground arith, ground arith)
]
