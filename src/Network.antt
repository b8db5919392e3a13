-- ===== src/Network.antt =====
-- The page of the network, which groups the node's peers by their version:
-- src/Blockcore.Hub/ClientApp/src/app/network/network.component.ts.
pub mod Groups
pub mod Update
mod Tests
use blockcore_gateway.Common.{
  String, Bool, true, false, Option, none, some, List, [], ◌∷◌, ◌++◌, map, filter_by, opt_eq, ◌||◌,
  if◌then◌else◌,
}
use blockcore_gateway.Js.Value.{Value, get}
use blockcore_gateway.Api.{Error, Result, ok, err, read, optional_get}

-- `sub_ver` is `none` where the property is missing; `other` stands for the rest, which is only shown.
pub record Peer : Type 0 where
  pub sub_ver : Option String
  pub other : String

pub record Group : Type 0 where
  pub version : Option String
  pub peers : List Peer

pub record NetworkPage : Type 0 where
  pub info : Value
  pub node : Value
  pub blockchain : Value
  pub network : Value
  pub configuration : Value
  pub consensus : Value
  pub peers : Option (List Group)

unfoldable pub member : Option String → List (Option String) → Bool
member v [] = false
member v (w ∷ ws) = opt_eq v w || member v ws

-- `[...new Set(list)]`: the first occurrences; `seen` are the values that are in the set already.
unfoldable pub unique_from : List (Option String) → List (Option String) → List (Option String)
unique_from seen [] = []
unique_from seen (v ∷ vs) = elim (member v seen) [
  | true ↦ unique_from seen vs
  | false ↦ v ∷ unique_from (v ∷ seen) vs
]

unfoldable pub of_version : List Peer → Option String → List Peer
of_version list version = filter_by (λ y. opt_eq y.sub_ver version) list

-- `getPeers`, behind its download.
unfoldable pub group_peers : List Peer → List Group
group_peers list =
    map (λ version. record { version = version; peers = of_version list version })
      (unique_from [] (map (λ peer. peer.sub_ver) list))

-- What `update` leaves behind, and the exception that it ends with, if any.
abbrev pub Outcome : Type 0
Outcome = NetworkPage × Option Error

set_node : Value → Value → NetworkPage → Outcome
set_node info n p = elim (read "blockchain" n) [
  | err x ↦ (p, some x)
  | ok chain ↦ (
    record p {
      blockchain = chain;
      network = get "network" n;
      configuration = get "configuration" info;
      consensus = optional_get "consensus" (get "configuration" info);
    },
    none,
  )
]

set_info : Result Value → NetworkPage → Outcome
unfolding set_node
set_info (err x) p = (p, some x)
set_info (ok info) p = elim (read "node" info) [
  | err x ↦ (record p { info = info }, some x)
  | ok n ↦ set_node info n (record p { info = info; node = n })
]

set_peers : Result (List Peer) → NetworkPage → Outcome
set_peers (err x) p = (p, some x)
set_peers (ok list) p = (record p { peers = some (group_peers list) }, none)

abbrev and_then : Outcome → (NetworkPage → Outcome) → Outcome
and_then (p, none) f = f p
and_then (p, some e) f = (p, some e)

-- `update`, given the two downloads.
pub update : Result Value → Result (List Peer) → NetworkPage → Outcome
unfolding set_info set_peers
update info list p = and_then (set_info info p) (set_peers list)
