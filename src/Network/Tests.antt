-- ===== src/Network/Tests.antt =====
-- Three peers of two versions, and an update whose second download fails.
use mathlib.Core.List.{Perm}
use blockcore_gateway.Common.{◌≡◌, refl, some, List, [], ◌∷◌, map}
use blockcore_gateway.Js.Value.{Value, obj, field, end}
use blockcore_gateway.Network.{Peer, NetworkPage, group_peers, unique_from, member}
use blockcore_gateway.Network.Groups.{all_peers, group_peers-Perm}

abbrev three : List Peer
three =
    record { sub_ver = some "a"; other = "1" }
    ∷ record { sub_ver = some "b"; other = "2" }
    ∷ record { sub_ver = some "a"; other = "3" }
    ∷ []

group_peers-Perm_example : Perm (all_peers (group_peers three)) three
group_peers-Perm_example = group_peers-Perm three

two_groups : map (λ g. g.version) (group_peers three) ≡ some "a" ∷ some "b" ∷ []
unfolding group_peers unique_from member
two_groups = refl

abbrev shown : NetworkPage
shown = record {
  info = Value.undefined;
  node = Value.undefined;
  blockchain = Value.undefined;
  network = Value.undefined;
  configuration = Value.undefined;
  consensus = Value.undefined;
  peers = some (group_peers three);
}

abbrev info : Value
info = obj (field "node" (obj end) end)
