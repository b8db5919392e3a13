-- ===== src/Peers/Located.antt =====
-- Where a peer stands in the list.
use blockcore_gateway.Common.{
  String, Option, none, some, List, [], ◌∷◌, ◌++◌, ◌≡◌, refl, ap, ◌≢◌, ◌⊎◌, inl, inr, arith, All,
  length, opt_eq, opt_eq_iff, Bool-cases,
}
use blockcore_gateway.Peers.{Data, HubEvent, same_id, find_index}

-- An event that carries data with the identity `i`.
abbrev pub HasId : Option String → HubEvent → Type 0
HasId i e = (o : String) × (e.info ≡ some (record { id = i; other = o }))

-- An event with data, which has another identity.
abbrev pub HasOtherId : Option String → HubEvent → Type 0
HasOtherId i e = (d : Data) × (e.info ≡ some d) × (d.id ≢ i)

abbrev pub HasData : HubEvent → Type 0
HasData e = (d : Data) × (e.info ≡ some d)

-- The first peer with the identity `i`, and the peers on both sides.
pub record Located (i : Option String) (ps : List HubEvent) : Type 0 where
  pub before : List HubEvent
  pub peer : HubEvent
  pub behind : List HubEvent
  pub parts : ps ≡ before ++ peer ∷ behind
  pub found : HasId i peer
  pub others : All (HasOtherId i) before

-- Every list of peers with data holds the identity, or nowhere.
pub locate :
    (i : Option String) (ps : List HubEvent) → All HasData ps → Located i ps ⊎ All (HasOtherId i) ps
locate i [] h = inr tt
locate i (p ∷ ps) ((d, e), h) = elim (Bool-cases (opt_eq d.id i)) [
  | inl same ↦ inl (record {
    before = [];
    peer = p;
    behind = ps;
    parts = refl;
    found = (d.other, ground (arith, opt_eq_iff d.id i));
    others = tt;
  })
  | inr other ↦ elim (locate i ps h) [
    | inl l ↦ inl (record {
      before = p ∷ l.before;
      peer = l.peer;
      behind = l.behind;
      parts = ap (p ∷◌) l.parts;
      found = l.found;
      others = ((d, e, ground (arith, opt_eq_iff d.id i)), l.others);
    })
    | inr none_there ↦ inr ((d, e, ground (arith, opt_eq_iff d.id i)), none_there)
  ]
]

pub find_index-located :
    (i : Option String) (message : HubEvent) (before : List HubEvent) (peer : HubEvent)
    (behind : List HubEvent)
    → HasId i message
    → HasId i peer
    → All (HasOtherId i) before
    → find_index message (before ++ peer ∷ behind) ≡ some (some (length before))
unfolding find_index same_id
find_index-located i message [] peer behind (o, m) (q, e) h = ground (arith, opt_eq_iff i i)
find_index-located i message (p ∷ ps) peer behind m f ((d, e, ne), h) =
    ground (arith, opt_eq_iff d.id i, find_index-located i message ps peer behind m f h)

pub find_index-unknown :
    (i : Option String) (message : HubEvent) (ps : List HubEvent)
    → HasId i message
    → All (HasOtherId i) ps
    → find_index message ps ≡ some none
unfolding find_index same_id
find_index-unknown i message [] m h = refl
find_index-unknown i message (p ∷ ps) m ((d, e, ne), h) =
    ground (arith, opt_eq_iff d.id i, find_index-unknown i message ps m h)
