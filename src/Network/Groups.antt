-- ===== src/Network/Groups.antt =====
-- The groups of a list of peers.
use mathlib.Core.List.{Perm, perm_middle, map}
use mathlib.Core.List.Perm
use blockcore_gateway.Common.{
  String, ◌≡◌, ◌⊎◌, inl, inr, refl, sym, ap, subst, Bool, true, false, Option, List, [], ◌∷◌, ◌++◌,
  filter_by, opt_eq, opt_eq_iff, ◌||◌, arith, All, Bool-cases,
}
use blockcore_gateway.Network.{Peer, Group, member, unique_from, of_version, group_peers}

-- The peers of all groups.
abbrev pub all_peers : List Group → List Peer
all_peers [] = []
all_peers (g ∷ gs) = g.peers ++ all_peers gs

-- No value stands twice.
abbrev pub IsDistinct : List (Option String) → Type 0
IsDistinct [] = Unit
IsDistinct (v ∷ vs) = (member v vs ≡ false) × IsDistinct vs

-- Two tests that no item passes together pick what either of them picks.
filter-disjoint :
    {A : Type 0} (p q : A → Bool) (xs : List A)
    → ((x : A) → p x ≡ true → q x ≡ false)
    → Perm (filter_by p xs ++ filter_by q xs) (filter_by (λ x. p x || q x) xs)
filter-disjoint p q [] h = Perm.refl _
filter-disjoint p q (x ∷ xs) h = elim (Bool-cases (p x)) [
  | inl e ↦ rw (e, h x e, filter_by) (Perm.cons x (filter-disjoint p q xs h))
  | inr e ↦ elim (Bool-cases (q x)) [
    | inl f ↦
        rw (e, f, filter_by)
          (Perm.trans (perm_middle (filter_by p xs) (filter_by q xs))
            (Perm.cons x (filter-disjoint p q xs h)))
    | inr f ↦ rw (e, f, filter_by) (filter-disjoint p q xs h)
  ]
]

filter-all :
    {A : Type 0} (p : A → Bool) (xs : List A) → All (λ x. p x ≡ true) xs → filter_by p xs ≡ xs
filter-all p [] h = refl
filter-all p (x ∷ xs) (e, h) = ground (arith, filter-all p xs h)

filter-none :
    {A : Type 0} (p : A → Bool) (xs : List A) → ((x : A) → p x ≡ false) → filter_by p xs ≡ []
filter-none p [] h = refl
filter-none p (x ∷ xs) h = ground (arith, h x, filter-none p xs h)

group : List Peer → Option String → Group
group list version = record { version = version; peers = of_version list version }

-- The groups of distinct versions hold the peers of those versions.
all_peers-map :
    (list : List Peer) (vs : List (Option String))
    → IsDistinct vs
    → Perm (all_peers (map (group list) vs)) (filter_by (λ p. member p.sub_ver vs) list)
unfolding group of_version member
all_peers-map list [] d = rw (filter-none (λ p. false) list (λ x. refl)) (Perm.refl _)
all_peers-map list (v ∷ vs) (n, d) =
    Perm.trans (Perm.append_left (of_version list v) (all_peers-map list vs d)) (
      filter-disjoint (λ p. opt_eq p.sub_ver v) (λ p. member p.sub_ver vs) list
        (λ x e. ground (arith, opt_eq_iff x.sub_ver v)))

unique_from-IsDistinct :
    (seen vs : List (Option String))
    → IsDistinct (unique_from seen vs)
      × ((v : Option String) → member v seen ≡ true → member v (unique_from seen vs) ≡ false)
unfolding unique_from member
unique_from-IsDistinct seen [] = (tt, λ v e. refl)
unique_from-IsDistinct seen (v ∷ vs) = elim (Bool-cases (member v seen)) [
  | inl e ↦ rw (e, unique_from) (unique_from-IsDistinct seen vs)
  | inr e ↦
      rw (e, unique_from)
        (let (d, n) = unique_from-IsDistinct (v ∷ seen) vs in
          (
            (n v (ground (arith, opt_eq_iff v v)), d),
            λ w f. ground (arith, opt_eq_iff w v, n w (ground (arith, opt_eq_iff w v))),
          ))
]

member-unique_from :
    (seen vs : List (Option String)) (v : Option String)
    → member v vs ≡ true
    → (member v seen ≡ true) ⊎ (member v (unique_from seen vs) ≡ true)
unfolding unique_from member
member-unique_from seen [] v h = inr h
member-unique_from seen (w ∷ vs) v h = elim (Bool-cases (member w seen)) [
  | inl e ↦ rw (e, unique_from) (ground (arith, opt_eq_iff v w, member-unique_from seen vs v))
  | inr e ↦ rw (e, unique_from) (ground (arith, opt_eq_iff v w, member-unique_from (w ∷ seen) vs v))
]

sub_versions : List Peer → List (Option String)
sub_versions = map (λ peer. peer.sub_ver)

All-member :
    (vs : List (Option String)) (list : List Peer)
    → ((v : Option String) → member v (sub_versions list) ≡ true → member v vs ≡ true)
    → All (λ p. member p.sub_ver vs ≡ true) list
unfolding sub_versions member
All-member vs [] h = tt
All-member vs (p ∷ list) h = (
  h p.sub_ver (ground (arith, opt_eq_iff p.sub_ver p.sub_ver)),
  All-member vs list (λ v e. h v (ground arith)),
)

-- Grouping loses no peer and shows none twice: the groups together are the list of peers, up to the order.
pub group_peers-Perm : (list : List Peer) → Perm (all_peers (group_peers list)) list
unfolding group_peers sub_versions group member
group_peers-Perm list =
    let vs = unique_from [] (sub_versions list) in
    subst (Perm (all_peers (map (group list) vs)))
      (filter-all _ list
        (All-member vs list (λ v e. ground (arith, member-unique_from [] (sub_versions list) v e))))
      (all_peers-map list vs (unique_from-IsDistinct [] (sub_versions list)).0)

versions-map :
    (list : List Peer) (vs : List (Option String)) → map (λ g. g.version) (map (group list) vs) ≡ vs
unfolding group
versions-map list [] = refl
versions-map list (v ∷ vs) = ap (v ∷◌) (versions-map list vs)

-- No two groups have the same version.
pub group_peers-IsDistinct :
    (list : List Peer) → IsDistinct (map (λ g. g.version) (group_peers list))
unfolding group_peers sub_versions group
group_peers-IsDistinct list =
    let vs = unique_from [] (sub_versions list) in
    subst IsDistinct (sym (versions-map list vs)) (unique_from-IsDistinct [] (sub_versions list)).0
