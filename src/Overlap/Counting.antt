-- ===== src/Overlap/Counting.antt =====
-- How many entries and threads a hub has.
use blockcore_gateway.Common.{
  ℕ, zero, suc, ◌+◌, ◌≤◌, ◌≡◌, String, some, List, [], ◌∷◌, ◌++◌, str_eq, get_elem?, set, arith,
  true, false, Bool, refl,
}
use blockcore_gateway.Overlap.{looking, adding, passed, Handling, is_listed, remove_id}

abbrev pub one_if : Bool → ℕ
one_if true = 1
one_if false = 0

module _ {ℓ} {A : Type ℓ} (f : A → ℕ) where
  abbrev pub total : List A → ℕ
  total [] = 0
  total (x ∷ xs) = f x + total xs

  pub total-append : (xs ys : List A) → total (xs ++ ys) ≡ total xs + total ys
  total-append [] ys = omega arith
  total-append (x ∷ xs) ys = omega (arith, total-append xs ys)

  -- A write takes away what stood there.
  pub total-set :
      (xs : List A) (i : ℕ) (x y : A)
      → get_elem? xs i ≡ some x
      → total (set xs i y) + f x ≡ total xs + f y
  total-set [] i x y e = cc
  total-set (z ∷ xs) zero x y e = ground arith
  total-set (z ∷ xs) (suc i) x y e = omega (arith, total-set xs i x y e)

-- The entries of a hub.
abbrev pub copies : String → List String → ℕ
copies id = total (λ x. one_if (str_eq x id))

-- Whether a thread handles a message of the hub, and whether it is between the two steps, or before them as well.
abbrev pub about : String → Handling → ℕ
about id h = one_if (str_eq h.id id)

abbrev pub adds : String → Handling → ℕ
adds id h = elim h.stage [ looking ↦ 0 | adding ↦ about id h | passed ↦ 0 ]

abbrev pub busy : String → Handling → ℕ
busy id h = elim h.stage [ looking ↦ about id h | adding ↦ about id h | passed ↦ 0 ]

abbrev pub looks : String → Handling → ℕ
looks id h = elim h.stage [ looking ↦ about id h | adding ↦ 0 | passed ↦ 0 ]

pub copies-is_listed :
    (id : String) (ids : List String) → is_listed id ids ≡ false → copies id ids ≡ 0
unfolding is_listed
copies-is_listed id [] e = refl
copies-is_listed id (x ∷ xs) e = ground (arith, copies-is_listed id xs)

pub copies-remove_id :
    (id other : String) (ids : List String) → copies id (remove_id other ids) ≤ copies id ids
unfolding remove_id
copies-remove_id id other [] = omega arith
copies-remove_id id other (x ∷ xs) = ground (arith, copies-remove_id id other xs)
