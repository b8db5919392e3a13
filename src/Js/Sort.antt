-- ===== src/Js/Sort.antt =====
-- `Array.prototype.sort` with the comparator of the explorer's lists, which puts the larger key
-- first. The language fixes the result: it is the stable one.
use mathlib.Core.List.{Perm}
use mathlib.Core.List.Perm
use blockcore_gateway.Common.{
  ℕ, ◌≤◌, ◌≡◌, refl, List, [], ◌∷◌, ltb, ◌==◌, if◌then◌else◌, arith, All, filter_by, Bool-cases,
  inl, inr,
}

module _ {ℓ} {A : Type ℓ} (key : A → ℕ) where
  insert : A → List A → List A
  insert x [] = x ∷ []
  insert x (y ∷ ys) = if ltb (key x) (key y) then y ∷ insert x ys else x ∷ y ∷ ys

  unfoldable pub sort_desc : List A → List A
  unfolding insert
  sort_desc [] = []
  sort_desc (x ∷ xs) = insert x (sort_desc xs)

  -- No key is larger than one further to the left.
  abbrev pub IsDescending : List A → Type 0
  IsDescending [] = Unit
  IsDescending (x ∷ xs) = All (λ y. key y ≤ key x) xs × IsDescending xs

  insert-perm : (x : A) (ys : List A) → Perm (insert x ys) (x ∷ ys)
  unfolding insert
  insert-perm x [] = Perm.refl _
  insert-perm x (y ∷ ys) = elim (Bool-cases (ltb (key x) (key y))) [
    | inl e ↦ rw e (Perm.trans (Perm.cons y (insert-perm x ys)) (Perm.swap x y ys))
    | inr e ↦ rw e (Perm.refl _)
  ]

  pub sort_desc-perm : (xs : List A) → Perm (sort_desc xs) xs
  unfolding sort_desc
  sort_desc-perm [] = Perm.refl _
  sort_desc-perm (x ∷ xs) =
      Perm.trans (insert-perm x (sort_desc xs)) (Perm.cons x (sort_desc-perm xs))

  All-le_trans : (m n : ℕ) (xs : List A) → m ≤ n → All (λ y. key y ≤ m) xs → All (λ y. key y ≤ n) xs
  All-le_trans m n [] h a = tt
  All-le_trans m n (x ∷ xs) h (p, a) = (omega arith, All-le_trans m n xs h a)

  insert-All :
      (n : ℕ) (x : A) (ys : List A)
      → key x ≤ n
      → All (λ y. key y ≤ n) ys
      → All (λ y. key y ≤ n) (insert x ys)
  unfolding insert
  insert-All n x [] h a = (h, tt)
  insert-All n x (y ∷ ys) h (p, a) = ground (arith, insert-All n x ys h a)

  insert-IsDescending : (x : A) (ys : List A) → IsDescending ys → IsDescending (insert x ys)
  unfolding insert
  insert-IsDescending x [] d = (tt, tt)
  insert-IsDescending x (y ∷ ys) (a, d) =
      ground (
        arith,
        insert-IsDescending x ys d,
        insert-All (key y) x ys,
        All-le_trans (key y) (key x) ys,
      )

  pub sort_desc-IsDescending : (xs : List A) → IsDescending (sort_desc xs)
  unfolding sort_desc
  sort_desc-IsDescending [] = tt
  sort_desc-IsDescending (x ∷ xs) = insert-IsDescending x (sort_desc xs) (sort_desc-IsDescending xs)

  -- The items with the key `k`, in their order.
  abbrev pub with_key : ℕ → List A → List A
  with_key k = filter_by (λ x. key x == k)

  insert-with_key : (k : ℕ) (x : A) (ys : List A) → with_key k (insert x ys) ≡ with_key k (x ∷ ys)
  unfolding insert
  insert-with_key k x [] = refl
  insert-with_key k x (y ∷ ys) = ground (arith, insert-with_key k x ys)

  pub sort_desc-with_key : (k : ℕ) (xs : List A) → with_key k (sort_desc xs) ≡ with_key k xs
  unfolding sort_desc
  sort_desc-with_key k [] = refl
  sort_desc-with_key k (x ∷ xs) =
      ground (arith, insert-with_key k x (sort_desc xs), sort_desc-with_key k xs)
