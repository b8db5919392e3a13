-- ===== src/Js/Array.antt =====
-- `Array.prototype.splice` with one argument, an assignment to an element, and their laws. An
-- index is optional: `none` is the -1 that `findIndex` returns when nothing is found.
use blockcore_gateway.Common.{
  ℕ, ◌-◌, ◌≡◌, refl, ap, Option, none, some, List, [], ◌∷◌, ◌++◌, length, take, set, arith,
  length-append, length-take-le, length-set, All, All-take, All-set, ◌≤◌,
}

module _ {ℓ} {A : Type ℓ} where
  -- `xs.splice(i)` deletes everything from the index `i` on; from -1 on, the last element.
  unfoldable pub splice : Option ℕ → List A → List A
  splice none xs = take (length xs - 1) xs
  splice (some i) xs = take i xs

  -- `xs[i] = v`; at -1 this sets a property that is no element.
  unfoldable pub assign : Option ℕ → A → List A → List A
  assign none v xs = xs
  assign (some i) v xs = set xs i v

  pub take-append_length : (xs ys : List A) → take (length xs) (xs ++ ys) ≡ xs
  take-append_length [] ys = refl
  take-append_length (x ∷ xs) ys = ap (x ∷◌) (take-append_length xs ys)

  pub set-append_length :
      (xs ys : List A) (y v : A) → set (xs ++ y ∷ ys) (length xs) v ≡ xs ++ v ∷ ys
  set-append_length [] ys y v = refl
  set-append_length (x ∷ xs) ys y v = ap (x ∷◌) (set-append_length xs ys y v)

  -- An index that was not found makes `splice` drop the last element.
  pub splice-none_append : (xs : List A) (x : A) → splice none (xs ++ x ∷ []) ≡ xs
  unfolding splice
  splice-none_append xs x = rw (length_pred) (take-append_length xs (x ∷ []))
    where
      length_pred : length (xs ++ x ∷ []) - 1 ≡ length xs
      length_pred = omega (arith, length-append xs (x ∷ []))

module _ {ℓ κ} {A : Type ℓ} (P : A → Type κ) where
  pub All-splice : (i : Option ℕ) (xs : List A) → All P xs → All P (splice i xs)
  unfolding splice
  All-splice none xs h = All-take P (length xs - 1) xs h
  All-splice (some i) xs h = All-take P i xs h

  pub All-assign : (i : Option ℕ) (v : A) (xs : List A) → All P xs → P v → All P (assign i v xs)
  unfolding assign
  All-assign none v xs h p = h
  All-assign (some i) v xs h p = All-set P xs i v h p

module _ {ℓ} {A : Type ℓ} where
  pub length-splice-le : (i : Option ℕ) (xs : List A) → length (splice i xs) ≤ length xs
  unfolding splice
  length-splice-le none xs = length-take-le (length xs - 1) xs
  length-splice-le (some i) xs = length-take-le i xs

  pub length-assign : (i : Option ℕ) (v : A) (xs : List A) → length (assign i v xs) ≡ length xs
  unfolding assign
  length-assign none v xs = refl
  length-assign (some i) v xs = length-set xs i v
