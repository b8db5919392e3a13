-- ===== src/Js/Text/Search.antt =====
-- Where a code unit or a separator that does not occur in a text is found behind it.
use native.Mathlib.Nat.{zero-add, suc-add}
use mathlib.Core.List.{append-nil, append_assoc}
use blockcore_gateway.Common.{
  drop, ℕ, ◌+◌, true, false, none, some, List, [], ◌∷◌, ◌++◌, ◌≡◌, ◌≢◌, refl, length, arith, All,
  ◌↔◌,
}
use blockcore_gateway.Js.Text.{Text, equal, starts_with, index_of, split_from}

pub equal_iff : (s t : Text) → (equal s t ≡ true) ↔ (s ≡ t)
equal_iff [] [] = ground arith
equal_iff [] (y ∷ ys) = ground arith
equal_iff (x ∷ xs) [] = ground arith
equal_iff (x ∷ xs) (y ∷ ys) = ground (arith, equal_iff xs ys)

pub ne_of_equal : (s t : Text) → equal s t ≡ false → s ≢ t
ne_of_equal s t h e = ground (arith, equal_iff s t)

-- No code unit of the text is `c`.
abbrev pub Lacks : ℕ → Text → Type 0
Lacks c = All (λ d. d ≢ c)

module _ (c : ℕ) (ps : Text) where
  -- The first place where a text that begins with `c` may stand is behind the code units before.
  pub index_of-behind :
      (s t : Text)
      → Lacks c s
      → starts_with (c ∷ ps) t ≡ true
      → index_of (c ∷ ps) (s ++ t) ≡ some (length s)
  unfolding index_of
  index_of-behind [] [] h e = cc
  index_of-behind [] (d ∷ t) h e = ground arith
  index_of-behind (d ∷ s) t (n, h) e = ground (arith, index_of-behind s t h e)

  pub index_of-Lacks : (s : Text) → Lacks c s → index_of (c ∷ ps) s ≡ none
  unfolding index_of
  index_of-Lacks [] h = refl
  index_of-Lacks (d ∷ s) (n, h) = ground (arith, index_of-Lacks s h)

  -- A part without the first code unit of the separator is read up to what follows it.
  pub split_from-part :
      (cur s t : Text)
      → Lacks c s
      → split_from (c ∷ ps) 0 cur (s ++ t) ≡ split_from (c ∷ ps) 0 (cur ++ s) t
  unfolding split_from
  split_from-part cur [] t h = ground (arith, append-nil cur)
  split_from-part cur (d ∷ s) t (n, h) =
      ground (arith, split_from-part (cur ++ d ∷ []) s t h, append_assoc cur (d ∷ []) s)

pub drop-add {ℓ} :
    {A : Type ℓ} (n : ℕ) (xs ys : List A) → drop (length xs + n) (xs ++ ys) ≡ drop n ys
drop-add n [] ys = rw zero-add
drop-add n (x ∷ xs) ys = rw suc-add (drop-add n xs ys)
