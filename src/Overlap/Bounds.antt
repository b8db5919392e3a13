-- ===== src/Overlap/Bounds.antt =====
-- What a step does to the number of entries of a hub.
use blockcore_gateway.Common.{
  ◌+◌, ◌≡◌, ◌⊎◌, inl, inr, refl, String, List, [], ◌∷◌, ◌++◌, str_eq, arith,
}
use blockcore_gateway.Overlap.{Stage, looking, adding, passed}
use blockcore_gateway.Overlap.Counting.{one_if, total-append, copies}

pub copies-append :
    (id x : String) (ids : List String)
    → copies id (ids ++ x ∷ []) ≡ copies id ids + one_if (str_eq x id)
copies-append id x ids = omega (arith, total-append (λ y. one_if (str_eq y id)) ids (x ∷ []))

pub Stage-cases : (s : Stage) → (s ≡ looking) ⊎ ((s ≡ adding) ⊎ (s ≡ passed))
Stage-cases looking = inl refl
Stage-cases adding = inr (inl refl)
Stage-cases passed = inr (inr refl)
