-- ===== src/BlockPage/Navigation.antt =====
-- Where the keys lead.
use blockcore_gateway.Common.{
  ℕ, ◌≤◌, String, Bool, List, [], arith, All, All-append, str_eq, true, false, ◌||◌, if◌then◌else◌,
}
use blockcore_gateway.Js.Value.{ℤ, pos, negsuc}
use blockcore_gateway.BlockPage.{key_event, previous_block, next_block}

-- A block between the first and the last.
abbrev pub IsBlock : ℕ → ℤ → Type 0
IsBlock height (pos n) = (1 ≤ n) × (n ≤ height)
IsBlock height (negsuc n) = ⊥

guarded : (P : ℤ → Type 0) (b : Bool) (xs : List ℤ) → All P xs → All P (if b then xs else [])
guarded P true xs h = h
guarded P false xs h = tt

next_block-IsBlock :
    (index height : ℕ) → 1 ≤ index → index ≤ height → All (IsBlock height) (next_block index height)
unfolding next_block
next_block-IsBlock index height lo hi = ground arith

previous_block-IsBlock :
    (index height : ℕ) → 1 ≤ index → index ≤ height → All (IsBlock height) (previous_block index)
unfolding previous_block
previous_block-IsBlock index height lo hi = ground arith

-- On a page of a block between the first and the last, every key leads to such a block or nowhere.
pub key_event-IsBlock :
    (key : String) (index height : ℕ)
    → 1 ≤ index
    → index ≤ height
    → All (IsBlock height) (key_event key index height)
unfolding key_event
key_event-IsBlock key index height lo hi =
    All-append P _ _
      (guarded P (str_eq key "ArrowRight" || str_eq key "PageUp") _
        (next_block-IsBlock index height lo hi))
      (All-append P _ _
        (guarded P (str_eq key "ArrowLeft" || str_eq key "PageDown") _
          (previous_block-IsBlock index height lo hi))
        (All-append P _ _ (guarded P (str_eq key "Home") _ (omega arith, tt))
          (guarded P (str_eq key "End") _ (omega arith, tt))))
  where
    P : ℤ → Type 0
    P = IsBlock height
