-- ===== src/Explorer/Contents.antt =====
-- What the page shows after an answer.
use mathlib.Core.List.{Perm}
use blockcore_gateway.Common.{ℕ, ◌≡◌, refl, none, some, List}
use blockcore_gateway.Js.Sort.{
  sort_desc, IsDescending, sort_desc-perm, sort_desc-IsDescending, with_key, sort_desc-with_key,
}
use blockcore_gateway.Api.{ok}
use blockcore_gateway.Explorer.{Block, Explorer, set_blocks, on_blocks, arm_blocks}

-- The blocks of an answer are shown with the highest first, none lost and none twice, those of one height
-- in the order of the answer; and an earlier error is gone.
pub on_blocks-ok :
    (list : List Block) (e : Explorer)
    → (shown : List Block) × ((on_blocks (ok list) e).blocks ≡ some shown)
      × ((on_blocks (ok list) e).error_blocks ≡ none)
      × Perm shown list
      × IsDescending (λ b. b.block_index) shown
      × ((k : ℕ) → with_key (λ b. b.block_index) k shown ≡ with_key (λ b. b.block_index) k list)
unfolding on_blocks set_blocks arm_blocks
on_blocks-ok list e = (
  sort_desc _ list,
  refl,
  refl,
  sort_desc-perm _ list,
  sort_desc-IsDescending _ list,
  λ k. sort_desc-with_key _ k list,
)
