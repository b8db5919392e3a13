-- ===== src/FileTree/Tests.antt =====
-- Runs of the trees of files, with a flattener that recurs over them.
use blockcore_gateway.Common.{if◌then◌else◌, ℕ, suc, ◌≡◌, refl, List, [], ◌∷◌, ◌++◌, map}
use blockcore_gateway.FileTree.{
  FileNode, leaf, folder, Files, end, file, FlatTreeNode, transformer, is_expandable, get_level,
  get_children, Flattener, files, gateway_page, requests_page,
}
use blockcore_gateway.FileTree.Rebuilding.{or_end, InOrder, rebuild, rebuild-flatten}

abbrev rows_from : ℕ → Files → List FlatTreeNode
rows_from level end = []
rows_from level (file (leaf name type) rest) =
    transformer (leaf name type) level ∷ rows_from level rest
rows_from level (file (folder name type children) rest) =
    transformer (folder name type children) level ∷ rows_from (suc level) children
    ++ rows_from level rest

rows_from-file :
    (level : ℕ) (node : FileNode) (rest : Files)
    → rows_from level (file node rest)
      ≡ transformer node level
          ∷ (if is_expandable (transformer node level)
              then rows_from (suc level) (or_end (get_children node))
              else [])
        ++ rows_from level rest
unfolding transformer is_expandable get_children
rows_from-file level (leaf name type) rest = refl
rows_from-file level (folder name type children) rest = refl

rows_from-InOrder : InOrder transformer is_expandable get_children (rows_from 0)
unfolding transformer is_expandable get_children
rows_from-InOrder = record {
  rows_from = rows_from;
  rows_from-end = λ l. refl;
  rows_from-file = rows_from-file;
  flatten-rows_from = λ fs. refl;
}

abbrev flattener : Flattener
flattener transform level expandable children = rows_from 0

rebuild-flatten_example : rebuild (rows_from 0 files) ≡ files
rebuild-flatten_example = rebuild-flatten rows_from-InOrder files

first_levels :
    map get_level (requests_page flattener).rows
    ≡ 0 ∷ 1 ∷ 2 ∷ 3 ∷ 3 ∷ 2 ∷ 0 ∷ 1 ∷ 2 ∷ 2 ∷ 1 ∷ 0 ∷ 1 ∷ 2 ∷ 3 ∷ 3 ∷ 2 ∷ []
unfolding requests_page transformer get_level
first_levels = refl

same_rows : (gateway_page flattener).rows ≡ (requests_page flattener).rows
unfolding requests_page gateway_page
same_rows = refl
