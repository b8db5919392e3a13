-- ===== src/FileTree/Rebuilding.antt =====
-- What the rows of a tree tell of it.
use blockcore_gateway.Common.{
  ℕ, suc, ◌≡◌, ◌≢◌, ◌<◌, refl, ap, ◌∙◌, Bool, Option, none, some, List, [], ◌∷◌, ◌++◌,
  if◌then◌else◌, ◌==◌, arith,
}
use blockcore_gateway.FileTree.{
  FileNode, leaf, folder, Files, end, file, FlatTreeNode, transformer, is_expandable, get_children,
}

abbrev pub or_end : Option Files → Files
or_end none = end
or_end (some fs) = fs

-- What a flattener does with the functions it is made of: a row for each node, its children after it and a
-- level deeper if the row can be expanded.
pub record InOrder (transform : FileNode → ℕ → FlatTreeNode) (expandable : FlatTreeNode → Bool)
    (children : FileNode → Option Files) (flatten : Files → List FlatTreeNode) : Type 0 where
  pub rows_from : ℕ → Files → List FlatTreeNode
  pub rows_from-end : (l : ℕ) → rows_from l end ≡ []
  pub rows_from-file :
      (l : ℕ) (node : FileNode) (rest : Files)
      → rows_from l (file node rest)
        ≡ transform node l
            ∷ (if expandable (transform node l)
                then rows_from (suc l) (or_end (children node))
                else [])
          ++ rows_from l rest
  pub flatten-rows_from : (fs : Files) → flatten fs ≡ rows_from 0 fs

abbrev append : Files → Files → Files
append end gs = gs
append (file node rest) gs = file node (append rest gs)

append-empty : (fs : Files) {gs : Files} → gs ≡ end → append fs gs ≡ fs
append-empty end e = e
append-empty (file node rest) e = ap (file node) (append-empty rest e)

at_same : (n : ℕ) (fs gs : Files) → (if n == n then fs else gs) ≡ fs
at_same n fs gs = ground arith

abbrev node_of : FlatTreeNode → Files → FileNode
node_of row children =
    if row.expandable then folder row.name row.type children else leaf row.name row.type

-- A row takes the nodes that wait one level deeper as its children, and waits at its own level.
abbrev add_row : FlatTreeNode → (ℕ → Files) → ℕ → Files
add_row row waiting k =
    if k == suc row.level
    then end
    else if k == row.level
    then file (node_of row (waiting (suc row.level))) (waiting k)
    else waiting k

abbrev collect : List FlatTreeNode → (ℕ → Files) → ℕ → Files
collect [] waiting = waiting
collect (row ∷ rows) waiting = add_row row (collect rows waiting)

-- The rows are read from the last one to the first.
abbrev pub rebuild : List FlatTreeNode → Files
rebuild rows = collect rows (λ k. end) 0

collect-append :
    (xs ys : List FlatTreeNode) (waiting : ℕ → Files)
    → collect (xs ++ ys) waiting ≡ collect xs (collect ys waiting)
collect-append [] ys waiting = refl
collect-append (x ∷ xs) ys waiting = ap (add_row x) (collect-append xs ys waiting)

-- A row on top of what waits from its own level down.
add_row-waiting :
    (row : FlatTreeNode) (node : FileNode) (before w : ℕ → Files) (rest : Files)
    → node_of row (before (suc row.level)) ≡ node
    → before row.level ≡ rest
    → ((k : ℕ) → k ≢ row.level → k ≢ suc row.level → before k ≡ w k)
    → w (suc row.level) ≡ end
    → (k : ℕ) → add_row row before k ≡ (if k == row.level then file node rest else w k)
add_row-waiting row node before w rest n r o e k = ground (arith, o k)

module _ {flatten : Files → List FlatTreeNode}
    (o : InOrder transformer is_expandable get_children flatten) where
  collect-rows :
      (fs : Files) (l : ℕ) (w : ℕ → Files)
      → ((k : ℕ) → l < k → w k ≡ end)
      → (k : ℕ) → collect (o.rows_from l fs) w k ≡ (if k == l then append fs (w l) else w k)
  unfolding transformer is_expandable get_children
  collect-rows end l w e k = rw (o.rows_from-end l) (ground arith)
  collect-rows (file (leaf name type) rest) l w e k =
      let ih = collect-rows rest l w e in
      rw (o.rows_from-file l (leaf name type) rest) (
        add_row-waiting (transformer (leaf name type) l) (leaf name type)
          (collect (o.rows_from l rest) w) w (append rest (w l)) refl (ground (arith, ih l))
          (λ j n m. ground (arith, ih j)) (e (suc l) (omega arith)) k)
  collect-rows (file (folder name type children) rest) l w e k =
      let ih = collect-rows rest l w e in
      let deep =
        collect-rows children (suc l) (collect (o.rows_from l rest) w)
          (λ j below. ground (arith, ih j, e j)) in
      rw
        (
          o.rows_from-file l (folder name type children) rest,
          collect-append (o.rows_from (suc l) children) (o.rows_from l rest) w,
        )
        (add_row-waiting (transformer (folder name type children) l) (folder name type children)
          (collect (o.rows_from (suc l) children) (collect (o.rows_from l rest) w)) w
          (append rest (w l))
          (ap (folder name type) (
            deep (suc l)
            ∙ at_same (suc l) _ _
            ∙ append-empty children (ground (arith, ih (suc l), e (suc l)))))
          (ground (arith, ih l, deep l)) (λ j n m. ground (arith, ih j, deep j))
          (e (suc l) (omega arith)) k)

  -- The rows of a tree determine it: the nodes with their names and types, in their order, which node is
  -- below which, and which of them have children, were it an empty list of them.
  pub rebuild-flatten : (fs : Files) → rebuild (flatten fs) ≡ fs
  rebuild-flatten fs =
      rw (o.flatten-rows_from fs)
        (collect-rows fs 0 (λ k. end) (λ k b. refl) 0 ∙ append-empty fs refl)
