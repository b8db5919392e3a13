-- ===== src/FileTree.antt =====
-- The trees of files on the pages of data and of requests, src/Blockcore.Hub/ClientApp/src/app/:
-- gateway/gateway.component.ts, requests/requests.component.ts and the example-data.ts of both. What flattens a
-- tree is Angular's MatTreeFlattener.
pub mod Rebuilding
mod Tests
use blockcore_gateway.Common.{
  ℕ, suc, ◌≡◌, Bool, true, false, Option, none, some, List, [], ◌∷◌, ◌++◌, if◌then◌else◌,
}
use blockcore_gateway.Js.Text.{Text, text}

-- A node without the optional `children`, or with them; the children may be an empty list.
mutual
  pub data FileNode : Type 0 where
    leaf : Text → Text → FileNode
    folder : Text → Text → Files → FileNode

  pub data Files : Type 0 where
    end : Files
    file : FileNode → Files → Files

pub record FlatTreeNode : Type 0 where
  pub name : Text
  pub type : Text
  pub level : ℕ
  pub expandable : Bool

-- Children that are an empty list are not falsy.
unfoldable pub transformer : FileNode → ℕ → FlatTreeNode
transformer (leaf name type) level = record {
  name = name;
  type = type;
  level = level;
  expandable = false;
}
transformer (folder name type children) level = record {
  name = name;
  type = type;
  level = level;
  expandable = true;
}

unfoldable pub get_level : FlatTreeNode → ℕ
get_level node = node.level

unfoldable pub is_expandable : FlatTreeNode → Bool
is_expandable node = node.expandable

unfoldable pub has_child : ℕ → FlatTreeNode → Bool
has_child index node = node.expandable

unfoldable pub get_children : FileNode → Option Files
get_children (leaf name type) = none
get_children (folder name type children) = some children

-- What a flattener is made of, and what it gives.
abbrev pub Flattener : Type 0
Flattener =
    (FileNode → ℕ → FlatTreeNode)
    → (FlatTreeNode → ℕ)
    → (FlatTreeNode → Bool)
    → (FileNode → Option Files)
    → Files
    → List FlatTreeNode

-- A page of either component: its title, and the rows of its data source.
pub record TreePage : Type 0 where
  pub title : Text
  pub rows : List FlatTreeNode

abbrev pub files : Files
files =
    file
      (folder (text "identity") (text "verified_user") (
        file
          (folder (text "PsdfKjdsfkjl2134jkl") (text "folder") (
            file
              (folder (text "cdk") (text "folder") (
                file (leaf (text "package.json") (text "description"))
                  (file (leaf (text "BUILD.bazel") (text "description")) end)))
              (file (leaf (text "material") (text "folder")) end)))
          end))
      (file
        (folder (text "data") (text "folder") (
          file
            (folder (text "packages") (text "folder") (
              file (leaf (text ".travis.yml") (text "description"))
                (file (leaf (text "firebase.json") (text "description")) end)))
            (file (leaf (text "package.json") (text "description")) end)))
        (file
          (folder (text "app") (text "folder") (
            file
              (folder (text "PTsjksadj3423jkfsad") (text "folder") (
                file
                  (folder (text "cdk") (text "folder") (
                    file (leaf (text "package.json") (text "description"))
                      (file (leaf (text "BUILD.bazel") (text "description")) end)))
                  (file (leaf (text "material") (text "folder")) end)))
              end))
          end))

abbrev pub requests_files : Files
requests_files =
    file
      (folder (text "identity") (text "verified_user") (
        file
          (folder (text "PsdfKjdsfkjl2134jkl") (text "folder") (
            file
              (folder (text "cdk") (text "folder") (
                file (leaf (text "package.json") (text "description"))
                  (file (leaf (text "BUILD.bazel") (text "description")) end)))
              (file (leaf (text "material") (text "folder")) end)))
          end))
      (file
        (folder (text "data") (text "folder") (
          file
            (folder (text "packages") (text "folder") (
              file (leaf (text ".travis.yml") (text "description"))
                (file (leaf (text "firebase.json") (text "description")) end)))
            (file (leaf (text "package.json") (text "description")) end)))
        (file
          (folder (text "app") (text "folder") (
            file
              (folder (text "PTsjksadj3423jkfsad") (text "folder") (
                file
                  (folder (text "cdk") (text "folder") (
                    file (leaf (text "package.json") (text "description"))
                      (file (leaf (text "BUILD.bazel") (text "description")) end)))
                  (file (leaf (text "material") (text "folder")) end)))
              end))
          end))

module _ (flattener : Flattener) where
  unfoldable pub gateway_page : TreePage
  gateway_page = record {
    title = text "Data";
    rows = flattener transformer get_level is_expandable get_children files;
  }

  unfoldable pub requests_page : TreePage
  requests_page = record {
    title = text "Requests";
    rows = flattener transformer get_level is_expandable get_children requests_files;
  }
