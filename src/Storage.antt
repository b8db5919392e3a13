-- ===== src/Storage.antt =====
-- Documents of a hub on its disk: `StartAsync`, `Save` and `Load` of src/Blockcore.Hub.Storage/DiskStorage.cs, called
-- from one thread. Of the disk only what stands on it is modelled, not that it is full or that access is denied.
pub mod Files
pub mod Loading
pub mod Many
mod Tests
use blockcore_gateway.Common.{
  ℕ, String, Bool, true, false, Option, none, some, List, [], ◌∷◌, ◌++◌, ◌||◌, if◌then◌else◌,
}
use blockcore_gateway.Js.Text.{Text, text, equal}

pub record DiskStorageDocument : Type 0 where
  pub id : Text
  pub type : Text
  pub signature : Option Text
  pub content_type : Option Text

-- The document that the callers have: the same with its data, which may be null.
pub record Document : Type 0 where
  pub info : DiskStorageDocument
  pub bytes : Option (List ℕ)

-- The full name of `Path.Combine`, the folder of a file, the folders that a folder is in, and what Newtonsoft.Json makes
-- of a document and of a text; none is an exception or null.
pub record DiskPlatform : Type 0 where
  pub combine : Text → Text → Text
  pub directory : Text → Text
  pub above : Text → List Text
  pub serialize_object : DiskStorageDocument → Text
  pub deserialize_object : Text → Option DiskStorageDocument

-- What a file holds, by the way it was written.
pub data Content : Type 0 where
  text_content : Text → Content
  bytes_content : List ℕ → Content

-- Names are compared letter by letter.
pub record Disk : Type 0 where
  pub folders : List Text
  pub files : List (Text × Content)

unfoldable pub exists : Text → List Text → Bool
exists f [] = false
exists f (g ∷ gs) = equal g f || exists f gs

unfoldable pub read_file : Text → List (Text × Content) → Option Content
read_file f [] = none
read_file f ((g, c) ∷ rest) = let later = read_file f rest in if equal g f then some c else later

unfoldable pub put_file : Text → Content → List (Text × Content) → List (Text × Content)
put_file f c [] = (f, c) ∷ []
put_file f c ((g, d) ∷ rest) =
    let later = (g, d) ∷ put_file f c rest in if equal g f then (g, c) ∷ rest else later

-- What `Load` comes to: null, an exception, or a document.
pub data Loaded : Type 0 where
  absent threw : Loaded
  found : Document → Loaded

-- What `Save` comes to: it is through, or an exception left the disk as it is given.
pub data Saved : Type 0 where
  saved failed : Disk → Saved

module _ (p : DiskPlatform) where
  -- `if (!dir.Exists) dir.Create()`
  unfoldable pub create_folder : Text → Disk → Disk
  create_folder f disk =
      if exists f disk.folders
      then disk
      else record disk { folders = f ∷ p.above f ++ disk.folders }

  -- `File.WriteAllText` and `File.WriteAllBytes`; none is the exception for a folder that does not exist.
  unfoldable pub write_file : Text → Content → Disk → Option Disk
  write_file f c disk =
      if exists (p.directory f) disk.folders
      then some (record disk { files = put_file f c disk.files })
      else none

  -- A file that was written the other way does not come to be read here: the ends of the names differ.
  unfoldable pub document_of : Option Content → Option Content → Loaded
  document_of none meta = absent
  document_of (some (bytes_content bytes)) (some (text_content json)) =
      elim (p.deserialize_object json) [
        | none ↦ threw
        | some info ↦ found (record { info = info; bytes = some bytes })
      ]
  document_of (some (bytes_content bytes)) (some (bytes_content b)) = threw
  document_of (some (bytes_content bytes)) none = threw
  document_of (some (text_content t)) meta = threw

module _ (p : DiskPlatform) (data_folder : Text) where
  unfoldable pub start_async : Disk → Disk
  start_async disk = create_folder p data_folder disk

  abbrev pub folder_of : Text → Text
  folder_of type = p.combine data_folder type

  abbrev pub meta_file : Text → Text → Text
  meta_file type id = p.combine (folder_of type) id ++ text ".json"

  abbrev pub data_file : Text → Text → Text
  data_file type id = p.combine (folder_of type) id ++ text ".bin"

  unfoldable pub save : Document → Disk → Saved
  save d disk =
      let type = d.info.type in
      let id = d.info.id in
      let made = create_folder p (folder_of type) disk in
      elim (write_file p (meta_file type id) (text_content (p.serialize_object d.info)) made) [
        | none ↦ failed made
        | some with_meta ↦ elim d.bytes [
          | none ↦ failed with_meta
          | some bytes ↦ elim (write_file p (data_file type id) (bytes_content bytes) with_meta) [
            | none ↦ failed with_meta
            | some with_data ↦ saved with_data
          ]
        ]
      ]

  unfoldable pub load : Text → Text → Disk → Loaded
  load type id disk =
      if exists (folder_of type) disk.folders
      then document_of p (read_file (data_file type id) disk.files)
          (read_file (meta_file type id) disk.files)
      else absent

unfoldable pub left_by : Saved → Disk
left_by (saved disk) = disk
left_by (failed disk) = disk
