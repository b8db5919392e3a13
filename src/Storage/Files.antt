-- ===== src/Storage/Files.antt =====
-- What a write leaves on a disk, and that the two files of a document are two files.
use blockcore_gateway.Common.{
  true, none, some, List, [], ◌∷◌, ◌++◌, ◌≡◌, ◌≢◌, ◌⊎◌, inl, inr, ◌||◌, refl, sym, ap, ◌∙◌, reverse,
  get_elem?, arith, if◌then◌else◌,
}
use mathlib.Core.List.{reverse-append}
use blockcore_gateway.Js.Text.{Text, text, equal}
use blockcore_gateway.Js.Text.Search.{equal_iff}
use blockcore_gateway.Storage.{
  DiskPlatform, Disk, Content, exists, read_file, put_file, create_folder, write_file,
}

pub read_file-put_file :
    (f g : Text) (c : Content) (fs : List (Text × Content))
    → read_file f (put_file g c fs) ≡ (if equal g f then some c else read_file f fs)
unfolding read_file put_file
read_file-put_file f g c [] = refl
read_file-put_file f g c ((h, d) ∷ fs) =
    ground (arith, read_file-put_file f g c fs, equal_iff h g, equal_iff g f, equal_iff h f)

pub read_file-put_self :
    (f : Text) (c : Content) (fs : List (Text × Content)) → read_file f (put_file f c fs) ≡ some c
read_file-put_self f c fs = ground (arith, read_file-put_file f f c fs, equal_iff f f)

pub read_file-put_other :
    (f g : Text) (c : Content) (fs : List (Text × Content))
    → f ≢ g
    → read_file f (put_file g c fs) ≡ read_file f fs
read_file-put_other f g c fs n = ground (arith, read_file-put_file f g c fs, equal_iff g f)

-- Two names that end differently are not the same.
pub ends_differ : (s t : Text) → s ++ text ".json" ≢ t ++ text ".bin"
ends_differ s t e = ground (arith, ap (λ l. get_elem? l 1) turned)
  where
    turned : reverse (text ".json") ++ reverse s ≡ reverse (text ".bin") ++ reverse t
    turned = sym (reverse-append s (text ".json")) ∙ ap reverse e ∙ reverse-append t (text ".bin")

pub exists-append :
    (f : Text) (gs hs : List Text) → exists f (gs ++ hs) ≡ exists f gs || exists f hs
unfolding exists
exists-append f [] hs = refl
exists-append f (g ∷ gs) hs = ground (arith, exists-append f gs hs)

module _ (p : DiskPlatform) where
  pub exists-create_folder :
      (f : Text) (disk : Disk) → exists f (create_folder p f disk).folders ≡ true
  unfolding exists create_folder
  exists-create_folder f disk = ground (arith, equal_iff f f)

  -- A folder that stands on the disk stays.
  pub create_folder-keeps :
      (f g : Text) (disk : Disk)
      → exists g disk.folders ≡ true
      → exists g (create_folder p f disk).folders ≡ true
  unfolding exists create_folder
  create_folder-keeps f g disk h = ground (arith, exists-append g (p.above f) disk.folders)

  pub files-create_folder : (f : Text) (disk : Disk) → (create_folder p f disk).files ≡ disk.files
  unfolding create_folder
  files-create_folder f disk = ground arith

  -- Every file of the disk stands in a folder of it.
  abbrev pub Homed : Disk → Type 0
  Homed disk =
      (f : Text) → (read_file f disk.files ≡ none) ⊎ (exists (p.directory f) disk.folders ≡ true)

  pub create_folder-Homed : (f : Text) (disk : Disk) → Homed disk → Homed (create_folder p f disk)
  create_folder-Homed f disk h g = elim (h g) [
    | inl e ↦ inl (ap (read_file g) (files-create_folder f disk) ∙ e)
    | inr e ↦ inr (create_folder-keeps f (p.directory g) disk e)
  ]

  pub write_file-Homed :
      (f : Text) (c : Content) (disk after : Disk)
      → Homed disk
      → write_file p f c disk ≡ some after
      → Homed after
  unfolding write_file
  write_file-Homed f c disk after h e g =
      ground (arith, read_file-put_file g f c disk.files, equal_iff f g, h g)
