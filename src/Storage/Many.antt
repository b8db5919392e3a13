-- ===== src/Storage/Many.antt =====
-- Any number of documents saved one after the other, against a map from names to documents.
use blockcore_gateway.Common.{
  Bool, true, false, some, List, [], ◌∷◌, ◌≡◌, ◌≢◌, ◌⊎◌, ◌&&◌, refl, sym, ap, subst, ℕ, ◌∙◌, All,
  arith, if◌then◌else◌,
}
use blockcore_gateway.Js.Text.{Text, equal}
use blockcore_gateway.Js.Text.Search.{equal_iff}
use blockcore_gateway.Storage.{
  DiskPlatform, Disk, Document, Loaded, found, left_by, folder_of, meta_file, data_file, save, load,
}
use blockcore_gateway.Storage.Files.{Homed}
use blockcore_gateway.Storage.Loading.{load-save, load-save_other, save-Homed}

abbrev is_named : Text → Text → Document → Bool
is_named type id d = equal d.info.type type && equal d.info.id id

-- The map, as what it gives for one name: the last document of that name, or what was there before.
abbrev pub newest : Text → Text → List Document → Loaded → Loaded
newest type id [] before = before
newest type id (d ∷ ds) before = newest type id ds (if is_named type id d then found d else before)

is_named-eq :
    (type id : Text) (d : Document)
    → is_named type id d ≡ true
    → (d.info.type ≡ type) × (d.info.id ≡ id)
is_named-eq type id d h = ground (arith, equal_iff d.info.type type, equal_iff d.info.id id)

module _ (p : DiskPlatform) (folder : Text) where
  unfoldable pub save_all : List Document → Disk → Disk
  save_all [] disk = disk
  save_all (d ∷ ds) disk = save_all ds (left_by (save p folder d disk))

  -- It has data, its description survives being written, and its two files belong to the folder of the document's type.
  abbrev pub IsPlain : Document → Type 0
  IsPlain d =
      (p.deserialize_object (p.serialize_object d.info) ≡ some d.info)
      × (p.directory (meta_file p folder d.info.type d.info.id) ≡ folder_of p folder d.info.type)
      × (p.directory (data_file p folder d.info.type d.info.id) ≡ folder_of p folder d.info.type)
      × (bytes : List ℕ) × (d.bytes ≡ some bytes)

  -- The document has this name, or a different path.
  abbrev pub IsApart : Text → Text → Document → Type 0
  IsApart type id d =
      (is_named type id d ≡ true)
      ⊎ (p.combine (folder_of p folder type) id
          ≢ p.combine (folder_of p folder d.info.type) d.info.id)

  itself :
      (type id : Text) (d : Document) (disk : Disk)
      → (d.info.type ≡ type) × (d.info.id ≡ id)
      → IsPlain d
      → load p folder type id (left_by (save p folder d disk)) ≡ found d
  unfolding left_by
  itself type id d disk (s, t) (r, m, b, bytes, there) =
      let (after, goes_through, loads) = load-save p folder d.info bytes disk r m b in
      rw (sym s, sym t)
        (subst
          (λ o.
            load p folder d.info.type d.info.id
              (left_by (save p folder (record { info = d.info; bytes = o }) disk))
            ≡ found (record { info = d.info; bytes = o }))
          (sym there) (rw goes_through loads))

  load-left_by :
      (type id : Text) (d : Document) (disk : Disk)
      → Homed p disk
      → p.directory (data_file p folder type id) ≡ folder_of p folder type
      → IsPlain d
      → IsApart type id d
      → load p folder type id (left_by (save p folder d disk))
        ≡ (if is_named type id d then found d else load p folder type id disk)
  load-left_by type id d disk h e plain a =
      elim (is_named type id d)
          as (λ b.
            is_named type id d ≡ b
            → load p folder type id (left_by (save p folder d disk))
              ≡ (if b then found d else load p folder type id disk)) [
                | true ↦ λ named. itself type id d disk (is_named-eq type id d named) plain
                | false ↦
                    λ other. load-save_other p folder d disk type id h (ground (arith, a, other)) e
              ]
        refl

  -- Documents are saved one after the other on a disk whose files all stand in folders of it. Each has data, its description
  -- survives being written, its two files belong to the folder of its type, as those of the name that is asked for do,
  -- and it has that name or another path. Then what is loaded for the name is the last document of that name, as it was
  -- saved, or what was loaded for it before.
  pub load-save_all :
      (type id : Text) (ds : List Document) (disk : Disk)
      → Homed p disk
      → p.directory (data_file p folder type id) ≡ folder_of p folder type
      → All IsPlain ds
      → All (IsApart type id) ds
      → load p folder type id (save_all ds disk) ≡ newest type id ds (load p folder type id disk)
  unfolding save_all
  load-save_all type id [] disk h e ps bs = refl
  load-save_all type id (d ∷ ds) disk h e (plain, ps) (a, bs) =
      load-save_all type id ds _ (save-Homed p folder d disk h) e ps bs
      ∙ ap (newest type id ds) (load-left_by type id d disk h e plain a)
