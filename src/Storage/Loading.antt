-- ===== src/Storage/Loading.antt =====
-- A document that was saved, loaded again, and what the save is to the other documents.
use blockcore_gateway.Common.{
  ℕ, List, Option, true, some, ◌≡◌, ◌≢◌, ◌⊎◌, inl, inr, refl, sym, ap, ◌∙◌, arith, Option-cases,
}
use mathlib.Core.List.{append_cancel_right}
use blockcore_gateway.Js.Text.{Text, text}
use blockcore_gateway.Js.Text.Search.{equal_iff}
use blockcore_gateway.Storage.{
  DiskPlatform, DiskStorageDocument, Disk, Document, Content, text_content, bytes_content, found,
  saved, left_by, exists, read_file, create_folder, put_file, write_file, folder_of, meta_file,
  data_file, document_of, save, load,
}
use blockcore_gateway.Storage.Files.{
  read_file-put_file, read_file-put_self, read_file-put_other, ends_differ, exists-create_folder,
  create_folder-keeps, files-create_folder, Homed, create_folder-Homed, write_file-Homed,
}

module _ (p : DiskPlatform) where
  write_file-exists :
      (f : Text) (c : Content) (disk : Disk)
      → exists (p.directory f) disk.folders ≡ true
      → write_file p f c disk ≡ some (record disk { files = put_file f c disk.files })
  unfolding write_file
  write_file-exists f c disk h = rw h refl

  -- What a write changes, if it gets through.
  write_file-changes :
      (f g : Text) (c : Content) (disk after : Disk)
      → write_file p f c disk ≡ some after
      → (after.folders ≡ disk.folders) × (g ≢ f → read_file g after.files ≡ read_file g disk.files)
  unfolding write_file
  write_file-changes f g c disk after e =
      ground (arith, read_file-put_file g f c disk.files, equal_iff f g)

module _ (p : DiskPlatform) (folder : Text) where
  -- What holds with the folder made and what each of the two writes keeps holds behind a save.
  save-keeps {ℓ} :
      (P : Disk → Type ℓ) (d : Document) (disk : Disk)
      → P (create_folder p (folder_of p folder d.info.type) disk)
      → ((f : Text) (c : Content) (a b : Disk)
          → (f ≡ meta_file p folder d.info.type d.info.id)
            ⊎ (f ≡ data_file p folder d.info.type d.info.id)
          → P a
          → write_file p f c a ≡ some b
          → P b)
      → P (left_by (save p folder d disk))
  unfolding save left_by
  save-keeps P d disk made step = elim (Option-cases with_meta) [
    | inl none_made ↦ rw (save, none_made) made
    | inr (b, wrote) ↦
        let kept = step _ _ _ b (inl refl) made wrote in
        elim (Option-cases d.bytes) [
          | inl no_bytes ↦ rw (save, wrote, no_bytes) kept
          | inr (bytes, there) ↦ elim (Option-cases (with_data bytes b)) [
            | inl none_made ↦ rw (save, wrote, there, none_made) kept
            | inr (c, wrote_too) ↦
                rw (save, wrote, there, wrote_too) (step _ _ _ c (inr refl) kept wrote_too)
          ]
        ]
  ]
    where
      with_meta : Option Disk
      with_meta =
          write_file p (meta_file p folder d.info.type d.info.id)
            (text_content (p.serialize_object d.info))
            (create_folder p (folder_of p folder d.info.type) disk)

      with_data : List ℕ → Disk → Option Disk
      with_data bytes =
          write_file p (data_file p folder d.info.type d.info.id) (bytes_content bytes)

  loaded :
      (type id : Text) (disk : Disk) (bytes : List ℕ) (json : Text) (info : DiskStorageDocument)
      → exists (folder_of p folder type) disk.folders ≡ true
      → read_file (data_file p folder type id) disk.files ≡ some (bytes_content bytes)
      → read_file (meta_file p folder type id) disk.files ≡ some (text_content json)
      → p.deserialize_object json ≡ some info
      → load p folder type id disk ≡ found (record { info = info; bytes = some bytes })
  unfolding load document_of
  loaded type id disk bytes json info stands data_reads meta_reads r =
      rw (stands, data_reads, meta_reads, document_of, r) refl

  -- A document with data that is saved where its two files belong to the folder of its type, and whose description survives being
  -- written, is loaded as it is.
  pub load-save :
      (info : DiskStorageDocument) (bytes : List ℕ) (disk : Disk)
      → p.deserialize_object (p.serialize_object info) ≡ some info
      → p.directory (meta_file p folder info.type info.id) ≡ folder_of p folder info.type
      → p.directory (data_file p folder info.type info.id) ≡ folder_of p folder info.type
      → (after : Disk) × (save p folder (record { info = info; bytes = some bytes }) disk
          ≡ saved after)
        × (load p folder info.type info.id after
            ≡ found (record { info = info; bytes = some bytes }))
  unfolding save create_folder put_file
  load-save info bytes disk r hm hd = (after, goes_through, reads)
    where
      made : Disk
      made = create_folder p (folder_of p folder info.type) disk

      stands :
          (f : Text)
          → p.directory f ≡ folder_of p folder info.type
          → exists (p.directory f) made.folders ≡ true
      stands f e = rw e (exists-create_folder p (folder_of p folder info.type) disk)

      with_meta : Disk
      with_meta = record made {
        files =
            put_file (meta_file p folder info.type info.id) (text_content (p.serialize_object info))
              made.files;
      }

      after : Disk
      after = record made {
        files =
            put_file (data_file p folder info.type info.id) (bytes_content bytes) with_meta.files;
      }

      goes_through : save p folder (record { info = info; bytes = some bytes }) disk ≡ saved after
      goes_through =
          rw
            (
              save,
              write_file-exists p _ (text_content (p.serialize_object info)) made (stands _ hm),
              write_file-exists p _ (bytes_content bytes) with_meta (stands _ hd),
            )
            refl

      reads :
          load p folder info.type info.id after ≡ found (record { info = info; bytes = some bytes })
      reads =
          loaded _ _ after _ _ _ (exists-create_folder p _ disk)
            (read_file-put_self _ _ with_meta.files)
            (read_file-put_other _ _ _ with_meta.files (ends_differ _ _)
              ∙ read_file-put_self _ _ made.files)
            r

  -- A save leaves every file in a folder of the disk, if it was so, whether it gets through or not.
  pub save-Homed :
      (d : Document) (disk : Disk) → Homed p disk → Homed p (left_by (save p folder d disk))
  unfolding save left_by
  save-Homed d disk h =
      save-keeps (Homed p) d disk (create_folder-Homed p _ disk h)
        (λ f c a b _. write_file-Homed p f c a b)

  unchanged :
      (d : Document) (disk : Disk) (g : Text)
      → g ≢ meta_file p folder d.info.type d.info.id
      → g ≢ data_file p folder d.info.type d.info.id
      → read_file g (left_by (save p folder d disk)).files ≡ read_file g disk.files
  unchanged d disk g n m =
      save-keeps (λ x. read_file g x.files ≡ read_file g disk.files) d disk
        (ap (read_file g) (files-create_folder p _ disk))
        (λ f c a b w same wrote. elim w [
          | inl e ↦ (write_file-changes p f g c a b wrote).1 (λ k. n (k ∙ e)) ∙ same
          | inr e ↦ (write_file-changes p f g c a b wrote).1 (λ k. m (k ∙ e)) ∙ same
        ])

  same_loads :
      (type id : Text) (a b : Disk)
      → Homed p a
      → p.directory (data_file p folder type id) ≡ folder_of p folder type
      → (exists (folder_of p folder type) a.folders ≡ true
          → exists (folder_of p folder type) b.folders ≡ true)
      → read_file (data_file p folder type id) b.files
        ≡ read_file (data_file p folder type id) a.files
      → read_file (meta_file p folder type id) b.files
        ≡ read_file (meta_file p folder type id) a.files
      → load p folder type id b ≡ load p folder type id a
  unfolding load document_of
  same_loads type id a b h e keeps same_data same_meta =
      ground (arith, h (data_file p folder type id))

  pub load-save_other :
      (d : Document) (disk : Disk) (type id : Text)
      → Homed p disk
      → p.combine (folder_of p folder type) id
        ≢ p.combine (folder_of p folder d.info.type) d.info.id
      → p.directory (data_file p folder type id) ≡ folder_of p folder type
      → load p folder type id (left_by (save p folder d disk)) ≡ load p folder type id disk
  load-save_other d disk type id h n e =
      same_loads type id disk (left_by (save p folder d disk)) h e
        (λ stood.
          save-keeps (λ x. exists (folder_of p folder type) x.folders ≡ true) d disk
            (create_folder-keeps p _ _ disk stood)
            (λ f c a b _ stood wrote.
              ap (exists (folder_of p folder type)) (write_file-changes p f f c a b wrote).0
              ∙ stood))
        (unchanged d disk (data_file p folder type id) (λ k. ends_differ _ _ (sym k))
          (λ k. n (append_cancel_right _ _ (text ".bin") k)))
        (unchanged d disk (meta_file p folder type id)
          (λ k. n (append_cancel_right _ _ (text ".json") k)) (ends_differ _ _))
