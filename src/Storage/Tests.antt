-- ===== src/Storage/Tests.antt =====
-- Three documents of two types on an empty disk, one of them saved twice; the folders are separated by a slash.
use blockcore_gateway.Common.{
  Option, none, some, List, [], ◌∷◌, ◌++◌, ◌≡◌, inl, inr, refl, ◌==◌, if◌then◌else◌, arith,
  get_elem?, ap,
}
use blockcore_gateway.Js.Text.{Text, text, split, split_from}
use blockcore_gateway.Storage.{
  DiskPlatform, DiskStorageDocument, Disk, Document, Content, absent, threw, found, saved, failed,
  exists, read_file, create_folder, write_file, start_async, document_of, save, load, left_by,
  put_file,
}
use blockcore_gateway.Storage.Files.{Homed}
use blockcore_gateway.Storage.Loading.{load-save}
use blockcore_gateway.Storage.Many.{save_all, load-save_all}

-- What stands before the last slash.
abbrev before_slash : Text → Option Text
before_slash [] = none
before_slash (c ∷ s) = elim (before_slash s) [
  | some t ↦ some (c ∷ t)
  | none ↦ if c == b'/' then some [] else none
]

abbrev folder_in : Text → Text
folder_in f = elim (before_slash f) [ some t ↦ t | none ↦ [] ]

-- A line for each of three fields, and a fourth one for a signature.
abbrev lines_of : DiskStorageDocument → Text
lines_of d =
    let rest : Text = elim d.signature [ none ↦ [] | some s ↦ text "!" ++ s ] in
    let kind : Text = elim d.content_type [ none ↦ [] | some s ↦ s ] in
    d.id ++ text "!" ++ d.type ++ text "!" ++ kind ++ rest

abbrev of_lines : List Text → Option DiskStorageDocument
of_lines (i ∷ t ∷ k ∷ []) =
    some (record { id = i; type = t; signature = none; content_type = some k })
of_lines (i ∷ t ∷ k ∷ s ∷ []) =
    some (record { id = i; type = t; signature = some s; content_type = some k })
of_lines _ = none

abbrev slashes : DiskPlatform
slashes = record {
  combine = λ a b. a ++ text "/" ++ b;
  directory = folder_in;
  above = λ f. folder_in f ∷ [];
  serialize_object = lines_of;
  deserialize_object = λ t. of_lines (split (text "!") t);
}

abbrev note : Document
note = record {
  info = record {
    id = text "n1";
    type = text "note";
    signature = none;
    content_type = some (text "text/plain");
  };
  bytes = some (104 ∷ 105 ∷ []);
}

abbrev picture : Document
picture = record {
  info = record {
    id = text "p1";
    type = text "picture";
    signature = some (text "sig");
    content_type = some (text "image/png");
  };
  bytes = some (137 ∷ []);
}

abbrev empty_disk : Disk
empty_disk = record { folders = []; files = [] }

empty-Homed : Homed slashes empty_disk
unfolding read_file
empty-Homed f = inl refl

load-save_example :
    (after : Disk) × (save slashes (text "/data") picture empty_disk ≡ saved after)
    × (load slashes (text "/data") (text "picture") (text "p1") after ≡ found picture)
unfolding split split_from
load-save_example =
    load-save slashes (text "/data") picture.info (137 ∷ []) empty_disk refl refl refl

load-save_all_example :
    load slashes (text "/data") (text "note") (text "n1") (
      save_all slashes
        (text "/data")
        (note ∷ picture ∷ record note { bytes = some [] } ∷ [])
        empty_disk)
    ≡ found (record note { bytes = some [] })
unfolding split split_from
load-save_all_example =
    load-save_all slashes (text "/data") (text "note") (text "n1")
      (note ∷ picture ∷ record note { bytes = some [] } ∷ []) empty_disk empty-Homed refl
      (
        (refl, refl, refl, 104 ∷ 105 ∷ [], refl),
        ((refl, refl, refl, 137 ∷ [], refl), ((refl, refl, refl, [], refl), tt)),
      )
      (inl refl, (inr (λ k. ground (arith, ap (λ l. get_elem? l 6) k)), (inl refl, tt)))

-- A description that is gone, and a document that nobody saved.
load-broken :
    load slashes (text "/data") (text "note") (text "n1") (record {
      folders = text "/data/note" ∷ [];
      files = (text "/data/note/n1.bin", Content.bytes_content []) ∷ [];
    })
    ≡ threw
unfolding load exists read_file document_of
load-broken = refl

load-absent :
    load slashes
      (text "/data")
      (text "note")
      (text "n1")
      (start_async slashes (text "/data") empty_disk)
    ≡ absent
unfolding load exists start_async create_folder
load-absent = refl

-- An id that is a path of its own goes to a folder that nobody made.
save-failed :
    save slashes
      (text "/data")
      (record note { info = record note.info { id = text "a/b" } })
      empty_disk
    ≡ failed (record { folders = text "/data/note" ∷ text "/data" ∷ []; files = [] })
unfolding save exists create_folder write_file
save-failed = refl

-- A document without data: its description is written, and what was there before stays.
save-no_data :
    load slashes
      (text "/data")
      (text "note")
      (text "n1")
      (left_by (save slashes (text "/data") (record note { bytes = none }) empty_disk))
    ≡ absent
unfolding save load exists create_folder write_file put_file read_file document_of left_by
save-no_data = refl
