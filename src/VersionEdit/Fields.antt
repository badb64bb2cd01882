-- ===== src/VersionEdit/Fields.antt =====
-- Runs of the loop of `DecodeFrom` over the pieces of an edit.
use leveldb_mcpe_dotnet.Common.{
  ℕ, ◌^◌, Bool, true, false, List, [], ◌∷◌, ◌++◌, ◌≡◌, refl, length, All, All-middle, append-nil,
  append_assoc, arith,
}
use leveldb_mcpe_dotnet.Common.Bytes.{Bytes, IsU32, IsU64}
use leveldb_mcpe_dotnet.VersionEdit.{
  FileMetaData, VersionEdit, tag_log_number, tag_next_file_number, tag_last_sequence,
  tag_prev_log_number, set_comparator_name, set_log_number, set_prev_log_number, set_next_file,
  set_last_sequence, set_compact_pointer, add_file, set_insert, delete_file, pair_lt,
}
use leveldb_mcpe_dotnet.VersionEdit.Pieces.{
  FitsPointer, FitsDeleted, FitsFile, pointer_bytes, deleted_bytes, file_bytes, concat_map,
  number_bytes, comparator_bytes,
}
use leveldb_mcpe_dotnet.VersionEdit.Rounds.{
  Decodes, stay, follow, decode_comparator, decode_log_number, decode_prev_log_number,
  decode_next_file_number, decode_last_sequence, decode_pointer, decode_deleted, decode_file,
}

-- In increasing order: each pair is below all behind it.
abbrev pub Increasing : List (ℕ × ℕ) → Type 0
Increasing [] = Unit {0}
Increasing (p ∷ ps) = All (λ q. pair_lt p q ≡ true) ps × Increasing ps

abbrev Below : List (ℕ × ℕ) → ℕ × ℕ → Type 0
Below s p = All (λ q. pair_lt q p ≡ true) s

set_insert_last : (s : List (ℕ × ℕ)) (p : ℕ × ℕ) → Below s p → set_insert p s ≡ s ++ (p ∷ [])
unfolding set_insert
set_insert_last [] p h = refl
set_insert_last ((a, b) ∷ s) (c, d) h = ground (arith, set_insert_last s (c, d) h.1)

Increasing-Below :
    (s : List (ℕ × ℕ)) (p : ℕ × ℕ) (ps : List (ℕ × ℕ)) → Increasing (s ++ (p ∷ ps)) → Below s p
Increasing-Below [] p ps h = tt
Increasing-Below (q ∷ s) p ps h =
    (All-middle (λ r. pair_lt q r ≡ true) s p ps h.0, Increasing-Below s p ps h.1)

abbrev pub IsFresh : ℕ × FileMetaData → Type 0
IsFresh p = (p.1.refs ≡ 0) × (p.1.allowed_seeks ≡ 2 ^ 30)

-- A field that is not set holds what `clear` puts there, and files are as `add_file` makes them:
-- what every sequence of setters on a cleared edit gives.
pub record IsNormal (e : VersionEdit) : Type 0 where
  pub comparator : e.has_comparator ≡ false → e.comparator ≡ []
  pub log_number : e.has_log_number ≡ false → e.log_number ≡ 0
  pub prev_log_number : e.has_prev_log_number ≡ false → e.prev_log_number ≡ 0
  pub next_file_number : e.has_next_file_number ≡ false → e.next_file_number ≡ 0
  pub last_sequence : e.has_last_sequence ≡ false → e.last_sequence ≡ 0
  pub deleted_files : Increasing e.deleted_files
  pub new_files : All IsFresh e.new_files

pub comparator_piece :
    (c : VersionEdit) (has : Bool) (name rest : Bytes)
    → c.comparator ≡ []
    → c.has_comparator ≡ false
    → IsU32 (length name)
    → (has ≡ false → name ≡ [])
    → Decodes c
        (comparator_bytes has name ++ rest)
        (record c { comparator = name; has_comparator = has })
        rest
unfolding comparator_bytes set_comparator_name
comparator_piece c true name rest hc hh fits normal = decode_comparator c rest name fits
comparator_piece c false name rest hc hh fits normal =
    let same : record c { comparator = name; has_comparator = false } ≡ c =
      ground (arith, normal refl) in
    rw same (stay c rest)

pub log_number_piece :
    (c : VersionEdit) (has : Bool) (n : ℕ) (rest : Bytes)
    → c.log_number ≡ 0
    → c.has_log_number ≡ false
    → IsU64 n
    → (has ≡ false → n ≡ 0)
    → Decodes c
        (number_bytes has tag_log_number n ++ rest)
        (record c { log_number = n; has_log_number = has })
        rest
unfolding number_bytes set_log_number
log_number_piece c true n rest hc hh fits normal = decode_log_number c rest n fits
log_number_piece c false n rest hc hh fits normal =
    let same : record c { log_number = n; has_log_number = false } ≡ c =
      ground (arith, normal refl) in
    rw same (stay c rest)

pub prev_log_number_piece :
    (c : VersionEdit) (has : Bool) (n : ℕ) (rest : Bytes)
    → c.prev_log_number ≡ 0
    → c.has_prev_log_number ≡ false
    → IsU64 n
    → (has ≡ false → n ≡ 0)
    → Decodes c
        (number_bytes has tag_prev_log_number n ++ rest)
        (record c { prev_log_number = n; has_prev_log_number = has })
        rest
unfolding number_bytes set_prev_log_number
prev_log_number_piece c true n rest hc hh fits normal = decode_prev_log_number c rest n fits
prev_log_number_piece c false n rest hc hh fits normal =
    let same : record c { prev_log_number = n; has_prev_log_number = false } ≡ c =
      ground (arith, normal refl) in
    rw same (stay c rest)

pub next_file_number_piece :
    (c : VersionEdit) (has : Bool) (n : ℕ) (rest : Bytes)
    → c.next_file_number ≡ 0
    → c.has_next_file_number ≡ false
    → IsU64 n
    → (has ≡ false → n ≡ 0)
    → Decodes c
        (number_bytes has tag_next_file_number n ++ rest)
        (record c { next_file_number = n; has_next_file_number = has })
        rest
unfolding number_bytes set_next_file
next_file_number_piece c true n rest hc hh fits normal = decode_next_file_number c rest n fits
next_file_number_piece c false n rest hc hh fits normal =
    let same : record c { next_file_number = n; has_next_file_number = false } ≡ c =
      ground (arith, normal refl) in
    rw same (stay c rest)

pub last_sequence_piece :
    (c : VersionEdit) (has : Bool) (n : ℕ) (rest : Bytes)
    → c.last_sequence ≡ 0
    → c.has_last_sequence ≡ false
    → IsU64 n
    → (has ≡ false → n ≡ 0)
    → Decodes c
        (number_bytes has tag_last_sequence n ++ rest)
        (record c { last_sequence = n; has_last_sequence = has })
        rest
unfolding number_bytes set_last_sequence
last_sequence_piece c true n rest hc hh fits normal = decode_last_sequence c rest n fits
last_sequence_piece c false n rest hc hh fits normal =
    let same : record c { last_sequence = n; has_last_sequence = false } ≡ c =
      ground (arith, normal refl) in
    rw same (stay c rest)

pub pointers_piece :
    (ps : List (ℕ × Bytes)) (c : VersionEdit) (rest : Bytes)
    → All FitsPointer ps
    → Decodes c
        (concat_map pointer_bytes ps ++ rest)
        (record c { compact_pointers = c.compact_pointers ++ ps })
        rest
unfolding set_compact_pointer
pointers_piece [] c rest h = rw (append-nil c.compact_pointers) (stay c rest)
pointers_piece (p ∷ ps) c rest h =
    rw
      (
        append_assoc (pointer_bytes p) (concat_map pointer_bytes ps) rest,
        ← append_assoc c.compact_pointers (p ∷ []) ps,
      )
      (follow (decode_pointer c (concat_map pointer_bytes ps ++ rest) p h.0)
        (pointers_piece ps (set_compact_pointer c p.0 p.1) rest h.1))

pub deleted_piece :
    (ds : List (ℕ × ℕ)) (c : VersionEdit) (rest : Bytes)
    → All FitsDeleted ds
    → Increasing (c.deleted_files ++ ds)
    → Decodes c
        (concat_map deleted_bytes ds ++ rest)
        (record c { deleted_files = c.deleted_files ++ ds })
        rest
unfolding delete_file
deleted_piece [] c rest h inc = rw (append-nil c.deleted_files) (stay c rest)
deleted_piece (d ∷ ds) c rest h inc =
    let last = set_insert_last c.deleted_files d (Increasing-Below c.deleted_files d ds inc) in
    rw
      (
        append_assoc (deleted_bytes d) (concat_map deleted_bytes ds) rest,
        ← append_assoc c.deleted_files (d ∷ []) ds,
      )
      (follow (rw last at (decode_deleted c (concat_map deleted_bytes ds ++ rest) d h.0)) (
        deleted_piece ds (record c { deleted_files = c.deleted_files ++ (d ∷ []) }) rest h.1
          (rw (append_assoc c.deleted_files (d ∷ []) ds) inc)))

pub files_piece :
    (fs : List (ℕ × FileMetaData)) (c : VersionEdit) (rest : Bytes)
    → All FitsFile fs
    → All IsFresh fs
    → Decodes c (concat_map file_bytes fs ++ rest) (record c { new_files = c.new_files ++ fs }) rest
unfolding add_file
files_piece [] c rest h fresh = rw (append-nil c.new_files) (stay c rest)
files_piece ((level, f) ∷ fs) c rest h fresh =
    let same : record f { refs = 0; allowed_seeks = 2 ^ 30 } ≡ f = ground arith in
    rw
      (
        append_assoc (file_bytes (level, f)) (concat_map file_bytes fs) rest,
        ← append_assoc c.new_files ((level, f) ∷ []) fs,
      )
      (follow (rw same at (decode_file c (concat_map file_bytes fs ++ rest) (level, f) h.0)) (
        files_piece fs (record c { new_files = c.new_files ++ ((level, f) ∷ []) }) rest h.1
          fresh.1))
