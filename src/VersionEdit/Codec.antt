-- ===== src/VersionEdit/Codec.antt =====
-- `VersionEdit::EncodeTo` and `DecodeFrom`.
use Prim.Native.String.{String}
use leveldb_mcpe_dotnet.Common.{
  ℕ, zero, suc, ◌%◌, ◌^◌, Bool, Option, none, some, List, [], ◌∷◌, length, ltb, ◌==◌, if◌then◌else◌,
}
use leveldb_mcpe_dotnet.Common.Bytes.{Bytes}
use leveldb_mcpe_dotnet.Coding.{
  put_varint32, put_varint64, put_length_prefixed_slice, get_varint32, get_varint64,
  get_length_prefixed_slice,
}
use leveldb_mcpe_dotnet.DbFormat.{num_levels}
use leveldb_mcpe_dotnet.VersionEdit.{
  FileMetaData, VersionEdit, clear, tag_comparator, tag_log_number, tag_next_file_number,
  tag_last_sequence, tag_compact_pointer, tag_deleted_file, tag_new_file, tag_prev_log_number,
  set_comparator_name, set_log_number, set_prev_log_number, set_next_file, set_last_sequence,
  set_compact_pointer, delete_file, add_file,
}

-- A level, an `int`, is cast to `uint32_t`.
abbrev pub level_u32 : ℕ → ℕ
level_u32 level = level % 2 ^ 32

-- The loops of `EncodeTo`.
unfoldable pub put_compact_pointers : Bytes → List (ℕ × Bytes) → Bytes
put_compact_pointers dst [] = dst
put_compact_pointers dst ((level, key) ∷ ps) =
    put_compact_pointers
      (put_length_prefixed_slice
        (put_varint32 (put_varint32 dst tag_compact_pointer) (level_u32 level)) key)
      ps

unfoldable pub put_deleted_files : Bytes → List (ℕ × ℕ) → Bytes
put_deleted_files dst [] = dst
put_deleted_files dst ((level, number) ∷ ds) =
    put_deleted_files
      (put_varint64 (put_varint32 (put_varint32 dst tag_deleted_file) (level_u32 level)) number) ds

unfoldable pub put_new_file : Bytes → ℕ → FileMetaData → Bytes
put_new_file dst level f =
    let tagged = put_varint32 (put_varint32 dst tag_new_file) (level_u32 level) in
    let numbers = put_varint64 (put_varint64 tagged f.number) f.file_size in
    put_length_prefixed_slice (put_length_prefixed_slice numbers f.smallest) f.largest

unfoldable pub put_new_files : Bytes → List (ℕ × FileMetaData) → Bytes
put_new_files dst [] = dst
put_new_files dst ((level, f) ∷ fs) = put_new_files (put_new_file dst level f) fs

-- One of the four numbers, behind its tag.
unfoldable pub put_number : Bool → ℕ → ℕ → Bytes → Bytes
put_number has tag n dst = if has then put_varint64 (put_varint32 dst tag) n else dst

unfoldable pub put_comparator : Bool → Bytes → Bytes → Bytes
put_comparator has name dst =
    if has then put_length_prefixed_slice (put_varint32 dst tag_comparator) name else dst

unfoldable pub encode_to : VersionEdit → Bytes → Bytes
encode_to e dst =
    let d1 = put_comparator e.has_comparator e.comparator dst in
    let d2 = put_number e.has_log_number tag_log_number e.log_number d1 in
    let d3 = put_number e.has_prev_log_number tag_prev_log_number e.prev_log_number d2 in
    let d4 = put_number e.has_next_file_number tag_next_file_number e.next_file_number d3 in
    let d5 = put_number e.has_last_sequence tag_last_sequence e.last_sequence d4 in
    put_new_files (put_deleted_files (put_compact_pointers d5 e.compact_pointers) e.deleted_files)
      e.new_files

-- The chain `a && b && ...` of readers.
infixl 5 ◌>>=◌
abbrev pub ◌>>=◌ {ℓ κ} : {A : Type ℓ} {B : Type κ} → Option A → (A → Option B) → Option B
some a >>= f = f a
none >>= f = none

unfoldable pub get_internal_key : Bytes → Option (Bytes × Bytes)
get_internal_key input = get_length_prefixed_slice input

unfoldable pub get_level : Bytes → Option (ℕ × Bytes)
get_level input = do
  (v, rest) ← get_varint32 input
  if ltb v num_levels then some (v, rest) else none

-- The entry of a new file; `f` is one variable for all entries, and keeps its other fields.
unfoldable pub get_new_file : VersionEdit → Bytes → Option (VersionEdit × Bytes)
get_new_file e input = do
  (level, i1) ← get_level input
  (number, i2) ← get_varint64 i1
  (file_size, i3) ← get_varint64 i2
  (smallest, i4) ← get_internal_key i3
  (largest, i5) ← get_internal_key i4
  some (add_file e level number file_size smallest largest, i5)

unfoldable pub get_deleted_file : VersionEdit → Bytes → Option (VersionEdit × Bytes)
get_deleted_file e input = do
  (level, i1) ← get_level input
  (number, i2) ← get_varint64 i1
  some (delete_file e level number, i2)

unfoldable pub get_compact_pointer : VersionEdit → Bytes → Option (VersionEdit × Bytes)
get_compact_pointer e input = do
  (level, i1) ← get_level input
  (key, i2) ← get_internal_key i1
  some (set_compact_pointer e level key, i2)

unfoldable pub get_comparator : VersionEdit → Bytes → Option (VersionEdit × Bytes)
get_comparator e input = do
  (name, rest) ← get_length_prefixed_slice input
  some (set_comparator_name e name, rest)

-- A number for the setter of its field.
unfoldable pub get_number :
    (VersionEdit → ℕ → VersionEdit) → VersionEdit → Bytes → Option (VersionEdit × Bytes)
get_number set e input = do (n, rest) ← get_varint64 input; some (set e n, rest)

-- The `switch`: the edit with the field that the tag announces and the input behind it, or the
-- message.
pub data Field : Type 0 where
  read : VersionEdit → Bytes → Field
  bad : String → Field

abbrev pub or_bad : Option (VersionEdit × Bytes) → String → Field
or_bad (some (e, rest)) msg = read e rest
or_bad none msg = bad msg

unfoldable pub decode_field : VersionEdit → ℕ → Bytes → Field
decode_field e tag input =
    if tag == tag_comparator
    then or_bad (get_comparator e input) "comparator name"
    else if tag == tag_log_number
    then or_bad (get_number set_log_number e input) "log number"
    else if tag == tag_prev_log_number
    then or_bad (get_number set_prev_log_number e input) "previous log number"
    else if tag == tag_next_file_number
    then or_bad (get_number set_next_file e input) "next file number"
    else if tag == tag_last_sequence
    then or_bad (get_number set_last_sequence e input) "last sequence number"
    else if tag == tag_compact_pointer
    then or_bad (get_compact_pointer e input) "compaction pointer"
    else if tag == tag_deleted_file
    then or_bad (get_deleted_file e input) "deleted file"
    else if tag == tag_new_file
    then or_bad (get_new_file e input) "new-file entry"
    else bad "unknown tag"

-- The `while` loop, `none` when the fuel runs out; the edit at the return comes with the message,
-- if there is one.
unfoldable pub decode_loop : ℕ → VersionEdit → Bytes → Option (VersionEdit × Option String)
decode_loop zero e input = none
decode_loop (suc fuel) e input = elim (get_varint32 input) [
  | none ↦ if length input == 0 then some (e, none) else some (e, some "invalid tag")
  | some (tag, rest) ↦ elim (decode_field e tag rest) [
    | read e' rest' ↦ decode_loop fuel e' rest'
    | bad msg ↦ some (e, some msg)
  ]
]

-- Each round takes a byte at least, so one round more than the bytes is enough. The message of a
-- failure stands behind "VersionEdit" in a status of corruption.
unfoldable pub decode_from : VersionEdit → Bytes → Option (VersionEdit × Option String)
decode_from e src = decode_loop (suc (length src)) (clear e) src
