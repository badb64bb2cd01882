-- ===== src/VersionEdit/Pieces.antt =====
-- The bytes of an edit, piece by piece: what `EncodeTo` appends.
use leveldb_mcpe_dotnet.Common.{
  ℕ, ◌%◌, ◌^◌, ◌<◌, Bool, true, false, List, [], ◌∷◌, ◌++◌, ◌≡◌, sym, ◌∙◌, length, append-nil,
  append_assoc, All, arith,
}
use leveldb_mcpe_dotnet.Common.Bytes.{Bytes, IsU32, IsU64}
use leveldb_mcpe_dotnet.Coding.{put_varint32, put_varint64, encode_varint32, encode_varint64}
use leveldb_mcpe_dotnet.Coding.Prefixed.{prefixed, put_length_prefixed_slice-prefixed}
use leveldb_mcpe_dotnet.DbFormat.{num_levels}
use leveldb_mcpe_dotnet.VersionEdit.{
  FileMetaData, VersionEdit, tag_comparator, tag_log_number, tag_next_file_number,
  tag_last_sequence, tag_compact_pointer, tag_deleted_file, tag_new_file, tag_prev_log_number,
}
use leveldb_mcpe_dotnet.VersionEdit.Codec.{
  put_compact_pointers, put_deleted_files, put_new_file, put_new_files, put_number, put_comparator,
  encode_to,
}

abbrev pub pointer_bytes : ℕ × Bytes → Bytes
pointer_bytes (level, key) =
    encode_varint32 tag_compact_pointer ++ (encode_varint32 level ++ prefixed key)

abbrev pub deleted_bytes : ℕ × ℕ → Bytes
deleted_bytes (level, number) =
    encode_varint32 tag_deleted_file ++ (encode_varint32 level ++ encode_varint64 number)

abbrev pub file_bytes : ℕ × FileMetaData → Bytes
file_bytes (level, f) =
    encode_varint32 tag_new_file
    ++ (encode_varint32 level
        ++ (encode_varint64 f.number
            ++ (encode_varint64 f.file_size ++ (prefixed f.smallest ++ prefixed f.largest))))

abbrev pub concat_map {ℓ} : {A : Type ℓ} → (A → Bytes) → List A → Bytes
concat_map f [] = []
concat_map f (x ∷ xs) = f x ++ concat_map f xs

unfoldable pub number_bytes : Bool → ℕ → ℕ → Bytes
number_bytes true tag n = encode_varint32 tag ++ encode_varint64 n
number_bytes false tag n = []

unfoldable pub comparator_bytes : Bool → Bytes → Bytes
comparator_bytes true name = encode_varint32 tag_comparator ++ prefixed name
comparator_bytes false name = []

unfoldable pub edit_bytes : VersionEdit → Bytes
edit_bytes e =
    comparator_bytes e.has_comparator e.comparator
    ++ (number_bytes e.has_log_number tag_log_number e.log_number
        ++ (number_bytes e.has_prev_log_number tag_prev_log_number e.prev_log_number
            ++ (number_bytes e.has_next_file_number tag_next_file_number e.next_file_number
                ++ (number_bytes e.has_last_sequence tag_last_sequence e.last_sequence
                    ++ (concat_map pointer_bytes e.compact_pointers
                        ++ (concat_map deleted_bytes e.deleted_files
                            ++ concat_map file_bytes e.new_files))))))

-- What the fields of an edit must fit for its encoding to hold all of them.
abbrev pub FitsPointer : ℕ × Bytes → Type 0
FitsPointer (level, key) = (level < num_levels) × IsU32 (length key)

abbrev pub FitsDeleted : ℕ × ℕ → Type 0
FitsDeleted (level, number) = (level < num_levels) × IsU64 number

abbrev pub FitsFile : ℕ × FileMetaData → Type 0
FitsFile (level, f) =
    (level < num_levels)
    × IsU64 f.number
    × IsU64 f.file_size
    × IsU32 (length f.smallest)
    × IsU32 (length f.largest)

put_number-bytes :
    (has : Bool) (tag n : ℕ) (dst : Bytes)
    → put_number has tag n dst ≡ dst ++ number_bytes has tag n
unfolding put_number number_bytes put_varint32 put_varint64
put_number-bytes true tag n dst = append_assoc dst _ _
put_number-bytes false tag n dst = sym (append-nil dst)

put_comparator-bytes :
    (has : Bool) (name dst : Bytes)
    → IsU32 (length name)
    → put_comparator has name dst ≡ dst ++ comparator_bytes has name
unfolding put_comparator comparator_bytes put_varint32
put_comparator-bytes true name dst h =
    put_length_prefixed_slice-prefixed (dst ++ encode_varint32 tag_comparator) name h
    ∙ append_assoc dst _ _
put_comparator-bytes false name dst h = sym (append-nil dst)

level_cast : (level : ℕ) → level < num_levels → level % 2 ^ 32 ≡ level
level_cast level h = omega arith

put_compact_pointers-bytes :
    (ps : List (ℕ × Bytes)) (dst : Bytes)
    → All FitsPointer ps
    → put_compact_pointers dst ps ≡ dst ++ concat_map pointer_bytes ps
unfolding put_compact_pointers put_varint32
put_compact_pointers-bytes [] dst h = sym (append-nil dst)
put_compact_pointers-bytes ((level, key) ∷ ps) dst h =
    put_compact_pointers-bytes ps _ h.1
    ∙ rw
        (
          level_cast level h.0.0,
          put_length_prefixed_slice-prefixed
              ((dst ++ encode_varint32 tag_compact_pointer) ++ encode_varint32 level) key h.0.1,
        )
        (simp append_assoc)

put_deleted_files-bytes :
    (ds : List (ℕ × ℕ)) (dst : Bytes)
    → All FitsDeleted ds
    → put_deleted_files dst ds ≡ dst ++ concat_map deleted_bytes ds
unfolding put_deleted_files put_varint32 put_varint64
put_deleted_files-bytes [] dst h = sym (append-nil dst)
put_deleted_files-bytes ((level, number) ∷ ds) dst h =
    put_deleted_files-bytes ds _ h.1 ∙ rw (level_cast level h.0.0) (simp append_assoc)

put_new_file-bytes :
    (level : ℕ) (f : FileMetaData) (dst : Bytes)
    → FitsFile (level, f)
    → put_new_file dst level f ≡ dst ++ file_bytes (level, f)
unfolding put_new_file put_varint32 put_varint64
put_new_file-bytes level f dst h =
    let tagged = (dst ++ encode_varint32 tag_new_file) ++ encode_varint32 level in
    let numbers = (tagged ++ encode_varint64 f.number) ++ encode_varint64 f.file_size in
    rw
      (
        level_cast level h.0,
        put_length_prefixed_slice-prefixed numbers f.smallest h.3,
        put_length_prefixed_slice-prefixed (numbers ++ prefixed f.smallest) f.largest h.4,
      )
      (simp append_assoc)

put_new_files-bytes :
    (fs : List (ℕ × FileMetaData)) (dst : Bytes)
    → All FitsFile fs
    → put_new_files dst fs ≡ dst ++ concat_map file_bytes fs
unfolding put_new_files
put_new_files-bytes [] dst h = sym (append-nil dst)
put_new_files-bytes ((level, f) ∷ fs) dst h =
    put_new_files-bytes fs _ h.1
    ∙ rw (put_new_file-bytes level f dst h.0)
        (append_assoc dst (file_bytes (level, f)) (concat_map file_bytes fs))

-- Every field of the edit fits its encoding.
pub record Fits (e : VersionEdit) : Type 0 where
  pub comparator : IsU32 (length e.comparator)
  pub log_number : IsU64 e.log_number
  pub prev_log_number : IsU64 e.prev_log_number
  pub next_file_number : IsU64 e.next_file_number
  pub last_sequence : IsU64 e.last_sequence
  pub compact_pointers : All FitsPointer e.compact_pointers
  pub deleted_files : All FitsDeleted e.deleted_files
  pub new_files : All FitsFile e.new_files

-- `EncodeTo` appends the pieces in this order.
pub encode_to-edit_bytes :
    (e : VersionEdit) (dst : Bytes) → Fits e → encode_to e dst ≡ dst ++ edit_bytes e
unfolding encode_to edit_bytes
encode_to-edit_bytes e dst h =
    rw
      (
        put_comparator-bytes e.has_comparator e.comparator dst h.comparator,
        put_number-bytes e.has_log_number,
        put_number-bytes e.has_prev_log_number,
        put_number-bytes e.has_next_file_number,
        put_number-bytes e.has_last_sequence,
      )
      (put_new_files-bytes e.new_files _ h.new_files
        ∙ rw
            (
              put_deleted_files-bytes e.deleted_files _ h.deleted_files,
              put_compact_pointers-bytes e.compact_pointers _ h.compact_pointers,
            )
            (simp append_assoc))
