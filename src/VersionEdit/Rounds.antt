-- ===== src/VersionEdit/Rounds.antt =====
-- Rounds of the loop of `DecodeFrom`, one for each kind of field.
use leveldb_mcpe_dotnet.Common.{
  ℕ, zero, suc, ◌+◌, ◌≤◌, ◌<◌, some, ◌++◌, ◌≡◌, refl, ◌∙◌, ap, length, append_assoc, length-append,
  arith,
}
use leveldb_mcpe_dotnet.Common.Bytes.{Bytes, IsU32, IsU64}
use leveldb_mcpe_dotnet.Coding.{encode_varint32, encode_varint64}
use leveldb_mcpe_dotnet.Coding.Varint.{
  get_varint32-encode_varint32, get_varint64-encode_varint64, get_varint32_shorter,
}
use leveldb_mcpe_dotnet.Coding.Prefixed.{prefixed, get_length_prefixed_slice-prefixed}
use leveldb_mcpe_dotnet.DbFormat.{num_levels}
use leveldb_mcpe_dotnet.VersionEdit.{
  FileMetaData, VersionEdit, tag_comparator, tag_log_number, tag_next_file_number,
  tag_last_sequence, tag_compact_pointer, tag_deleted_file, tag_new_file, tag_prev_log_number,
  set_comparator_name, set_log_number, set_prev_log_number, set_next_file, set_last_sequence,
  set_compact_pointer, add_file, delete_file,
}
use leveldb_mcpe_dotnet.VersionEdit.Codec.{
  read, get_level, get_internal_key, get_new_file, get_deleted_file, get_compact_pointer,
  get_comparator, get_number, decode_field, decode_loop,
}
use leveldb_mcpe_dotnet.VersionEdit.Pieces.{
  FitsPointer, FitsDeleted, FitsFile, pointer_bytes, deleted_bytes, file_bytes,
}

-- From `e` at `input` the loop comes to `e'` at `rest`, in rounds that take a byte at least.
pub record Decodes (e : VersionEdit) (input : Bytes) (e' : VersionEdit) (rest : Bytes)
    : Type 0 where
  pub rounds : ℕ
  pub enough : rounds + length rest ≤ length input
  pub steps : (k fuel : ℕ) → k ≡ rounds + fuel → decode_loop k e input ≡ decode_loop fuel e' rest

pub stay : (e : VersionEdit) (input : Bytes) → Decodes e input e input
stay e input = record {
  rounds = 0;
  enough = omega arith;
  steps = λ k fuel h. ap (λ (n : ℕ). decode_loop n e input) (omega arith);
}

pub follow :
    {e e' e'' : VersionEdit} {input rest rest' : Bytes}
    → Decodes e input e' rest
    → Decodes e' rest e'' rest'
    → Decodes e input e'' rest'
follow p q = record {
  rounds = p.rounds + q.rounds;
  enough = omega (arith, p.enough, q.enough);
  steps =
      λ k fuel h. p.steps k (q.rounds + fuel) (omega arith) ∙ q.steps (q.rounds + fuel) fuel refl;
}

-- One round on a tag and a field that reads.
one_field :
    (e e' : VersionEdit) (tag : ℕ) (piece rest : Bytes)
    → IsU32 tag
    → decode_field e tag (piece ++ rest) ≡ read e' rest
    → Decodes e ((encode_varint32 tag ++ piece) ++ rest) e' rest
unfolding decode_loop
one_field e e' tag piece rest small reads =
    let whole = encode_varint32 tag ++ (piece ++ rest) in
    let starts = get_varint32-encode_varint32 tag (piece ++ rest) small in
    rw (append_assoc (encode_varint32 tag) piece rest) (record {
      rounds = 1;
      enough = omega (
        arith,
        get_varint32_shorter whole tag (piece ++ rest) starts,
        length-append {0} piece rest,
      );
      steps = λ k fuel h. one_round k fuel h;
    })
  where
    one_round :
        (k fuel : ℕ)
        → k ≡ 1 + fuel
        → decode_loop k e (encode_varint32 tag ++ (piece ++ rest)) ≡ decode_loop fuel e' rest
    one_round zero fuel h = absurd (omega arith)
    one_round (suc k) fuel h =
        rw (decode_loop, get_varint32-encode_varint32 tag (piece ++ rest) small, reads)
          (ap (λ (n : ℕ). decode_loop n e' rest) (omega arith))

-- The fields, one by one. A field that is not there is as `clear` left it.
module _ (e : VersionEdit) (rest : Bytes) where
  number_field :
      (set : VersionEdit → ℕ → VersionEdit) (n : ℕ)
      → IsU64 n
      → get_number set e (encode_varint64 n ++ rest) ≡ some (set e n, rest)
  unfolding get_number
  number_field set n h = rw (get_varint64-encode_varint64 n rest h)

  pub decode_comparator :
      (name : Bytes)
      → IsU32 (length name)
      → Decodes e
          ((encode_varint32 tag_comparator ++ prefixed name) ++ rest)
          (set_comparator_name e name)
          rest
  unfolding decode_field get_comparator
  decode_comparator name h =
      one_field e _ tag_comparator (prefixed name) rest (omega arith)
        (rw (get_length_prefixed_slice-prefixed name rest h))

  pub decode_log_number :
      (n : ℕ)
      → IsU64 n
      → Decodes e
          ((encode_varint32 tag_log_number ++ encode_varint64 n) ++ rest)
          (set_log_number e n)
          rest
  unfolding decode_field
  decode_log_number n h =
      one_field e _ tag_log_number (encode_varint64 n) rest (omega arith)
        (rw (number_field set_log_number n h))

  pub decode_prev_log_number :
      (n : ℕ)
      → IsU64 n
      → Decodes e
          ((encode_varint32 tag_prev_log_number ++ encode_varint64 n) ++ rest)
          (set_prev_log_number e n)
          rest
  unfolding decode_field
  decode_prev_log_number n h =
      one_field e _ tag_prev_log_number (encode_varint64 n) rest (omega arith)
        (rw (number_field set_prev_log_number n h))

  pub decode_next_file_number :
      (n : ℕ)
      → IsU64 n
      → Decodes e
          ((encode_varint32 tag_next_file_number ++ encode_varint64 n) ++ rest)
          (set_next_file e n)
          rest
  unfolding decode_field
  decode_next_file_number n h =
      one_field e _ tag_next_file_number (encode_varint64 n) rest (omega arith)
        (rw (number_field set_next_file n h))

  pub decode_last_sequence :
      (n : ℕ)
      → IsU64 n
      → Decodes e
          ((encode_varint32 tag_last_sequence ++ encode_varint64 n) ++ rest)
          (set_last_sequence e n)
          rest
  unfolding decode_field
  decode_last_sequence n h =
      one_field e _ tag_last_sequence (encode_varint64 n) rest (omega arith)
        (rw (number_field set_last_sequence n h))

  level_read :
      (level : ℕ) (behind : Bytes)
      → level < num_levels
      → get_level (encode_varint32 level ++ behind) ≡ some (level, behind)
  unfolding get_level
  level_read level behind h =
      rw (get_varint32-encode_varint32 level behind (omega arith)) (ground arith)

  pub decode_pointer :
      (p : ℕ × Bytes)
      → FitsPointer p
      → Decodes e (pointer_bytes p ++ rest) (set_compact_pointer e p.0 p.1) rest
  unfolding decode_field get_compact_pointer get_internal_key
  decode_pointer (level, key) h =
      one_field e _ tag_compact_pointer (encode_varint32 level ++ prefixed key) rest (omega arith) (
        rw (
          append_assoc (encode_varint32 level) (prefixed key) rest,
          level_read level (prefixed key ++ rest) h.0,
          get_length_prefixed_slice-prefixed key rest h.1,
        ))

  pub decode_deleted :
      (p : ℕ × ℕ) → FitsDeleted p → Decodes e (deleted_bytes p ++ rest) (delete_file e p.0 p.1) rest
  unfolding decode_field get_deleted_file
  decode_deleted (level, number) h =
      one_field e _ tag_deleted_file (encode_varint32 level ++ encode_varint64 number) rest
        (omega arith)
        (rw (
          append_assoc (encode_varint32 level) (encode_varint64 number) rest,
          level_read level (encode_varint64 number ++ rest) h.0,
          get_varint64-encode_varint64 number rest h.1,
        ))

  pub decode_file :
      (p : ℕ × FileMetaData)
      → FitsFile p
      → Decodes e
          (file_bytes p ++ rest)
          (add_file e p.0 p.1.number p.1.file_size p.1.smallest p.1.largest)
          rest
  unfolding decode_field get_new_file get_internal_key
  decode_file (level, f) h =
      let keys = prefixed f.smallest ++ prefixed f.largest in
      let sizes = encode_varint64 f.file_size ++ keys in
      let numbers = encode_varint64 f.number ++ sizes in
      one_field e _ tag_new_file (encode_varint32 level ++ numbers) rest (omega arith) (
        rw (
          append_assoc (encode_varint32 level) numbers rest,
          level_read level (numbers ++ rest) h.0,
          append_assoc (encode_varint64 f.number) sizes rest,
          get_varint64-encode_varint64 f.number (sizes ++ rest) h.1,
          append_assoc (encode_varint64 f.file_size) keys rest,
          get_varint64-encode_varint64 f.file_size (keys ++ rest) h.2,
          append_assoc (prefixed f.smallest) (prefixed f.largest) rest,
          get_length_prefixed_slice-prefixed f.smallest (prefixed f.largest ++ rest) h.3,
          get_length_prefixed_slice-prefixed f.largest rest h.4,
        ))
