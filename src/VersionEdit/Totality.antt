-- ===== src/VersionEdit/Totality.antt =====
-- The loop of `DecodeFrom` ends on any input, and what is refused.
use Prim.Native.String.{String}
use leveldb_mcpe_dotnet.Common.{
  ℕ, zero, suc, ◌≤◌, ◌<◌, Option, none, some, ◌≡◌, ◌≢◌, refl, length, Option-cases, inl, inr, ◌⊎◌,
  arith,
}
use leveldb_mcpe_dotnet.Common.Bytes.{Bytes}
use leveldb_mcpe_dotnet.Coding.{get_varint32, get_varint64, get_length_prefixed_slice}
use leveldb_mcpe_dotnet.Coding.Varint.{get_varint32_shorter, get_varint64_takes}
use leveldb_mcpe_dotnet.Coding.Prefixed.{get_length_prefixed_slice_shorter}
use leveldb_mcpe_dotnet.VersionEdit.{
  VersionEdit, clear, set_comparator_name, set_log_number, set_prev_log_number, set_next_file,
  set_last_sequence,
}
use leveldb_mcpe_dotnet.VersionEdit.Codec.{
  Field, read, bad, or_bad, get_level, get_internal_key, get_new_file, get_deleted_file,
  get_compact_pointer, get_comparator, get_number, decode_field, decode_loop, decode_from, ◌>>=◌,
}

-- A reader gives back no more than it was given.
abbrev Shrinks {ℓ} : {A : Type ℓ} → (Bytes → Option (A × Bytes)) → Type ℓ
Shrinks {A = A} r =
    (input rest : Bytes) (a : A) → r input ≡ some (a, rest) → length rest ≤ length input

-- One reader after another.
bind-Shrinks {ℓ κ} :
    {A : Type ℓ} {B : Type κ} (r : Bytes → Option (A × Bytes)) (f : A → Bytes → Option (B × Bytes))
    → Shrinks r
    → ((a : A) → Shrinks (f a))
    → Shrinks (λ input. r input >>= λ (a, rest). f a rest)
bind-Shrinks r f hr hf input rest b e = elim (Option-cases (r input)) [
  | inl q ↦ ground arith
  | inr ((a, mid), q) ↦ ground (arith, hr input mid a, hf a mid rest b)
]

done-Shrinks {ℓ} : {A : Type ℓ} (a : A) → Shrinks (λ rest. some (a, rest))
done-Shrinks a input rest b e = ground arith

varint32-Shrinks : Shrinks get_varint32
varint32-Shrinks input rest v e = omega (arith, get_varint32_shorter input v rest e)

varint64-Shrinks : Shrinks get_varint64
varint64-Shrinks input rest v e = omega (arith, get_varint64_takes input v rest e)

slice-Shrinks : Shrinks get_length_prefixed_slice
slice-Shrinks input rest v e = omega (arith, get_length_prefixed_slice_shorter input v rest e)

key-Shrinks : Shrinks get_internal_key
unfolding get_internal_key
key-Shrinks = slice-Shrinks

level-Shrinks : Shrinks get_level
unfolding get_level
level-Shrinks input rest v e = elim (Option-cases (get_varint32 input)) [
  | inl q ↦ ground arith
  | inr ((a, mid), q) ↦ ground (arith, varint32-Shrinks input mid a q)
]

module _ (e : VersionEdit) where
  comparator-Shrinks : Shrinks (get_comparator e)
  unfolding get_comparator
  comparator-Shrinks =
      bind-Shrinks get_length_prefixed_slice (λ name rest. some (set_comparator_name e name, rest))
        slice-Shrinks (λ name. done-Shrinks _)

  number-Shrinks : (set : VersionEdit → ℕ → VersionEdit) → Shrinks (get_number set e)
  unfolding get_number
  number-Shrinks set = bind-Shrinks _ _ varint64-Shrinks (λ n. done-Shrinks (set e n))

  new_file-Shrinks : Shrinks (get_new_file e)
  unfolding get_new_file
  new_file-Shrinks = bind-Shrinks _ _ level-Shrinks (λ level.
      bind-Shrinks _ _ varint64-Shrinks (λ number. bind-Shrinks _ _ varint64-Shrinks (λ size.
        bind-Shrinks _ _ key-Shrinks
          (λ smallest. bind-Shrinks _ _ key-Shrinks (λ largest. done-Shrinks _)))))

  deleted_file-Shrinks : Shrinks (get_deleted_file e)
  unfolding get_deleted_file
  deleted_file-Shrinks =
      bind-Shrinks _ _ level-Shrinks
        (λ level. bind-Shrinks _ _ varint64-Shrinks (λ number. done-Shrinks _))

  compact_pointer-Shrinks : Shrinks (get_compact_pointer e)
  unfolding get_compact_pointer
  compact_pointer-Shrinks =
      bind-Shrinks _ _ level-Shrinks (λ level. bind-Shrinks _ _ key-Shrinks (λ key. done-Shrinks _))

  or_bad-Shrinks :
      (r : Bytes → Option (VersionEdit × Bytes)) (msg : String) (input rest : Bytes)
      (e' : VersionEdit)
      → Shrinks r
      → or_bad (r input) msg ≡ read e' rest
      → length rest ≤ length input
  or_bad-Shrinks r msg input rest e' shrinks h = elim (Option-cases (r input)) [
    | inl q ↦ ground arith
    | inr ((a, mid), q) ↦ ground (arith, shrinks input mid a q)
  ]

  field-Shrinks :
      (tag : ℕ) (input rest : Bytes) (e' : VersionEdit)
      → decode_field e tag input ≡ read e' rest
      → length rest ≤ length input
  unfolding decode_field
  field-Shrinks tag input rest e' h = ground (
    arith,
    or_bad-Shrinks (get_comparator e) "comparator name" input rest e' comparator-Shrinks,
    or_bad-Shrinks (get_number set_log_number e) "log number" input rest e' (number-Shrinks _),
    or_bad-Shrinks (get_number set_prev_log_number e) "previous log number" input rest e'
        (number-Shrinks _),
    or_bad-Shrinks (get_number set_next_file e) "next file number" input rest e' (number-Shrinks _),
    or_bad-Shrinks (get_number set_last_sequence e) "last sequence number" input rest e'
        (number-Shrinks _),
    or_bad-Shrinks (get_compact_pointer e) "compaction pointer" input rest e'
        compact_pointer-Shrinks,
    or_bad-Shrinks (get_deleted_file e) "deleted file" input rest e' deleted_file-Shrinks,
    or_bad-Shrinks (get_new_file e) "new-file entry" input rest e' new_file-Shrinks,
  )

Field-cases :
    (f : Field)
    → ((e : VersionEdit) × (rest : Bytes) × (f ≡ read e rest)) ⊎ ((msg : String) × (f ≡ bad msg))
Field-cases (read e rest) = inl (e, rest, refl)
Field-cases (bad msg) = inr (msg, refl)

decode_loop_total :
    (fuel : ℕ) (e : VersionEdit) (input : Bytes)
    → length input < fuel
    → decode_loop fuel e input ≢ none
unfolding decode_loop
decode_loop_total zero e input h p = absurd (omega arith)
decode_loop_total (suc fuel) e input h p = elim (Option-cases (get_varint32 input)) [
  | inl q ↦ ground arith
  | inr ((tag, rest), q) ↦ elim (Field-cases (decode_field e tag rest)) [
    | inl (e', rest', f) ↦ ground (
      arith,
      get_varint32_shorter input tag rest q,
      field-Shrinks e tag rest rest' e' f,
      decode_loop_total fuel e' rest',
    )
    | inr (msg, f) ↦ ground arith
  ]
]

-- The loop of DecodeFrom never runs out of the fuel of one round more than the bytes, on any
-- input.
pub decode_from_total : (e : VersionEdit) (src : Bytes) → decode_from e src ≢ none
unfolding decode_from
decode_from_total e src = decode_loop_total (suc (length src)) (clear e) src (omega arith)
