-- ===== src/DbFormat/Lookup.antt =====
-- Lookup keys: their three views, and what they find in the order of internal keys.
use leveldb_mcpe_dotnet.Common.{
  ℕ, ◌+◌, ◌-◌, ◌*◌, ◌%◌, ◌^◌, ◌≤◌, ◌<◌, [], ◌++◌, ◌≡◌, ◌≢◌, ◌↔◌, ap, length, length-append,
  take-append_length, drop-append_length, arith,
}
use leveldb_mcpe_dotnet.Common.Bytes.{Bytes}
use leveldb_mcpe_dotnet.Coding.{encode_fixed64, put_fixed64, encode_varint32}
use leveldb_mcpe_dotnet.Coding.Prefixed.{prefixed}
use leveldb_mcpe_dotnet.Coding.Fixed.{length-encode_fixed64}
use leveldb_mcpe_dotnet.Comparator.{Comparator}
use leveldb_mcpe_dotnet.DbFormat.{
  ParsedInternalKey, pack_sequence_and_type, value_type_for_seek, max_sequence_number, type_value,
  append_internal_key, compare, lookup_key, memtable_key, internal_key, user_key,
}
use leveldb_mcpe_dotnet.DbFormat.Codec.{
  append_internal_key-tagged, extract_user_key-tagged, extract_tag-tagged,
}
use Prim.Native.Nat.{Ordering}

module _ (u : Bytes) (s : ℕ) where
  tail : Bytes
  tail = u ++ encode_fixed64 (pack_sequence_and_type s value_type_for_seek)

  length-tail : length tail ≡ length u + 8
  unfolding tail
  length-tail = omega (
    arith,
    length-append {0} u (encode_fixed64 (pack_sequence_and_type s value_type_for_seek)),
    length-encode_fixed64 (pack_sequence_and_type s value_type_for_seek),
  )

  internal_key-tail : internal_key (lookup_key u s) ≡ tail
  unfolding internal_key lookup_key tail
  internal_key-tail = drop-append_length (encode_varint32 ((length u % 2 ^ 32 + 8) % 2 ^ 32)) tail

  -- The internal key of a lookup key is that of the user key at the sequence number.
  pub internal_key-lookup_key :
      internal_key (lookup_key u s)
      ≡ append_internal_key [] (record { user_key = u; sequence = s; type = type_value })
  unfolding tail append_internal_key put_fixed64
  internal_key-lookup_key = internal_key-tail

  user_key-lookup_key : user_key (lookup_key u s) ≡ u
  unfolding user_key lookup_key tail internal_key
  user_key-lookup_key =
      let klength = encode_varint32 ((length u % 2 ^ 32 + 8) % 2 ^ 32) in
      let n : length (klength ++ tail) - length klength - 8 ≡ length u =
        omega (arith, length-append {0} klength tail, length-tail) in
      rw (n, internal_key-tail)
        (take-append_length u (encode_fixed64 (pack_sequence_and_type s value_type_for_seek)))

  memtable_key-lookup_key :
      length u + 8 < 2 ^ 32
      → memtable_key (lookup_key u s) ≡ prefixed (internal_key (lookup_key u s))
  unfolding memtable_key lookup_key tail
  memtable_key-lookup_key fits =
      rw internal_key-tail (ap (λ (n : ℕ). encode_varint32 n ++ tail) (omega (arith, length-tail)))

  -- For a user key shorter than 2^32 - 8 the three views of a lookup key are the user key, its
  -- internal key at the sequence number, and that internal key behind its length.
  pub lookup_key_views :
      length u + 8 < 2 ^ 32
      → (user_key (lookup_key u s) ≡ u)
        × (internal_key (lookup_key u s)
            ≡ append_internal_key [] (record { user_key = u; sequence = s; type = type_value }))
        × (memtable_key (lookup_key u s) ≡ prefixed (internal_key (lookup_key u s)))
  lookup_key_views fits =
      (user_key-lookup_key, internal_key-lookup_key, memtable_key-lookup_key fits)

-- For an entry of the same user key, with sequence numbers in range, the lookup key does not stand
-- behind the entry exactly if the entry's sequence number is not above the lookup's.
pub lookup_key_visible :
    (user : Comparator)
    → (u : Bytes) (s : ℕ) (entry : ParsedInternalKey) → s ≤ max_sequence_number
    → entry.sequence ≤ max_sequence_number
    → entry.type ≤ type_value
    → user.compare u entry.user_key ≡ Ordering.eq
    → (compare user (internal_key (lookup_key u s)) (append_internal_key [] entry) ≢ Ordering.gt)
      ↔ (entry.sequence ≤ s)
unfolding compare
lookup_key_visible user u s entry hs he ht same =
    let k : ParsedInternalKey = record { user_key = u; sequence = s; type = type_value } in
    rw
      (
        internal_key-lookup_key u s,
        append_internal_key-tagged [] k hs (omega arith),
        append_internal_key-tagged [] entry he (omega arith),
      )
      (ground (
        arith,
        extract_user_key-tagged u (s * 256 + 1),
        extract_tag-tagged u (s * 256 + 1),
        extract_user_key-tagged entry.user_key (entry.sequence * 256 + entry.type),
        extract_tag-tagged entry.user_key (entry.sequence * 256 + entry.type),
      ))
