-- ===== src/DbFormat/Codec.antt =====
-- Internal keys: what is packed is parsed, and what is parsed was packed so.
use leveldb_mcpe_dotnet.Common.{
  ℕ, ◌+◌, ◌-◌, ◌*◌, ◌/◌, ◌%◌, ◌^◌, ◌≤◌, ◌<◌, none, some, [], ◌++◌, ◌≡◌, append-nil, ◌⊎◌, length,
  length-append, take-append_length, drop-append_length, arith,
}
use leveldb_mcpe_dotnet.Common.Bits.{bit_and_255, shifted_bit_or}
use leveldb_mcpe_dotnet.Common.Bytes.{Bytes, IsU64}
use leveldb_mcpe_dotnet.Coding.{encode_fixed64, put_fixed64}
use leveldb_mcpe_dotnet.Coding.Fixed.{decode_fixed64-encode_fixed64, length-encode_fixed64}
use leveldb_mcpe_dotnet.DbFormat.{
  ParsedInternalKey, max_sequence_number, pack_sequence_and_type, append_internal_key,
  extract_user_key, extract_tag, extract_value_type, parse_internal_key, type_value,
  internal_key_encoding_length,
}

-- A sequence number below 2 ^ 56 and a type of one byte make a 64-bit tag.
pub pack-sum :
    (seq t : ℕ) → seq ≤ max_sequence_number → t < 256 → pack_sequence_and_type seq t ≡ seq * 256 + t
unfolding pack_sequence_and_type
pack-sum seq t h k =
    let e : seq * 256 % 2 ^ 64 ≡ seq * 256 = omega arith in rw e (shifted_bit_or 8 seq t k)

-- A byte string that ends in the 8 bytes of a tag.
module _ (key : Bytes) (tag : ℕ) where
  tagged_length : length (key ++ encode_fixed64 tag) ≡ length key + 8
  tagged_length =
      omega (arith, length-append {0} key (encode_fixed64 tag), length-encode_fixed64 tag)

  pub extract_user_key-tagged : extract_user_key (key ++ encode_fixed64 tag) ≡ key
  unfolding extract_user_key
  extract_user_key-tagged =
      let e : length (key ++ encode_fixed64 tag) - 8 ≡ length key = omega (arith, tagged_length) in
      rw e (take-append_length key (encode_fixed64 tag))

  pub extract_tag-tagged : IsU64 tag → extract_tag (key ++ encode_fixed64 tag) ≡ tag
  unfolding extract_tag
  extract_tag-tagged h =
      let e : length (key ++ encode_fixed64 tag) - 8 ≡ length key = omega (arith, tagged_length) in
      rw (e, drop-append_length key (encode_fixed64 tag), ← append-nil (encode_fixed64 tag))
        (decode_fixed64-encode_fixed64 tag [] h)

  parse_internal_key-tagged :
      IsU64 tag
      → tag % 256 ≤ 1
      → parse_internal_key (key ++ encode_fixed64 tag)
        ≡ some (record { user_key = key; sequence = tag / 256; type = tag % 256 })
  unfolding parse_internal_key
  parse_internal_key-tagged h t =
      let e : length (key ++ encode_fixed64 tag) - 8 ≡ length key = omega (arith, tagged_length) in
      rw (e, extract_tag-tagged h, take-append_length key (encode_fixed64 tag), bit_and_255 tag)
        (ground (arith, tagged_length))

pub append_internal_key-tagged :
    (result : Bytes) (k : ParsedInternalKey)
    → k.sequence ≤ max_sequence_number
    → k.type < 256
    → append_internal_key result k
      ≡ (result ++ k.user_key) ++ encode_fixed64 (k.sequence * 256 + k.type)
unfolding append_internal_key put_fixed64
append_internal_key-tagged result k h t = rw (pack-sum k.sequence k.type h t)

-- ParseInternalKey reads back a key that AppendInternalKey wrote to an empty string, for a
-- sequence number below 2^56 and one of the two types.
pub parse_internal_key-append_internal_key :
    (k : ParsedInternalKey)
    → k.sequence ≤ max_sequence_number
    → k.type ≤ type_value
    → parse_internal_key (append_internal_key [] k) ≡ some k
parse_internal_key-append_internal_key k h t =
    let tag = k.sequence * 256 + k.type in
    rw (append_internal_key-tagged [] k h (omega arith))
      (ground (arith, parse_internal_key-tagged k.user_key tag (omega arith) (omega arith)))

-- `InternalKeyEncodingLength` is the length that `AppendInternalKey` adds.
pub length-append_internal_key :
    (result : Bytes) (k : ParsedInternalKey)
    → length (append_internal_key result k) ≡ length result + internal_key_encoding_length k
unfolding append_internal_key put_fixed64 internal_key_encoding_length
length-append_internal_key result k = omega (
  arith,
  length-append {0} (result ++ k.user_key)
      (encode_fixed64 (pack_sequence_and_type k.sequence k.type)),
  length-append {0} result k.user_key,
  length-encode_fixed64 (pack_sequence_and_type k.sequence k.type),
)

-- A key that is too short or has a type above the two of the format is refused.
pub parse_internal_key_refuses :
    (key : Bytes)
    → (length key < 8) ⊎ (type_value < extract_value_type key)
    → parse_internal_key key ≡ none
unfolding parse_internal_key extract_value_type
parse_internal_key_refuses key h = ground arith
