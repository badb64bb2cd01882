-- ===== src/DbFormat.antt =====
-- db/dbformat.h and db/dbformat.cc: internal keys (a user key with a 56-bit sequence number and a
-- type), their order over any user comparator, and lookup keys.
pub mod Codec
pub mod Order
pub mod Lookup
pub mod Filter
mod Tests
use leveldb_mcpe_dotnet.Common.{
  ℕ, zero, suc, ◌+◌, ◌-◌, ◌*◌, ◌/◌, ◌%◌, ◌^◌, bit_and, bit_or, Bool, true, false, Option, none,
  some, List, [], ◌∷◌, ◌++◌, length, take, drop, ltb, leb, ◌==◌, ◌&&◌, if◌then◌else◌,
}
use leveldb_mcpe_dotnet.Common.Bytes.{Bytes}
use leveldb_mcpe_dotnet.Coding.{
  shl64, shr, encode_fixed64, put_fixed64, decode_fixed64, encode_varint32,
}
use leveldb_mcpe_dotnet.Comparator.{Comparator}
use Prim.Native.Nat.{Ordering}

abbrev pub num_levels : ℕ
num_levels = 7

-- `ValueType`; a byte that is cast to it may hold another number.
abbrev pub type_deletion : ℕ
type_deletion = 0

abbrev pub type_value : ℕ
type_value = 1

abbrev pub value_type_for_seek : ℕ
value_type_for_seek = type_value

abbrev pub max_sequence_number : ℕ
max_sequence_number = 2 ^ 56 - 1

pub record ParsedInternalKey : Type 0 where
  pub user_key : Bytes
  pub sequence : ℕ
  pub type : ℕ

unfoldable pub internal_key_encoding_length : ParsedInternalKey → ℕ
internal_key_encoding_length key = length key.user_key + 8

unfoldable pub pack_sequence_and_type : ℕ → ℕ → ℕ
pack_sequence_and_type seq t = bit_or (shl64 seq 8) t

unfoldable pub append_internal_key : Bytes → ParsedInternalKey → Bytes
append_internal_key result key =
    put_fixed64 (result ++ key.user_key) (pack_sequence_and_type key.sequence key.type)

-- An internal key that is shorter than its tag is refused by an assertion of the source; the
-- subtraction stops at 0 here.
unfoldable pub extract_user_key : Bytes → Bytes
extract_user_key internal_key = take (length internal_key - 8) internal_key

-- The 64-bit number in the last 8 bytes.
unfoldable pub extract_tag : Bytes → ℕ
extract_tag internal_key = decode_fixed64 (drop (length internal_key - 8) internal_key)

unfoldable pub extract_value_type : Bytes → ℕ
extract_value_type internal_key = bit_and (extract_tag internal_key) 0xff

unfoldable pub parse_internal_key : Bytes → Option ParsedInternalKey
parse_internal_key internal_key =
    let n = length internal_key in
    let num = extract_tag internal_key in
    let c = bit_and num 0xff in
    if ltb n 8
    then none
    else if leb c type_value
    then some (record { user_key = take (n - 8) internal_key; sequence = shr num 8; type = c })
    else none

module _ (user : Comparator) where
  -- `InternalKeyComparator::Compare`: increasing user key, then decreasing sequence and type.
  unfoldable pub compare : Bytes → Bytes → Ordering
  compare akey bkey =
      let anum = extract_tag akey in
      let bnum = extract_tag bkey in
      elim (user.compare (extract_user_key akey) (extract_user_key bkey)) [
        | Ordering.eq ↦
            if ltb bnum anum
            then Ordering.lt
            else if ltb anum bnum
            then Ordering.gt
            else Ordering.eq
        | r ↦ r
      ]

  is_lt : Ordering → Bool
  is_lt Ordering.lt = true
  is_lt _ = false

  -- The tail that both methods below put on a shortened user key.
  unfoldable pub with_earliest_tag : Bytes → Bytes
  with_earliest_tag tmp =
      put_fixed64 tmp (pack_sequence_and_type max_sequence_number value_type_for_seek)

  unfoldable pub find_shortest_separator : Bytes → Bytes → Bytes
  unfolding is_lt
  find_shortest_separator start limit =
      let user_start = extract_user_key start in
      let tmp = user.find_shortest_separator user_start (extract_user_key limit) in
      if ltb (length tmp) (length user_start) && is_lt (user.compare user_start tmp)
      then with_earliest_tag tmp
      else start

  unfoldable pub find_short_successor : Bytes → Bytes
  unfolding is_lt
  find_short_successor key =
      let user_key = extract_user_key key in
      let tmp = user.find_short_successor user_key in
      if ltb (length tmp) (length user_key) && is_lt (user.compare user_key tmp)
      then with_earliest_tag tmp
      else key

  unfoldable pub internal_comparator : Comparator
  internal_comparator = record {
    compare = compare;
    find_shortest_separator = find_shortest_separator;
    find_short_successor = find_short_successor;
  }

-- `LookupKey`: the buffer from `start_` to `end_`, and the distance of `kstart_` from `start_`.
pub record LookupKey : Type 0 where
  pub buffer : Bytes
  pub kstart : ℕ

-- `(uint32_t)usize + 8` wraps at 2 ^ 32.
unfoldable pub lookup_key : Bytes → ℕ → LookupKey
lookup_key user_key s =
    let klength = encode_varint32 ((length user_key % 2 ^ 32 + 8) % 2 ^ 32) in
    record {
      buffer =
          klength ++ (user_key ++ encode_fixed64 (pack_sequence_and_type s value_type_for_seek));
      kstart = length klength;
    }

unfoldable pub memtable_key : LookupKey → Bytes
memtable_key k = k.buffer

unfoldable pub internal_key : LookupKey → Bytes
internal_key k = drop k.kstart k.buffer

unfoldable pub user_key : LookupKey → Bytes
user_key k = take (length k.buffer - k.kstart - 8) (drop k.kstart k.buffer)
