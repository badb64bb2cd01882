-- ===== src/Bloom.antt =====
-- util/bloom.cc: the Bloom filter.
pub mod Array
pub mod NoFalseNegatives
mod Tests
use leveldb_mcpe_dotnet.Common.{
  ℕ, zero, suc, ◌+◌, ◌-◌, ◌*◌, ◌/◌, ◌%◌, ◌^◌, bit_and, bit_or, Bool, true, false, not, List, [],
  ◌∷◌, ◌++◌, length, get_or, set, replicate, ltb, ◌==◌, if◌then◌else◌,
}
use leveldb_mcpe_dotnet.Common.Bytes.{Bytes}
use leveldb_mcpe_dotnet.Coding.{shr, shl32}
use leveldb_mcpe_dotnet.Hash.{hash}
use leveldb_mcpe_dotnet.FilterPolicy.{FilterPolicy}

unfoldable pub bloom_hash : Bytes → ℕ
bloom_hash key = hash key 0xbc9f1d34

pub record BloomFilterPolicy : Type 0 where
  pub bits_per_key : ℕ
  pub probes : ℕ

-- The factor 0.69 rounds down; it makes a whole number of no argument for which the bounds do not
-- decide.
unfoldable pub new_bloom_filter_policy : ℕ → BloomFilterPolicy
new_bloom_filter_policy bits_per_key =
    let k = bits_per_key * 69 / 100 in
    let at_least = if ltb k 1 then 1 else k in
    record { bits_per_key = bits_per_key; probes = if ltb 30 at_least then 30 else at_least }

-- The rotation to the right by 17 bits.
unfoldable pub delta : ℕ → ℕ
delta h = bit_or (shr h 17) (shl32 h 15)

unfoldable pub set_bit : Bytes → ℕ → Bytes
set_bit array bitpos =
    set array (bitpos / 8) (bit_or (get_or array (bitpos / 8) 0) (2 ^ (bitpos % 8)))

unfoldable pub has_bit : Bytes → ℕ → Bool
has_bit array bitpos = not (bit_and (get_or array (bitpos / 8) 0) (2 ^ (bitpos % 8)) == 0)

-- The inner loop of `CreateFilter`.
unfoldable pub set_probes : ℕ → Bytes → ℕ → ℕ → ℕ → Bytes
set_probes zero array h d bits = array
set_probes (suc k) array h d bits =
    set_probes k (set_bit array (h % bits)) ((h + d) % 2 ^ 32) d bits

-- The outer loop.
unfoldable pub add_keys : ℕ → ℕ → Bytes → List Bytes → Bytes
add_keys k bits array [] = array
add_keys k bits array (key ∷ keys) =
    let h = bloom_hash key in add_keys k bits (set_probes k array h (delta h) bits) keys

-- The size of the array in bytes. The number of keys and `bits_per_key` are of type `int`, so that
-- no product wraps.
unfoldable pub filter_bytes : BloomFilterPolicy → ℕ → ℕ
filter_bytes p n =
    let bits = n * p.bits_per_key in
    let at_least = if ltb bits 64 then 64 else bits in (at_least + 7) / 8

unfoldable pub create_bloom_filter : BloomFilterPolicy → List Bytes → Bytes → Bytes
create_bloom_filter p keys dst =
    let bytes = filter_bytes p (length keys) in
    let array = add_keys p.probes (bytes * 8) (replicate bytes 0) keys in
    dst ++ (array ++ (p.probes % 256 ∷ []))

-- The loop of `KeyMayMatch`.
unfoldable pub has_probes : ℕ → Bytes → ℕ → ℕ → ℕ → Bool
has_probes zero array h d bits = true
has_probes (suc k) array h d bits =
    let more = has_probes k array ((h + d) % 2 ^ 32) d bits in
    if has_bit array (h % bits) then more else false

-- A last byte from 128 on, which is a large number once its sign is extended, is above 30 as well.
unfoldable pub bloom_may_match : Bytes → Bytes → Bool
bloom_may_match key filter =
    let len = length filter in
    let bits = (len - 1) * 8 in
    let k = get_or filter (len - 1) 0 in
    let h = bloom_hash key in
    if ltb len 2 then false else if ltb 30 k then true else has_probes k filter h (delta h) bits

unfoldable pub bloom_filter_policy : BloomFilterPolicy → FilterPolicy
bloom_filter_policy p = record {
  name = "leveldb.BuiltinBloomFilter2";
  create_filter = λ keys dst. create_bloom_filter p keys dst;
  key_may_match = λ key filter. bloom_may_match key filter;
}
