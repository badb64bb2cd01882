-- ===== src/Bloom/NoFalseNegatives.antt =====
-- The Bloom filter keeps the contract of a filter policy.
use leveldb_mcpe_dotnet.Common.{
  ℕ, zero, suc, ◌+◌, ◌-◌, ◌*◌, ◌/◌, ◌%◌, ◌^◌, ◌≤◌, true, false, All, List, [], ◌∷◌, ◌++◌, length,
  replicate, ltb, ltb-false, ◌≡◌, refl, arith, length-append, length-replicate, get_or-append_left,
  get_or-append_right,
}
use leveldb_mcpe_dotnet.Common.Bytes.{Bytes}
use leveldb_mcpe_dotnet.FilterPolicy.{IsFilterPolicy}
use leveldb_mcpe_dotnet.Bloom.{
  BloomFilterPolicy, new_bloom_filter_policy, bloom_hash, delta, has_bit, add_keys, filter_bytes,
  has_probes, bloom_may_match, create_bloom_filter, bloom_filter_policy,
}
use leveldb_mcpe_dotnet.Bloom.Array.{
  has_bit-bit_at, Probed, add_keys-Probed, length-add_keys, in_range,
}

-- The loop of `KeyMayMatch` finds the probes of the array, behind which the filter has one byte.
has_probes-Probed :
    (bits : ℕ) (some_bits : 1 ≤ bits) (k : ℕ) (array : Bytes) (h d last : ℕ)
    → length array * 8 ≡ bits
    → Probed bits some_bits k array h d
    → has_probes k (array ++ (last ∷ [])) h d bits ≡ true
unfolding has_probes Probed has_bit
has_probes-Probed bits some_bits zero array h d last size probed = refl
has_probes-Probed bits some_bits (suc k) array h d last size probed =
    let inside = in_range bits some_bits array h size in
    let set_ : has_bit array (h % bits) ≡ true = has_bit-bit_at array (h % bits) probed.0 in
    rw (get_or-append_left array (last ∷ []) (h % bits / 8) 0 (omega arith), set_)
      (has_probes-Probed bits some_bits k array ((h + d) % 2 ^ 32) d last size probed.1)

filter_bytes-ge : (p : BloomFilterPolicy) (n : ℕ) → 8 ≤ filter_bytes p n
unfolding filter_bytes
filter_bytes-ge p n = ground arith

new_bloom_filter_policy-le : (n : ℕ) → (new_bloom_filter_policy n).probes ≤ 30
unfolding new_bloom_filter_policy
new_bloom_filter_policy-le n = ground arith

module _ (p : BloomFilterPolicy) (few : p.probes ≤ 30) where
  abbrev bloom_array : List Bytes → Bytes
  bloom_array keys =
      let bytes = filter_bytes p (length keys) in
      add_keys p.probes (bytes * 8) (replicate bytes 0) keys

  length-bloom_array :
      (keys : List Bytes) → length (bloom_array keys) ≡ filter_bytes p (length keys)
  length-bloom_array keys = omega (
    arith,
    length-add_keys p.probes (filter_bytes p (length keys) * 8)
        (replicate (filter_bytes p (length keys)) 0) keys,
    length-replicate {0} {A = ℕ} (filter_bytes p (length keys)) 0,
  )

  module _ (bits : ℕ) (some_bits : 1 ≤ bits) (array : Bytes) (whole : length array * 8 ≡ bits) where
    may_match_array :
        (key : Bytes)
        → Probed bits some_bits p.probes array (bloom_hash key) (delta (bloom_hash key))
        → bloom_may_match key (array ++ (p.probes % 256 ∷ [])) ≡ true
    unfolding bloom_may_match
    may_match_array key probed =
        let last = p.probes % 256 in
        let size : length (array ++ (last ∷ [])) ≡ length array + 1 =
          length-append array (last ∷ []) in
        let before : length array + 1 - 1 ≡ length array + 0 = omega arith in
        let plain : length array + 0 ≡ length array = omega arith in
        let back : last ≡ p.probes = omega arith in
        let small : ltb 30 p.probes ≡ false = ltb-false few in
        let long : ltb (length array + 1) 2 ≡ false = ltb-false (omega arith) in
        let found =
          has_probes-Probed bits some_bits p.probes array (bloom_hash key) (delta (bloom_hash key))
            last whole probed in
        rw (size, long, before, get_or-append_right array (last ∷ []) 0 0)
          (rw plain (rw whole (rw back (rw small (rw back at found)))))

    All-may_match :
        (keys : List Bytes)
        → All
            (λ key. Probed bits some_bits p.probes array (bloom_hash key) (delta (bloom_hash key)))
            keys
        → All (λ key. bloom_may_match key (array ++ (p.probes % 256 ∷ [])) ≡ true) keys
    All-may_match [] probed = tt
    All-may_match (key ∷ keys) probed = (may_match_array key probed.0, All-may_match keys probed.1)

  bloom_array-may_match :
      (keys : List Bytes)
      → All (λ key. bloom_may_match key (bloom_array keys ++ (p.probes % 256 ∷ [])) ≡ true) keys
  bloom_array-may_match keys =
      let bytes = filter_bytes p (length keys) in
      let some_bits : 1 ≤ bytes * 8 = omega (arith, filter_bytes-ge p (length keys)) in
      All-may_match (bytes * 8) some_bits (bloom_array keys)
        (omega (arith, length-bloom_array keys)) keys
        (add_keys-Probed (bytes * 8) some_bits p.probes (replicate bytes 0) keys
          (omega (arith, length-replicate {0} {A = ℕ} bytes 0)))

-- For every number of bits per key the Bloom filter keeps the contract of a filter policy:
-- CreateFilter appends to what is there, and every key that a filter was made of may match it.
pub bloom_filter_policy-IsFilterPolicy :
    (bits_per_key : ℕ) → IsFilterPolicy (bloom_filter_policy (new_bloom_filter_policy bits_per_key))
unfolding bloom_filter_policy create_bloom_filter
bloom_filter_policy-IsFilterPolicy bits_per_key =
    let p = new_bloom_filter_policy bits_per_key in
    let few = new_bloom_filter_policy-le bits_per_key in
    record {
      appended = λ keys. bloom_array p few keys ++ (p.probes % 256 ∷ []);
      create-append = λ keys dst. refl;
      may_match = bloom_array-may_match p few;
    }
