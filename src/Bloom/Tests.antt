-- ===== src/Bloom/Tests.antt =====
-- A filter of two keys, and the filter over internal keys.
use leveldb_mcpe_dotnet.Common.{true, false, [], ◌∷◌, ◌≡◌, refl}
use leveldb_mcpe_dotnet.Common.Bytes.{Bytes}
use leveldb_mcpe_dotnet.FilterPolicy.{IsFilterPolicy}
use leveldb_mcpe_dotnet.Bloom.{
  new_bloom_filter_policy, bloom_filter_policy, create_bloom_filter, bloom_may_match, add_keys,
  set_probes, set_bit, filter_bytes, bloom_hash, delta, has_probes, has_bit,
}
use leveldb_mcpe_dotnet.Hash.{hash}
use leveldb_mcpe_dotnet.Bloom.NoFalseNegatives.{bloom_filter_policy-IsFilterPolicy}

bloom_filter_policy-IsFilterPolicy_example :
    IsFilterPolicy (bloom_filter_policy (new_bloom_filter_policy 10))
bloom_filter_policy-IsFilterPolicy_example = bloom_filter_policy-IsFilterPolicy 10

-- "hello" and "world" match, "x" does not.
abbrev hello : Bytes
hello = b'h' ∷ b'e' ∷ b'l' ∷ b'l' ∷ b'o' ∷ []

abbrev world : Bytes
world = b'w' ∷ b'o' ∷ b'r' ∷ b'l' ∷ b'd' ∷ []

abbrev two_keys : Bytes
unfolding create_bloom_filter new_bloom_filter_policy
two_keys = create_bloom_filter (new_bloom_filter_policy 10) (hello ∷ world ∷ []) []

small_filter :
    (bloom_may_match hello two_keys ≡ true)
    × (bloom_may_match world two_keys ≡ true)
    × (bloom_may_match (b'x' ∷ []) two_keys ≡ false)
unfolding bloom_may_match two_keys create_bloom_filter add_keys set_probes set_bit filter_bytes
    bloom_hash hash delta has_probes has_bit
small_filter = (refl, refl, refl)
