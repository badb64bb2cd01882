-- ===== src/FilterBlock/Tests.antt =====
-- Two blocks of a table with Bloom filters, and a block that is too short.
use leveldb_mcpe_dotnet.Common.{◌++◌, true, false, List, [], ◌∷◌, length, All, ◌≡◌, refl, arith}
use leveldb_mcpe_dotnet.Common.Bytes.{Bytes}
use leveldb_mcpe_dotnet.Bloom.{
  new_bloom_filter_policy, bloom_filter_policy, create_bloom_filter, bloom_may_match, add_keys,
  set_probes, set_bit, filter_bytes, bloom_hash, delta, has_probes, has_bit,
}
use leveldb_mcpe_dotnet.Hash.{hash}
use leveldb_mcpe_dotnet.Bloom.NoFalseNegatives.{bloom_filter_policy-IsFilterPolicy}
use leveldb_mcpe_dotnet.Coding.{put_fixed32, encode_fixed32, decode_fixed32}
use leveldb_mcpe_dotnet.FilterPolicy.{FilterPolicy}
use leveldb_mcpe_dotnet.FilterBlock.{
  new_filter_block_builder, key_slices, generate_filter, generate_until, start_block, put_offsets,
  finish, add_key, new_filter_block_reader, key_may_match, char_to_size,
}
use leveldb_mcpe_dotnet.FilterBlock.Blocks.{DataBlock, add_blocks}
use leveldb_mcpe_dotnet.FilterBlock.Bounds.{key_may_match-more_behind}
use leveldb_mcpe_dotnet.FilterBlock.NoFalseNegatives.{key_may_match-finish}

abbrev policy : FilterPolicy
policy = bloom_filter_policy (new_bloom_filter_policy 10)

abbrev blocks : List DataBlock
blocks = (0, (b'a' ∷ []) ∷ (b'b' ∷ []) ∷ []) ∷ (5000, (b'c' ∷ []) ∷ []) ∷ []

abbrev block : Bytes
block = finish policy (add_blocks policy new_filter_block_builder blocks)

length-block : length block ≡ 35
unfolding finish add_blocks add_key start_block generate_until generate_filter key_slices
    put_offsets put_fixed32 new_filter_block_builder bloom_filter_policy new_bloom_filter_policy
    create_bloom_filter filter_bytes add_keys set_probes set_bit bloom_hash hash delta
    encode_fixed32
length-block = refl

key_may_match-finish_example :
    All
      (λ b. All (λ key. key_may_match policy (new_filter_block_reader block) b.0 key ≡ true) b.1)
      blocks
key_may_match-finish_example =
    key_may_match-finish policy blocks (bloom_filter_policy-IsFilterPolicy 10)
      (omega arith, (omega arith, tt)) (omega (arith, length-block))

-- A key that was not added to the first block is ruled out there.
ruled_out : key_may_match policy (new_filter_block_reader block) 0 (b'x' ∷ []) ≡ false
unfolding key_may_match new_filter_block_reader char_to_size decode_fixed32 bloom_may_match
    has_probes has_bit finish add_blocks add_key start_block generate_until generate_filter
    key_slices put_offsets put_fixed32 new_filter_block_builder bloom_filter_policy
    new_bloom_filter_policy create_bloom_filter filter_bytes add_keys set_probes set_bit bloom_hash
    hash delta encode_fixed32
ruled_out = refl

-- A block of one byte of a filter, its start, the offset of the starts, and a shift past 64.
abbrev odd_block : Bytes
odd_block = 9 ∷ 0 ∷ 0 ∷ 0 ∷ 0 ∷ 1 ∷ 0 ∷ 0 ∷ 0 ∷ 70 ∷ []

key_may_match-more_behind_example :
    key_may_match policy
      (record (new_filter_block_reader odd_block) {
        data_ = (new_filter_block_reader odd_block).data_ ++ (255 ∷ 255 ∷ []);
      })
      5
      (b'x' ∷ [])
    ≡ key_may_match policy (new_filter_block_reader odd_block) 5 (b'x' ∷ [])
key_may_match-more_behind_example =
    key_may_match-more_behind policy odd_block (255 ∷ 255 ∷ []) 5 (b'x' ∷ [])
