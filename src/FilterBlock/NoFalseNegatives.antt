-- ===== src/FilterBlock/NoFalseNegatives.antt =====
-- A key that was added may match at the offset of its block.
use leveldb_mcpe_dotnet.Common.{
  ℕ, ◌/◌, ◌^◌, ◌≤◌, ◌<◌, true, List, [], ◌∷◌, length, get_or, All, ◌≡◌, arith, length-append,
  get_or-append_left,
}
use leveldb_mcpe_dotnet.Common.Bytes.{Bytes}
use leveldb_mcpe_dotnet.FilterPolicy.{FilterPolicy, IsFilterPolicy}
use leveldb_mcpe_dotnet.FilterBlock.{
  new_filter_block_builder, finish, new_filter_block_reader, key_may_match, filter_base,
}
use leveldb_mcpe_dotnet.FilterBlock.Builder.{Group, filters, new-Holds}
use leveldb_mcpe_dotnet.FilterBlock.Blocks.{
  DataBlock, add_blocks, InOrder, Has, at_hand, group_at, Covered, add_blocks-After,
}
use native.Mathlib.Decide.{dec_lt}
use leveldb_mcpe_dotnet.FilterBlock.Finish.{
  not_Has-nil, closed, finish-layout, reader_at, length-layout, reader-layout, key_may_match-layout,
}

module _ (policy : FilterPolicy) (law : IsFilterPolicy policy) where
  in_closed :
      (gs : List Group) (g : Group) (i : ℕ) (key : Bytes)
      → i ≤ length gs
      → Has (group_at gs g i) key
      → (i < length (closed policy law gs g)) × Has (get_or (closed policy law gs g) i []) key
  in_closed gs [] i key hi has = elim (dec_lt i (length gs)) [
    | yes lower ↦ (lower, rw (get_or-append_left gs ([] ∷ []) i [] lower) at has)
    | no later ↦
        let e : i ≡ length gs = omega arith in
        absurd (not_Has-nil key (rw (e, at_hand gs []) at has))
  ]
  in_closed gs (k ∷ g) i key hi has = (omega (arith, length-append gs ((k ∷ g) ∷ [])), has)

  keys-match :
      (gs : List Group) (g : Group) (block_offset : ℕ) (keys : List Bytes)
      → block_offset / filter_base ≤ length gs
      → All (Has (group_at gs g (block_offset / filter_base))) keys
      → length (filters policy law (closed policy law gs g)) < 2 ^ 32
      → All
          (λ key.
            key_may_match policy (reader_at policy law (closed policy law gs g)) block_offset key
            ≡ true)
          keys
  keys-match gs g block_offset [] hi all small = tt
  keys-match gs g block_offset (key ∷ keys) hi all small =
      let (within, has) = in_closed gs g (block_offset / filter_base) key hi all.0 in
      (
        key_may_match-layout policy law (closed policy law gs g) block_offset key within has small,
        keys-match gs g block_offset keys hi all.1 small,
      )

  blocks-match :
      (gs : List Group) (g : Group) (blocks : List DataBlock)
      → All (Covered policy law gs g) blocks
      → length (filters policy law (closed policy law gs g)) < 2 ^ 32
      → All
          (λ block.
            All
              (λ key.
                key_may_match policy (reader_at policy law (closed policy law gs g)) block.0 key
                ≡ true)
              block.1)
          blocks
  blocks-match gs g [] covered small = tt
  blocks-match gs g (block ∷ blocks) covered small = (
    keys-match gs g block.0 block.1 covered.0.0 covered.0.1 small,
    blocks-match gs g blocks covered.1 small,
  )

-- For a policy that keeps its contract and calls (StartBlock AddKey*)* Finish at offsets that do
-- not fall, with a filter block below 2^32 bytes, every key that was added may match, in the
-- finished block, at the offset of its data block.
pub key_may_match-finish :
    (policy : FilterPolicy) (blocks : List DataBlock)
    → IsFilterPolicy policy
    → InOrder 0 blocks
    → length (finish policy (add_blocks policy new_filter_block_builder blocks)) < 2 ^ 32
    → All
        (λ block.
          All
            (λ key.
              key_may_match policy
                (new_filter_block_reader
                  (finish policy (add_blocks policy new_filter_block_builder blocks)))
                block.0
                key
              ≡ true)
            block.1)
        blocks
key_may_match-finish policy blocks law ordered small =
    let (a, covered) =
      add_blocks-After policy law blocks 0 [] [] new_filter_block_builder (new-Holds policy law)
        (omega arith) ordered in
    let gs = closed policy law a.groups a.open_ in
    let made =
      finish-layout policy law a.groups a.open_ (add_blocks policy new_filter_block_builder blocks)
        a.holds in
    let fits : length (filters policy law gs) < 2 ^ 32 =
      omega (arith, length-layout policy law gs, rw made at small) in
    rw (made, reader-layout policy law gs fits)
      (blocks-match policy law a.groups a.open_ blocks covered fits)
