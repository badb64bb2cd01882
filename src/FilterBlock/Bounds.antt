-- ===== src/FilterBlock/Bounds.antt =====
-- What the reader looks at: nothing behind the block.
use leveldb_mcpe_dotnet.Common.{
  ℕ, zero, suc, ◌+◌, ◌-◌, ◌*◌, ◌%◌, ◌≤◌, ◌<◌, [], ◌∷◌, ◌++◌, length, take, drop, get_or-append_left,
  length-drop, ltb, leb, ◌&&◌, ◌≡◌, refl, Bool-cases, inl, inr, arith,
}
use leveldb_mcpe_dotnet.Common.Bytes.{Bytes}
use leveldb_mcpe_dotnet.Coding.{decode_fixed32, shr}
use leveldb_mcpe_dotnet.FilterPolicy.{FilterPolicy}
use leveldb_mcpe_dotnet.FilterBlock.{FilterBlockReader, new_filter_block_reader, key_may_match}

drop-inside : (n : ℕ) (xs ys : Bytes) → n ≤ length xs → drop n (xs ++ ys) ≡ drop n xs ++ ys
drop-inside zero xs ys h = refl
drop-inside (suc n) [] ys h = absurd (omega arith)
drop-inside (suc n) (x ∷ xs) ys h = drop-inside n xs ys (omega arith)

take-inside : (n : ℕ) (xs ys : Bytes) → n ≤ length xs → take n (xs ++ ys) ≡ take n xs
take-inside zero xs ys h = refl
take-inside (suc n) [] ys h = absurd (omega arith)
take-inside (suc n) (x ∷ xs) ys h = rw (take-inside n xs ys (omega arith)) refl

-- A word and a piece that lie in the block.
word-inside :
    (n : ℕ) (data_ more : Bytes)
    → n + 4 ≤ length data_
    → decode_fixed32 (drop n (data_ ++ more)) ≡ decode_fixed32 (drop n data_)
unfolding decode_fixed32
word-inside n data_ more h =
    let room : 4 ≤ length (drop n data_) = omega (arith, length-drop n data_) in
    rw
      (
        drop-inside n data_ more (omega arith),
        get_or-append_left (drop n data_) more 0 0 (omega arith),
        get_or-append_left (drop n data_) more 1 0 (omega arith),
        get_or-append_left (drop n data_) more 2 0 (omega arith),
        get_or-append_left (drop n data_) more 3 0 (omega arith),
      )
      refl

piece-inside :
    (start limit : ℕ) (data_ more : Bytes)
    → start ≤ limit
    → limit ≤ length data_
    → take (limit - start) (drop start (data_ ++ more)) ≡ take (limit - start) (drop start data_)
piece-inside start limit data_ more h k =
    rw (drop-inside start data_ more (omega arith))
      (take-inside (limit - start) (drop start data_) more (omega (arith, length-drop start data_)))

-- The offsets that a reader counts, each with the word behind it, are in its block.
reader-room :
    (contents : Bytes) (index : ℕ)
    → index < (new_filter_block_reader contents).num
    → ((new_filter_block_reader contents).offset + index * 4 + 8
        ≤ length (new_filter_block_reader contents).data_)
unfolding new_filter_block_reader
reader-room contents index h = ground arith

more_inside :
    (policy : FilterPolicy) (r : FilterBlockReader) (more : Bytes) (block_offset : ℕ) (key : Bytes)
    → ((shr block_offset (r.base_lg % 64) < r.num)
        → r.offset + shr block_offset (r.base_lg % 64) * 4 + 8 ≤ length r.data_)
    → key_may_match policy (record r { data_ = r.data_ ++ more }) block_offset key
      ≡ key_may_match policy r block_offset key
unfolding key_may_match
more_inside policy r more block_offset key room =
    let index = shr block_offset (r.base_lg % 64) in
    elim (Bool-cases (ltb index r.num)) [
      | inr past ↦ rw past refl
      | inl counted ↦
          let inside : r.offset + index * 4 + 8 ≤ length r.data_ = room (ground arith) in
          let start = decode_fixed32 (drop (r.offset + index * 4) r.data_) in
          let limit = decode_fixed32 (drop (r.offset + index * 4 + 4) r.data_) in
          let first = word-inside (r.offset + index * 4) r.data_ more (omega arith) in
          let second = word-inside (r.offset + index * 4 + 4) r.data_ more (omega arith) in
          elim (Bool-cases (leb start limit && leb limit r.offset)) [
            | inr other ↦ rw (counted, first, second, other) refl
            | inl whole ↦
                rw
                  (
                    counted,
                    first,
                    second,
                    whole,
                    piece-inside start limit r.data_ more (ground arith) (ground arith),
                  )
                  refl
          ]
    ]

-- Whatever the bytes of a filter block, and for every policy, offset and key, KeyMayMatch of a
-- reader over it answers the same whatever bytes stand in memory behind the block: the words and
-- the filter that it looks at lie in the block.
pub key_may_match-more_behind :
    (policy : FilterPolicy) (contents more : Bytes) (block_offset : ℕ) (key : Bytes)
    → key_may_match policy
        (record (new_filter_block_reader contents) {
          data_ = (new_filter_block_reader contents).data_ ++ more;
        })
        block_offset
        key
      ≡ key_may_match policy (new_filter_block_reader contents) block_offset key
key_may_match-more_behind policy contents more block_offset key =
    let r : FilterBlockReader = new_filter_block_reader contents in
    more_inside policy r more block_offset key
      (reader-room contents (shr block_offset (r.base_lg % 64)))
