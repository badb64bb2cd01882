-- ===== src/FilterBlock/Finish.antt =====
-- The block that `Finish` makes, and what a reader of it finds.
use leveldb_mcpe_dotnet.Common.{
  ℕ, suc, ◌+◌, ◌-◌, ◌*◌, ◌/◌, ◌%◌, ◌^◌, ◌≤◌, ◌<◌, true, false, List, [], ◌∷◌, ◌++◌, append_assoc,
  length, drop, get_or, ltb, leb, ltb-true, ltb-false, All, All-middle, ◌≡◌, refl, ap, ◌∙◌, arith,
  length-append, drop-append, get_or-append_right, take-append_length,
}
use leveldb_mcpe_dotnet.Common.Bytes.{Bytes}
use mathlib.Core.Path.{subst}
use leveldb_mcpe_dotnet.Coding.{put_fixed32, encode_fixed32, decode_fixed32}
use leveldb_mcpe_dotnet.FilterPolicy.{FilterPolicy, IsFilterPolicy}
use leveldb_mcpe_dotnet.FilterBlock.{
  FilterBlockBuilder, FilterBlockReader, put_offsets, generate_filter, finish,
  new_filter_block_reader, key_may_match, filter_base_lg, filter_base, char_to_size,
}
use leveldb_mcpe_dotnet.FilterBlock.Builder.{
  Group, filter_of, filters, offsets, length-offsets, Holds, generate_filter-Holds,
}
use leveldb_mcpe_dotnet.FilterBlock.Blocks.{Has}
use leveldb_mcpe_dotnet.FilterBlock.Layout.{
  words, put_offsets-words, words-snoc, length-words, decode-words, filter_start, filter_start-le,
  filter_start-length, filter_start-next, drop-filters, offset_words, get_or-offset_words,
  offset_words-IsU32,
}

pub not_Has-nil : (key : Bytes) → ¬ Has [] key
not_Has-nil key ([], after, e) = ground arith
not_Has-nil key (b ∷ before, after, e) = ground arith

module _ (policy : FilterPolicy) (law : IsFilterPolicy policy) where
  filter-matches :
      (g : Group) (key : Bytes)
      → Has g key
      → policy.key_may_match key (filter_of policy law g) ≡ true
  filter-matches [] key has = absurd (not_Has-nil key has)
  filter-matches (k ∷ g) key (before, after, e) =
      let P = λ (k' : Bytes). policy.key_may_match k' (law.appended (k ∷ g)) ≡ true in
      All-middle P before key after (subst (All P) e (law.may_match (k ∷ g)))

  -- `Finish` closes the group at hand where it has keys.
  abbrev pub closed : List Group → Group → List Group
  closed gs [] = gs
  closed gs (key ∷ g) = gs ++ ((key ∷ g) ∷ [])

  abbrev pub layout : List Group → Bytes
  layout gs = filters policy law gs ++ (words (offset_words policy law gs) ++ (filter_base_lg ∷ []))

  finished :
      (gs : List Group) (b : FilterBlockBuilder)
      → b.result ≡ filters policy law gs
      → b.filter_offsets ≡ offsets policy law 0 gs
      → put_fixed32 (put_offsets b.result b.filter_offsets) (length b.result % 2 ^ 32)
          ++ (filter_base_lg ∷ [])
        ≡ layout gs
  unfolding put_fixed32
  finished gs b r o =
      rw (r, o, put_offsets-words, words-snoc)
        (let ws = words (offsets policy law 0 gs) in
          let last = encode_fixed32 (length (filters policy law gs) % 2 ^ 32) in
          ap (λ x. x ++ (filter_base_lg ∷ [])) (append_assoc (filters policy law gs) ws last)
          ∙ append_assoc (filters policy law gs) (ws ++ last) (filter_base_lg ∷ []))

  pub finish-layout :
      (gs : List Group) (g : Group) (b : FilterBlockBuilder)
      → Holds policy law gs g b
      → finish policy b ≡ layout (closed gs g)
  unfolding finish
  finish-layout gs [] b h =
      let idle : leb 1 (length b.start) ≡ false = rw h.start_of refl in
      rw idle (finished gs b h.result_of h.offsets_of)
  finish-layout gs (key ∷ g) b h =
      let done = generate_filter-Holds policy law gs (key ∷ g) b h in
      let busy : leb 1 (length b.start) ≡ true = rw h.start_of (ground arith) in
      rw busy (
        finished (gs ++ ((key ∷ g) ∷ [])) (generate_filter policy b) done.result_of done.offsets_of)

  abbrev pub reader_at : List Group → FilterBlockReader
  reader_at gs = record {
    data_ = layout gs;
    offset = length (filters policy law gs);
    num = length gs;
    base_lg = filter_base_lg;
  }

  length-offset_words : (gs : List Group) → length (offset_words policy law gs) ≡ suc (length gs)
  length-offset_words gs = omega (
    arith,
    length-append (offsets policy law 0 gs) (length (filters policy law gs) % 2 ^ 32 ∷ []),
    length-offsets policy law 0 gs,
  )

  pub length-layout :
      (gs : List Group) → length (layout gs) ≡ length (filters policy law gs) + length gs * 4 + 5
  length-layout gs = omega (
    arith,
    length-append (filters policy law gs)
        (words (offset_words policy law gs) ++ (filter_base_lg ∷ [])),
    length-append (words (offset_words policy law gs)) (filter_base_lg ∷ []),
    length-words (offset_words policy law gs),
    length-offset_words gs,
  )

  word_at :
      (gs : List Group) (i : ℕ)
      → i ≤ length gs
      → length (filters policy law gs) < 2 ^ 32
      → decode_fixed32 (drop (length (filters policy law gs) + i * 4) (layout gs))
        ≡ filter_start policy law gs i
  word_at gs i hi small =
      let r = filters policy law gs in
      let ws = offset_words policy law gs in
      let past =
        drop-append (length r + i * 4) r (words ws ++ (filter_base_lg ∷ [])) (omega arith) in
      let left : length r + i * 4 - length r ≡ i * 4 = omega arith in
      let within : i < length ws = omega (arith, length-offset_words gs) in
      rw
        (
          past,
          left,
          decode-words ws i (filter_base_lg ∷ []) (offset_words-IsU32 policy law gs) within,
        )
        (get_or-offset_words policy law gs i hi small)

  base_at :
      (gs : List Group)
      → get_or (layout gs) (length (filters policy law gs) + length gs * 4 + 4) 0 ≡ filter_base_lg
  base_at gs =
      let r = filters policy law gs in
      let ws = offset_words policy law gs in
      let e : length r + length gs * 4 + 4 ≡ length r + (length (words ws) + 0) =
        omega (arith, length-words ws, length-offset_words gs) in
      rw (e, get_or-append_right r (words ws ++ (filter_base_lg ∷ [])) (length (words ws) + 0) 0)
        (get_or-append_right (words ws) (filter_base_lg ∷ []) 0 0)

  pub reader-layout :
      (gs : List Group)
      → length (filters policy law gs) < 2 ^ 32
      → new_filter_block_reader (layout gs) ≡ reader_at gs
  unfolding new_filter_block_reader char_to_size
  reader-layout gs small =
      let r = length (filters policy law gs) in
      let long : ltb (r + length gs * 4 + 5) 5 ≡ false = ltb-false (omega arith) in
      let e1 : r + length gs * 4 + 5 - 1 ≡ r + length gs * 4 + 4 = omega arith in
      let e5 : r + length gs * 4 + 5 - 5 ≡ r + length gs * 4 = omega arith in
      let word = word_at gs (length gs) (omega arith) small ∙ filter_start-length policy law gs in
      let fits : ltb (r + length gs * 4) r ≡ false = ltb-false (omega arith) in
      let count : (r + length gs * 4 - r) / 4 ≡ length gs = omega arith in
      rw (length-layout gs, long, e1, e5, base_at gs, word, fits, count) refl

  pub key_may_match-layout :
      (gs : List Group) (block_offset : ℕ) (key : Bytes)
      → block_offset / filter_base < length gs
      → Has (get_or gs (block_offset / filter_base) []) key
      → length (filters policy law gs) < 2 ^ 32
      → key_may_match policy (reader_at gs) block_offset key ≡ true
  unfolding key_may_match
  key_may_match-layout gs block_offset key hi has small =
      let i = block_offset / filter_base in
      let r = length (filters policy law gs) in
      let f = filter_of policy law (get_or gs i []) in
      let s = filter_start policy law gs i in
      let e : r + i * 4 + 4 ≡ r + suc i * 4 = omega arith in
      let start = word_at gs i (omega arith) small in
      let limit = word_at gs (suc i) hi small ∙ filter_start-next policy law gs i hi in
      let left : s + length f - s ≡ length f = omega arith in
      let inside : leb (s + length f) r ≡ true =
        ground
          (arith, filter_start-le policy law gs (suc i), filter_start-next policy law gs i hi) in
      let ordered : leb s (s + length f) ≡ true = ground arith in
      let (more, cut) =
        drop-filters policy law gs i (words (offset_words policy law gs) ++ (filter_base_lg ∷ []))
          hi in
      rw (start, e, limit, ltb-true hi, ordered, inside, left, cut, take-append_length f more)
        (filter-matches (get_or gs i []) key has)
