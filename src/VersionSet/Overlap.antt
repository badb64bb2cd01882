-- ===== src/VersionSet/Overlap.antt =====
-- Over the sorted files of a level the search for an overlap answers as the look at every file.
use leveldb_mcpe_dotnet.Common.{
  ℕ, suc, ◌+◌, ◌*◌, ◌++◌, ◌≤◌, ◌<◌, ◌^◌, true, false, not, Option, none, some, List, [], ◌∷◌,
  length, get_or, All, leb, Bool-cases, inl, inr, if◌then◌else◌, ◌≡◌, ◌≢◌, refl, sym, ap, ◌∙◌,
  arith,
}
use leveldb_mcpe_dotnet.Common.Bytes.{Bytes}
use leveldb_mcpe_dotnet.Coding.{encode_fixed64}
use leveldb_mcpe_dotnet.Comparator.{Comparator, IsComparator}
use leveldb_mcpe_dotnet.DbFormat.{
  compare, extract_user_key, extract_tag, append_internal_key, max_sequence_number,
  value_type_for_seek,
}
use leveldb_mcpe_dotnet.DbFormat.Codec.{
  append_internal_key-tagged, extract_user_key-tagged, extract_tag-tagged,
}
use leveldb_mcpe_dotnet.VersionEdit.{FileMetaData, new_file_meta_data}
use leveldb_mcpe_dotnet.VersionSet.{
  after_file, before_file, some_file_overlaps, first_index, some_file_overlaps_range,
}
use leveldb_mcpe_dotnet.VersionSet.Search.{is_below, first_at_or_past, Partitioned, find_file-first}
use Prim.Native.Nat.{Ordering}

abbrev earliest_tag : ℕ
earliest_tag = max_sequence_number * 256 + value_type_for_seek

abbrev earliest : Bytes → Bytes
earliest user_key =
    append_internal_key []
      (record { user_key = user_key; sequence = max_sequence_number; type = value_type_for_seek })

abbrev smallest_of : FileMetaData → Bytes
smallest_of f = extract_user_key f.smallest

abbrev largest_of : FileMetaData → Bytes
largest_of f = extract_user_key f.largest

-- A file whose largest key has a sequence number and type in range, and is not below the smallest.
abbrev pub IsFile : Comparator → FileMetaData → Type 0
IsFile user f =
    (extract_tag f.largest ≤ earliest_tag)
    × (user.compare (smallest_of f) (largest_of f) ≢ Ordering.gt)

-- A file begins at or past the end of those in front of it.
abbrev pub Disjoint : Comparator → List FileMetaData → Type 0
Disjoint user [] = Unit {0}
Disjoint user (f ∷ files) =
    IsFile user f
    × All (λ g. user.compare (largest_of f) (smallest_of g) ≢ Ordering.gt) files
    × Disjoint user files

module _ (user : Comparator) (laws : IsComparator user) where
  le_trans :
      (a b c : Bytes)
      → user.compare a b ≢ Ordering.gt
      → user.compare b c ≢ Ordering.gt
      → user.compare a c ≢ Ordering.gt
  le_trans a b c h k = ground (
    arith,
    laws.compare_swap a b,
    laws.compare_swap b c,
    laws.compare_trans a b c,
    laws.compare_congr a b c,
    laws.compare_congr c b a,
    laws.compare_swap a c,
  )

  lt_le_trans :
      (a b c : Bytes)
      → user.compare a b ≡ Ordering.lt
      → user.compare b c ≢ Ordering.gt
      → user.compare a c ≡ Ordering.lt
  lt_le_trans a b c h k = ground (
    arith,
    laws.compare_swap b c,
    laws.compare_trans a b c,
    laws.compare_congr c b a,
    laws.compare_swap a c,
    laws.compare_swap a b,
  )

  earliest-tagged : (user_key : Bytes) → earliest user_key ≡ user_key ++ encode_fixed64 earliest_tag
  earliest-tagged user_key =
      append_internal_key-tagged []
        (record { user_key = user_key; sequence = max_sequence_number; type = value_type_for_seek })
        (omega arith) (omega arith)

  -- A file is in front of the first key for a user key exactly if it is in front of the user key.
  is_below-earliest :
      (user_key : Bytes) (f : FileMetaData)
      → IsFile user f
      → is_below user (earliest user_key) f ≡ after_file user (some user_key) f
  unfolding compare after_file
  is_below-earliest user_key f h =
      let key : extract_user_key (earliest user_key) ≡ user_key =
        ap extract_user_key (earliest-tagged user_key)
        ∙ extract_user_key-tagged user_key earliest_tag in
      let tag : extract_tag (earliest user_key) ≡ earliest_tag =
        ap extract_tag (earliest-tagged user_key)
        ∙ extract_tag-tagged user_key earliest_tag (omega arith) in
      rw (is_below, compare, key) (ground (arith, tag, laws.compare_swap (largest_of f) user_key))

  after_file-false :
      (smallest : Option Bytes) (f g : FileMetaData)
      → IsFile user g
      → user.compare (largest_of f) (smallest_of g) ≢ Ordering.gt
      → after_file user smallest f ≡ false
      → after_file user smallest g ≡ false
  unfolding after_file
  after_file-false none f g hg h k = refl
  after_file-false (some key) f g hg h k =
      let above : user.compare key (largest_of f) ≢ Ordering.gt = ground arith in
      ground (
        arith,
        le_trans key (largest_of f) (largest_of g) above
            (le_trans (largest_of f) (smallest_of g) (largest_of g) h hg.1),
      )

  before_file-true :
      (largest : Option Bytes) (f g : FileMetaData)
      → IsFile user f
      → user.compare (largest_of f) (smallest_of g) ≢ Ordering.gt
      → before_file user largest f ≡ true
      → before_file user largest g ≡ true
  unfolding before_file
  before_file-true none f g hf h k = k
  before_file-true (some key) f g hf h k =
      let below : user.compare key (smallest_of f) ≡ Ordering.lt = ground arith in
      ground (
        arith,
        lt_le_trans key (smallest_of f) (smallest_of g) below
            (le_trans (smallest_of f) (largest_of f) (smallest_of g) hf.1 h),
      )

  -- The first file that does not end in front of the range.
  first_reaching : List FileMetaData → Option Bytes → ℕ
  first_reaching [] smallest = 0
  first_reaching (f ∷ files) smallest =
      let rest = first_reaching files smallest in if after_file user smallest f then suc rest else 0

  All-before :
      (largest : Option Bytes) (f : FileMetaData) (files : List FileMetaData)
      → IsFile user f
      → All (λ g. user.compare (largest_of f) (smallest_of g) ≢ Ordering.gt) files
      → before_file user largest f ≡ true
      → All (λ g. before_file user largest g ≡ true) files
  All-before largest f [] hf all h = tt
  All-before largest f (g ∷ files) hf all h =
      (before_file-true largest f g hf all.0 h, All-before largest f files hf all.1 h)

  none_overlaps :
      (smallest largest : Option Bytes) (files : List FileMetaData)
      → All (λ g. before_file user largest g ≡ true) files
      → some_file_overlaps user files smallest largest ≡ false
  unfolding some_file_overlaps
  none_overlaps smallest largest [] all = refl
  none_overlaps smallest largest (g ∷ files) all =
      rw (all.0, none_overlaps smallest largest files all.1) (ground arith)

  scan-first :
      (smallest largest : Option Bytes) (files : List FileMetaData)
      → Disjoint user files
      → (if leb (length files) (first_reaching files smallest)
          then false
          else not (
              before_file user largest
                (get_or files (first_reaching files smallest) new_file_meta_data)))
        ≡ some_file_overlaps user files smallest largest
  unfolding some_file_overlaps first_reaching
  scan-first smallest largest [] h = refl
  scan-first smallest largest (f ∷ files) h = elim (Bool-cases (after_file user smallest f)) [
    | inl after ↦ rw after (ground (arith, scan-first smallest largest files h.2))
    | inr reaches ↦ elim (Bool-cases (before_file user largest f)) [
      | inl before ↦
          rw
            (
              reaches,
              before,
              none_overlaps smallest largest files (All-before largest f files h.0 h.1 before),
            )
            (ground arith)
      | inr overlaps ↦ rw (reaches, overlaps) (ground arith)
    ]
  ]

  -- What the binary search takes for the first file that may overlap.
  first_at_or_past-earliest :
      (user_key : Bytes) (files : List FileMetaData)
      → Disjoint user files
      → first_at_or_past user (earliest user_key) files ≡ first_reaching files (some user_key)
  unfolding first_reaching
  first_at_or_past-earliest user_key [] h = refl
  first_at_or_past-earliest user_key (f ∷ files) h =
      rw (is_below-earliest user_key f h.0, first_at_or_past-earliest user_key files h.2) refl

  All-reaching :
      (user_key : Bytes) (f : FileMetaData) (files : List FileMetaData)
      → All (λ g. user.compare (largest_of f) (smallest_of g) ≢ Ordering.gt) files
      → Disjoint user files
      → after_file user (some user_key) f ≡ false
      → All (λ g. is_below user (earliest user_key) g ≡ false) files
  All-reaching user_key f [] all h past = tt
  All-reaching user_key f (g ∷ files) all h past = (
    is_below-earliest user_key g h.0 ∙ after_file-false (some user_key) f g h.0 all.0 past,
    All-reaching user_key f files all.1 h.2 past,
  )

  Disjoint-Partitioned :
      (user_key : Bytes) (files : List FileMetaData)
      → Disjoint user files
      → Partitioned user (earliest user_key) files
  Disjoint-Partitioned user_key [] h = tt
  Disjoint-Partitioned user_key (f ∷ files) h = (
    λ past. All-reaching user_key f files h.1 h.2 (sym (is_below-earliest user_key f h.0) ∙ past),
    Disjoint-Partitioned user_key files h.2,
  )

  first_index-first_reaching :
      (smallest : Option Bytes) (files : List FileMetaData)
      → Disjoint user files
      → length files < 2 ^ 31
      → first_index user files smallest ≡ first_reaching files smallest
  unfolding first_index first_reaching after_file
  first_index-first_reaching none [] h small = refl
  first_index-first_reaching none (f ∷ files) h small = refl
  first_index-first_reaching (some user_key) files h small =
      find_file-first user (earliest user_key) files (Disjoint-Partitioned user_key files h) small
      ∙ first_at_or_past-earliest user_key files h

-- Over fewer than 2^31 files that are disjoint and in order, whose largest keys have a sequence
-- number and type in range, SomeFileOverlapsRange with the binary search answers as
-- SomeFileOverlapsRange that looks at every file, for ranges with and without bounds.
pub some_file_overlaps_range-Disjoint :
    (user : Comparator) (files : List FileMetaData)
    (smallest_user_key largest_user_key : Option Bytes)
    → IsComparator user
    → Disjoint user files
    → length files < 2 ^ 31
    → some_file_overlaps_range user true files smallest_user_key largest_user_key
      ≡ some_file_overlaps_range user false files smallest_user_key largest_user_key
unfolding some_file_overlaps_range
some_file_overlaps_range-Disjoint user files smallest_user_key largest_user_key laws h small =
    rw (first_index-first_reaching user laws smallest_user_key files h small)
      (scan-first user laws smallest_user_key largest_user_key files h)
