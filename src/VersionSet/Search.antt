-- ===== src/VersionSet/Search.antt =====
-- The binary search finds what a search from the front finds.
use leveldb_mcpe_dotnet.Common.{
  ℕ, zero, suc, ◌+◌, ◌/◌, ◌%◌, ◌^◌, ◌≤◌, ◌<◌, Bool, false, List, [], ◌∷◌, length, get_or, All, ltb,
  Bool-cases, inl, inr, if◌then◌else◌, ◌≡◌, ◌≢◌, arith,
}
use leveldb_mcpe_dotnet.Common.Bytes.{Bytes}
use leveldb_mcpe_dotnet.Comparator.{Comparator, IsComparator, is_lt}
use leveldb_mcpe_dotnet.DbFormat.{compare}
use leveldb_mcpe_dotnet.DbFormat.Order.{compare_swap, compare_trans, compare_congr}
use leveldb_mcpe_dotnet.VersionEdit.{FileMetaData, new_file_meta_data}
use leveldb_mcpe_dotnet.VersionSet.{find_loop, find_file}
use Prim.Native.Nat.{Ordering}

module _ (user : Comparator) (key : Bytes) where
  abbrev pub is_below : FileMetaData → Bool
  is_below f = is_lt (compare user f.largest key)

  -- The number of files in front of the first whose largest key is not below `key`.
  abbrev pub first_at_or_past : List FileMetaData → ℕ
  first_at_or_past [] = 0
  first_at_or_past (f ∷ files) =
      let rest = first_at_or_past files in if is_below f then suc rest else 0

  -- Behind a file that is not below the key there is none that is.
  abbrev pub Partitioned : List FileMetaData → Type 0
  Partitioned [] = Unit {0}
  Partitioned (f ∷ files) =
      (is_below f ≡ false → All (λ g. is_below g ≡ false) files) × Partitioned files

  All-get_or :
      (files : List FileMetaData) (i : ℕ)
      → All (λ g. is_below g ≡ false) files
      → i < length files
      → is_below (get_or files i new_file_meta_data) ≡ false
  All-get_or [] i all hi = absurd (omega arith)
  All-get_or (f ∷ files) zero all hi = all.0
  All-get_or (f ∷ files) (suc i) all hi = All-get_or files i all.1 (omega arith)

  first-le : (files : List FileMetaData) → first_at_or_past files ≤ length files
  first-le [] = omega arith
  first-le (f ∷ files) = ground (arith, first-le files)

  below-first :
      (files : List FileMetaData) (i : ℕ)
      → Partitioned files
      → i < length files
      → is_below (get_or files i new_file_meta_data) ≡ ltb i (first_at_or_past files)
  below-first [] i parts hi = absurd (omega arith)
  below-first (f ∷ files) zero parts hi = ground arith
  below-first (f ∷ files) (suc i) parts hi = elim (Bool-cases (is_below f)) [
    | inl below ↦ rw below (ground (arith, below-first files i parts.1 (omega arith)))
    | inr past ↦ rw past (ground (arith, All-get_or files i (parts.0 past) (omega arith)))
  ]

  find_loop-first :
      (fuel : ℕ) (files : List FileMetaData) (left right : ℕ)
      → Partitioned files
      → length files < 2 ^ 31
      → left ≤ first_at_or_past files
      → first_at_or_past files ≤ right
      → right ≤ length files
      → right ≤ left + fuel
      → find_loop user fuel files key left right ≡ first_at_or_past files
  unfolding find_loop
  find_loop-first zero files left right parts small lo hi top enough = omega arith
  find_loop-first (suc fuel) files left right parts small lo hi top enough =
      elim (Bool-cases (ltb left right)) [
        | inr done ↦ rw done (ground arith)
        | inl more ↦
            let mid = (left + right) % 2 ^ 32 / 2 in
            let open_ : left < right = ground arith in
            let inside : (left ≤ mid) × (mid < right) = (omega arith, omega arith) in
            let at_mid = below-first files mid parts (omega arith) in
            elim (Bool-cases (ltb mid (first_at_or_past files))) [
              | inl below ↦
                  let narrow : (mid + 1) % 2 ^ 32 ≡ mid + 1 = omega arith in
                  let passed : mid < first_at_or_past files = ground arith in
                  rw (more, at_mid, below, narrow)
                    (find_loop-first fuel files (mid + 1) right parts small (omega arith) hi top
                      (omega arith))
              | inr past ↦
                  let kept : first_at_or_past files ≤ mid = ground arith in
                  rw (more, at_mid, past)
                    (find_loop-first fuel files left mid parts small lo kept (omega arith)
                      (omega arith))
            ]
      ]

  pub find_file-first :
      (files : List FileMetaData)
      → Partitioned files
      → length files < 2 ^ 31
      → find_file user files key ≡ first_at_or_past files
  unfolding find_file
  find_file-first files parts small =
      let e : length files % 2 ^ 32 ≡ length files = omega arith in
      rw e (
        find_loop-first (length files) files 0 (length files) parts small (omega arith)
          (first-le files) (omega arith) (omega arith))

-- Largest keys do not fall in the order of internal keys.
abbrev pub Sorted : Comparator → List FileMetaData → Type 0
Sorted user [] = Unit {0}
Sorted user (f ∷ files) =
    All (λ g. compare user f.largest g.largest ≢ Ordering.gt) files × Sorted user files

module _ (user : Comparator) (laws : IsComparator user) (key : Bytes) where
  past-later :
      (f g : FileMetaData)
      → compare user f.largest g.largest ≢ Ordering.gt
      → is_below user key f ≡ false
      → is_below user key g ≡ false
  past-later f g h past = ground (
    arith,
    compare_swap user laws f.largest g.largest,
    compare_trans user laws f.largest g.largest key,
    compare_congr user laws f.largest g.largest key,
  )

  All-past :
      (f : FileMetaData) (files : List FileMetaData)
      → All (λ g. compare user f.largest g.largest ≢ Ordering.gt) files
      → is_below user key f ≡ false
      → All (λ g. is_below user key g ≡ false) files
  All-past f [] all past = tt
  All-past f (g ∷ files) all past = (past-later f g all.0 past, All-past f files all.1 past)

  Sorted-Partitioned : (files : List FileMetaData) → Sorted user files → Partitioned user key files
  Sorted-Partitioned [] sorted = tt
  Sorted-Partitioned (f ∷ files) sorted =
      (All-past f files sorted.0, Sorted-Partitioned files sorted.1)

-- Over fewer than 2^31 files whose largest keys do not fall, FindFile gives the number of files in
-- front of the first one whose largest key is not below the key, or of all the files if there is
-- none.
pub find_file-first_at_or_past :
    (user : Comparator) (files : List FileMetaData) (key : Bytes)
    → IsComparator user
    → Sorted user files
    → length files < 2 ^ 31
    → find_file user files key ≡ first_at_or_past user key files
find_file-first_at_or_past user files key laws sorted small =
    find_file-first user key files (Sorted-Partitioned user laws key files sorted) small
