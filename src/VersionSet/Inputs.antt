-- ===== src/VersionSet/Inputs.antt =====
-- The loop of GetOverlappingInputs ends, and with which files.
use leveldb_mcpe_dotnet.Common.{
  ℕ, suc, ◌+◌, ◌++◌, ◌≤◌, ◌<◌, Bool, true, false, not, Option, none, some, List, [], ◌∷◌, length,
  ◌||◌, if◌then◌else◌, ◌≡◌, refl, arith,
}
use leveldb_mcpe_dotnet.Common.Bytes.{Bytes}
use leveldb_mcpe_dotnet.Comparator.{Comparator, IsComparator}
use leveldb_mcpe_dotnet.DbFormat.{extract_user_key}
use leveldb_mcpe_dotnet.VersionEdit.{FileMetaData}
use leveldb_mcpe_dotnet.VersionSet.{Gather, before_range, after_range, begins_before, ends_after}

abbrev pub count : (FileMetaData → Bool) → List FileMetaData → ℕ
count p [] = 0
count p (f ∷ files) = let rest = count p files in if p f then suc rest else rest

count-append :
    (p : FileMetaData → Bool) (xs ys : List FileMetaData)
    → count p (xs ++ ys) ≡ count p xs + count p ys
count-append p [] ys = omega arith
count-append p (x ∷ xs) ys = ground (arith, count-append p xs ys)

count-le :
    (p q : FileMetaData → Bool) (xs : List FileMetaData)
    → ((f : FileMetaData) → q f ≡ true → p f ≡ true)
    → count q xs ≤ count p xs
count-le p q [] h = omega arith
count-le p q (x ∷ xs) h = ground (arith, h x, count-le p q xs h)

pub count-length : (p : FileMetaData → Bool) (xs : List FileMetaData) → count p xs ≤ length xs
count-length p [] = omega arith
count-length p (x ∷ xs) = ground (arith, count-length p xs)

-- A test that fewer files pass, among them not `f`, counts less.
count-lt :
    (p q : FileMetaData → Bool) (before : List FileMetaData) (f : FileMetaData)
    (after : List FileMetaData)
    → ((g : FileMetaData) → q g ≡ true → p g ≡ true)
    → p f ≡ true
    → q f ≡ false
    → count q (before ++ (f ∷ after)) < count p (before ++ (f ∷ after))
count-lt p q before f after h hp hq =
    let b = count-le p q before h in
    let a = count-le p q after h in
    rw (count-append p before (f ∷ after), count-append q before (f ∷ after), hp, hq) (omega arith)

module _ (user : Comparator) where
  abbrev pub overlaps : Option Bytes → Option Bytes → FileMetaData → Bool
  overlaps user_begin user_end f =
      not (before_range user user_begin f || after_range user user_end f)

  abbrev pub overlapping : Option Bytes → Option Bytes → List FileMetaData → List FileMetaData
  overlapping user_begin user_end [] = []
  overlapping user_begin user_end (f ∷ files) =
      let rest = overlapping user_begin user_end files in
      if overlaps user_begin user_end f then f ∷ rest else rest

  pub overlapping-snoc :
      (user_begin user_end : Option Bytes) (files : List FileMetaData) (f : FileMetaData)
      → overlapping user_begin user_end (files ++ (f ∷ []))
        ≡ overlapping user_begin user_end files
          ++ (if overlaps user_begin user_end f then f ∷ [] else [])
  overlapping-snoc user_begin user_end [] f = ground arith
  overlapping-snoc user_begin user_end (g ∷ files) f =
      ground (arith, overlapping-snoc user_begin user_end files f)

  -- The restarts that are left, for each end of the range.
  abbrev pub restarts : List FileMetaData → Gather → ℕ
  restarts files g =
      count (begins_before user g.user_begin) files + count (ends_after user g.user_end) files

module _ (user : Comparator) (laws : IsComparator user) where
  -- What a smaller lower bound, and a larger upper bound, keep.
  begins_before-wider :
      (user_begin : Option Bytes) (f g : FileMetaData)
      → begins_before user user_begin f ≡ true
      → begins_before user (some (extract_user_key f.smallest)) g ≡ true
      → begins_before user user_begin g ≡ true
  unfolding begins_before
  begins_before-wider none f g h k = h
  begins_before-wider (some b) f g h k =
      ground
        (arith, laws.compare_trans (extract_user_key g.smallest) (extract_user_key f.smallest) b)

  pub before_range-wider :
      (user_begin : Option Bytes) (f g : FileMetaData)
      → begins_before user user_begin f ≡ true
      → before_range user (some (extract_user_key f.smallest)) g ≡ true
      → before_range user user_begin g ≡ true
  unfolding begins_before before_range
  before_range-wider none f g h k = h
  before_range-wider (some b) f g h k =
      ground
        (arith, laws.compare_trans (extract_user_key g.largest) (extract_user_key f.smallest) b)

  ends_after-wider :
      (user_end : Option Bytes) (f g : FileMetaData)
      → ends_after user user_end f ≡ true
      → ends_after user (some (extract_user_key f.largest)) g ≡ true
      → ends_after user user_end g ≡ true
  unfolding ends_after
  ends_after-wider none f g h k = h
  ends_after-wider (some e) f g h k = ground (
    arith,
    laws.compare_trans e (extract_user_key f.largest) (extract_user_key g.largest),
    laws.compare_swap e (extract_user_key f.largest),
    laws.compare_swap (extract_user_key f.largest) (extract_user_key g.largest),
    laws.compare_swap e (extract_user_key g.largest),
  )

  pub after_range-wider :
      (user_end : Option Bytes) (f g : FileMetaData)
      → ends_after user user_end f ≡ true
      → after_range user (some (extract_user_key f.largest)) g ≡ true
      → after_range user user_end g ≡ true
  unfolding ends_after after_range
  after_range-wider none f g h k = h
  after_range-wider (some e) f g h k = ground (
    arith,
    laws.compare_trans e (extract_user_key f.largest) (extract_user_key g.smallest),
    laws.compare_swap e (extract_user_key f.largest),
    laws.compare_swap (extract_user_key f.largest) (extract_user_key g.smallest),
    laws.compare_swap e (extract_user_key g.smallest),
  )

  pub begin-lt :
      (before : List FileMetaData) (f : FileMetaData) (after : List FileMetaData)
      (user_begin : Option Bytes)
      → begins_before user user_begin f ≡ true
      → count (begins_before user (some (extract_user_key f.smallest))) (before ++ (f ∷ after))
        < count (begins_before user user_begin) (before ++ (f ∷ after))
  unfolding begins_before
  begin-lt before f after user_begin h =
      count-lt (begins_before user user_begin)
        (begins_before user (some (extract_user_key f.smallest))) before f after
        (λ g. begins_before-wider user_begin f g h) h
        (rw (laws.compare_refl (extract_user_key f.smallest)) refl)

  pub end-lt :
      (before : List FileMetaData) (f : FileMetaData) (after : List FileMetaData)
      (user_end : Option Bytes)
      → ends_after user user_end f ≡ true
      → count (ends_after user (some (extract_user_key f.largest))) (before ++ (f ∷ after))
        < count (ends_after user user_end) (before ++ (f ∷ after))
  unfolding ends_after
  end-lt before f after user_end h =
      count-lt (ends_after user user_end) (ends_after user (some (extract_user_key f.largest)))
        before f after (λ g. ends_after-wider user_end f g h) h
        (rw (laws.compare_refl (extract_user_key f.largest)) refl)
