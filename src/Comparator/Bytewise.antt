-- ===== src/Comparator/Bytewise.antt =====
-- The bytewise comparator keeps the contract of comparator.h.
use leveldb_mcpe_dotnet.Common.{
  ℕ, ◌+◌, ◌%◌, ◌≤◌, false, [], ◌∷◌, length, ltb, ◌&&◌, ◌==◌, if◌then◌else◌, ◌≡◌, ◌≢◌, refl, ap,
  arith, Bool-cases, inl, inr,
}
use leveldb_mcpe_dotnet.Common.Bytes.{Bytes, AllBytes}
use leveldb_mcpe_dotnet.Slice.Order.{
  lexicographic, compare-lexicographic, lexicographic_refl, lexicographic-swap, lexicographic_trans,
  eq_of_lexicographic,
}
use leveldb_mcpe_dotnet.Comparator.{
  IsComparator, KeepsEqual, common_prefix, bump_at, bytewise_separator, bytewise_successor,
  bytewise,
}
use Prim.Native.Nat.{Ordering}

separator_cons :
    (x : ℕ) (start limit : Bytes)
    → bytewise_separator (x ∷ start) (x ∷ limit) ≡ x ∷ bytewise_separator start limit
unfolding bytewise_separator
separator_cons x start limit = ground arith

-- At a first difference the byte is bumped if there is room below the limit's byte.
separator_differ :
    (x y : ℕ) (start limit : Bytes)
    → x == y ≡ false
    → bytewise_separator (x ∷ start) (y ∷ limit)
      ≡ (if ltb x 0xff && ltb (x + 1) y then ((x + 1) % 256) ∷ [] else x ∷ start)
unfolding bytewise_separator common_prefix bump_at
separator_differ x y start limit h = rw (h, common_prefix) (ground arith)

-- A separator stands in [start, limit), for start below limit.
separator_bounds :
    (start limit : Bytes)
    → lexicographic start limit ≡ Ordering.lt
    → (lexicographic start (bytewise_separator start limit) ≢ Ordering.gt)
      × (lexicographic (bytewise_separator start limit) limit ≡ Ordering.lt)
unfolding lexicographic
separator_bounds [] [] h = cc
separator_bounds [] (y ∷ limit) h = unfold bytewise_separator common_prefix in ground arith
separator_bounds (x ∷ start) [] h = cc
separator_bounds (x ∷ start) (y ∷ limit) h = elim (Bool-cases (x == y)) [
  | inl same ↦
      let e : x ≡ y = ground arith in
      ground (
        arith,
        separator_cons y start limit,
        ap (λ (t : ℕ). bytewise_separator (t ∷ start) (y ∷ limit)) e,
        separator_bounds start limit,
      )
  | inr differ ↦ ground (arith, separator_differ x y start limit differ, lexicographic_refl start)
]

-- Equal keys are left alone.
separator_same : (key : Bytes) → bytewise_separator key key ≡ key
separator_same [] = unfold bytewise_separator common_prefix in refl
separator_same (x ∷ key) = rw (separator_cons x key key, separator_same key)

separator_equal :
    (start limit : Bytes)
    → lexicographic start limit ≡ Ordering.eq
    → lexicographic start (bytewise_separator start limit) ≢ Ordering.lt
separator_equal start limit e =
    ground
      (arith, eq_of_lexicographic start limit e, separator_same limit, lexicographic_refl limit)

-- The successor is not below the key.
successor_bound :
    (key : Bytes) → AllBytes key → lexicographic key (bytewise_successor key) ≢ Ordering.gt
unfolding lexicographic bytewise_successor
successor_bound [] h = λ e. cc
successor_bound (b ∷ key) h = ground (arith, successor_bound key h.1)

-- The bytewise comparator keeps the contract of a comparator, and separates equal keys by no
-- larger one.
pub bytewise-IsComparator : IsComparator bytewise × KeepsEqual bytewise
unfolding bytewise
bytewise-IsComparator = (
  record {
    compare_refl = λ a. rw (compare-lexicographic a a) (lexicographic_refl a);
    compare_swap = λ a b. simp compare-lexicographic (lexicographic-swap a b);
    compare_trans = λ a b d e f. rw (compare-lexicographic a d) (
        lexicographic_trans a b d (rw (compare-lexicographic a b) at e)
          (rw (compare-lexicographic b d) at f));
    compare_congr =
        λ a b d e. rw (eq_of_lexicographic a b (rw (compare-lexicographic a b) at e)) refl;
    separator_lower = λ start limit e.
        rw (compare-lexicographic start (bytewise_separator start limit))
          ((separator_bounds start limit (rw (compare-lexicographic start limit) at e)).0);
    separator_upper = λ start limit e.
        rw (compare-lexicographic (bytewise_separator start limit) limit)
          ((separator_bounds start limit (rw (compare-lexicographic start limit) at e)).1);
    successor_lower =
        λ key h. rw (compare-lexicographic key (bytewise_successor key)) (successor_bound key h);
  },
  record {
    separator_equal = λ start limit e.
        rw (compare-lexicographic start (bytewise_separator start limit))
          (separator_equal start limit (rw (compare-lexicographic start limit) at e));
  },
)

-- Neither method makes a key longer.
pub separator-shorter :
    (start limit : Bytes) → length (bytewise_separator start limit) ≤ length start
unfolding bytewise_separator common_prefix
separator-shorter [] [] = omega arith
separator-shorter [] (y ∷ limit) = ground arith
separator-shorter (x ∷ start) [] = ground arith
separator-shorter (x ∷ start) (y ∷ limit) = elim (Bool-cases (x == y)) [
  | inl same ↦
      let e : x ≡ y = ground arith in
      rw (e, separator_cons y start limit) (omega (arith, separator-shorter start limit))
  | inr differ ↦ rw (separator_differ x y start limit differ) (ground arith)
]

pub successor-shorter : (key : Bytes) → length (bytewise_successor key) ≤ length key
unfolding bytewise_successor
successor-shorter [] = omega arith
successor-shorter (b ∷ key) = ground (arith, successor-shorter key)
