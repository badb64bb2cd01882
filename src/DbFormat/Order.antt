-- ===== src/DbFormat/Order.antt =====
-- The order of internal keys over any user comparator that keeps its contract.
use leveldb_mcpe_dotnet.Common.{◌≡◌, ◌≢◌, ◌⊎◌, inl, inr, arith}
use leveldb_mcpe_dotnet.Common.Bytes.{Bytes}
use leveldb_mcpe_dotnet.Coding.{put_fixed64}
use leveldb_mcpe_dotnet.Slice.Order.{swap}
use leveldb_mcpe_dotnet.Comparator.{Comparator, IsComparator, KeepsEqual}
use leveldb_mcpe_dotnet.DbFormat.{
  extract_user_key, compare, is_lt, with_earliest_tag, find_shortest_separator,
  find_short_successor, internal_comparator,
}
use leveldb_mcpe_dotnet.DbFormat.Codec.{extract_user_key-tagged}
use Prim.Native.Nat.{Ordering}

module _ (user : Comparator) (laws : IsComparator user) where
  pub compare_refl : (a : Bytes) → compare user a a ≡ Ordering.eq
  unfolding compare
  compare_refl a = ground (arith, laws.compare_refl (extract_user_key a))

  pub compare_swap : (a b : Bytes) → compare user b a ≡ swap (compare user a b)
  unfolding compare
  compare_swap a b = ground (arith, laws.compare_swap (extract_user_key a) (extract_user_key b))

  pub compare_congr :
      (a b d : Bytes) → compare user a b ≡ Ordering.eq → compare user a d ≡ compare user b d
  unfolding compare
  compare_congr a b d e =
      ground
        (arith, laws.compare_congr (extract_user_key a) (extract_user_key b) (extract_user_key d))

  pub compare_trans :
      (a b d : Bytes)
      → compare user a b ≡ Ordering.lt
      → compare user b d ≡ Ordering.lt
      → compare user a d ≡ Ordering.lt
  unfolding compare
  compare_trans a b d e f =
      let ua = extract_user_key a in
      let ub = extract_user_key b in
      let ud = extract_user_key d in
      ground (
        arith,
        laws.compare_trans ua ub ud,
        laws.compare_congr ua ub ud,
        laws.compare_congr ub ud ua,
        laws.compare_congr ud ub ua,
        laws.compare_swap ua ub,
        laws.compare_swap ub ud,
        laws.compare_swap ua ud,
      )

  extract_user_key-with_earliest_tag :
      (tmp : Bytes) → extract_user_key (with_earliest_tag user tmp) ≡ tmp
  unfolding with_earliest_tag put_fixed64
  extract_user_key-with_earliest_tag tmp = extract_user_key-tagged tmp _

  -- The user keys decide where they differ.
  compare_of_user :
      (a b : Bytes)
      → user.compare (extract_user_key a) (extract_user_key b) ≡ Ordering.lt
      → compare user a b ≡ Ordering.lt
  unfolding compare
  compare_of_user a b h = ground arith

  -- A separator is the start itself, or a larger user key with the earliest tag.
  separator_cases :
      (start limit : Bytes)
      → (find_shortest_separator user start limit ≡ start)
        ⊎ ((user.compare
                (extract_user_key start)
                (extract_user_key (find_shortest_separator user start limit))
              ≡ Ordering.lt)
            × (extract_user_key (find_shortest_separator user start limit)
                ≡ user.find_shortest_separator (extract_user_key start) (extract_user_key limit)))
  unfolding find_shortest_separator is_lt
  separator_cases start limit =
      let tmp = user.find_shortest_separator (extract_user_key start) (extract_user_key limit) in
      ground (arith, extract_user_key-with_earliest_tag tmp)

  successor_cases :
      (key : Bytes)
      → (find_short_successor user key ≡ key)
        ⊎ (user.compare (extract_user_key key) (extract_user_key (find_short_successor user key))
            ≡ Ordering.lt)
  unfolding find_short_successor is_lt
  successor_cases key =
      ground (
        arith,
        extract_user_key-with_earliest_tag (user.find_short_successor (extract_user_key key)),
      )

  separator_lower :
      (start limit : Bytes)
      → compare user start (find_shortest_separator user start limit) ≢ Ordering.gt
  separator_lower start limit = ground (
    arith,
    separator_cases start limit,
    compare_refl start,
    compare_of_user start (find_shortest_separator user start limit),
  )

  user_of_compare :
      (a b : Bytes)
      → compare user a b ≢ Ordering.gt
      → user.compare (extract_user_key a) (extract_user_key b) ≢ Ordering.gt
  unfolding compare
  user_of_compare a b h = ground (arith)

  separator_upper :
      KeepsEqual user
      → (start limit : Bytes) → compare user start limit ≡ Ordering.lt
      → compare user (find_shortest_separator user start limit) limit ≡ Ordering.lt
  separator_upper equal start limit h = elim (separator_cases start limit) [
    | inl same ↦ rw same h
    | inr (above, tmp) ↦
        let us = extract_user_key start in
        let ul = extract_user_key limit in
        compare_of_user (find_shortest_separator user start limit) limit (
          ground (
            arith,
            user_of_compare start limit,
            laws.separator_upper us ul,
            equal.separator_equal us ul,
          ))
  ]

  separator_equal :
      KeepsEqual user
      → (start limit : Bytes) → compare user start limit ≡ Ordering.eq
      → compare user start (find_shortest_separator user start limit) ≢ Ordering.lt
  unfolding compare
  separator_equal equal start limit h = elim (separator_cases start limit) [
    | inl same ↦ rw same (ground (arith, laws.compare_refl (extract_user_key start)))
    | inr (above, tmp) ↦
        absurd
          (ground (arith, equal.separator_equal (extract_user_key start) (extract_user_key limit)))
  ]

  -- Over a user comparator that keeps the contract of comparator.h and, which the header does not
  -- ask for, separates equal keys by no larger one, the internal comparator keeps both: a total
  -- order of internal keys, separators in [start, limit) for start < limit and not above equal
  -- keys, and successors not below the key.
  pub internal_comparator-IsComparator :
      KeepsEqual user
      → IsComparator (internal_comparator user) × KeepsEqual (internal_comparator user)
  unfolding internal_comparator
  internal_comparator-IsComparator equal = (
    record {
      compare_refl = compare_refl;
      compare_swap = compare_swap;
      compare_trans = compare_trans;
      compare_congr = compare_congr;
      separator_lower = λ start limit h. separator_lower start limit;
      separator_upper = separator_upper equal;
      successor_lower = λ key h. ground (
        arith,
        successor_cases key,
        compare_refl key,
        compare_of_user key (find_short_successor user key),
      );
    },
    record { separator_equal = separator_equal equal },
  )
