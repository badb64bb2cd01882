-- ===== src/Comparator.antt =====
-- include/leveldb/comparator.h: what the store asks of a comparator, as an interface, and
-- util/comparator.cc: the bytewise comparator.
pub mod Bytewise
use leveldb_mcpe_dotnet.Common.{
  ℕ, zero, suc, ◌+◌, ◌-◌, ◌%◌, ◌≤◌, Bool, true, false, List, [], ◌∷◌, length, take, get_or, ltb,
  leb, ◌==◌, ◌≡◌, ◌≢◌, ◌&&◌, if◌then◌else◌,
}
use leveldb_mcpe_dotnet.Common.Bytes.{Bytes, AllBytes}
use leveldb_mcpe_dotnet.Slice
use leveldb_mcpe_dotnet.Slice.Order.{swap}
use Prim.Native.Nat.{Ordering}

-- `Comparator`: the methods that the store calls.
pub record Comparator : Type 0 where
  pub compare : Bytes → Bytes → Ordering
  pub find_shortest_separator : Bytes → Bytes → Bytes
  pub find_short_successor : Bytes → Bytes

abbrev pub is_lt : Ordering → Bool
is_lt Ordering.lt = true
is_lt _ = false

abbrev pub is_gt : Ordering → Bool
is_gt Ordering.gt = true
is_gt _ = false

-- The contract of comparator.h: a total order up to the comparator's own equality; a separator
-- stands in [start, limit) for start < limit, and a successor is not below the key.
pub record IsComparator (c : Comparator) : Type 0 where
  pub compare_refl : (a : Bytes) → c.compare a a ≡ Ordering.eq
  pub compare_swap : (a b : Bytes) → c.compare b a ≡ swap (c.compare a b)
  pub compare_trans :
      (a b d : Bytes)
      → c.compare a b ≡ Ordering.lt
      → c.compare b d ≡ Ordering.lt
      → c.compare a d ≡ Ordering.lt
  pub compare_congr : (a b d : Bytes) → c.compare a b ≡ Ordering.eq → c.compare a d ≡ c.compare b d
  pub separator_lower :
      (start limit : Bytes)
      → c.compare start limit ≡ Ordering.lt
      → c.compare start (c.find_shortest_separator start limit) ≢ Ordering.gt
  pub separator_upper :
      (start limit : Bytes)
      → c.compare start limit ≡ Ordering.lt
      → c.compare (c.find_shortest_separator start limit) limit ≡ Ordering.lt
  pub successor_lower :
      (key : Bytes) → AllBytes key → c.compare key (c.find_short_successor key) ≢ Ordering.gt

-- Not said in comparator.h, which speaks of a separator for start < limit only: equal keys are not
-- separated by a larger one. `InternalKeyComparator` relies on it, since it calls
-- `FindShortestSeparator` of the user comparator on the user keys of internal keys, which may be
-- equal where start < limit.
pub record KeepsEqual (c : Comparator) : Type 0 where
  pub separator_equal :
      (start limit : Bytes)
      → c.compare start limit ≡ Ordering.eq
      → c.compare start (c.find_shortest_separator start limit) ≢ Ordering.lt

-- The length of the common prefix: the `while` loop on `diff_index`.
unfoldable pub common_prefix : Bytes → Bytes → ℕ
common_prefix (x ∷ a) (y ∷ b) = let rest = common_prefix a b in if x == y then suc rest else 0
common_prefix _ _ = 0

-- `(*s)[i]++; s->resize(i + 1)`, the increment on a byte.
unfoldable pub bump_at : Bytes → ℕ → Bytes
bump_at [] i = []
bump_at (x ∷ s) zero = ((x + 1) % 256) ∷ []
bump_at (x ∷ s) (suc i) = x ∷ bump_at s i

unfoldable pub bytewise_separator : Bytes → Bytes → Bytes
unfolding common_prefix bump_at
bytewise_separator start limit =
    let min_length = if ltb (length limit) (length start) then length limit else length start in
    let diff_index = common_prefix start limit in
    let diff_byte = get_or start diff_index 0 in
    if leb min_length diff_index
    then start
    else if ltb diff_byte 0xff && ltb (diff_byte + 1) (get_or limit diff_index 0)
    then bump_at start diff_index
    else start

-- The loop over the key for a byte that can be incremented, from the byte at hand on.
unfoldable pub bytewise_successor : Bytes → Bytes
bytewise_successor [] = []
bytewise_successor (byte ∷ key) =
    if byte == 0xff then byte ∷ bytewise_successor key else ((byte + 1) % 256) ∷ []

unfoldable pub bytewise : Comparator
bytewise = record {
  compare = Slice.compare;
  find_shortest_separator = bytewise_separator;
  find_short_successor = bytewise_successor;
}
