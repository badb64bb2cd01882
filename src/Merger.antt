-- ===== src/Merger.antt =====
-- table/merger.cc: one iterator over the union of the entries of several. The children are states of
-- one iterator interface; `IteratorWrapper`, which keeps the answers of `valid` and `key` after each
-- move, answers as the iterator that it wraps.
pub mod Pick
pub mod Popped
pub mod Pass
pub mod Forward
mod Tests
use leveldb_mcpe_dotnet.Common.{
  ℕ, zero, suc, ◌+◌, Bool, true, false, Option, none, some, List, [], ◌∷◌, get_elem?, ◌==◌, not,
  ◌&&◌, if◌then◌else◌,
}
use leveldb_mcpe_dotnet.Common.Bytes.{Bytes}
use mathlib.Core.List.{map}
use leveldb_mcpe_dotnet.Comparator.{Comparator, is_lt, is_gt}
use leveldb_mcpe_dotnet.Iterator.{Iterator}
use leveldb_mcpe_dotnet.Status.{Status, is_ok}
use Prim.Native.Nat.{Ordering}

pub data Direction : Type 0 where
  forward reverse : Direction

-- `current` is the number of a child.
pub record MergingIterator {ℓ} (S : Type ℓ) : Type ℓ where
  pub children : List S
  pub current : Option ℕ
  pub direction : Direction

unfoldable pub new_merging_iterator {ℓ} : {S : Type ℓ} → List S → MergingIterator S
new_merging_iterator list = record {
  children = list;
  current = none;
  direction = Direction.forward;
}

unfoldable pub modify_at {ℓ} : {S : Type ℓ} → (S → S) → ℕ → List S → List S
modify_at f i [] = []
modify_at f zero (c ∷ cs) = f c ∷ cs
modify_at f (suc i) (c ∷ cs) = c ∷ modify_at f i cs

-- A child that takes the place of the smallest so far, or of the largest.
unfoldable pub smaller : Comparator → ℕ → Bytes → Option (ℕ × Bytes) → Option (ℕ × Bytes)
smaller cmp i key none = some (i, key)
smaller cmp i key (some (j, best)) =
    if is_lt (cmp.compare key best) then some (i, key) else some (j, best)

unfoldable pub larger : Comparator → ℕ → Bytes → Option (ℕ × Bytes) → Option (ℕ × Bytes)
larger cmp i key none = some (i, key)
larger cmp i key (some (j, best)) =
    if is_gt (cmp.compare key best) then some (i, key) else some (j, best)

abbrev pub index_of : Option (ℕ × Bytes) → Option ℕ
index_of none = none
index_of (some (i, key)) = some i

module _ {ℓ} {S : Type ℓ} (it : Iterator S) (cmp : Comparator) where
  -- The loops of `FindSmallest`, from the first child on, and of `FindLargest`, from the last one on.
  unfoldable pub smallest_loop : List S → ℕ → Option (ℕ × Bytes) → Option (ℕ × Bytes)
  smallest_loop [] i best = best
  smallest_loop (c ∷ cs) i best =
      let better = smallest_loop cs (i + 1) (smaller cmp i (it.key c) best) in
      let same = smallest_loop cs (i + 1) best in if it.valid c then better else same

  unfoldable pub largest_loop : List S → ℕ → Option (ℕ × Bytes)
  largest_loop [] i = none
  largest_loop (c ∷ cs) i =
      let best = largest_loop cs (i + 1) in
      if it.valid c then larger cmp i (it.key c) best else best

  unfoldable pub find_smallest : MergingIterator S → MergingIterator S
  find_smallest m = record m { current = index_of (smallest_loop m.children 0 none) }

  unfoldable pub find_largest : MergingIterator S → MergingIterator S
  find_largest m = record m { current = index_of (largest_loop m.children 0) }

  unfoldable pub valid : MergingIterator S → Bool
  valid m = elim m.current [ none ↦ false | some i ↦ true ]

  -- The child at `current`, which there is if the iterator is valid.
  unfoldable pub current_child : MergingIterator S → Option S
  current_child m = elim m.current [ none ↦ none | some i ↦ get_elem? m.children i ]

  unfoldable pub key : MergingIterator S → Bytes
  key m = elim (current_child m) [ none ↦ [] | some c ↦ it.key c ]

  unfoldable pub value : MergingIterator S → Bytes
  value m = elim (current_child m) [ none ↦ [] | some c ↦ it.value c ]

  -- The first status that is not ok.
  unfoldable pub status_loop : List S → Status
  status_loop [] = Status.ok
  status_loop (c ∷ cs) =
      let rest = status_loop cs in if is_ok (it.status c) then rest else it.status c

  unfoldable pub status : MergingIterator S → Status
  status m = status_loop m.children

  unfoldable pub seek_to_first : MergingIterator S → MergingIterator S
  seek_to_first m =
      record (find_smallest (record m { children = map it.seek_to_first m.children })) {
        direction = Direction.forward;
      }

  unfoldable pub seek_to_last : MergingIterator S → MergingIterator S
  seek_to_last m = record (find_largest (record m { children = map it.seek_to_last m.children })) {
    direction = Direction.reverse;
  }

  unfoldable pub seek : MergingIterator S → Bytes → MergingIterator S
  seek m target =
      record (find_smallest (record m { children = map (λ c. it.seek c target) m.children })) {
        direction = Direction.forward;
      }

  -- The loops that take the other children past the key, or in front of it.
  unfoldable pub past_key : Bytes → S → S
  past_key target c =
      let c' = it.seek c target in
      let same : Bool = elim (cmp.compare target (it.key c')) [ Ordering.eq ↦ true | _ ↦ false ] in
      if it.valid c' && same then it.next c' else c'

  unfoldable pub before_key : Bytes → S → S
  before_key target c =
      let c' = it.seek c target in if it.valid c' then it.prev c' else it.seek_to_last c'

  unfoldable pub others : (S → S) → ℕ → ℕ → List S → List S
  others f current i [] = []
  others f current i (c ∷ cs) = (if i == current then c else f c) ∷ others f current (i + 1) cs

  abbrev turn : (S → S) → MergingIterator S → List S
  turn f m = elim m.current [ none ↦ m.children | some i ↦ others f i 0 m.children ]

  abbrev move : (S → S) → Option ℕ → List S → List S
  move f none cs = cs
  move f (some i) cs = modify_at f i cs

  unfoldable pub next : MergingIterator S → MergingIterator S
  next m =
      let children : List S = elim m.direction [
        | Direction.forward ↦ m.children
        | Direction.reverse ↦ turn (past_key (key m)) m
      ] in
      find_smallest
        (record m { children = move it.next m.current children; direction = Direction.forward })

  unfoldable pub prev : MergingIterator S → MergingIterator S
  prev m =
      let children : List S = elim m.direction [
        | Direction.forward ↦ turn (before_key (key m)) m
        | Direction.reverse ↦ m.children
      ] in
      find_largest
        (record m { children = move it.prev m.current children; direction = Direction.reverse })
