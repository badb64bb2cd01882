-- ===== src/Merger/Tests.antt =====
-- Three children, one of them empty, over lists.
use leveldb_mcpe_dotnet.Common.{some, none, List, [], ◌∷◌, ◌≡◌, refl, ap}
use mathlib.Core.List.{Perm}
use leveldb_mcpe_dotnet.Status.{Status}
use leveldb_mcpe_dotnet.Slice.{compare}
use leveldb_mcpe_dotnet.Comparator.{bytewise}
use leveldb_mcpe_dotnet.Comparator.Bytewise.{bytewise-IsComparator}
use leveldb_mcpe_dotnet.Iterator.{
  Iterator, Entry, Cursor, outside, is_at, onward, backward, onward_to, reverse_onto,
}
use leveldb_mcpe_dotnet.Iterator.Lists.{cursor_entry, cursor_next, cursor_prev}
use leveldb_mcpe_dotnet.Merger.{MergingIterator, Direction, seek_to_first}
use leveldb_mcpe_dotnet.Merger.Pick.{Ascending}
use leveldb_mcpe_dotnet.Merger.Pass.{IsChildren, merged_pass}
use leveldb_mcpe_dotnet.Merger.Forward.{seek_to_first-merged_pass}

-- A list, and a place in it.
abbrev Child : Type 0
Child = List Entry × Cursor

abbrev lists_iterator : Iterator Child
lists_iterator = record {
  valid = λ s. is_at s.1;
  key = λ s. (cursor_entry s.1).0;
  value = λ s. (cursor_entry s.1).1;
  status = λ s. Status.ok;
  seek_to_first = λ s. (s.0, onward [] s.0);
  seek_to_last = λ s. (s.0, backward (reverse_onto [] s.0) []);
  seek = λ s target. (s.0, onward_to bytewise.compare target [] s.0);
  next = λ s. (s.0, cursor_next s.1);
  prev = λ s. (s.0, cursor_prev s.1);
}

lists_iterator-IsChildren : IsChildren lists_iterator (λ s. s.0) (λ s. s.1)
lists_iterator-IsChildren = record {
  valid_at = λ s. refl;
  key_at = λ s before e after at_e. ap (λ c. (cursor_entry c).0) at_e;
  value_at = λ s before e after at_e. ap (λ c. (cursor_entry c).1) at_e;
  next_at = λ s before e after at_e. ap cursor_next at_e;
  first_at = λ s. refl;
}

abbrev three_children : MergingIterator Child
three_children = record {
  children =
      ((1 ∷ [], 10 ∷ []) ∷ (3 ∷ [], 30 ∷ []) ∷ [], outside)
      ∷ ([], outside)
      ∷ ((1 ∷ [], 11 ∷ []) ∷ (2 ∷ [], 20 ∷ []) ∷ [], outside)
      ∷ [];
  current = none;
  direction = Direction.forward;
}

seek_to_first-merged_pass_example :
    (out : List Entry) × (merged_pass lists_iterator bytewise 5
        (seek_to_first lists_iterator bytewise three_children)
      ≡ some out)
    × Perm out ((1 ∷ [], 10 ∷ []) ∷ (3 ∷ [], 30 ∷ []) ∷ (1 ∷ [], 11 ∷ []) ∷ (2 ∷ [], 20 ∷ []) ∷ [])
    × Ascending bytewise bytewise-IsComparator.0 out
unfolding bytewise compare
seek_to_first-merged_pass_example =
    seek_to_first-merged_pass lists_iterator bytewise bytewise-IsComparator.0
      lists_iterator-IsChildren three_children
      (((refl, tt), (tt, tt)), (tt, (((refl, tt), (tt, tt)), tt)))
