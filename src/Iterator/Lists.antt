-- ===== src/Iterator/Lists.antt =====
-- An iterator over a list, which shows that the contract can be kept.
use leveldb_mcpe_dotnet.Common.{List, [], ◌∷◌, refl, ap}
use leveldb_mcpe_dotnet.Common.Bytes.{Bytes}
use leveldb_mcpe_dotnet.Status.{Status}
use leveldb_mcpe_dotnet.Iterator.{
  Iterator, Entry, Cursor, outside, at_entry, is_at, onward, backward, onward_to, reverse_onto,
  IsIterator,
}
use Prim.Native.Nat.{Ordering}

abbrev pub cursor_entry : Cursor → Entry
cursor_entry outside = ([], [])
cursor_entry (at_entry before e after) = e

abbrev pub cursor_next : Cursor → Cursor
cursor_next outside = outside
cursor_next (at_entry before e after) = onward (e ∷ before) after

abbrev pub cursor_prev : Cursor → Cursor
cursor_prev outside = outside
cursor_prev (at_entry before e after) = backward before (e ∷ after)

module _ (compare : Bytes → Bytes → Ordering) (entries : List Entry) where
  abbrev pub list_iterator : Iterator Cursor
  list_iterator = record {
    valid = is_at;
    key = λ s. (cursor_entry s).0;
    value = λ s. (cursor_entry s).1;
    status = λ s. Status.ok;
    seek_to_first = λ s. onward [] entries;
    seek_to_last = λ s. backward (reverse_onto [] entries) [];
    seek = λ s target. onward_to compare target [] entries;
    next = cursor_next;
    prev = cursor_prev;
  }

  pub list_iterator-IsIterator : IsIterator list_iterator compare entries (λ s. s)
  list_iterator-IsIterator = record {
    valid_at = λ s. refl;
    key_at = λ s before e after at_e. ap (λ c. (cursor_entry c).0) at_e;
    value_at = λ s before e after at_e. ap (λ c. (cursor_entry c).1) at_e;
    next_at = λ s before e after at_e. ap cursor_next at_e;
    prev_at = λ s before e after at_e. ap cursor_prev at_e;
    first_at = λ s. refl;
    last_at = λ s. refl;
    seek_at = λ s target. refl;
  }
