-- ===== src/Iterator.antt =====
-- include/leveldb/iterator.h: iterators as an interface, with the contract that the header writes
-- at each method.
pub mod Lists
use leveldb_mcpe_dotnet.Common.{Bool, true, false, List, [], ◌∷◌, ◌≡◌, if◌then◌else◌}
use leveldb_mcpe_dotnet.Common.Bytes.{Bytes}
use leveldb_mcpe_dotnet.Comparator.{is_lt}
use leveldb_mcpe_dotnet.Status.{Status}
use Prim.Native.Nat.{Ordering}

-- The methods over a state `S`.
pub record Iterator {ℓ} (S : Type ℓ) : Type ℓ where
  pub valid : S → Bool
  pub key : S → Bytes
  pub value : S → Bytes
  pub status : S → Status
  pub seek_to_first : S → S
  pub seek_to_last : S → S
  pub seek : S → Bytes → S
  pub next : S → S
  pub prev : S → S

-- A key and its value.
abbrev pub Entry : Type 0
Entry = Bytes × Bytes

-- A place in a source: at an entry, with the entries before it, the nearest first, and those
-- behind it; or not valid.
pub data Cursor : Type 0 where
  outside : Cursor
  at_entry : List Entry → Entry → List Entry → Cursor

abbrev pub is_at : Cursor → Bool
is_at outside = false
is_at (at_entry before e after) = true

-- At the first of the entries behind, or at the last of those before.
abbrev pub onward : List Entry → List Entry → Cursor
onward before [] = outside
onward before (e ∷ after) = at_entry before e after

abbrev pub backward : List Entry → List Entry → Cursor
backward [] after = outside
backward (e ∷ before) after = at_entry before e after

-- At the first entry whose key is at or past the target.
abbrev pub onward_to : (Bytes → Bytes → Ordering) → Bytes → List Entry → List Entry → Cursor
onward_to compare target before [] = outside
onward_to compare target before (e ∷ after) =
    if is_lt (compare e.0 target)
    then onward_to compare target (e ∷ before) after
    else at_entry before e after

abbrev pub reverse_onto : List Entry → List Entry → List Entry
reverse_onto before [] = before
reverse_onto before (e ∷ after) = reverse_onto (e ∷ before) after

-- The iterator walks over `entries`, and `place` tells where it stands.
pub record IsIterator {ℓ} {S : Type ℓ} (it : Iterator S) (compare : Bytes → Bytes → Ordering)
    (entries : List Entry) (place : S → Cursor) : Type ℓ where
  pub valid_at : (s : S) → it.valid s ≡ is_at (place s)
  pub key_at :
      (s : S) (before : List Entry) (e : Entry) (after : List Entry)
      → place s ≡ at_entry before e after
      → it.key s ≡ e.0
  pub value_at :
      (s : S) (before : List Entry) (e : Entry) (after : List Entry)
      → place s ≡ at_entry before e after
      → it.value s ≡ e.1
  pub next_at :
      (s : S) (before : List Entry) (e : Entry) (after : List Entry)
      → place s ≡ at_entry before e after
      → place (it.next s) ≡ onward (e ∷ before) after
  pub prev_at :
      (s : S) (before : List Entry) (e : Entry) (after : List Entry)
      → place s ≡ at_entry before e after
      → place (it.prev s) ≡ backward before (e ∷ after)
  pub first_at : (s : S) → place (it.seek_to_first s) ≡ onward [] entries
  pub last_at : (s : S) → place (it.seek_to_last s) ≡ backward (reverse_onto [] entries) []
  pub seek_at :
      (s : S) (target : Bytes) → place (it.seek s target) ≡ onward_to compare target [] entries
