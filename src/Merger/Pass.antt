-- ===== src/Merger/Pass.antt =====
-- A pass over the merging iterator, and what it needs of the children.
use leveldb_mcpe_dotnet.Common.{ℕ, zero, suc, true, false, Option, none, some, List, [], ◌∷◌, ◌≡◌}
use leveldb_mcpe_dotnet.Comparator.{Comparator}
use leveldb_mcpe_dotnet.Iterator.{Iterator, Entry, Cursor, at_entry, is_at, onward}
use leveldb_mcpe_dotnet.Merger.{MergingIterator, valid, key, value, next}

-- What the pass needs of the children, each of which walks over the entries of its own source; the
-- contract of an iterator, for many sources.
pub record IsChildren {ℓ} {S : Type ℓ} (it : Iterator S) (source : S → List Entry)
    (place : S → Cursor) : Type ℓ where
  pub valid_at : (s : S) → it.valid s ≡ is_at (place s)
  pub key_at :
      (s : S) (before : List Entry) (e : Entry) (after : List Entry)
      → place s ≡ at_entry before e after
      → it.key s ≡ e.0
  pub value_at :
      (s : S) (before : List Entry) (e : Entry) (after : List Entry)
      → place s ≡ at_entry before e after
      → it.value s ≡ e.1
  pub next_at :
      (s : S) (before : List Entry) (e : Entry) (after : List Entry)
      → place s ≡ at_entry before e after
      → place (it.next s) ≡ onward (e ∷ before) after
  pub first_at : (s : S) → place (it.seek_to_first s) ≡ onward [] (source s)

-- The keys and values from where the iterator stands to where it is not valid, at most `limit`.
module _ {ℓ} {S : Type ℓ} (it : Iterator S) (cmp : Comparator) where
  unfoldable pub merged_pass : ℕ → MergingIterator S → Option (List Entry)
  merged_pass zero m = none
  merged_pass (suc limit) m = elim (valid it cmp m) [
    | false ↦ some []
    | true ↦ elim (merged_pass limit (next it cmp m)) [
      | none ↦ none
      | some rest ↦ some ((key it cmp m, value it cmp m) ∷ rest)
    ]
  ]
