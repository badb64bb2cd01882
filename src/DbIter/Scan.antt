-- ===== src/DbIter/Scan.antt =====
-- The first entry that a user can see behind a key to skip, and the walk made of such scans.
use leveldb_mcpe_dotnet.Common.{
  ℕ, ◌≤◌, ◌<◌, Bool, true, false, not, Option, none, some, List, [], ◌∷◌, All, length, leb, ◌==◌,
  ◌&&◌, if◌then◌else◌, ◌≡◌, refl, arith, Bool-cases, inl, inr,
}
use leveldb_mcpe_dotnet.Common.Bytes.{Bytes}
use leveldb_mcpe_dotnet.Coding.{put_fixed64}
use leveldb_mcpe_dotnet.Comparator.{Comparator, IsComparator, is_gt}
use leveldb_mcpe_dotnet.DbFormat.{
  max_sequence_number, append_internal_key, extract_user_key, parse_internal_key, type_deletion,
  type_value,
}
use leveldb_mcpe_dotnet.DbFormat.Codec.{
  extract_user_key-tagged, parse_internal_key-append_internal_key,
}
use leveldb_mcpe_dotnet.Iterator.{Entry}
use leveldb_mcpe_dotnet.DbIter.{key}
use leveldb_mcpe_dotnet.DbIter.View.{Stored, walk, skips}

-- An entry as the internal iterator holds it.
abbrev pub raw : Stored → Entry
raw e = (append_internal_key [] e.0, e.1)

-- An entry as the user sees it.
abbrev pub shown : Stored → Entry
shown e = (e.0.user_key, e.1)

abbrev pub IsStored : Stored → Type 0
IsStored e = (e.0.sequence ≤ max_sequence_number) × (e.0.type ≤ type_value)

pub parse-raw : (e : Stored) → IsStored e → parse_internal_key (raw e).0 ≡ some e.0
parse-raw e h = parse_internal_key-append_internal_key e.0 h.0 h.1

pub extract-raw : (e : Stored) → extract_user_key (raw e).0 ≡ e.0.user_key
unfolding append_internal_key extract_user_key put_fixed64
extract-raw e = extract_user_key-tagged e.0.user_key _

abbrev pub skip_of : Bool → Bytes → Option Bytes
skip_of true key = some key
skip_of false key = none

module _ (user : Comparator) (sequence : ℕ) where
  -- The first entry that a walk finds, with the entries behind it.
  abbrev pub scan : Option Bytes → List Stored → Option (Stored × List Stored)
  scan skip [] = none
  scan skip (e ∷ es) =
      let hidden = scan skip es in
      let passed = scan (some e.0.user_key) es in
      if leb e.0.sequence sequence
      then if e.0.type == type_deletion
        then passed
        else if skips user sequence skip e
        then hidden
        else some (e, es)
      else hidden

  pub skips-of :
      (skipping : Bool) (saved : Bytes) (e : Stored)
      → skips user sequence (skip_of skipping saved) e
        ≡ (skipping && not (is_gt (user.compare e.0.user_key saved)))
  skips-of true saved e = refl
  skips-of false saved e = refl

  abbrev pub walk_of : Option (Stored × List Stored) → List Stored
  walk_of none = []
  walk_of (some (e, rest)) = e ∷ walk user sequence (some e.0.user_key) rest

  pub walk-scan :
      (skip : Option Bytes) (l : List Stored) → walk user sequence skip l ≡ walk_of (scan skip l)
  unfolding walk
  walk-scan skip [] = refl
  walk-scan skip (e ∷ l) =
      let hidden = walk-scan skip l in let passed = walk-scan (some e.0.user_key) l in ground arith

  -- What a scan finds is seen, and with what is behind it shorter than `n`.
  abbrev pub Found : ℕ → Option (Stored × List Stored) → Type 0
  Found n none = Unit {0}
  Found n (some (e, rest)) =
      (leb e.0.sequence sequence ≡ true)
      × ((e.0.type == type_deletion) ≡ false)
      × IsStored e
      × All IsStored rest
      × (length rest < n)

  pub scan-Found :
      (n : ℕ) (skip : Option Bytes) (l : List Stored)
      → All IsStored l
      → length l ≤ n
      → Found n (scan skip l)
  scan-Found n skip [] stored hn = tt
  scan-Found n skip (e ∷ l) stored hn =
      let hidden = scan-Found n skip l stored.1 (omega arith) in
      let passed = scan-Found n (some e.0.user_key) l stored.1 (omega arith) in
      elim (Bool-cases (leb e.0.sequence sequence)) [
        | inr unseen ↦ rw unseen hidden
        | inl seen ↦ elim (Bool-cases (e.0.type == type_deletion)) [
          | inl deleted ↦ rw (seen, deleted) passed
          | inr kept ↦ elim (Bool-cases (skips user sequence skip e)) [
            | inl skipped ↦ rw (seen, kept, skipped) hidden
            | inr fresh ↦ rw (seen, kept, fresh) (seen, kept, stored.0, stored.1, omega arith)
          ]
        ]
      ]

  -- An entry that is found is skipped in a scan for its own key.
  pub scan-own :
      (n : ℕ) (e : Stored) (l : List Stored)
      → IsComparator user
      → Found n (some (e, l))
      → scan (some e.0.user_key) (e ∷ l) ≡ scan (some e.0.user_key) l
  scan-own n e l law found = rw (found.0, found.1, law.compare_refl e.0.user_key) refl
