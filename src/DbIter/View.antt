-- ===== src/DbIter/View.antt =====
-- What a database holds at a sequence number, and the walk that finds it in sorted entries.
use leveldb_mcpe_dotnet.Common.{
  ℕ, Bool, true, false, not, Option, none, some, List, [], ◌∷◌, All, leb, ◌==◌, ◌||◌, if◌then◌else◌,
  ◌≡◌, ◌≢◌, refl, sym, ◌∙◌, arith, Bool-cases, inl, inr,
}
use leveldb_mcpe_dotnet.Common.Bytes.{Bytes}
use leveldb_mcpe_dotnet.Comparator.{Comparator, IsComparator, is_gt}
use leveldb_mcpe_dotnet.DbFormat.{ParsedInternalKey, type_deletion}
use Prim.Native.Nat.{Ordering}

-- An entry of the database: an internal key and a value.
abbrev pub Stored : Type 0
Stored = ParsedInternalKey × Bytes

abbrev pub is_eq : Ordering → Bool
is_eq Ordering.eq = true
is_eq _ = false

||-false : (b : Bool) → (b || false) ≡ b
||-false true = refl
||-false false = refl

module _ (user : Comparator) (sequence : ℕ) where
  abbrev pub same_key : Stored → Stored → Bool
  same_key e f = is_eq (user.compare e.0.user_key f.0.user_key)

  abbrev pub decided : List Stored → Stored → Bool
  decided [] e = false
  decided (f ∷ seen) e = same_key e f || decided seen e

  -- The entries that are seen at `sequence`: those whose number is not above it, that have none of
  -- the same user key and such a number in front of them, and that are not deletions. `seen` are
  -- those of such numbers in front.
  unfoldable pub view : List Stored → List Stored → List Stored
  view seen [] = []
  view seen (e ∷ es) =
      let hidden = view seen es in
      let deleted = view (e ∷ seen) es in
      if leb e.0.sequence sequence
      then if decided seen e
        then hidden
        else if e.0.type == type_deletion
        then deleted
        else e ∷ deleted
      else hidden

  -- The user key up to which entries are skipped, if there is one.
  abbrev pub skips : Option Bytes → Stored → Bool
  skips none e = false
  skips (some key) e = not (is_gt (user.compare e.0.user_key key))

  -- The walk of the iterator, which keeps one key in place of all that it has seen.
  unfoldable pub walk : Option Bytes → List Stored → List Stored
  walk skip [] = []
  walk skip (e ∷ es) =
      let hidden = walk skip es in
      let passed = walk (some e.0.user_key) es in
      if leb e.0.sequence sequence
      then if e.0.type == type_deletion then passed else if skips skip e then hidden else e ∷ passed
      else hidden

  -- User keys do not fall.
  abbrev pub Ascending : List Stored → Type 0
  Ascending [] = Unit {0}
  Ascending (e ∷ es) =
      All (λ f. user.compare e.0.user_key f.0.user_key ≢ Ordering.gt) es × Ascending es

  -- The key to skip is not above what is left.
  abbrev Above : Option Bytes → List Stored → Type 0
  Above none l = Unit {0}
  Above (some key) l = All (λ f. user.compare key f.0.user_key ≢ Ordering.gt) l

  abbrev Agree : Option Bytes → List Stored → List Stored → Type 0
  Agree skip seen l = All (λ f. skips skip f ≡ decided seen f) l

  module _ (law : IsComparator user) where
    -- Behind an entry, only its own user key is not above it.
    skips-same :
        (e f : Stored)
        → user.compare e.0.user_key f.0.user_key ≢ Ordering.gt
        → skips (some e.0.user_key) f ≡ same_key f e
    skips-same e f h = ground (arith, law.compare_swap e.0.user_key f.0.user_key)

    -- An entry that is not skipped makes all behind it not skipped.
    skips-later :
        (skip : Option Bytes) (e f : Stored)
        → skips skip e ≡ false
        → user.compare e.0.user_key f.0.user_key ≢ Ordering.gt
        → skips skip f ≡ false
    skips-later none e f h k = refl
    skips-later (some key) e f h k = ground (
      arith,
      law.compare_swap e.0.user_key key,
      law.compare_swap f.0.user_key key,
      law.compare_trans key e.0.user_key f.0.user_key,
      law.compare_congr e.0.user_key f.0.user_key key,
    )

    -- An entry that is skipped has the key that is skipped.
    skips-key :
        (key : Bytes) (e f : Stored)
        → user.compare key e.0.user_key ≢ Ordering.gt
        → skips (some key) e ≡ true
        → skips (some e.0.user_key) f ≡ skips (some key) f
    skips-key key e f h k = ground (
      arith,
      law.compare_swap key e.0.user_key,
      law.compare_swap e.0.user_key f.0.user_key,
      law.compare_swap key f.0.user_key,
      law.compare_congr e.0.user_key key f.0.user_key,
    )

    Agree-key :
        (key : Bytes) (seen l : List Stored) (e : Stored)
        → user.compare key e.0.user_key ≢ Ordering.gt
        → skips (some key) e ≡ true
        → Agree (some key) seen l
        → Agree (some e.0.user_key) seen l
    Agree-key key seen [] e h k agree = tt
    Agree-key key seen (f ∷ l) e h k agree =
        (skips-key key e f h k ∙ agree.0, Agree-key key seen l e h k agree.1)

    Agree-later :
        (skip : Option Bytes) (seen l : List Stored) (e : Stored)
        → skips skip e ≡ false
        → All (λ f. user.compare e.0.user_key f.0.user_key ≢ Ordering.gt) l
        → Agree skip seen l
        → Agree (some e.0.user_key) (e ∷ seen) l
    Agree-later skip seen [] e h below agree = tt
    Agree-later skip seen (f ∷ l) e h below agree =
        let fresh : decided seen f ≡ false = sym agree.0 ∙ skips-later skip e f h below.0 in
        (
          skips-same e f below.0 ∙ rw fresh (sym (||-false (same_key f e))),
          Agree-later skip seen l e h below.1 agree.1,
        )

    Agree-none : (l : List Stored) → Agree none [] l
    Agree-none [] = tt
    Agree-none (e ∷ l) = (refl, Agree-none l)

    -- The walk finds the view.
    walk-view :
        (skip : Option Bytes) (seen l : List Stored)
        → Ascending l
        → Above skip l
        → Agree skip seen l
        → walk skip l ≡ view seen l
    unfolding walk view
    walk-view skip seen [] sorted above agree = refl
    walk-view none seen (e ∷ l) sorted above agree =
        let unseen : decided seen e ≡ false = sym agree.0 in
        let hidden = walk-view none seen l sorted.1 tt agree.1 in
        let passed =
          walk-view (some e.0.user_key) (e ∷ seen) l sorted.1 sorted.0
            (Agree-later none seen l e refl sorted.0 agree.1) in
        rw (unseen, hidden, passed) refl
    walk-view (some key) seen (e ∷ l) sorted above agree =
        let hidden = walk-view (some key) seen l sorted.1 above.1 agree.1 in
        elim (Bool-cases (skips (some key) e)) [
          | inl skipped ↦
              let seen_before : decided seen e ≡ true = sym agree.0 ∙ skipped in
              let passed =
                walk-view (some e.0.user_key) seen l sorted.1 sorted.0
                  (Agree-key key seen l e above.0 skipped agree.1) in
              rw (skipped, seen_before, hidden, passed) (ground arith)
          | inr fresh ↦
              let unseen : decided seen e ≡ false = sym agree.0 ∙ fresh in
              let passed =
                walk-view (some e.0.user_key) (e ∷ seen) l sorted.1 sorted.0
                  (Agree-later (some key) seen l e fresh sorted.0 agree.1) in
              rw (fresh, unseen, hidden, passed) refl
        ]

  -- Over sorted entries the walk from the start is the view.
  pub walk-view_all : IsComparator user → (l : List Stored) → Ascending l → walk none l ≡ view [] l
  walk-view_all law l sorted = walk-view law none [] l sorted tt (Agree-none law l)
