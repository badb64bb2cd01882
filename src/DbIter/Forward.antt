-- ===== src/DbIter/Forward.antt =====
-- A pass forward over the iterator gives what the database holds at the sequence number.
use leveldb_mcpe_dotnet.Common.{
  ℕ, zero, suc, ◌≤◌, Bool, true, false, Option, none, some, List, [], ◌∷◌, All, length, leb, ◌==◌,
  ◌≡◌, refl, sym, ap, ◌∙◌, arith, Bool-cases, inl, inr,
}
use leveldb_mcpe_dotnet.Common.Bytes.{Bytes}
use mathlib.Core.List.{map}
use mathlib.Core.Path.{subst}
use leveldb_mcpe_dotnet.Comparator.{Comparator, IsComparator}
use leveldb_mcpe_dotnet.DbFormat.{extract_user_key, type_deletion}
use leveldb_mcpe_dotnet.Iterator.{Iterator, Entry, Cursor, at_entry, onward, IsIterator}
use leveldb_mcpe_dotnet.DbIter.{DbIter, forward, key, value, visit_key, next, seek_to_first}
use leveldb_mcpe_dotnet.DbIter.View.{Stored, view, walk, skips, Ascending, walk-view_all}
use Prim.Native.Nat.{Ordering}
use leveldb_mcpe_dotnet.DbIter.Scan.{
  raw, shown, IsStored, extract-raw, skip_of, scan, skips-of, walk_of, walk-scan, Found, scan-Found,
  scan-own,
}
use leveldb_mcpe_dotnet.DbIter.Loop.{
  visit-raw, continue_, continue-valid, continue-ended, resume, find-resume, next-forward,
  key-forward, value-forward,
}

module _ (user : Comparator) (sequence : ℕ) where
  -- The keys and values of the entries that `Next` gives up to where the iterator is not valid, at
  -- most `limit` of them.
  unfoldable pub forward_pass {ℓ} :
      {S : Type ℓ} → Iterator S → ℕ → ℕ → DbIter S → Option (List Entry)
  forward_pass it fuel zero d = none
  forward_pass it fuel (suc limit) d = elim d.valid [
    | false ↦ some []
    | true ↦ elim (next it user sequence fuel d) [
      | none ↦ none
      | some d' ↦ elim (forward_pass it fuel limit d') [
        | none ↦ none
        | some rest ↦ some ((key it user sequence d, value it user sequence d) ∷ rest)
      ]
    ]
  ]

module _ {ℓ} {S : Type ℓ} (it : Iterator S) (user : Comparator) (sequence : ℕ)
    {entries : List Entry} {place : S → Cursor} {compare : Bytes → Bytes → Ordering}
    (law : IsIterator it compare entries place) where
  -- The iterator stands at the entry that a scan finds, or is not valid where it finds none.
  abbrev Reached : DbIter S → Option (Stored × List Stored) → Type 0
  Reached d none = Path Bool d.valid false
  Reached d (some (e, rest)) =
      (before : List Entry) × (place d.iter ≡ at_entry before (raw e) (map raw rest))
      × (d.valid ≡ true)
      × (d.direction ≡ forward)

  continue-Reached :
      (l : List Stored) (fuel : ℕ) (before : List Entry) (d : DbIter S) (skipping : Bool)
      → place d.iter ≡ onward before (map raw l)
      → All IsStored l
      → length l ≤ fuel
      → d.direction ≡ forward
      → (d' : DbIter S) × (continue_ it user sequence fuel d skipping ≡ some d')
        × Reached d' (scan user sequence (skip_of skipping d.saved_key) l)
  unfolding visit_key
  continue-Reached [] fuel before d skipping at_l stored hf dir =
      let ended : it.valid d.iter ≡ false = law.valid_at d.iter ∙ rw at_l refl in
      (
        record d { saved_key = []; valid = false },
        continue-ended it user sequence fuel d skipping ended,
        refl,
      )
  continue-Reached (e ∷ l) zero before d skipping at_l stored hf dir = absurd (omega arith)
  continue-Reached (e ∷ l) (suc fuel) before d skipping at_l stored hf dir =
      let here : it.valid d.iter ≡ true = law.valid_at d.iter ∙ rw at_l refl in
      let at_key = law.key_at d.iter before (raw e) (map raw l) at_l in
      let next_l = law.next_at d.iter before (raw e) (map raw l) at_l in
      let ran =
        find-resume it user sequence fuel d skipping
        ∙ ap (resume it user sequence fuel)
            (visit-raw it user sequence d e skipping at_key stored.0) in
      let run = continue-valid it user sequence (suc fuel) d skipping here ∙ ran in
      let onwards = λ (saved : Bytes) (sk : Bool).
        continue-Reached l fuel (raw e ∷ before)
          (record d { iter = it.next d.iter; saved_key = saved }) sk next_l stored.1 (omega arith)
          dir in
      elim (Bool-cases (leb e.0.sequence sequence)) [
        | inr unseen ↦
            let rest = onwards d.saved_key skipping in
            (rest.0, run ∙ rw (visit_key, unseen) rest.1, rw unseen rest.2)
        | inl seen ↦ elim (Bool-cases (e.0.type == type_deletion)) [
          | inl deleted ↦
              let rest = onwards e.0.user_key true in
              (rest.0, run ∙ rw (visit_key, seen, deleted) rest.1, rw (seen, deleted) rest.2)
          | inr kept ↦ elim (Bool-cases (skips user sequence (skip_of skipping d.saved_key) e)) [
            | inl skipped ↦
                let rest = onwards d.saved_key skipping in
                let passed = sym (skips-of user sequence skipping d.saved_key e) ∙ skipped in
                (
                  rest.0,
                  run ∙ rw (visit_key, seen, kept, passed) rest.1,
                  rw (seen, kept, skipped) rest.2,
                )
            | inr fresh ↦
                let passed = sym (skips-of user sequence skipping d.saved_key e) ∙ fresh in
                (
                  record d { valid = true; saved_key = [] },
                  run ∙ rw (visit_key, seen, kept, passed) refl,
                  rw (seen, kept, fresh) (before, at_l, refl, dir),
                )
          ]
        ]
      ]

  module _ (order : IsComparator user) where
    next-scan :
        (l : List Stored) (fuel : ℕ) (before : List Entry) (d : DbIter S) (e : Stored)
        → place d.iter ≡ at_entry before (raw e) (map raw l)
        → d.direction ≡ forward
        → Found user sequence fuel (some (e, l))
        → (d' : DbIter S) × (next it user sequence fuel d ≡ some d')
          × Reached d' (scan user sequence (some e.0.user_key) l)
    next-scan l fuel before d e at_e dir found =
        let here : it.valid d.iter ≡ true = law.valid_at d.iter ∙ rw at_e refl in
        let kept = record d { saved_key = extract_user_key (it.key d.iter) } in
        let own : kept.saved_key ≡ e.0.user_key =
          ap extract_user_key (law.key_at d.iter before (raw e) (map raw l) at_e) ∙ extract-raw e in
        let reached =
          continue-Reached (e ∷ l) fuel before kept true at_e (found.2, found.3) found.4 dir in
        let passed : scan user sequence (some kept.saved_key) (e ∷ l)
            ≡ scan user sequence (some e.0.user_key) l =
          rw own (scan-own user sequence fuel e l order found) in
        (
          reached.0,
          next-forward it user sequence fuel d dir
              ∙ (sym (continue-valid it user sequence fuel kept true here) ∙ reached.1),
          subst (Reached reached.0) passed reached.2,
        )

    -- From where the first entry stands, the pass shows the walk.
    forward_pass-walk :
        (limit fuel : ℕ) (d : DbIter S) (found : Option (Stored × List Stored))
        → Reached d found
        → Found user sequence fuel found
        → Found user sequence limit found
        → forward_pass user sequence it fuel (suc limit) d
          ≡ some (map shown (walk_of user sequence found))
    unfolding forward_pass
    forward_pass-walk limit fuel d none reached enough short = rw reached refl
    forward_pass-walk zero fuel d (some (e, l)) reached enough short =
        absurd (omega (arith, short.4))
    forward_pass-walk (suc limit) fuel d (some (e, l)) (before, at_e, valid, dir) enough short =
        let stepped = next-scan l fuel before d e at_e dir enough in
        let rest =
          forward_pass-walk limit fuel stepped.0 (scan user sequence (some e.0.user_key) l)
            stepped.2
            (scan-Found user sequence fuel (some e.0.user_key) l enough.3 (omega (arith, enough.4)))
            (scan-Found user sequence limit (some e.0.user_key) l enough.3
              (omega (arith, short.4))) in
        let own =
          key-forward it user sequence d dir
          ∙ (ap extract_user_key (law.key_at d.iter before (raw e) (map raw l) at_e)
              ∙ extract-raw e) in
        let held =
          value-forward it user sequence d dir
          ∙ law.value_at d.iter before (raw e) (map raw l) at_e in
        let later : forward_pass user sequence it fuel (suc limit) stepped.0
            ≡ some (map shown (walk user sequence (some e.0.user_key) l)) =
          rw (walk-scan user sequence (some e.0.user_key) l) rest in
        rw (forward_pass, valid, stepped.1, later, own, held) refl

-- Over an internal iterator that keeps its contract on well-formed entries, sorted by user key,
-- and a user comparator that keeps its contract, with fuel for the entries, SeekToFirst ends, and
-- Next from there until the iterator is not valid gives exactly the view of the entries at the
-- sequence number: the keys and values of the entries not above it, that have none of their user
-- key and not above it in front, and that are not deletions.
pub seek_to_first-forward_pass {ℓ} :
    {S : Type ℓ} (it : Iterator S) (user : Comparator) (sequence : ℕ) (place : S → Cursor)
    (compare : Bytes → Bytes → Ordering) (l : List Stored) (fuel : ℕ) (d : DbIter S)
    → IsIterator it compare (map raw l) place
    → IsComparator user
    → All IsStored l
    → Ascending user sequence l
    → length l ≤ fuel
    → (first : DbIter S) × (seek_to_first it user sequence fuel d ≡ some first)
      × (forward_pass user sequence it fuel (suc fuel) first
          ≡ some (map shown (view user sequence [] l)))
unfolding seek_to_first forward_pass view
seek_to_first-forward_pass it user sequence place compare [] fuel d law order stored sorted hf =
    let empty : it.valid (it.seek_to_first d.iter) ≡ false =
      law.valid_at (it.seek_to_first d.iter) ∙ rw (law.first_at d.iter) refl in
    (
      record d {
        direction = forward;
        saved_value = [];
        iter = it.seek_to_first d.iter;
        valid = false;
      },
      rw (seek_to_first, empty) refl,
      refl,
    )
seek_to_first-forward_pass it user sequence place compare (e ∷ l) fuel d law order stored sorted
      hf =
    let moved_ = record d {
      direction = forward;
      saved_value = [];
      iter = it.seek_to_first d.iter;
    } in
    let first = law.first_at d.iter in
    let filled : it.valid moved_.iter ≡ true = law.valid_at moved_.iter ∙ rw first refl in
    let reached =
      continue-Reached it user sequence law (e ∷ l) fuel [] moved_ false first stored hf refl in
    let found = scan-Found user sequence fuel none (e ∷ l) stored hf in
    let shows =
      forward_pass-walk it user sequence law order fuel fuel reached.0
        (scan user sequence none (e ∷ l)) reached.2 found found in
    (
      reached.0,
      rw (seek_to_first, filled)
          (sym (continue-valid it user sequence fuel moved_ false filled) ∙ reached.1),
      rw (← walk-view_all user sequence order (e ∷ l) sorted, walk-scan user sequence none (e ∷ l))
          shows,
    )
