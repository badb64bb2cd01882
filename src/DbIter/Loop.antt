-- ===== src/DbIter/Loop.antt =====
-- The rounds of the loop of FindNextUserEntry, and the methods while the direction is forward.
use leveldb_mcpe_dotnet.Common.{ℕ, suc, Bool, true, false, Option, none, some, [], ◌≡◌, refl, ap}
use leveldb_mcpe_dotnet.Comparator.{Comparator}
use leveldb_mcpe_dotnet.DbFormat.{extract_user_key}
use leveldb_mcpe_dotnet.Iterator.{Iterator}
use leveldb_mcpe_dotnet.DbIter.{
  DbIter, Direction, forward, reverse, key, value, parse_key, visit_key, visit_next,
  find_next_user_entry, next,
}
use leveldb_mcpe_dotnet.DbIter.View.{Stored}
use leveldb_mcpe_dotnet.DbIter.Scan.{raw, IsStored, parse-raw}

module _ {ℓ} {S : Type ℓ} (it : Iterator S) (user : Comparator) (sequence : ℕ) where
  parse_key-raw :
      (d : DbIter S) (e : Stored)
      → it.key d.iter ≡ (raw e).0
      → IsStored e
      → parse_key it user sequence d ≡ (d, some e.0)
  unfolding parse_key
  parse_key-raw d e at_key stored = rw (parse_key, at_key, parse-raw e stored) refl

  pub visit-raw :
      (d : DbIter S) (e : Stored) (skipping : Bool)
      → it.key d.iter ≡ (raw e).0
      → IsStored e
      → visit_next it user sequence d skipping ≡ visit_key it user sequence (d, some e.0) skipping
  unfolding visit_next
  visit-raw d e skipping at_key stored =
      ap (λ p. visit_key it user sequence p skipping) (parse_key-raw d e at_key stored)

  -- The rest of the loop, behind a visit and the `Next`.
  abbrev pub continue_ : ℕ → DbIter S → Bool → Option (DbIter S)
  continue_ fuel d skipping = elim (it.valid d.iter) [
    | true ↦ find_next_user_entry it user sequence fuel d skipping
    | false ↦ some (record d { saved_key = []; valid = false })
  ]

  pub continue-valid :
      (fuel : ℕ) (d : DbIter S) (skipping : Bool)
      → it.valid d.iter ≡ true
      → continue_ fuel d skipping ≡ find_next_user_entry it user sequence fuel d skipping
  continue-valid fuel d skipping h = rw (continue_, h) refl

  pub continue-ended :
      (fuel : ℕ) (d : DbIter S) (skipping : Bool)
      → it.valid d.iter ≡ false
      → continue_ fuel d skipping ≡ some (record d { saved_key = []; valid = false })
  continue-ended fuel d skipping h = rw (continue_, h) refl

  abbrev pub moved : DbIter S → DbIter S
  moved d = record d { iter = it.next d.iter }

  abbrev pub resume : ℕ → DbIter S × Option Bool → Option (DbIter S)
  resume fuel (d, none) = some d
  resume fuel (d, some skipping) = continue_ fuel (moved d) skipping

  resume_lem :
      (fuel : ℕ) (v : DbIter S × Option Bool)
      → (elim v.1 [
        | none ↦ some v.0
        | some skipping ↦ elim (it.valid (it.next v.0.iter)) [
          | true ↦ find_next_user_entry it user sequence fuel (moved v.0) skipping
          | false ↦ some (record (moved v.0) { saved_key = []; valid = false })
        ]
      ])
        ≡ resume fuel v
  resume_lem fuel (d, none) = refl
  resume_lem fuel (d, some skipping) = refl

  pub find-resume :
      (fuel : ℕ) (d : DbIter S) (skipping : Bool)
      → find_next_user_entry it user sequence (suc fuel) d skipping
        ≡ resume fuel (visit_next it user sequence d skipping)
  unfolding find_next_user_entry
  find-resume fuel d skipping = resume_lem fuel (visit_next it user sequence d skipping)

  pub next-forward :
      (fuel : ℕ) (d : DbIter S)
      → d.direction ≡ forward
      → next it user sequence fuel d
        ≡ find_next_user_entry it user sequence fuel
            (record d { saved_key = extract_user_key (it.key d.iter) })
            true
  unfolding next
  next-forward fuel d dir =
      ap
        (λ (way : Direction). elim way [
          | reverse ↦ next it user sequence fuel (record d { direction = reverse })
          | forward ↦
              find_next_user_entry it user sequence fuel
                (record d { saved_key = extract_user_key (it.key d.iter) }) true
        ])
        dir

  pub key-forward :
      (d : DbIter S)
      → d.direction ≡ forward
      → key it user sequence d ≡ extract_user_key (it.key d.iter)
  unfolding key
  key-forward d dir = rw (key, dir) refl

  pub value-forward :
      (d : DbIter S) → d.direction ≡ forward → value it user sequence d ≡ it.value d.iter
  unfolding value
  value-forward d dir = rw (value, dir) refl
