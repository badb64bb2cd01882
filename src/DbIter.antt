-- ===== src/DbIter.antt =====
-- db/db_iter.cc: the iterator that shows the database at one sequence number, over an iterator of
-- internal keys. `skip` of `FindNextUserEntry` is `saved_key_` at every call. The sampling of reads
-- (`bytes_counter_`, `rnd_`, `RecordReadSample`) is left out: it only feeds the statistics of the
-- database.
pub mod View
pub mod Scan
pub mod Loop
pub mod Forward
mod Tests
use leveldb_mcpe_dotnet.Common.{
  ℕ, zero, suc, Bool, true, false, not, Option, none, some, List, [], ◌∷◌, leb, ◌==◌, ◌&&◌,
  if◌then◌else◌,
}
use leveldb_mcpe_dotnet.Common.Bytes.{Bytes}
use leveldb_mcpe_dotnet.Comparator.{Comparator, is_lt, is_gt}
use leveldb_mcpe_dotnet.DbFormat.{
  ParsedInternalKey, append_internal_key, extract_user_key, parse_internal_key, type_deletion,
  value_type_for_seek,
}
use leveldb_mcpe_dotnet.Iterator.{Iterator}
use leveldb_mcpe_dotnet.Status.{Status, is_ok}
use Prim.Native.Nat.{Ordering}

pub data Direction : Type 0 where
  forward reverse : Direction

pub record DbIter {ℓ} (S : Type ℓ) : Type ℓ where
  pub iter : S
  pub status : Status
  pub saved_key : Bytes
  pub saved_value : Bytes
  pub direction : Direction
  pub valid : Bool

unfoldable pub new_db_iterator {ℓ} : {S : Type ℓ} → S → DbIter S
new_db_iterator iter = record {
  iter = iter;
  status = Status.ok;
  saved_key = [];
  saved_value = [];
  direction = forward;
  valid = false;
}

module _ {ℓ} {S : Type ℓ} (it : Iterator S) (user : Comparator) (sequence : ℕ) where
  unfoldable pub key : DbIter S → Bytes
  key d = elim d.direction [ forward ↦ extract_user_key (it.key d.iter) | reverse ↦ d.saved_key ]

  unfoldable pub value : DbIter S → Bytes
  value d = elim d.direction [ forward ↦ it.value d.iter | reverse ↦ d.saved_value ]

  unfoldable pub status_of : DbIter S → Status
  status_of d = if is_ok d.status then it.status d.iter else d.status

  unfoldable pub parse_key : DbIter S → DbIter S × Option ParsedInternalKey
  parse_key d = elim (parse_internal_key (it.key d.iter)) [
    | none ↦ (record d { status = Status.corruption "corrupted internal key in DBIter" }, none)
    | some ikey ↦ (d, some ikey)
  ]

  -- The body of the loop of `FindNextUserEntry` up to the `Next`: with `none` it returns, with
  -- `some skipping` it goes on.
  unfoldable pub visit_key : DbIter S × Option ParsedInternalKey → Bool → DbIter S × Option Bool
  visit_key (d, none) skipping = (d, some skipping)
  visit_key (d, some ikey) skipping =
      if leb ikey.sequence sequence
      then if ikey.type == type_deletion
        then (record d { saved_key = ikey.user_key }, some true)
        else if skipping && not (is_gt (user.compare ikey.user_key d.saved_key))
        then (d, some skipping)
        else (record d { valid = true; saved_key = [] }, none)
      else (d, some skipping)

  unfoldable pub visit_next : DbIter S → Bool → DbIter S × Option Bool
  visit_next d skipping = visit_key (parse_key d) skipping

  -- The loop, on fuel for the entries that are left.
  unfoldable pub find_next_user_entry : ℕ → DbIter S → Bool → Option (DbIter S)
  find_next_user_entry zero d skipping = none
  find_next_user_entry (suc fuel) d skipping =
      let d1 = (visit_next d skipping).0 in
      let d2 = record d1 { iter = it.next d1.iter } in
      elim (visit_next d skipping).1 [
        | none ↦ some d1
        | some skipping' ↦ elim (it.valid d2.iter) [
          | true ↦ find_next_user_entry fuel d2 skipping'
          | false ↦ some (record d2 { saved_key = []; valid = false })
        ]
      ]

  unfoldable pub next : ℕ → DbIter S → Option (DbIter S)
  next fuel d = elim d.direction [
    | reverse ↦
        let moved = if it.valid d.iter then it.next d.iter else it.seek_to_first d.iter in
        let turned = record d { direction = forward; iter = moved } in
        if it.valid moved
        then find_next_user_entry fuel turned true
        else some (record turned { valid = false; saved_key = [] })
    | forward ↦
        find_next_user_entry fuel (record d { saved_key = extract_user_key (it.key d.iter) }) true
  ]

  -- The body of the loop of `FindPrevUserEntry` up to the `Prev`, with `value_type`: `none` where it
  -- breaks.
  unfoldable pub visit_prev : DbIter S → ℕ → DbIter S × Option ℕ
  unfolding parse_key
  visit_prev d value_type =
      let d1 = (parse_key d).0 in
      elim (parse_key d).1 [
        | none ↦ (d1, some value_type)
        | some ikey ↦
            if leb ikey.sequence sequence
            then if not (value_type == type_deletion)
                && is_lt (user.compare ikey.user_key d1.saved_key)
              then (d1, none)
              else if ikey.type == type_deletion
              then (record d1 { saved_key = []; saved_value = [] }, some ikey.type)
              else (
                record d1 {
                  saved_key = extract_user_key (it.key d1.iter);
                  saved_value = it.value d1.iter;
                },
                some ikey.type,
              )
            else (d1, some value_type)
      ]

  unfoldable pub find_prev_loop : ℕ → DbIter S → ℕ → Option (DbIter S × ℕ)
  find_prev_loop zero d value_type = none
  find_prev_loop (suc fuel) d value_type =
      let d1 = (visit_prev d value_type).0 in
      let d2 = record d1 { iter = it.prev d1.iter } in
      elim (visit_prev d value_type).1 [
        | none ↦ some (d1, value_type)
        | some value_type' ↦ elim (it.valid d2.iter) [
          | true ↦ find_prev_loop fuel d2 value_type'
          | false ↦ some (d2, value_type')
        ]
      ]

  unfoldable pub settle_prev : DbIter S → ℕ → DbIter S
  settle_prev d value_type =
      if value_type == type_deletion
      then record d { valid = false; saved_key = []; saved_value = []; direction = forward }
      else record d { valid = true }

  unfoldable pub find_prev_user_entry : ℕ → DbIter S → Option (DbIter S)
  find_prev_user_entry fuel d = elim (it.valid d.iter) [
    | false ↦ some (settle_prev d type_deletion)
    | true ↦ elim (find_prev_loop fuel d type_deletion) [
      | none ↦ none
      | some (d', value_type) ↦ some (settle_prev d' value_type)
    ]
  ]

  -- The scan backwards until the key changes; `none` in the pair where the entries end.
  unfoldable pub before_key : ℕ → DbIter S → Option (DbIter S × Bool)
  before_key zero d = none
  before_key (suc fuel) d =
      let moved = record d { iter = it.prev d.iter } in
      elim (it.valid moved.iter) [
        | false ↦ some (record moved { valid = false; saved_key = []; saved_value = [] }, false)
        | true ↦
            elim (is_lt (user.compare (extract_user_key (it.key moved.iter)) moved.saved_key)) [
              | true ↦ some (moved, true)
              | false ↦ before_key fuel moved
            ]
      ]

  unfoldable pub prev : ℕ → DbIter S → Option (DbIter S)
  prev fuel d = elim d.direction [
    | reverse ↦ find_prev_user_entry fuel d
    | forward ↦ elim (before_key fuel (record d { saved_key = extract_user_key (it.key d.iter) })) [
      | none ↦ none
      | some (d', false) ↦ some d'
      | some (d', true) ↦ find_prev_user_entry fuel (record d' { direction = reverse })
    ]
  ]

  unfoldable pub seek : ℕ → DbIter S → Bytes → Option (DbIter S)
  seek fuel d target =
      let wanted =
        append_internal_key []
          (record { user_key = target; sequence = sequence; type = value_type_for_seek }) in
      let moved = record d {
        direction = forward;
        saved_value = [];
        saved_key = wanted;
        iter = it.seek d.iter wanted;
      } in
      if it.valid moved.iter
      then find_next_user_entry fuel moved false
      else some (record moved { valid = false })

  unfoldable pub seek_to_first : ℕ → DbIter S → Option (DbIter S)
  seek_to_first fuel d =
      let moved = record d {
        direction = forward;
        saved_value = [];
        iter = it.seek_to_first d.iter;
      } in
      if it.valid moved.iter
      then find_next_user_entry fuel moved false
      else some (record moved { valid = false })

  unfoldable pub seek_to_last : ℕ → DbIter S → Option (DbIter S)
  seek_to_last fuel d =
      find_prev_user_entry fuel
        (record d { direction = reverse; saved_value = []; iter = it.seek_to_last d.iter })
