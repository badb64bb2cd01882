-- ===== src/VersionSet.antt =====
-- db/version_set.cc: the searches over the files of a level. A range of user keys has no bound where
-- the source's pointer is NULL.
pub mod Search
pub mod Overlap
pub mod Inputs
pub mod Gathered
mod Tests
use leveldb_mcpe_dotnet.Common.{
  ℕ, zero, suc, ◌+◌, ◌-◌, ◌/◌, ◌%◌, ◌^◌, Bool, true, false, not, Option, none, some, List, [], ◌∷◌,
  ◌++◌, length, get_or, ltb, leb, ◌==◌, ◌&&◌, ◌||◌, if◌then◌else◌,
}
use leveldb_mcpe_dotnet.Common.Bytes.{Bytes}
use leveldb_mcpe_dotnet.Comparator.{Comparator, is_lt, is_gt}
use leveldb_mcpe_dotnet.DbFormat.{
  compare, extract_user_key, append_internal_key, max_sequence_number, value_type_for_seek,
}
use leveldb_mcpe_dotnet.VersionEdit.{FileMetaData, new_file_meta_data}

-- The variables of `GetOverlappingInputs`.
pub record Gather : Type 0 where
  pub rest : List FileMetaData
  pub user_begin : Option Bytes
  pub user_end : Option Bytes
  pub inputs : List FileMetaData

module _ (user : Comparator) where
  -- The binary search, on fuel for the width of the interval. `files[mid]` is inside the list.
  unfoldable pub find_loop : ℕ → List FileMetaData → Bytes → ℕ → ℕ → ℕ
  find_loop zero files key left right = right
  find_loop (suc fuel) files key left right =
      let mid = (left + right) % 2 ^ 32 / 2 in
      let f = get_or files mid new_file_meta_data in
      let above = find_loop fuel files key ((mid + 1) % 2 ^ 32) right in
      let below = find_loop fuel files key left mid in
      if ltb left right then if is_lt (compare user f.largest key) then above else below else right

  unfoldable pub find_file : List FileMetaData → Bytes → ℕ
  find_file files key = find_loop (length files) files key 0 (length files % 2 ^ 32)

  unfoldable pub after_file : Option Bytes → FileMetaData → Bool
  after_file none f = false
  after_file (some user_key) f = is_gt (user.compare user_key (extract_user_key f.largest))

  unfoldable pub before_file : Option Bytes → FileMetaData → Bool
  before_file none f = false
  before_file (some user_key) f = is_lt (user.compare user_key (extract_user_key f.smallest))

  -- The loop over all the files.
  unfoldable pub some_file_overlaps : List FileMetaData → Option Bytes → Option Bytes → Bool
  some_file_overlaps [] smallest_user_key largest_user_key = false
  some_file_overlaps (f ∷ files) smallest_user_key largest_user_key =
      let rest = some_file_overlaps files smallest_user_key largest_user_key in
      if after_file smallest_user_key f || before_file largest_user_key f then rest else true

  -- The index of the first file that may hold the smallest key.
  unfoldable pub first_index : List FileMetaData → Option Bytes → ℕ
  first_index files none = 0
  first_index files (some user_key) = find_file files (
      append_internal_key [] (record {
        user_key = user_key;
        sequence = max_sequence_number;
        type = value_type_for_seek;
      }))

  unfoldable pub some_file_overlaps_range :
      Bool → List FileMetaData → Option Bytes → Option Bytes → Bool
  some_file_overlaps_range disjoint_sorted_files files smallest_user_key largest_user_key =
      let index = first_index files smallest_user_key in
      if not disjoint_sorted_files
      then some_file_overlaps files smallest_user_key largest_user_key
      else if leb (length files) index
      then false
      else not (before_file largest_user_key (get_or files index new_file_meta_data))

  -- The tests of `GetOverlappingInputs` on a file: it stands in front of the range or behind it, or
  -- reaches out of it.
  unfoldable pub before_range : Option Bytes → FileMetaData → Bool
  before_range none f = false
  before_range (some user_begin) f = is_lt (user.compare (extract_user_key f.largest) user_begin)

  unfoldable pub after_range : Option Bytes → FileMetaData → Bool
  after_range none f = false
  after_range (some user_end) f = is_gt (user.compare (extract_user_key f.smallest) user_end)

  unfoldable pub begins_before : Option Bytes → FileMetaData → Bool
  begins_before none f = false
  begins_before (some user_begin) f = is_lt (user.compare (extract_user_key f.smallest) user_begin)

  unfoldable pub ends_after : Option Bytes → FileMetaData → Bool
  ends_after none f = false
  ends_after (some user_end) f = is_gt (user.compare (extract_user_key f.largest) user_end)

  -- One round of the loop: `rest` are the files from index `i` on.
  unfoldable pub gather_step : Bool → List FileMetaData → Gather → Gather
  gather_step level_zero files g = elim g.rest [
    | [] ↦ g
    | f ∷ rest ↦
        if before_range g.user_begin f || after_range g.user_end f
        then record g { rest = rest }
        else if level_zero && begins_before g.user_begin f
        then record g { rest = files; user_begin = some (extract_user_key f.smallest); inputs = [] }
        else if level_zero && ends_after g.user_end f
        then record g { rest = files; user_end = some (extract_user_key f.largest); inputs = [] }
        else record g { rest = rest; inputs = g.inputs ++ (f ∷ []) }
  ]

  unfoldable pub gather : ℕ → Bool → List FileMetaData → Gather → Option (List FileMetaData)
  gather zero level_zero files g = none
  gather (suc fuel) level_zero files g = elim g.rest [
    | [] ↦ some g.inputs
    | _ ∷ _ ↦ gather fuel level_zero files (gather_step level_zero files g)
  ]

  -- `files` are those of the level, and the bounds are the user keys of `begin` and `end`.
  unfoldable pub get_overlapping_inputs :
      ℕ → ℕ → List FileMetaData → Option Bytes → Option Bytes → Option (List FileMetaData)
  get_overlapping_inputs fuel level files user_begin user_end =
      gather fuel (level == 0) files
        (record { rest = files; user_begin = user_begin; user_end = user_end; inputs = [] })
