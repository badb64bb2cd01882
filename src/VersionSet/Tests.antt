-- ===== src/VersionSet/Tests.antt =====
-- Three files of a level, and two that overlap each other.
use leveldb_mcpe_dotnet.Common.{ℕ, true, false, Option, some, List, [], ◌∷◌, All, ◌≡◌, arith}
use leveldb_mcpe_dotnet.Common.Bytes.{Bytes}
use leveldb_mcpe_dotnet.Coding.{put_fixed64, encode_fixed64, decode_fixed64, decode_fixed32}
use leveldb_mcpe_dotnet.Comparator.{bytewise}
use leveldb_mcpe_dotnet.Comparator.Bytewise.{bytewise-IsComparator}
use leveldb_mcpe_dotnet.Slice
use leveldb_mcpe_dotnet.DbFormat.{
  compare, append_internal_key, extract_user_key, extract_tag, pack_sequence_and_type,
}
use leveldb_mcpe_dotnet.VersionEdit.{FileMetaData}
use leveldb_mcpe_dotnet.VersionSet.{find_file, some_file_overlaps_range, get_overlapping_inputs}
use leveldb_mcpe_dotnet.VersionSet.Search.{Sorted, first_at_or_past, find_file-first_at_or_past}
use leveldb_mcpe_dotnet.VersionSet.Overlap.{Disjoint, some_file_overlaps_range-Disjoint}
use leveldb_mcpe_dotnet.VersionSet.Inputs.{overlapping}
use leveldb_mcpe_dotnet.VersionSet.Gathered.{
  Inside, get_overlapping_inputs-deeper, get_overlapping_inputs-zero,
}

abbrev internal : ℕ → Bytes
internal user_key =
    append_internal_key [] (record { user_key = user_key ∷ []; sequence = 7; type = 1 })

abbrev file : ℕ → ℕ → ℕ → FileMetaData
file number smallest largest = record {
  refs = 1;
  allowed_seeks = 100;
  number = number;
  file_size = 1000;
  smallest = internal smallest;
  largest = internal largest;
}

abbrev level : List FileMetaData
level = file 1 10 20 ∷ file 2 30 40 ∷ file 3 50 60 ∷ []

abbrev level_zero : List FileMetaData
level_zero = file 4 10 30 ∷ file 5 25 50 ∷ file 6 70 80 ∷ []

level-Sorted : Sorted bytewise level
unfolding compare append_internal_key extract_user_key extract_tag bytewise Slice.compare
    Slice.memcmp put_fixed64 encode_fixed64 pack_sequence_and_type decode_fixed64 decode_fixed32
level-Sorted = ground arith

find_file-first_at_or_past_example :
    find_file bytewise level (internal 35) ≡ first_at_or_past bytewise (internal 35) level
find_file-first_at_or_past_example =
    find_file-first_at_or_past bytewise level (internal 35) bytewise-IsComparator.0 level-Sorted
      (omega arith)

level-Disjoint : Disjoint bytewise level
unfolding compare append_internal_key extract_user_key extract_tag bytewise Slice.compare
    Slice.memcmp put_fixed64 encode_fixed64 pack_sequence_and_type decode_fixed64 decode_fixed32
level-Disjoint = ground arith

some_file_overlaps_range-Disjoint_example :
    some_file_overlaps_range bytewise true level (some (21 ∷ [])) (some (29 ∷ []))
    ≡ some_file_overlaps_range bytewise false level (some (21 ∷ [])) (some (29 ∷ []))
some_file_overlaps_range-Disjoint_example =
    some_file_overlaps_range-Disjoint bytewise level (some (21 ∷ [])) (some (29 ∷ []))
      bytewise-IsComparator.0 level-Disjoint (omega arith)

get_overlapping_inputs-deeper_example :
    get_overlapping_inputs bytewise 28 1 level (some (15 ∷ [])) (some (35 ∷ []))
    ≡ some (overlapping bytewise (some (15 ∷ [])) (some (35 ∷ [])) level)
get_overlapping_inputs-deeper_example =
    get_overlapping_inputs-deeper bytewise 1 level (some (15 ∷ [])) (some (35 ∷ []))
      bytewise-IsComparator.0 (omega arith)

get_overlapping_inputs-zero_example :
    (inputs : List FileMetaData) × (user_begin : Option Bytes) × (user_end : Option Bytes)
    × (get_overlapping_inputs bytewise 28 0 level_zero (some (15 ∷ [])) (some (20 ∷ []))
        ≡ some inputs)
    × (inputs ≡ overlapping bytewise user_begin user_end level_zero)
    × All (Inside bytewise user_begin user_end) inputs
    × (overlapping bytewise (some (15 ∷ [])) (some (20 ∷ [])) inputs
        ≡ overlapping bytewise (some (15 ∷ [])) (some (20 ∷ [])) level_zero)
get_overlapping_inputs-zero_example =
    get_overlapping_inputs-zero bytewise level_zero (some (15 ∷ [])) (some (20 ∷ []))
      bytewise-IsComparator.0
