-- ===== src/VersionEdit.antt =====
-- db/version_edit.h and db/version_edit.cc: the change from one version of the store's file list
-- to the next, as it is written to the manifest.
pub mod Codec
pub mod Pieces
pub mod Rounds
pub mod Fields
pub mod RoundTrip
pub mod Totality
mod Tests
use leveldb_mcpe_dotnet.Common.{
  ℕ, zero, suc, ◌+◌, ◌^◌, Bool, true, false, Option, none, some, List, [], ◌∷◌, ◌++◌, length, ltb,
  ◌==◌, ◌&&◌, ◌||◌, if◌then◌else◌,
}
use leveldb_mcpe_dotnet.Common.Bytes.{Bytes}
use leveldb_mcpe_dotnet.Coding.{
  put_varint32, put_varint64, put_length_prefixed_slice, get_varint32, get_varint64,
  get_length_prefixed_slice,
}
use leveldb_mcpe_dotnet.DbFormat.{num_levels}
use leveldb_mcpe_dotnet.Status.{Status}

-- An `InternalKey` is its encoding.
pub record FileMetaData : Type 0 where
  pub refs : ℕ
  pub allowed_seeks : ℕ
  pub number : ℕ
  pub file_size : ℕ
  pub smallest : Bytes
  pub largest : Bytes

-- `FileMetaData()`, which leaves the number as it is in memory: 0 stands for that.
abbrev pub new_file_meta_data : FileMetaData
new_file_meta_data = record {
  refs = 0;
  allowed_seeks = 2 ^ 30;
  number = 0;
  file_size = 0;
  smallest = [];
  largest = [];
}

-- The deleted files are a `std::set`: a list in increasing order, with no pair twice.
pub record VersionEdit : Type 0 where
  pub comparator : Bytes
  pub log_number : ℕ
  pub prev_log_number : ℕ
  pub next_file_number : ℕ
  pub last_sequence : ℕ
  pub has_comparator : Bool
  pub has_log_number : Bool
  pub has_prev_log_number : Bool
  pub has_next_file_number : Bool
  pub has_last_sequence : Bool
  pub compact_pointers : List (ℕ × Bytes)
  pub deleted_files : List (ℕ × ℕ)
  pub new_files : List (ℕ × FileMetaData)

-- `enum Tag`.
abbrev pub tag_comparator : ℕ
tag_comparator = 1

abbrev pub tag_log_number : ℕ
tag_log_number = 2

abbrev pub tag_next_file_number : ℕ
tag_next_file_number = 3

abbrev pub tag_last_sequence : ℕ
tag_last_sequence = 4

abbrev pub tag_compact_pointer : ℕ
tag_compact_pointer = 5

abbrev pub tag_deleted_file : ℕ
tag_deleted_file = 6

abbrev pub tag_new_file : ℕ
tag_new_file = 7

abbrev pub tag_prev_log_number : ℕ
tag_prev_log_number = 9

-- The compaction pointers are not cleared.
unfoldable pub clear : VersionEdit → VersionEdit
clear e = record e {
  comparator = [];
  log_number = 0;
  prev_log_number = 0;
  last_sequence = 0;
  next_file_number = 0;
  has_comparator = false;
  has_log_number = false;
  has_prev_log_number = false;
  has_next_file_number = false;
  has_last_sequence = false;
  deleted_files = [];
  new_files = [];
}

unfoldable pub set_comparator_name : VersionEdit → Bytes → VersionEdit
set_comparator_name e name = record e { has_comparator = true; comparator = name }

unfoldable pub set_log_number : VersionEdit → ℕ → VersionEdit
set_log_number e num = record e { has_log_number = true; log_number = num }

unfoldable pub set_prev_log_number : VersionEdit → ℕ → VersionEdit
set_prev_log_number e num = record e { has_prev_log_number = true; prev_log_number = num }

unfoldable pub set_next_file : VersionEdit → ℕ → VersionEdit
set_next_file e num = record e { has_next_file_number = true; next_file_number = num }

unfoldable pub set_last_sequence : VersionEdit → ℕ → VersionEdit
set_last_sequence e seq = record e { has_last_sequence = true; last_sequence = seq }

unfoldable pub set_compact_pointer : VersionEdit → ℕ → Bytes → VersionEdit
set_compact_pointer e level key = record e {
  compact_pointers = e.compact_pointers ++ ((level, key) ∷ []);
}

unfoldable pub add_file : VersionEdit → ℕ → ℕ → ℕ → Bytes → Bytes → VersionEdit
add_file e level file file_size smallest largest =
    let f = record new_file_meta_data {
      number = file;
      file_size = file_size;
      smallest = smallest;
      largest = largest;
    } in
    record e { new_files = e.new_files ++ ((level, f) ∷ []) }

-- The order of `std::pair`.
abbrev pub pair_lt : ℕ × ℕ → ℕ × ℕ → Bool
pair_lt (a, b) (c, d) = ltb a c || (a == c && ltb b d)

-- `std::set::insert`.
unfoldable pub set_insert : ℕ × ℕ → List (ℕ × ℕ) → List (ℕ × ℕ)
set_insert p [] = p ∷ []
set_insert p (q ∷ s) =
    if pair_lt p q then p ∷ (q ∷ s) else if pair_lt q p then q ∷ set_insert p s else q ∷ s

unfoldable pub delete_file : VersionEdit → ℕ → ℕ → VersionEdit
delete_file e level file = record e { deleted_files = set_insert (level, file) e.deleted_files }
