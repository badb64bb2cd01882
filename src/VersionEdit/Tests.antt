-- ===== src/VersionEdit/Tests.antt =====
-- An edit with a field of each kind.
use leveldb_mcpe_dotnet.Common.{true, false, some, none, [], ◌∷◌, ◌≡◌, ◌≢◌, refl, arith}
use leveldb_mcpe_dotnet.Coding.{get_varint32, get_varint32_ptr}
use leveldb_mcpe_dotnet.VersionEdit.{
  VersionEdit, clear, set_comparator_name, set_log_number, set_compact_pointer, delete_file,
  add_file, set_insert,
}
use leveldb_mcpe_dotnet.VersionEdit.Codec.{
  encode_to, decode_from, decode_loop, decode_field, get_deleted_file, get_level,
}
use leveldb_mcpe_dotnet.VersionEdit.Pieces.{Fits}
use leveldb_mcpe_dotnet.VersionEdit.Fields.{IsNormal}
use leveldb_mcpe_dotnet.VersionEdit.RoundTrip.{decode_from-encode_to}
use leveldb_mcpe_dotnet.VersionEdit.Totality.{decode_from_total}

abbrev blank : VersionEdit
blank = record {
  comparator = [];
  log_number = 0;
  prev_log_number = 0;
  next_file_number = 0;
  last_sequence = 0;
  has_comparator = false;
  has_log_number = false;
  has_prev_log_number = false;
  has_next_file_number = false;
  has_last_sequence = false;
  compact_pointers = [];
  deleted_files = [];
  new_files = [];
}

abbrev edit : VersionEdit
edit = record blank {
  comparator = 97 ∷ [];
  has_comparator = true;
  log_number = 12;
  has_log_number = true;
  compact_pointers = (1, 5 ∷ []) ∷ [];
  deleted_files = (0, 3) ∷ (2, 1) ∷ [];
  new_files =
      (
        2,
        record {
          refs = 0;
          allowed_seeks = 0x4000_0000;
          number = 9;
          file_size = 4096;
          smallest = 1 ∷ [];
          largest = 2 ∷ [];
        },
      )
      ∷ [];
}

-- What the setters make of a blank edit.
edit_made :
    add_file
      (delete_file
        (delete_file
          (set_compact_pointer (set_log_number (set_comparator_name blank (97 ∷ [])) 12) 1 (5 ∷ []))
          2
          1)
        0
        3)
      2
      9
      4096
      (1 ∷ [])
      (2 ∷ [])
    ≡ edit
unfolding add_file delete_file set_insert set_compact_pointer set_log_number set_comparator_name
edit_made = refl

edit-Fits : Fits edit
edit-Fits = omega arith

edit-IsNormal : IsNormal edit
edit-IsNormal = ground arith

decode_from-encode_to_example :
    decode_from edit (encode_to edit [])
    ≡ some (record edit { compact_pointers = (1, 5 ∷ []) ∷ (1, 5 ∷ []) ∷ [] }, none)
decode_from-encode_to_example = decode_from-encode_to edit edit edit-Fits edit-IsNormal

decode_from_total_example : decode_from blank (2 ∷ 255 ∷ []) ≢ none
decode_from_total_example = decode_from_total blank (2 ∷ 255 ∷ [])

bad_level : decode_from blank (6 ∷ 7 ∷ 1 ∷ []) ≡ some (blank, some "deleted file")
unfolding decode_from decode_loop decode_field clear get_varint32 get_varint32_ptr get_deleted_file
    get_level
bad_level = refl
