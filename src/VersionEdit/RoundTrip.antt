-- ===== src/VersionEdit/RoundTrip.antt =====
-- `DecodeFrom` reads back the edit that `EncodeTo` wrote.
use leveldb_mcpe_dotnet.Common.{
  suc, ◌-◌, none, some, [], ◌++◌, ◌≡◌, refl, length, append-nil, append_assoc, arith,
}
use leveldb_mcpe_dotnet.Common.Bytes.{Bytes}
use leveldb_mcpe_dotnet.Coding.{get_varint32, get_varint32_ptr}
use leveldb_mcpe_dotnet.VersionEdit.{VersionEdit, clear}
use leveldb_mcpe_dotnet.VersionEdit.Codec.{decode_loop, decode_from, encode_to}
use leveldb_mcpe_dotnet.VersionEdit.Pieces.{Fits, edit_bytes, encode_to-edit_bytes}
use leveldb_mcpe_dotnet.VersionEdit.Rounds.{Decodes, follow}
use leveldb_mcpe_dotnet.VersionEdit.Fields.{
  IsNormal, comparator_piece, log_number_piece, prev_log_number_piece, next_file_number_piece,
  last_sequence_piece, pointers_piece, deleted_piece, files_piece,
}

-- From a cleared edit the loop comes to the encoded edit, with the old compaction pointers first.
edit_read :
    (old e : VersionEdit)
    → Fits e
    → IsNormal e
    → Decodes
        (clear old)
        (edit_bytes e ++ [])
        (record e { compact_pointers = old.compact_pointers ++ e.compact_pointers })
        []
unfolding clear edit_bytes
edit_read old e fits normal =
    let c0 = clear old in
    let c1 = record c0 { comparator = e.comparator; has_comparator = e.has_comparator } in
    let c2 = record c1 { log_number = e.log_number; has_log_number = e.has_log_number } in
    let c3 = record c2 {
      prev_log_number = e.prev_log_number;
      has_prev_log_number = e.has_prev_log_number;
    } in
    let c4 = record c3 {
      next_file_number = e.next_file_number;
      has_next_file_number = e.has_next_file_number;
    } in
    let c5 = record c4 {
      last_sequence = e.last_sequence;
      has_last_sequence = e.has_last_sequence;
    } in
    let c6 = record c5 { compact_pointers = old.compact_pointers ++ e.compact_pointers } in
    let c7 = record c6 { deleted_files = e.deleted_files } in
    simp append_assoc (
      follow
        (comparator_piece c0 e.has_comparator e.comparator _ refl refl fits.comparator
          normal.comparator)
        (follow
          (log_number_piece c1 e.has_log_number e.log_number _ refl refl fits.log_number
            normal.log_number)
          (follow
            (prev_log_number_piece c2 e.has_prev_log_number e.prev_log_number _ refl refl
              fits.prev_log_number normal.prev_log_number)
            (follow
              (next_file_number_piece c3 e.has_next_file_number e.next_file_number _ refl refl
                fits.next_file_number normal.next_file_number)
              (follow
                (last_sequence_piece c4 e.has_last_sequence e.last_sequence _ refl refl
                  fits.last_sequence normal.last_sequence)
                (follow (pointers_piece e.compact_pointers c5 _ fits.compact_pointers) (
                  follow
                    (deleted_piece e.deleted_files c6 _ fits.deleted_files normal.deleted_files)
                    (files_piece e.new_files c7 [] fits.new_files normal.new_files))))))))

-- A run to the end of the input is what `DecodeFrom` returns.
finished :
    (c e : VersionEdit) (input : Bytes)
    → Decodes c input e []
    → decode_loop (suc (length input)) c input ≡ some (e, none)
unfolding decode_loop get_varint32 get_varint32_ptr
finished c e input d =
    let left = length input - d.rounds in
    d.steps (suc (length input)) (suc left) (omega (arith, d.enough))

-- An edit whose fields fit their encodings and that setters can make, encoded to an empty string,
-- is decoded without a message to itself, with the compaction pointers that the receiving edit had
-- in front of its own.
pub decode_from-encode_to :
    (old e : VersionEdit)
    → Fits e
    → IsNormal e
    → decode_from old (encode_to e [])
      ≡ some (record e { compact_pointers = old.compact_pointers ++ e.compact_pointers }, none)
unfolding decode_from
decode_from-encode_to old e fits normal = rw (encode_to-edit_bytes e [] fits) (
    finished (clear old) _ (edit_bytes e)
      (rw (append-nil (edit_bytes e)) at (edit_read old e fits normal)))
