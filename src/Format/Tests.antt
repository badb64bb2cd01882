-- ===== src/Format/Tests.antt =====
-- A footer with handles of one, two and three bytes a number.
use leveldb_mcpe_dotnet.Common.{length, [], ◌∷◌, ◌++◌, ◌≡◌, arith}
use leveldb_mcpe_dotnet.Status.{Status}
use leveldb_mcpe_dotnet.Format.{Footer, new_footer, encode_footer, decode_footer, encoded_length}
use leveldb_mcpe_dotnet.Format.Encoded.{decode_footer-encode_footer}

abbrev footer : Footer
footer = record {
  metaindex_handle = record { offset = 5; size = 300 };
  index_handle = record { offset = 310; size = 70000 };
}

decode_footer-encode_footer_example :
    (decode_footer new_footer (encode_footer footer [] ++ (1 ∷ 2 ∷ []))
      ≡ (Status.ok, footer, 1 ∷ 2 ∷ []))
    × (length (encode_footer footer []) ≡ encoded_length)
decode_footer-encode_footer_example =
    decode_footer-encode_footer footer new_footer (1 ∷ 2 ∷ [])
      ((omega arith, omega arith), (omega arith, omega arith))
