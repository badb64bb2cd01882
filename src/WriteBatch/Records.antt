-- ===== src/WriteBatch/Records.antt =====
-- A batch against the list of updates that it stands for: what the writers keep and `Iterate` does.
use leveldb_mcpe_dotnet.Common.{
  ℕ, ◌+◌, ◌^◌, ◌≤◌, ◌<◌, List, [], ◌∷◌, ◌++◌, ◌≡◌, refl, sym, ◌∙◌, ap, length, drop, append-nil,
  append_assoc, length-append, arith,
}
use leveldb_mcpe_dotnet.Common.Bytes.{Bytes, IsU32, IsU64}
use leveldb_mcpe_dotnet.Coding.{encode_fixed32, encode_fixed64}
use leveldb_mcpe_dotnet.Coding.Fixed.{
  decode_fixed32-encode_fixed32, decode_fixed64-encode_fixed64, length-encode_fixed32,
  length-encode_fixed64,
}
use leveldb_mcpe_dotnet.Coding.Prefixed.{prefixed, put_length_prefixed_slice-prefixed}
use leveldb_mcpe_dotnet.DbFormat.{type_value, type_deletion}
use leveldb_mcpe_dotnet.WriteBatch.{
  WriteBatch, header, overwrite, clear, count, set_count, sequence, set_sequence, put, delete,
  append, add_int,
}
use native.Mathlib.Nat.{mod-eq_of_lt}

-- A value stored under a key, or a key deleted.
pub data Update : Type 0 where
  stored : Bytes → Bytes → Update
  deleted : Bytes → Update

-- Keys and values are shorter than 4 GiB.
abbrev pub Fits : Update → Type 0
Fits (stored key value) = IsU32 (length key) × IsU32 (length value)
Fits (deleted key) = IsU32 (length key)

abbrev pub update_bytes : Update → Bytes
update_bytes (stored key value) = type_value ∷ (prefixed key ++ prefixed value)
update_bytes (deleted key) = type_deletion ∷ prefixed key

abbrev pub records : List Update → Bytes
records [] = []
records (u ∷ us) = update_bytes u ++ records us

records-append : (us vs : List Update) → records (us ++ vs) ≡ records us ++ records vs
records-append [] vs = refl
records-append (u ∷ us) vs =
    rw (records-append us vs) (sym (append_assoc (update_bytes u) (records us) (records vs)))

pub length-records : (us : List Update) → length us ≤ length (records us)
length-records [] = omega arith
length-records (stored key value ∷ us) =
    omega
      (arith, length-append {0} (prefixed key ++ prefixed value) (records us), length-records us)
length-records (deleted key ∷ us) =
    omega (arith, length-append {0} (prefixed key) (records us), length-records us)

-- The batch holds these updates, as many as an `int` counts, to be numbered from `seq` on.
pub record Holds (b : WriteBatch) (seq : ℕ) (us : List Update) : Type 0 where
  pub layout : b.rep ≡ encode_fixed64 seq ++ (encode_fixed32 (length us) ++ records us)
  pub counted : length us < 2 ^ 31
  pub numbered : IsU64 seq

pub clear-Holds : Holds clear 0 []
unfolding clear encode_fixed32 encode_fixed64
clear-Holds = record { layout = refl; counted = omega arith; numbered = omega arith }

module _ {b : WriteBatch} {seq : ℕ} {us : List Update} (h : Holds b seq us) where
  drop_8 : drop 8 b.rep ≡ encode_fixed32 (length us) ++ records us
  unfolding encode_fixed64
  drop_8 = rw h.layout

  pub drop-header : drop header b.rep ≡ records us
  unfolding encode_fixed64 encode_fixed32
  drop-header = rw h.layout

  pub count-Holds : count b ≡ length us
  unfolding count
  count-Holds =
      rw drop_8 (decode_fixed32-encode_fixed32 (length us) (records us) (omega (arith, h.counted)))

  pub sequence-Holds : sequence b ≡ seq
  unfolding sequence
  sequence-Holds = rw h.layout (decode_fixed64-encode_fixed64 seq _ h.numbered)

  -- No batch is too small for its header.
  pub header-le-length : header ≤ length b.rep
  header-le-length = rw h.layout (
      omega (
        arith,
        length-append {0} (encode_fixed64 seq) (encode_fixed32 (length us) ++ records us),
        length-append {0} (encode_fixed32 (length us)) (records us),
        length-encode_fixed64 seq,
        length-encode_fixed32 (length us),
      ))

  set_count-rep :
      (n : ℕ)
      → IsU32 n
      → (set_count b n).rep ≡ encode_fixed64 seq ++ (encode_fixed32 n ++ records us)
  unfolding set_count overwrite encode_fixed32 encode_fixed64
  set_count-rep n fits = rw (h.layout, mod-eq_of_lt fits)

  pub set_sequence-Holds : (n : ℕ) → IsU64 n → Holds (set_sequence b n) n us
  unfolding set_sequence overwrite encode_fixed64
  set_sequence-Holds n fits = record { layout = rw h.layout; counted = h.counted; numbered = fits }

  grown_layout :
      (n : ℕ) (vs : List Update)
      → IsU32 n
      → n ≡ length (us ++ vs)
      → (set_count b n).rep ++ records vs
        ≡ encode_fixed64 seq ++ (encode_fixed32 (length (us ++ vs)) ++ records (us ++ vs))
  grown_layout n vs fits e =
      rw (← e, set_count-rep n fits, records-append us vs) (simp append_assoc)

  -- One more update: the count goes up and the record comes behind.
  add_record :
      (u : Update) (n : WriteBatch)
      → length us + 1 < 2 ^ 31
      → n.rep ≡ (set_count b (add_int (count b) 1)).rep ++ update_bytes u
      → Holds n seq (us ++ (u ∷ []))
  add_record u n room e = record {
    layout =
        e
        ∙ ap (λ t. (set_count b (add_int (count b) 1)).rep ++ t) (sym (append-nil (update_bytes u)))
        ∙ grown_layout (add_int (count b) 1) (u ∷ []) (omega (arith, count-Holds))
            (omega (arith, count-Holds, length-append {0} us (u ∷ [])));
    counted = omega (arith, length-append {0} us (u ∷ []));
    numbered = h.numbered;
  }

  -- Put extends what a batch holds by the update, for a key and value shorter than 2^32 and fewer
  -- than 2^31 - 1 updates before.
  pub put-Holds :
      (key value : Bytes)
      → Fits (stored key value)
      → length us + 1 < 2 ^ 31
      → Holds (put b key value) seq (us ++ (stored key value ∷ []))
  unfolding put
  put-Holds key value fits room = add_record (stored key value) (put b key value) room (
      rw
        (
          put_length_prefixed_slice-prefixed
              ((set_count b (add_int (count b) 1)).rep ++ (type_value ∷ [])) key fits.0,
          put_length_prefixed_slice-prefixed
              (((set_count b (add_int (count b) 1)).rep ++ (type_value ∷ [])) ++ prefixed key) value
              fits.1,
        )
        (simp append_assoc))

  pub delete-Holds :
      (key : Bytes)
      → Fits (deleted key)
      → length us + 1 < 2 ^ 31
      → Holds (delete b key) seq (us ++ (deleted key ∷ []))
  unfolding delete
  delete-Holds key fits room = add_record (deleted key) (delete b key) room (
      rw
        (put_length_prefixed_slice-prefixed
          ((set_count b (add_int (count b) 1)).rep ++ (type_deletion ∷ [])) key fits)
        (simp append_assoc))

-- Appending a batch to another gives one that holds the updates of both in order, numbered from
-- the first one's sequence number, if the counts together stay below 2^31, as an int counts.
pub append-Holds :
    {b c : WriteBatch} {seq seq' : ℕ} {us vs : List Update}
    → Holds b seq us
    → Holds c seq' vs
    → length us + length vs < 2 ^ 31
    → Holds (append b c) seq (us ++ vs)
unfolding append
append-Holds {b} {c} {seq} {seq'} {us} {vs} h k room = record {
  layout = rw (drop-header k) (
      grown_layout h (add_int (count b) (count c)) vs (omega (arith, count-Holds h, count-Holds k))
        (omega (arith, count-Holds h, count-Holds k, length-append {0} us vs)));
  counted = omega (arith, length-append {0} us vs);
  numbered = h.numbered;
}
