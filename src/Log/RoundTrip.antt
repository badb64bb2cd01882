-- ===== src/Log/RoundTrip.antt =====
-- What the log's writer appends, its reader gives back.
use leveldb_mcpe_dotnet.Common.{
  ℕ, zero, suc, ◌≤◌, ◌<◌, Bool, true, Option, none, some, List, [], ◌∷◌, ◌++◌, length, ◌≡◌, refl,
  sym, ap, inl, inr, arith, append_assoc, append-nil, length-append, if◌then◌else◌, ltb-zero,
}
use leveldb_mcpe_dotnet.Common.Bytes.{Bytes}
use leveldb_mcpe_dotnet.Crc32c.{Checksum}
use leveldb_mcpe_dotnet.Log.{block_size}
use leveldb_mcpe_dotnet.Log.Writer.{WritableFile, Writer, new_writer, add_record}
use leveldb_mcpe_dotnet.Log.Reader.{SequentialFile, Reader, new_reader, read_record}
use leveldb_mcpe_dotnet.Log.Layout.{
  Gap, Fragments, last_fragment, more_fragments, Accepts, Wrote, add_record-Wrote,
}
use leveldb_mcpe_dotnet.Log.Physical.{Gives, At}
use leveldb_mcpe_dotnet.Log.Logical.{read_record-Fragments, read_record-eof}
use leveldb_mcpe_dotnet.Status.{Status, is_ok}

-- Records written one after another, until one fails.
unfoldable pub add_records {ℓ} :
    {F : Type ℓ} → WritableFile F → Checksum → Writer F → List Bytes → Option (Writer F)
add_records file c w [] = some w
add_records file c w (d ∷ ds) = elim (add_record file c w d) [
  | none ↦ none
  | some (w', s) ↦ let rest = add_records file c w' ds in if is_ok s then rest else none
]

-- Records read until the reader says that there are no more, at most `limit` reads.
unfoldable pub read_records {ℓ} :
    {F : Type ℓ} → SequentialFile F → Checksum → ℕ → ℕ → Reader F → Option (Reader F × List Bytes)
read_records file c fuel zero r = none
read_records file c fuel (suc limit) r = elim (read_record file c fuel r) [
  | none ↦ none
  | some (r', none) ↦ some (r', [])
  | some (r', some d) ↦ elim (read_records file c fuel limit r') [
    | none ↦ none
    | some (r'', ds) ↦ some (r'', d ∷ ds)
  ]
]

-- From offset `b` of a block on, the bytes hold the fragments of the records, in order.
abbrev pub Logged : Checksum → ℕ → List Bytes → Bytes → Type 0
Logged c b [] out = out ≡ []
Logged c b (d ∷ ds) out =
    (first : Bytes) × (rest : Bytes) × (e : ℕ) × Fragments c b true d first e
    × Logged c e ds rest
    × (out ≡ first ++ rest)

module _ {ℓ} {F : Type ℓ} (file : WritableFile F) (c : Checksum) (contents : F → Bytes)
    (acc : Accepts file contents) where
  add_records-Logged :
      (ds : List Bytes) (w : Writer F)
      → w.block_offset ≤ block_size
      → (w' : Writer F) × (out : Bytes) × (add_records file c w ds ≡ some w')
        × (contents w'.dest ≡ contents w.dest ++ out)
        × Logged c w.block_offset ds out
  unfolding add_records Wrote
  add_records-Logged [] w h = (w, [], refl, sym (append-nil _), refl)
  add_records-Logged (d ∷ ds) w h =
      let (w1, s, first, wrote, good, held, fragments, h1) =
        add_record-Wrote file c contents acc w d h in
      let (w2, rest, wrote_rest, held_rest, logged) = add_records-Logged ds w1 h1 in
      (
        w2,
        first ++ rest,
        rw (add_records, wrote, good) wrote_rest,
        rw (held_rest, held) (append_assoc (contents w.dest) first rest),
        (first, rest, w1.block_offset, fragments, logged, refl),
      )

-- The end of a block and the start of the next are one place.
Gap-at_end : (pad : Bytes) (b' : ℕ) → Gap 0 pad b' → Gap block_size pad b'
Gap-at_end pad b' (inl (no_pad, start, _)) = inr (no_pad, start, omega arith)
Gap-at_end pad b' (inr (_, _, small)) = absurd (omega arith)

Fragments-at_end :
    (c : Checksum) (begin : Bool) (data_ out : Bytes) (e : ℕ)
    → Fragments c 0 begin data_ out e
    → Fragments c block_size begin data_ out e
Fragments-at_end c begin data_ out e (last_fragment _ _ _ _ _ pad b' gap layout room end_) =
    last_fragment block_size begin data_ out e pad b' (Gap-at_end pad b' gap) layout room end_
Fragments-at_end c begin data_ out e
      (more_fragments _ _ _ _ _ pad b' fragment data' out' gap layout full joined more) =
    more_fragments block_size begin data_ out e pad b' fragment data' out' (Gap-at_end pad b' gap)
      layout full joined more

Logged-at_end :
    (c : Checksum) (ds : List Bytes) (out : Bytes) → Logged c 0 ds out → Logged c block_size ds out
Logged-at_end c [] out logged = logged
Logged-at_end c (d ∷ ds) out (first, rest, e, fragments, logged, both) =
    (first, rest, e, Fragments-at_end c true d first e fragments, logged, both)

module _ {ℓ} {F : Type ℓ} (file : SequentialFile F) (c : Checksum) (contents : F → Bytes)
    (gives_all : Gives file contents) where
  read_records-Logged :
      (ds : List Bytes) (b : ℕ) (out : Bytes) (fuel : ℕ) (r : Reader F)
      (reports : List (ℕ × Status))
      → Logged c b ds out
      → length out < fuel
      → At contents reports b out r
      → (r' : Reader F) × (read_records file c fuel (suc (length ds)) r ≡ some (r', ds))
        × (r'.reports ≡ reports)
  unfolding read_records
  read_records-Logged [] b out zero r reports logged hf at_b = absurd (omega arith)
  read_records-Logged [] b out (suc fuel) r reports logged hf at_b =
      let at_end : At contents reports b [] r = rw logged at at_b in
      let (r', read, same) = read_record-eof file c contents gives_all reports b fuel r at_end in
      (r', rw (read_records, read) refl, same)
  read_records-Logged (d ∷ ds) b out fuel r reports (first, rest, e, fragments, logged, both) hf
        at_b =
      let at_first : At contents reports b (first ++ rest) r = rw both at at_b in
      let (r1, read, at_e) =
        read_record-Fragments file c contents gives_all reports b d first rest e fuel r fragments
          (omega (arith, ap length both, length-append first rest)) at_first in
      let (r2, read_rest, same) =
        read_records-Logged ds e rest fuel r1 reports logged
          (omega (arith, ap length both, length-append first rest)) at_e in
      (r2, rw (read_records, read, read_rest) refl, same)

  new_reader-At :
      (f : F) (has_reporter checksum : Bool)
      → At contents [] block_size (contents f) (new_reader f has_reporter checksum 0)
  unfolding At new_reader
  new_reader-At f has_reporter checksum =
      (omega arith, refl, refl, sym (ltb-zero _), refl, refl, refl)

-- Any list of records written to an empty log is written to its end with success, and a reader of
-- what the file then holds, with or without checksums and reporter and from the start of the file,
-- gives the records back in order, then the end, with no report; the file accepts every write and
-- gives what it holds, and a round more than its bytes is fuel enough for a read.
pub read_records-add_records {ℓ ℓ'} :
    {W : Type ℓ} {R : Type ℓ'} (wfile : WritableFile W) (rfile : SequentialFile R) (c : Checksum)
    (written : W → Bytes) (unread : R → Bytes)
    → Accepts wfile written
    → Gives rfile unread
    → (open_file : W → R) → ((f : W) → unread (open_file f) ≡ written f)
    → (dest : W) → written dest ≡ []
    → (has_reporter checksum : Bool) (ds : List Bytes)
    → (w : Writer W) × (r : Reader R) × (add_records wfile c (new_writer dest) ds ≡ some w)
      × (read_records rfile c
            (suc (length (written w.dest)))
            (suc (length ds))
            (new_reader (open_file w.dest) has_reporter checksum 0)
          ≡ some (r, ds))
      × (r.reports ≡ [])
unfolding new_writer
read_records-add_records wfile rfile c written unread acc gives_all open_file same dest empty
      has_reporter checksum ds =
    let (w, out, wrote, holds, logged) =
      add_records-Logged wfile c written acc ds (new_writer dest) (omega arith) in
    let all : written w.dest ≡ out = rw empty at holds in
    let start : At unread [] block_size out
        (new_reader (open_file w.dest) has_reporter checksum 0) =
      rw (same w.dest, all) at
        (new_reader-At rfile c unread gives_all (open_file w.dest) has_reporter checksum) in
    let (r, read, reports) =
      read_records-Logged rfile c unread gives_all ds block_size out (suc (length (written w.dest)))
        _ [] (Logged-at_end c ds out logged) (omega (arith, ap length all)) start in
    (w, r, wrote, read, reports)
