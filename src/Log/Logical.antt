-- ===== src/Log/Logical.antt =====
-- How `ReadRecord` puts the fragments of a record together.
use leveldb_mcpe_dotnet.Common.{
  ℕ, zero, suc, ◌+◌, ◌≤◌, ◌<◌, Bool, true, false, not, Option, none, some, List, [], ◌++◌, length,
  ◌≡◌, refl, sym, ap, ◌∙◌, arith, append_assoc, length-append, if◌then◌else◌, ltb, ltb-zero,
}
use leveldb_mcpe_dotnet.Common.Bytes.{Bytes}
use leveldb_mcpe_dotnet.Crc32c.{Checksum}
use leveldb_mcpe_dotnet.Log.{block_size, header_size}
use leveldb_mcpe_dotnet.Log.Writer.{fragment_type}
use leveldb_mcpe_dotnet.Log.Reader.{
  SequentialFile, Reader, Progress, continue_, finished, eof_type, read_physical_record, unfinished,
  on_record, record_offset, after_physical, read_record_loop, read_record, no_progress,
}
use leveldb_mcpe_dotnet.Log.Layout.{
  physical, length-physical, Fragments, last_fragment, more_fragments,
}
use leveldb_mcpe_dotnet.Log.Physical.{
  Gives, At, At-resyncing, read_physical_record-At, read_physical_record-eof,
}
use leveldb_mcpe_dotnet.Status.{Status}

-- The part of the record that was read before the fragment that comes next.
abbrev already : Progress → Bool → Bytes
already p begin = if begin then [] else p.scratch

type-le : (begin end_ : Bool) → (1 ≤ fragment_type begin end_) × (fragment_type begin end_ < 128)
unfolding fragment_type
type-le true true = (omega arith, omega arith)
type-le true false = (omega arith, omega arith)
type-le false true = (omega arith, omega arith)
type-le false false = (omega arith, omega arith)

module _ {ℓ} {F : Type ℓ} (file : SequentialFile F) (c : Checksum) where
  loop_finished :
      (fuel t : ℕ) (before fragment : Bytes) (r r1 r2 : Reader F) (p : Progress)
      (result : Option Bytes)
      → read_physical_record file c r before ≡ some (r1, t, fragment)
      → after_physical r1 p t fragment ≡ finished r2 result
      → read_record_loop file c (suc fuel) r p before ≡ some (r2, result)
  unfolding read_record_loop
  loop_finished fuel t before fragment r r1 r2 p result e f = rw (read_record_loop, e, f) refl

  loop_continue :
      (fuel t : ℕ) (before fragment : Bytes) (r r1 r2 : Reader F) (p p' : Progress)
      → read_physical_record file c r before ≡ some (r1, t, fragment)
      → after_physical r1 p t fragment ≡ continue_ r2 p'
      → read_record_loop file c (suc fuel) r p before ≡ read_record_loop file c fuel r2 p' fragment
  unfolding read_record_loop
  loop_continue fuel t before fragment r r1 r2 p p' e f = rw (read_record_loop, e, f) refl

module _ {ℓ} {F : Type ℓ} where
  -- The last fragment of a record completes it.
  after-last_fragment :
      (contents : F → Bytes) (reports : List (ℕ × Status)) (b : ℕ) (begin : Bool) (r : Reader F)
      (p : Progress) (fragment rest : Bytes)
      → At contents reports b rest r
      → p.in_fragmented_record ≡ not begin
      → (r' : Reader F) × (after_physical r p (fragment_type begin true) fragment
          ≡ finished r' (some (already p begin ++ fragment)))
        × At contents reports b rest r'
  unfolding At after_physical on_record unfinished fragment_type
  after-last_fragment contents reports b true r p fragment rest at_b state =
      (record r { last_record_offset = record_offset r fragment }, rw (at_b.5, state) refl, at_b)
  after-last_fragment contents reports b false r p fragment rest at_b state =
      (record r { last_record_offset = p.prospective_record_offset }, rw (at_b.5, state) refl, at_b)

  -- Any other fragment is kept.
  after-more_fragments :
      (begin : Bool) (r : Reader F) (p : Progress) (fragment : Bytes)
      → r.resyncing ≡ false
      → p.in_fragmented_record ≡ not begin
      → (p' : Progress) × (after_physical r p (fragment_type begin false) fragment ≡ continue_ r p')
        × (p'.in_fragmented_record ≡ true)
        × (p'.scratch ≡ already p begin ++ fragment)
  unfolding after_physical on_record unfinished fragment_type
  after-more_fragments true r p fragment calm state = (
    record {
      scratch = fragment;
      in_fragmented_record = true;
      prospective_record_offset = record_offset r fragment;
    },
    rw (calm, state) refl,
    refl,
    refl,
  )
  after-more_fragments false r p fragment calm state =
      (record p { scratch = p.scratch ++ fragment }, rw (calm, state) refl, state, refl)

module _ {ℓ} {F : Type ℓ} (file : SequentialFile F) (c : Checksum) (contents : F → Bytes)
    (gives_all : Gives file contents) (reports : List (ℕ × Status)) where
  -- The fragments of a record are read and joined, with as much fuel as they have bytes.
  read_record_loop-Fragments :
      (b : ℕ) (begin : Bool) (data_ out : Bytes) (e : ℕ)
      → Fragments c b begin data_ out e
      → (fuel : ℕ) (r : Reader F) (p : Progress) (before rest : Bytes) → length out ≤ fuel
      → At contents reports b (out ++ rest) r
      → p.in_fragmented_record ≡ not begin
      → (r' : Reader F) × (read_record_loop file c fuel r p before
          ≡ some (r', some (already p begin ++ data_)))
        × At contents reports e rest r'
  read_record_loop-Fragments _ _ _ _ _
        (last_fragment b begin data_ out e pad b' gap layout room end_) zero r p before rest hf at_b
        state =
      absurd (
        omega (
          arith,
          ap length layout,
          length-append pad (physical c (fragment_type begin true) data_),
          length-physical c (fragment_type begin true) data_,
        ))
  read_record_loop-Fragments _ _ _ _ _
        (last_fragment b begin data_ out e pad b' gap layout room end_) (suc fuel) r p before rest
        hf at_b state =
      let t = fragment_type begin true in
      let at_gap : At contents reports b (pad ++ (physical c t data_ ++ rest)) r =
        rw (layout, append_assoc pad (physical c t data_) rest) at at_b in
      let (r1, read, at_1) =
        read_physical_record-At file c contents gives_all reports b b' t pad data_ rest before r
          at_gap gap room (type-le begin true).0 (type-le begin true).1 in
      let (r2, after, at_2) =
        after-last_fragment contents reports (b' + (header_size + length data_)) begin r1 p data_
          rest at_1 state in
      (r2, loop_finished file c fuel t before data_ r r1 r2 p _ read after, rw (sym end_) at at_2)
  read_record_loop-Fragments _ _ _ _ _
        (more_fragments b begin data_ out e pad b' fragment data' out' gap layout full joined more)
        zero r p before rest hf at_b state =
      absurd (
        omega (
          arith,
          ap length layout,
          length-append pad (physical c (fragment_type begin false) fragment ++ out'),
          length-append (physical c (fragment_type begin false) fragment) out',
          length-physical c (fragment_type begin false) fragment,
        ))
  read_record_loop-Fragments _ _ _ _ _
        (more_fragments b begin data_ out e pad b' fragment data' out' gap layout full joined more)
        (suc fuel) r p before rest hf at_b state =
      let t = fragment_type begin false in
      let here = physical c t fragment in
      let at_gap : At contents reports b (pad ++ (here ++ (out' ++ rest))) r =
        rw (layout, append_assoc pad (here ++ out') rest, append_assoc here out' rest) at at_b in
      let (r1, read, at_1) =
        read_physical_record-At file c contents gives_all reports b b' t pad fragment (out' ++ rest)
          before r at_gap gap (omega arith) (type-le begin false).0 (type-le begin false).1 in
      let (p', after, in_record, kept) =
        after-more_fragments begin r1 p fragment (At-resyncing contents reports _ _ r1 at_1)
          state in
      let shorter : length out' ≤ fuel = omega (
        arith,
        ap length layout,
        length-append pad (here ++ out'),
        length-append here out',
        length-physical c t fragment,
      ) in
      let at_end : At contents reports block_size (out' ++ rest) r1 = rw full at at_1 in
      let (r2, rest_read, at_2) =
        read_record_loop-Fragments block_size false data' out' e more fuel r1 p' fragment rest
          shorter at_end in_record in
      (
        r2,
        loop_continue file c fuel t before fragment r r1 r1 p p' read after
            ∙ rest_read
            ∙ ap (λ d. some (r2, some d))
                (rw (kept, joined) (append_assoc (already p begin) fragment data')),
        at_2,
      )

  -- Without an initial offset nothing is skipped.
  read_record_from_start :
      (fuel : ℕ) (r : Reader F)
      → r.initial_offset ≡ 0
      → read_record file c fuel r ≡ read_record_loop file c fuel r no_progress []
  unfolding read_record
  read_record_from_start fuel r start =
      let placed : ltb r.last_record_offset r.initial_offset ≡ false =
        rw start (ltb-zero r.last_record_offset) in
      rw (read_record, placed) refl

  -- `ReadRecord` gives the record and stops behind its last fragment.
  pub read_record-Fragments :
      (b : ℕ) (data_ out rest : Bytes) (e fuel : ℕ) (r : Reader F)
      → Fragments c b true data_ out e
      → length out ≤ fuel
      → At contents reports b (out ++ rest) r
      → (r' : Reader F) × (read_record file c fuel r ≡ some (r', some data_))
        × At contents reports e rest r'
  unfolding At
  read_record-Fragments b data_ out rest e fuel r fragments hf at_b =
      let (r', read, after) =
        read_record_loop-Fragments b true data_ out e fragments fuel r no_progress [] rest hf at_b
          refl in
      (r', read_record_from_start fuel r at_b.4 ∙ read, after)

  -- `ReadRecord` gives none where nothing is left.
  pub read_record-eof :
      (b fuel : ℕ) (r : Reader F)
      → At contents reports b [] r
      → (r' : Reader F) × (read_record file c (suc fuel) r ≡ some (r', none))
        × (r'.reports ≡ reports)
  unfolding At after_physical on_record
  read_record-eof b fuel r at_b =
      let (r', read, same, calm) =
        read_physical_record-eof file c contents gives_all reports b [] r at_b in
      let stop : after_physical r' no_progress eof_type [] ≡ finished r' none = rw calm refl in
      (
        r',
        read_record_from_start (suc fuel) r at_b.4
            ∙ (loop_finished file c fuel eof_type [] [] r r' r' no_progress none read stop),
        same,
      )
