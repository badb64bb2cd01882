-- ===== src/Log/Layout.antt =====
-- What the log's writer appends to a file that accepts every write.
use leveldb_mcpe_dotnet.Common.{
  ℕ, zero, suc, ◌+◌, ◌-◌, ◌≤◌, ◌<◌, Bool, true, false, Option, some, [], ◌++◌, length, take, drop,
  replicate, ltb, ◌==◌, if◌then◌else◌, ◌≡◌, refl, sym, ◌∙◌, ◌⊎◌, inl, inr, arith, append-nil,
  append_assoc, take-length, length-take, length-drop, take-append-drop, Bool-cases,
}
use leveldb_mcpe_dotnet.Common.Bytes.{Bytes}
use native.Mathlib.Decide.{dec_le}
use leveldb_mcpe_dotnet.Coding.{encode_fixed32}
use leveldb_mcpe_dotnet.Crc32c.{Checksum}
use leveldb_mcpe_dotnet.Log.{block_size, header_size}
use leveldb_mcpe_dotnet.Log.Writer.{
  WritableFile, Writer, record_header, emit_physical_record, switch_block, fragment_type,
  add_record_loop, add_record,
}
use leveldb_mcpe_dotnet.Status.{Status, is_ok}

-- A fragment as it stands in the file.
abbrev pub physical : Checksum → ℕ → Bytes → Bytes
physical c t fragment = record_header c t fragment ++ fragment

pub length-physical :
    (c : Checksum) (t : ℕ) (fragment : Bytes)
    → length (physical c t fragment) ≡ header_size + length fragment
unfolding record_header encode_fixed32
length-physical c t fragment = omega arith

-- What stands between offset `b` of a block and the next header, which is at offset `b'`: nothing
-- where a header fits, and otherwise the trailer of the block, which is of zero bytes.
abbrev pub Gap : ℕ → Bytes → ℕ → Type 0
Gap b pad b' =
    ((pad ≡ []) × (b' ≡ b) × (header_size ≤ block_size - b))
    ⊎ ((pad ≡ replicate (block_size - b) 0) × (b' ≡ 0) × (block_size - b < header_size))

nothing_left : (n : ℕ) → ltb 0 n ≡ false → ◌≡◌ {A = Bytes} [] (replicate n 0)
nothing_left zero h = refl
nothing_left (suc n) h = absurd (ground arith)

-- Behind a gap there is room for a header, and for no more only where that was so before it.
pub Gap-room :
    (b b' : ℕ) (pad : Bytes)
    → b ≤ block_size
    → Gap b pad b'
    → (b' + header_size ≤ block_size)
      × (b' ≡ block_size - header_size → b ≡ block_size - header_size)
Gap-room b b' pad h (inl (_, same, room)) = (omega arith, λ e. omega arith)
Gap-room b b' pad h (inr (_, start, _)) = (omega arith, λ e. absurd (omega arith))

-- `Fragments c b begin data_ out e`: from offset `b` of a block on, `out` holds the fragments of
-- `data_`, the first of the record if `begin`, and ends at offset `e` of a block.
pub data Fragments (c : Checksum) : ℕ → Bool → Bytes → Bytes → ℕ → Type 0 where
  last_fragment :
      (b : ℕ) (begin : Bool) (data_ out : Bytes) (e : ℕ) (pad : Bytes) (b' : ℕ)
      → Gap b pad b'
      → out ≡ pad ++ physical c (fragment_type begin true) data_
      → header_size + length data_ ≤ block_size - b'
      → e ≡ b' + (header_size + length data_)
      → Fragments c b begin data_ out e
  more_fragments :
      (b : ℕ) (begin : Bool) (data_ out : Bytes) (e : ℕ) (pad : Bytes) (b' : ℕ)
      (fragment data' out' : Bytes)
      → Gap b pad b'
      → out ≡ pad ++ (physical c (fragment_type begin false) fragment ++ out')
      → b' + (header_size + length fragment) ≡ block_size
      → data_ ≡ fragment ++ data'
      → Fragments c block_size false data' out' e
      → Fragments c b begin data_ out e

Fragments-from :
    (c : Checksum) {b b' : ℕ} {begin : Bool} {data_ out : Bytes} {e : ℕ}
    → b ≡ b'
    → Fragments c b begin data_ out e
    → Fragments c b' begin data_ out e
Fragments-from c {begin = begin} {data_} {out} {e} same = λ fragments. rw same at fragments

-- One piece behind another.
append-two :
    (f0 pad x : Bytes) {f1 f2 : Bytes} → f1 ≡ f0 ++ pad → f2 ≡ f1 ++ x → f2 ≡ f0 ++ (pad ++ x)
append-two f0 pad x e1 e2 = rw (e2, e1) (append_assoc f0 pad x)

append-three :
    (f0 pad x y : Bytes) {f1 f2 f3 : Bytes}
    → f1 ≡ f0 ++ pad
    → f2 ≡ f1 ++ x
    → f3 ≡ f2 ++ y
    → f3 ≡ f0 ++ (pad ++ (x ++ y))
append-three f0 pad x y e1 e2 e3 = append-two f0 pad (x ++ y) e1 (append-two _ x y e2 e3)

-- A file that accepts every write: `contents` is what was appended.
pub record Accepts {ℓ} {F : Type ℓ} (file : WritableFile F) (contents : F → Bytes) : Type ℓ where
  pub append_contents :
      (f : F) (bytes : Bytes) → contents (file.append f bytes).0 ≡ contents f ++ bytes
  pub append_ok : (f : F) (bytes : Bytes) → is_ok (file.append f bytes).1 ≡ true
  pub flush_contents : (f : F) → contents (file.flush f).0 ≡ contents f
  pub flush_ok : (f : F) → is_ok (file.flush f).1 ≡ true

module _ {ℓ} {F : Type ℓ} (file : WritableFile F) (c : Checksum) (contents : F → Bytes)
    (acc : Accepts file contents) where
  emit-contents :
      (w : Writer F) (t : ℕ) (data_ : Bytes)
      → (contents (emit_physical_record file c w t data_).0.dest
          ≡ contents w.dest ++ physical c t data_)
        × ((emit_physical_record file c w t data_).0.block_offset
            ≡ w.block_offset + (header_size + length data_))
        × (is_ok (emit_physical_record file c w t data_).1 ≡ true)
  unfolding emit_physical_record
  emit-contents w t data_ =
      simp (acc.append_contents, acc.append_ok, acc.flush_contents, acc.flush_ok, append_assoc)
        (refl, refl, refl)

  switch-contents :
      (w : Writer F)
      → w.block_offset ≤ block_size
      → (pad : Bytes) × (contents (switch_block file c w).dest ≡ contents w.dest ++ pad)
        × Gap w.block_offset pad (switch_block file c w).block_offset
  unfolding switch_block
  switch-contents w h = elim (Bool-cases (ltb (block_size - w.block_offset) header_size)) [
    | inr fits ↦
        ([], rw fits (sym (append-nil (contents w.dest))), inl (refl, rw fits refl, ground arith))
    | inl full ↦ elim (Bool-cases (ltb 0 (block_size - w.block_offset))) [
      | inl some_left ↦ (
        replicate (block_size - w.block_offset) 0,
        rw (full, some_left) (acc.append_contents w.dest _),
        inr (refl, rw full refl, ground arith),
      )
      | inr none_left ↦ (
        [],
        rw (full, none_left) (sym (append-nil (contents w.dest))),
        inr (nothing_left _ none_left, rw full refl, ground arith),
      )
    ]
  ]

  -- The result of a run of the writer's loop that appended the fragments of `data_`.
  unfoldable pub Wrote : Writer F → Bool → Bytes → Option (Writer F × Status) → Type ℓ
  Wrote w begin data_ result =
      (w' : Writer F) × (s : Status) × (out : Bytes) × (result ≡ some (w', s))
      × (is_ok s ≡ true)
      × (contents w'.dest ≡ contents w.dest ++ out)
      × Fragments c w.block_offset begin data_ out w'.block_offset
      × (w'.block_offset ≤ block_size)

  loop-last_fragment :
      (fuel : ℕ) (w : Writer F) (begin : Bool) (data_ : Bytes)
      → length data_ ≤ block_size - (switch_block file c w).block_offset - header_size
      → add_record_loop file c (suc fuel) w begin data_
        ≡ some
            (emit_physical_record file c (switch_block file c w) (fragment_type begin true) data_)
  unfolding add_record_loop
  loop-last_fragment fuel w begin data_ h =
      let w1 = switch_block file c w in
      let avail = block_size - w1.block_offset - header_size in
      let whole : (if ltb (length data_) avail then length data_ else avail) ≡ length data_ =
        ground arith in
      let (emitted, moved, good) = emit-contents w1 (fragment_type begin true) data_ in
      let same : (length data_ == length data_) ≡ true = ground arith in
      let rest : ltb 0 (length data_ - length data_) ≡ false = ground arith in
      rw (whole, same, take-length data_, good, rest) refl

  loop-more_fragments :
      (fuel : ℕ) (w : Writer F) (begin : Bool) (data_ : Bytes)
      → block_size - (switch_block file c w).block_offset - header_size < length data_
      → add_record_loop file c (suc fuel) w begin data_
        ≡ add_record_loop file c fuel
            (emit_physical_record file c
              (switch_block file c w)
              (fragment_type begin false)
              (take (block_size - (switch_block file c w).block_offset - header_size) data_)).0
            false
            (drop (block_size - (switch_block file c w).block_offset - header_size) data_)
  unfolding add_record_loop
  loop-more_fragments fuel w begin data_ h =
      let w1 = switch_block file c w in
      let avail = block_size - w1.block_offset - header_size in
      let part : (if ltb (length data_) avail then length data_ else avail) ≡ avail =
        ground arith in
      let (emitted, moved, good) =
        emit-contents w1 (fragment_type begin false) (take avail data_) in
      let same : (length data_ == avail) ≡ false = ground arith in
      let rest : ltb 0 (length data_ - avail) ≡ true = ground arith in
      rw (part, same, good, rest) refl

  -- One spare round is enough where the first fragment may be empty.
  add_record_loop-Wrote :
      (fuel spare : ℕ) (w : Writer F) (begin : Bool) (data_ : Bytes)
      → w.block_offset ≤ block_size
      → length data_ + spare < fuel
      → 1
        ≤ spare
          + ((block_size - header_size - w.block_offset)
              + (w.block_offset - (block_size - header_size)))
      → Wrote w begin data_ (add_record_loop file c fuel w begin data_)
  unfolding Wrote
  add_record_loop-Wrote zero spare w begin data_ h hf hs = absurd (omega arith)
  add_record_loop-Wrote (suc fuel) spare w begin data_ h hf hs =
      let (pad, switched, gap) = switch-contents w h in
      let w1 = switch_block file c w in
      let (room, tight) = Gap-room w.block_offset w1.block_offset pad h gap in
      let avail = block_size - w1.block_offset - header_size in
      elim (dec_le (length data_) avail) [
        | yes small ↦
            let t = fragment_type begin true in
            let (emitted, moved, good) = emit-contents w1 t data_ in
            let fits : header_size + length data_ ≤ block_size - w1.block_offset = omega arith in
            (
              _,
              _,
              pad ++ physical c t data_,
              loop-last_fragment fuel w begin data_ small,
              good,
              append-two (contents w.dest) pad (physical c t data_) switched emitted,
              last_fragment w.block_offset begin data_ _ _ pad w1.block_offset gap refl fits moved,
              omega arith,
            )
        | no big ↦
            let t = fragment_type begin false in
            let fragment = take avail data_ in
            let (emitted, moved, good) = emit-contents w1 t fragment in
            let w2 = (emit_physical_record file c w1 t fragment).0 in
            let full : length fragment ≡ avail = omega (arith, length-take avail data_) in
            let at_end : w2.block_offset ≡ block_size = omega arith in
            let less : length (drop avail data_) + 0 < fuel = elim (dec_le 1 avail) [
              | yes some_room ↦ omega (arith, length-drop avail data_)
              | no none_left ↦ omega (arith, length-drop avail data_, tight (omega arith))
            ] in
            let (w', s, out, e, ok, written, fragments, bound) =
              add_record_loop-Wrote fuel 0 w2 false (drop avail data_) (omega arith) less
                (omega arith) in
            let from_start : Fragments c block_size false (drop avail data_) out w'.block_offset =
              Fragments-from c at_end fragments in
            (
              w',
              s,
              pad ++ (physical c t fragment ++ out),
              loop-more_fragments fuel w begin data_ (omega arith) ∙ e,
              ok,
              append-three (contents w.dest) pad (physical c t fragment) out switched emitted
                  written,
              more_fragments w.block_offset begin data_ _ _ pad w1.block_offset fragment
                  (drop avail data_) out gap refl (sym moved ∙ at_end)
                  (sym (take-append-drop avail data_)) from_start,
              bound,
            )
      ]

  -- On a file that accepts every write, at any offset of a block, AddRecord ends with success,
  -- appends the fragments of the record in the layout of the log, each behind a trailer of zero
  -- bytes where no header fits in the block, and leaves the writer at an offset of a block.
  pub add_record-Wrote :
      (w : Writer F) (data_ : Bytes)
      → w.block_offset ≤ block_size
      → Wrote w true data_ (add_record file c w data_)
  unfolding add_record
  add_record-Wrote w data_ h =
      add_record_loop-Wrote (suc (suc (length data_))) 1 w true data_ h (omega arith) (omega arith)
