-- ===== src/Log/Physical.antt =====
-- How `ReadPhysicalRecord` takes the fragments of a block apart.
use leveldb_mcpe_dotnet.Common.{
  length-replicate, ℕ, zero, suc, ◌+◌, ◌-◌, ◌%◌, ◌^◌, ◌≤◌, ◌<◌, true, false, some, List, [], ◌∷◌,
  ◌++◌, length, take, drop, ltb, ltb-true, ltb-false, ==-refl, ltb-zero, &&-false, ◌==◌, ◌≡◌, refl,
  sym, ◌∙◌, inl, inr, arith, length-append, length-take, take-append, drop-append,
  take-append_length, drop-append_length, Bool-cases,
}
use leveldb_mcpe_dotnet.Common.Bytes.{Bytes}
use leveldb_mcpe_dotnet.Crc32c.{Checksum, value}
use leveldb_mcpe_dotnet.Log.{zero_type, block_size, header_size}
use leveldb_mcpe_dotnet.Log.Reader.{
  SequentialFile, Reader, eof_type, again, gives, refill, parse_header, physical_round,
  read_physical_record,
}
use leveldb_mcpe_dotnet.Log.Header.{
  header-crc, header-length, header-type, header-drop, header-checked, header-fragment,
}
use leveldb_mcpe_dotnet.Log.Totality.{loop_gives, loop_again}
use leveldb_mcpe_dotnet.Log.Layout.{physical, length-physical, Gap}
use leveldb_mcpe_dotnet.Status.{Status, is_ok}

-- A short read is one of a short file.
ltb-take : (n : ℕ) (xs : Bytes) → ltb (length (take n xs)) n ≡ ltb (length xs) n
ltb-take n xs = ground (arith, length-take n xs)

ltb-shift : (a' b' d : ℕ) {a b : ℕ} → a ≡ a' + d → b ≡ b' + d → ltb a b ≡ ltb a' b'
ltb-shift a' b' d e f = ground (arith, e, f)

-- A file that gives what it holds: `contents` is what is left to read.
pub record Gives {ℓ} {F : Type ℓ} (file : SequentialFile F) (contents : F → Bytes) : Type ℓ where
  pub read_rest : (f : F) (n : ℕ) → contents (file.read f n).0 ≡ drop n (contents f)
  pub read_bytes : (f : F) (n : ℕ) → (file.read f n).1 ≡ take n (contents f)
  pub read_ok : (f : F) (n : ℕ) → is_ok (file.read f n).2 ≡ true

-- The reader at offset `b` of a block, with `rest` left to read, no initial offset, and `reports` made.
unfoldable pub At {ℓ} :
    {F : Type ℓ} → (F → Bytes) → List (ℕ × Status) → ℕ → Bytes → Reader F → Type 0
At contents reports b rest r =
    (b ≤ block_size)
    × (r.buffer ≡ take (block_size - b) rest)
    × (contents r.file ≡ drop (block_size - b) rest)
    × (r.eof ≡ ltb (length rest) (block_size - b))
    × (r.initial_offset ≡ 0)
    × (r.resyncing ≡ false)
    × (r.reports ≡ reports)

pub At-resyncing {ℓ} :
    {F : Type ℓ} (contents : F → Bytes) (reports : List (ℕ × Status)) (b : ℕ) (rest : Bytes)
    (r : Reader F)
    → At contents reports b rest r
    → r.resyncing ≡ false
unfolding At
At-resyncing contents reports b rest r at_b = at_b.5

module _ {ℓ} {F : Type ℓ} (file : SequentialFile F) (c : Checksum) (contents : F → Bytes)
    (gives_all : Gives file contents) (reports : List (ℕ × Status)) where
  -- At the end of a block the next one is read.
  refill-At :
      (b : ℕ) (pad rest scratch : Bytes) (r : Reader F)
      → At contents reports b (pad ++ rest) r
      → length pad ≡ block_size - b
      → block_size - b < header_size
      → (r' : Reader F) × (physical_round file c r scratch ≡ again r')
        × At contents reports 0 rest r'
  unfolding At physical_round refill
  refill-At b pad rest scratch r (hb, buffer, left, eof, initial, resyncing, same) hp hs =
      let buffer' : r.buffer ≡ pad = buffer ∙ rw⁻¹ hp (take-append_length pad rest) in
      let left' : contents r.file ≡ rest = left ∙ rw⁻¹ hp (drop-append_length pad rest) in
      let (f, bytes, s) = file.read r.file block_size in
      let bytes' : bytes ≡ take block_size rest =
        rw left' at (gives_all.read_bytes r.file block_size) in
      let f' : contents f ≡ drop block_size rest =
        rw left' at (gives_all.read_rest r.file block_size) in
      let good : is_ok s ≡ true = gives_all.read_ok r.file block_size in
      let open_ : r.eof ≡ false = eof ∙ ltb-false (omega (arith, length-append pad rest)) in
      let header : ltb (length r.buffer) header_size ≡ true = rw buffer' (ltb-true (omega arith)) in
      let short : ltb (length bytes) block_size ≡ ltb (length rest) block_size =
        rw bytes' (ltb-take block_size rest) in
      let r' = record r {
        file = f;
        buffer = bytes;
        eof = ltb (length rest) block_size;
        end_of_buffer_offset = (r.end_of_buffer_offset + length bytes) % 2 ^ 64;
      } in
      let round : physical_round file c r scratch ≡ again r' =
        elim (Bool-cases (ltb (length rest) block_size)) [
          | inl y ↦ rw (header, open_, good, short, y) refl
          | inr y ↦ rw (header, open_, good, short, y) refl
        ] in
      (r', round, (omega arith, bytes', f', refl, initial, resyncing, same))

  parse-At :
      (b t : ℕ) (fragment rest scratch : Bytes) (r : Reader F)
      → At contents reports b (physical c t fragment ++ rest) r
      → header_size + length fragment ≤ block_size - b
      → 1 ≤ t
      → t < 128
      → (r' : Reader F) × (physical_round file c r scratch ≡ gives r' t fragment)
        × At contents reports (b + (header_size + length fragment)) rest r'
  unfolding At physical_round parse_header
  parse-At b t fragment rest scratch r (hb, buffer, left, eof, initial, resyncing, same) fits ht1
        ht =
      let n = length fragment in
      let small : n < 2 ^ 16 = omega arith in
      let k = block_size - b - (header_size + n) in
      let size = length-physical c t fragment in
      let buffer' : r.buffer ≡ physical c t fragment ++ take k rest =
        buffer
        ∙ rw⁻¹ size (take-append (block_size - b) (physical c t fragment) rest (omega arith)) in
      let m = block_size - (b + (header_size + n)) in
      let k_m : k ≡ m = omega arith in
      let left' : contents r.file ≡ drop k rest =
        left
        ∙ rw⁻¹ size (drop-append (block_size - b) (physical c t fragment) rest (omega arith)) in
      let same_eof : ltb (length (physical c t fragment ++ rest)) (block_size - b)
          ≡ ltb (length rest) m =
        ltb-shift (length rest) m (header_size + n)
          (omega (arith, length-append (physical c t fragment) rest)) (omega arith) in
      let r' = record r { buffer = take k rest } in
      let some_header : ltb (length (physical c t fragment ++ take k rest)) header_size ≡ false =
        ltb-false (omega (arith, length-append (physical c t fragment) (take k rest))) in
      let whole : ltb (length (physical c t fragment ++ take k rest)) (header_size + n) ≡ false =
        ltb-false (omega (arith, length-append (physical c t fragment) (take k rest))) in
      let typed : (t == zero_type) ≡ false = ground (arith, ht1) in
      let round : physical_round file c r scratch ≡ gives r' t fragment =
        rw
          (
            buffer',
            some_header,
            header-length c t fragment (take k rest) small ht,
            whole,
            header-type c t fragment (take k rest) small ht,
            typed,
            header-checked c t fragment (take k rest) small ht,
            header-crc c t fragment (take k rest) small ht,
            ==-refl (value c (t ∷ fragment)),
            &&-false r.checksum,
            initial,
            ltb-zero,
            header-drop c t fragment (take k rest) small ht,
            header-fragment c t fragment (take k rest) small ht,
          )
          refl in
      (
        r',
        round,
        (omega arith, rw k_m refl, rw⁻¹ k_m left', eof ∙ same_eof, initial, resyncing, same),
      )

  -- A fragment is read, behind the end of a block if there is no room for it.
  pub read_physical_record-At :
      (b b' t : ℕ) (pad fragment rest scratch : Bytes) (r : Reader F)
      → At contents reports b (pad ++ (physical c t fragment ++ rest)) r
      → Gap b pad b'
      → header_size + length fragment ≤ block_size - b'
      → 1 ≤ t
      → t < 128
      → (r' : Reader F) × (read_physical_record file c r scratch ≡ some (r', t, fragment))
        × At contents reports (b' + (header_size + length fragment)) rest r'
  unfolding read_physical_record
  read_physical_record-At b b' t pad fragment rest scratch r at_b (inl (no_pad, same, _)) room ht1
        ht =
      let at_b' : At contents reports b' (physical c t fragment ++ rest) r =
        rw (no_pad, sym same) at at_b in
      let (r', round, after) = parse-At b' t fragment rest scratch r at_b' room ht1 ht in
      (r', loop_gives file c 2 t scratch fragment r r' round, after)
  read_physical_record-At b b' t pad fragment rest scratch r at_b (inr (trailer, start, small)) room
        ht1 ht =
      let (r1, round1, at_0) =
        refill-At b pad (physical c t fragment ++ rest) scratch r at_b
          (rw trailer (length-replicate (block_size - b) 0)) small in
      let at_b' : At contents reports b' (physical c t fragment ++ rest) r1 =
        rw (sym start) at at_0 in
      let (r', round, after) = parse-At b' t fragment rest scratch r1 at_b' room ht1 ht in
      (
        r',
        loop_again file c 2 scratch r r1 round1
            ∙ loop_gives file c 1 t scratch fragment r1 r' round,
        after,
      )

  refill_at_end :
      (r : Reader F) (scratch : Bytes)
      → r.buffer ≡ []
      → r.eof ≡ true
      → physical_round file c r scratch ≡ gives (record r { buffer = [] }) eof_type scratch
  unfolding physical_round refill
  refill_at_end r scratch empty at_end = rw (empty, at_end) refl

  take-nothing : (n : ℕ) → take {A = ℕ} n [] ≡ []
  take-nothing zero = refl
  take-nothing (suc n) = refl

  -- Where nothing is left, a read gives nothing, and the end is known then.
  refill_nothing :
      (b : ℕ) (scratch : Bytes) (r : Reader F)
      → At contents reports b [] r
      → r.eof ≡ false
      → (r' : Reader F) × (physical_round file c r scratch ≡ again r')
        × (r'.buffer ≡ [])
        × (r'.eof ≡ true)
        × (r'.reports ≡ reports)
        × (r'.resyncing ≡ false)
  unfolding At
  refill_nothing b scratch r at_b open_ =
      let full : block_size - b ≡ 0 = ground (arith, open_, at_b.3) in
      let (r', round, at_0) = refill-At b [] [] scratch r at_b (sym full) (omega arith) in
      (r', round, at_0.1 ∙ take-nothing block_size, at_0.3, at_0.6, at_0.5)

  -- Where nothing is left, the reader says so.
  pub read_physical_record-eof :
      (b : ℕ) (scratch : Bytes) (r : Reader F)
      → At contents reports b [] r
      → (r' : Reader F) × (read_physical_record file c r scratch ≡ some (r', eof_type, scratch))
        × (r'.reports ≡ reports)
        × (r'.resyncing ≡ false)
  unfolding read_physical_record At
  read_physical_record-eof b scratch r at_b = elim (Bool-cases r.eof) [
    | inl known ↦
        let empty : r.buffer ≡ [] = at_b.1 ∙ take-nothing (block_size - b) in
        (
          record r { buffer = [] },
          loop_gives file c 2 eof_type scratch scratch r _ (refill_at_end r scratch empty known),
          at_b.6,
          at_b.5,
        )
    | inr open_ ↦
        let (r1, round, empty, known, same, calm) = refill_nothing b scratch r at_b open_ in
        (
          record r1 { buffer = [] },
          loop_again file c 2 scratch r r1 round
              ∙ loop_gives file c 1 eof_type scratch scratch r1 _
                  (refill_at_end r1 scratch empty known),
          same,
          calm,
        )
  ]
