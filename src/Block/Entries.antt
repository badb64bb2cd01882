-- ===== src/Block/Entries.antt =====
-- The entries that a builder has written, each read back by `DecodeEntry`.
use leveldb_mcpe_dotnet.Common.{
  ℕ, ◌+◌, ◌%◌, ◌^◌, ◌≤◌, ◌<◌, bit_or, true, false, some, [], ◌∷◌, ◌++◌, length, length-append, drop,
  get_or, ltb, ltb-false, Bool-cases, inl, inr, ◌⊎◌, ◌≡◌, refl, sym, ap, ◌∙◌, arith,
}
use leveldb_mcpe_dotnet.Common.Bytes.{Bytes, IsU32}
use mathlib.Core.Path.{subst}
use leveldb_mcpe_dotnet.Coding.{encode_varint32}
use leveldb_mcpe_dotnet.Coding.Groups.{groups}
use leveldb_mcpe_dotnet.Coding.Varint.{encode_varint32-groups, get_varint32_ptr-encode_varint32}
use leveldb_mcpe_dotnet.Common.Bits.{bit_or-ge_left, bit_or-ge_right}
use leveldb_mcpe_dotnet.Block.Reader.{DecodedEntry, decode_lengths, fits, decode_entry}

-- The bytes of a length: itself, or one from 128 on in front.
abbrev Lead : ℕ → Bytes → Type 0
Lead v [] = ⊥
Lead v (x ∷ more) = ((v < 128) × (x ≡ v) × (more ≡ [])) ⊎ (128 ≤ x)

groups-Lead : (v : ℕ) → Lead v (groups 4 v)
unfolding groups
groups-Lead v = elim (Bool-cases (ltb v 128)) [
  | inl small ↦ rw small (inl (ground arith, refl, refl))
  | inr large ↦ rw large (inr (omega arith))
]

-- A length takes a byte at least.
pub length-encode_varint32 : (v : ℕ) → IsU32 v → 1 ≤ length (encode_varint32 v)
unfolding groups
length-encode_varint32 v h = rw (encode_varint32-groups v h) (ground arith)

decode-slow :
    (p : Bytes)
    → 3 ≤ length p
    → 128 ≤ bit_or (bit_or (get_or p 0 0) (get_or p 1 0)) (get_or p 2 0)
    → decode_entry p ≡ fits (decode_lengths p)
unfolding decode_entry
decode-slow p hn hb = rw (ltb-false hn, ltb-false hb) refl

decode-fast :
    (p : Bytes)
    → 3 ≤ length p
    → ltb (bit_or (bit_or (get_or p 0 0) (get_or p 1 0)) (get_or p 2 0)) 128 ≡ true
    → decode_entry p
      ≡ fits (
          some (record {
            shared = get_or p 0 0;
            non_shared = get_or p 1 0;
            value_length = get_or p 2 0;
            delta = drop 3 p;
          }))
unfolding decode_entry
decode-fast p hn hb = rw (ltb-false hn, hb) refl

or-ge :
    (x y z : ℕ)
    → (x ≤ bit_or (bit_or x y) z) × (y ≤ bit_or (bit_or x y) z) × (z ≤ bit_or (bit_or x y) z)
or-ge x y z =
    let xy = bit_or-ge_left (bit_or x y) z in
    (
      omega (arith, bit_or-ge_left x y),
      omega (arith, bit_or-ge_right x y),
      bit_or-ge_right (bit_or x y) z,
    )

-- What the three lengths are read as, on the fast path and off it.
module _ (a b c : ℕ) (delta : Bytes) (ha : IsU32 a) (hb : IsU32 b) (hc : IsU32 c) where
  abbrev encoded : Bytes
  encoded = encode_varint32 a ++ (encode_varint32 b ++ (encode_varint32 c ++ delta))

  abbrev decoded : DecodedEntry
  decoded = record { shared = a; non_shared = b; value_length = c; delta = delta }

  slow_path : decode_lengths encoded ≡ some decoded
  unfolding decode_lengths
  slow_path =
      rw
        (
          decode_lengths,
          get_varint32_ptr-encode_varint32 a (encode_varint32 b ++ (encode_varint32 c ++ delta)) ha,
          get_varint32_ptr-encode_varint32 b (encode_varint32 c ++ delta) hb,
          get_varint32_ptr-encode_varint32 c delta hc,
        )
        refl

  long : (x y z : ℕ) (p q r : Bytes) → 3 ≤ length (x ∷ (p ++ (y ∷ (q ++ (z ∷ (r ++ delta))))))
  long x y z p q r =
      omega
        (arith, length-append p (y ∷ (q ++ (z ∷ (r ++ delta)))), length-append q (z ∷ (r ++ delta)))

  lengths-decoded :
      (p q r : Bytes)
      → Lead a p
      → Lead b q
      → Lead c r
      → decode_lengths (p ++ (q ++ (r ++ delta))) ≡ some decoded
      → decode_entry (p ++ (q ++ (r ++ delta))) ≡ fits (some decoded)
  unfolding decode_entry
  lengths-decoded [] q r la lb lc slow = absurd la
  lengths-decoded (x ∷ p) [] r la lb lc slow = absurd lb
  lengths-decoded (x ∷ p) (y ∷ q) [] la lb lc slow = absurd lc
  lengths-decoded (x ∷ p) (y ∷ q) (z ∷ r) (inr big) lb lc slow =
      let s1 = get_or (p ++ (y ∷ (q ++ (z ∷ (r ++ delta))))) 0 0 in
      let s2 = get_or (p ++ (y ∷ (q ++ (z ∷ (r ++ delta))))) 1 0 in
      decode-slow (x ∷ (p ++ (y ∷ (q ++ (z ∷ (r ++ delta)))))) (long x y z p q r)
        (omega (arith, (or-ge x s1 s2).0))
      ∙ ap fits slow
  lengths-decoded (x ∷ p) (y ∷ q) (z ∷ r) (inl sa) (inr big) lc slow =
      let s2 = get_or (q ++ (z ∷ (r ++ delta))) 0 0 in
      decode-slow (x ∷ (p ++ (y ∷ (q ++ (z ∷ (r ++ delta)))))) (long x y z p q r)
        (rw sa.2 (omega (arith, (or-ge x y s2).1)))
      ∙ ap fits slow
  lengths-decoded (x ∷ p) (y ∷ q) (z ∷ r) (inl sa) (inl sb) (inr big) slow =
      decode-slow (x ∷ (p ++ (y ∷ (q ++ (z ∷ (r ++ delta)))))) (long x y z p q r)
        (rw (sa.2, sb.2) (omega (arith, (or-ge x y z).2)))
      ∙ ap fits slow
  lengths-decoded (x ∷ p) (y ∷ q) (z ∷ r) (inl sa) (inl sb) (inl sc) slow =
      elim (Bool-cases (ltb (bit_or (bit_or x y) z) 128)) [
        | inr over ↦
            decode-slow (x ∷ (p ++ (y ∷ (q ++ (z ∷ (r ++ delta)))))) (long x y z p q r)
              (rw (sa.2, sb.2) (ground arith))
            ∙ ap fits slow
        | inl under ↦
            decode-fast (x ∷ (p ++ (y ∷ (q ++ (z ∷ (r ++ delta)))))) (long x y z p q r)
              (rw (sa.2, sb.2) under)
            ∙ rw (sa.2, sb.2, sc.2, sa.1, sb.1, sc.1) refl
      ]

-- DecodeEntry, on its fast path for three one-byte lengths and off it, reads back three 32-bit
-- lengths written as varints, and leaves what follows, if that is below 2^32 bytes and has room
-- for the key and the value.
pub decode_entry-lengths :
    (a b c : ℕ) (delta : Bytes)
    → IsU32 a
    → IsU32 b
    → IsU32 c
    → b + c ≤ length delta
    → length delta < 2 ^ 32
    → decode_entry (encode_varint32 a ++ (encode_varint32 b ++ (encode_varint32 c ++ delta)))
      ≡ some (record { shared = a; non_shared = b; value_length = c; delta = delta })
unfolding fits
decode_entry-lengths a b c delta ha hb hc room small =
    let lead =
      λ (v : ℕ) (h : IsU32 v). subst (Lead v) (sym (encode_varint32-groups v h)) (groups-Lead v) in
    let inside : ltb (length delta % 2 ^ 32) ((b + c) % 2 ^ 32) ≡ false = ltb-false (omega arith) in
    lengths-decoded a b c delta ha hb hc (encode_varint32 a) (encode_varint32 b) (encode_varint32 c)
      (lead a ha) (lead b hb) (lead c hc) (slow_path a b c delta ha hb hc)
    ∙ rw inside refl
