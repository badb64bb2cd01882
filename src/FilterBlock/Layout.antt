-- ===== src/FilterBlock/Layout.antt =====
-- The layout of a filter block: the filters, a word for the offset of each, a word for the offset
-- of the words, and the base.
use leveldb_mcpe_dotnet.Common.{
  ℕ, zero, suc, ◌+◌, ◌-◌, ◌*◌, ◌%◌, ◌^◌, ◌≤◌, ◌<◌, List, [], ◌∷◌, ◌++◌, append-nil, append_assoc,
  length, drop, get_or, All, All-append, ◌≡◌, refl, sym, ◌∙◌, arith, length-append, drop-append,
}
use leveldb_mcpe_dotnet.Common.Bytes.{Bytes, IsU32}
use leveldb_mcpe_dotnet.Coding.{put_fixed32, encode_fixed32, decode_fixed32}
use leveldb_mcpe_dotnet.Coding.Fixed.{decode_fixed32-encode_fixed32, length-encode_fixed32}
use leveldb_mcpe_dotnet.FilterPolicy.{FilterPolicy, IsFilterPolicy}
use leveldb_mcpe_dotnet.FilterBlock.{put_offsets}
use leveldb_mcpe_dotnet.FilterBlock.Builder.{Group, filter_of, filters, offsets}

abbrev pub words : List ℕ → Bytes
words [] = []
words (v ∷ vs) = encode_fixed32 v ++ words vs

pub put_offsets-words : (r : Bytes) (vs : List ℕ) → put_offsets r vs ≡ r ++ words vs
unfolding put_offsets put_fixed32
put_offsets-words r [] = sym (append-nil r)
put_offsets-words r (v ∷ vs) =
    put_offsets-words (r ++ encode_fixed32 v) vs ∙ append_assoc r (encode_fixed32 v) (words vs)

pub words-snoc : (vs : List ℕ) (v : ℕ) → words (vs ++ (v ∷ [])) ≡ words vs ++ encode_fixed32 v
words-snoc [] v = append-nil (encode_fixed32 v)
words-snoc (w ∷ vs) v =
    rw (words-snoc vs v) (sym (append_assoc (encode_fixed32 w) (words vs) (encode_fixed32 v)))

pub length-words : (vs : List ℕ) → length (words vs) ≡ length vs * 4
length-words [] = refl
length-words (v ∷ vs) =
    omega
      (arith, length-append (encode_fixed32 v) (words vs), length-encode_fixed32 v, length-words vs)

pub decode-words :
    (vs : List ℕ) (i : ℕ) (rest : Bytes)
    → All IsU32 vs
    → i < length vs
    → decode_fixed32 (drop (i * 4) (words vs ++ rest)) ≡ get_or vs i 0
decode-words [] i rest small hi = absurd (omega arith)
decode-words (v ∷ vs) zero rest small hi =
    rw (append_assoc (encode_fixed32 v) (words vs) rest)
      (decode_fixed32-encode_fixed32 v (words vs ++ rest) small.0)
decode-words (v ∷ vs) (suc i) rest small hi =
    let e : suc i * 4 ≡ 4 + i * 4 = omega arith in
    let past =
      drop-append (4 + i * 4) (encode_fixed32 v) (words vs ++ rest)
        (omega (arith, length-encode_fixed32 v)) in
    let left : 4 + i * 4 - 4 ≡ i * 4 = omega arith in
    rw (e, append_assoc (encode_fixed32 v) (words vs) rest, past, length-encode_fixed32 v, left)
      (decode-words vs i rest small.1 (omega arith))

module _ (policy : FilterPolicy) (law : IsFilterPolicy policy) where
  -- Where filter `i` starts.
  abbrev pub filter_start : List Group → ℕ → ℕ
  filter_start [] i = 0
  filter_start (g ∷ gs) zero = 0
  filter_start (g ∷ gs) (suc i) = length (filter_of policy law g) + filter_start gs i

  pub filter_start-le :
      (gs : List Group) (i : ℕ) → filter_start gs i ≤ length (filters policy law gs)
  filter_start-le [] i = omega arith
  filter_start-le (g ∷ gs) zero = omega arith
  filter_start-le (g ∷ gs) (suc i) =
      omega (
        arith,
        filter_start-le gs i,
        length-append (filter_of policy law g) (filters policy law gs),
      )

  pub filter_start-length :
      (gs : List Group) → filter_start gs (length gs) ≡ length (filters policy law gs)
  filter_start-length [] = refl
  filter_start-length (g ∷ gs) = omega (
    arith,
    filter_start-length gs,
    length-append (filter_of policy law g) (filters policy law gs),
  )

  pub filter_start-next :
      (gs : List Group) (i : ℕ)
      → i < length gs
      → filter_start gs (suc i) ≡ filter_start gs i + length (filter_of policy law (get_or gs i []))
  filter_start-next [] i hi = absurd (omega arith)
  filter_start-next (g ∷ []) zero hi = omega arith
  filter_start-next (g ∷ h ∷ gs) zero hi = omega arith
  filter_start-next (g ∷ gs) (suc i) hi = omega (arith, filter_start-next gs i (omega arith))

  pub drop-filters :
      (gs : List Group) (i : ℕ) (rest : Bytes)
      → i < length gs
      → (more : Bytes) × (drop (filter_start gs i) (filters policy law gs ++ rest)
          ≡ filter_of policy law (get_or gs i []) ++ more)
  drop-filters [] i rest hi = absurd (omega arith)
  drop-filters (g ∷ gs) zero rest hi = (
    filters policy law gs ++ rest,
    append_assoc (filter_of policy law g) (filters policy law gs) rest,
  )
  drop-filters (g ∷ gs) (suc i) rest hi =
      let (more, e) = drop-filters gs i rest (omega arith) in
      let f = filter_of policy law g in
      let s = filter_start gs i in
      let left : length f + s - length f ≡ s = omega arith in
      let past = drop-append (length f + s) f (filters policy law gs ++ rest) (omega arith) in
      (more, rw (append_assoc f (filters policy law gs) rest, past, left) e)

  -- The words of the offsets.
  abbrev pub offset_words : List Group → List ℕ
  offset_words gs = offsets policy law 0 gs ++ (length (filters policy law gs) % 2 ^ 32 ∷ [])

  get_or-offsets :
      (base : ℕ) (gs : List Group) (i : ℕ)
      → i ≤ length gs
      → get_or
          (offsets policy law base gs ++ ((base + length (filters policy law gs)) % 2 ^ 32 ∷ []))
          i
          0
        ≡ (base + filter_start gs i) % 2 ^ 32
  get_or-offsets base [] zero hi = refl
  get_or-offsets base [] (suc i) hi = absurd (omega arith)
  get_or-offsets base (g ∷ gs) zero hi = let e : base + 0 ≡ base = omega arith in rw e refl
  get_or-offsets base (g ∷ gs) (suc i) hi =
      let n = length (filter_of policy law g) in
      let total : base + length (filter_of policy law g ++ filters policy law gs)
          ≡ base + n + length (filters policy law gs) =
        omega (arith, length-append (filter_of policy law g) (filters policy law gs)) in
      let place : base + (n + filter_start gs i) ≡ base + n + filter_start gs i = omega arith in
      rw (total, place) (get_or-offsets (base + n) gs i (omega arith))

  pub get_or-offset_words :
      (gs : List Group) (i : ℕ)
      → i ≤ length gs
      → length (filters policy law gs) < 2 ^ 32
      → get_or (offset_words gs) i 0 ≡ filter_start gs i
  get_or-offset_words gs i hi small =
      let e : 0 + length (filters policy law gs) ≡ length (filters policy law gs) = omega arith in
      let place : (0 + filter_start gs i) % 2 ^ 32 ≡ filter_start gs i =
        omega (arith, filter_start-le gs i) in
      (rw e at (get_or-offsets 0 gs i hi)) ∙ place

  offsets-IsU32 : (base : ℕ) (gs : List Group) → All IsU32 (offsets policy law base gs)
  offsets-IsU32 base [] = tt
  offsets-IsU32 base (g ∷ gs) =
      (omega arith, offsets-IsU32 (base + length (filter_of policy law g)) gs)

  pub offset_words-IsU32 : (gs : List Group) → All IsU32 (offset_words gs)
  offset_words-IsU32 gs =
      All-append IsU32 (offsets policy law 0 gs) (length (filters policy law gs) % 2 ^ 32 ∷ [])
        (offsets-IsU32 0 gs) (omega arith, tt)
