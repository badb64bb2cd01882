-- ===== src/Block/Built.antt =====
-- The items that `Add` writes, entry by entry.
use leveldb_mcpe_dotnet.Common.{
  ℕ, suc, ◌-◌, ◌%◌, ◌^◌, ◌≤◌, ◌<◌, List, [], ◌∷◌, ◌++◌, append-nil, append_assoc, length, take,
  drop, take-length, All, ltb, take-append-drop, length-drop, Bool-cases, inl, inr, ◌==◌,
  if◌then◌else◌, ◌≡◌, refl, sym, ap, ◌∙◌, arith,
}
use leveldb_mcpe_dotnet.Common.Bytes.{Bytes}
use mathlib.Core.Path.{subst}
use leveldb_mcpe_dotnet.Coding.{encode_varint32, put_varint32}
use leveldb_mcpe_dotnet.Comparator.{common_prefix}
use leveldb_mcpe_dotnet.Iterator.{Entry}
use leveldb_mcpe_dotnet.Block.{BlockBuilder, add}
use leveldb_mcpe_dotnet.Block.Items.{Item, item_bytes, items_bytes, entries_of, Shares}

unfoldable pub add_all : ℕ → BlockBuilder → List Entry → BlockBuilder
add_all interval b [] = b
add_all interval b (e ∷ entries) = add_all interval (add interval b e.0 e.1) entries

abbrev pub Fits : Entry → Type 0
Fits e = (length e.0 < 2 ^ 32) × (length e.1 < 2 ^ 32)

common_prefix-le : (a b : Bytes) → (common_prefix a b ≤ length a) × (common_prefix a b ≤ length b)
unfolding common_prefix
common_prefix-le [] b = (omega arith, omega arith)
common_prefix-le (x ∷ a) [] = (omega arith, omega arith)
common_prefix-le (x ∷ a) (y ∷ b) = let h = common_prefix-le a b in (ground arith, ground arith)

take-common_prefix : (a b : Bytes) → take (common_prefix a b) a ≡ take (common_prefix a b) b
unfolding common_prefix
take-common_prefix [] b = refl
take-common_prefix (x ∷ a) [] = refl
take-common_prefix (x ∷ a) (y ∷ b) = elim (Bool-cases (x == y)) [
  | inl same ↦ let e : x ≡ y = ground arith in rw (same, e, take-common_prefix a b) refl
  | inr other ↦ rw other refl
]

abbrev shared_of : ℕ → BlockBuilder → Bytes → ℕ
shared_of interval b key = if ltb b.counter interval then common_prefix b.last_key key else 0

shared_of-Shares :
    (interval : ℕ) (b : BlockBuilder) (key : Bytes)
    → (take (shared_of interval b key) b.last_key ≡ take (shared_of interval b key) key)
      × (shared_of interval b key ≤ length b.last_key)
      × (shared_of interval b key ≤ length key)
shared_of-Shares interval b key = elim (Bool-cases (ltb b.counter interval)) [
  | inl sharing ↦ rw sharing (
    take-common_prefix b.last_key key,
    (common_prefix-le b.last_key key).0,
    (common_prefix-le b.last_key key).1,
  )
  | inr restart ↦ rw restart (refl, omega arith, omega arith)
]

rest_of-key : (s : ℕ) (key : Bytes) → take (length key - s) (drop s key) ≡ drop s key
rest_of-key s key = rw (sym (length-drop s key)) (take-length (drop s key))

add-last_key :
    (interval : ℕ) (b : BlockBuilder) (key value : Bytes)
    → (add interval b key value).last_key ≡ key
unfolding add
add-last_key interval b key value =
    let s = shared_of interval b key in
    rw ((shared_of-Shares interval b key).0, rest_of-key s key) (take-append-drop s key)

regroup :
    (b x y z d v : Bytes) → ((((b ++ x) ++ y) ++ z) ++ d) ++ v ≡ b ++ (x ++ (y ++ (z ++ (d ++ v))))
regroup b x y z d v =
    append_assoc (((b ++ x) ++ y) ++ z) d v
    ∙ (append_assoc ((b ++ x) ++ y) z (d ++ v)
        ∙ (append_assoc (b ++ x) y (z ++ (d ++ v)) ∙ append_assoc b x (y ++ (z ++ (d ++ v)))))

add-buffer :
    (interval : ℕ) (b : BlockBuilder) (key value : Bytes)
    → Fits (key, value)
    → (add interval b key value).buffer
      ≡ b.buffer ++ item_bytes (shared_of interval b key, (key, value))
unfolding add put_varint32
add-buffer interval b key value h =
    let s = shared_of interval b key in
    let hs = (shared_of-Shares interval b key).2 in
    let e1 : s % 2 ^ 32 ≡ s = omega (arith, h.0) in
    let e2 : (length key - s) % 2 ^ 32 ≡ length key - s = omega (arith, h.0) in
    let e3 : length value % 2 ^ 32 ≡ length value = omega (arith, h.1) in
    rw (e1, e2, e3, rest_of-key s key)
      (regroup b.buffer (encode_varint32 s) (encode_varint32 (length key - s))
        (encode_varint32 (length value)) (drop s key) value)

abbrev pub items_from : ℕ → BlockBuilder → List Entry → List Item
items_from interval b [] = []
items_from interval b (e ∷ entries) =
    (shared_of interval b e.0, e) ∷ items_from interval (add interval b e.0 e.1) entries

pub add_all-buffer :
    (interval : ℕ) (b : BlockBuilder) (entries : List Entry)
    → All Fits entries
    → (add_all interval b entries).buffer ≡ b.buffer ++ items_bytes (items_from interval b entries)
unfolding add_all
add_all-buffer interval b [] h = sym (append-nil b.buffer)
add_all-buffer interval b (e ∷ entries) h =
    let item : Item = (shared_of interval b e.0, e) in
    let rest = items_bytes (items_from interval (add interval b e.0 e.1) entries) in
    add_all-buffer interval (add interval b e.0 e.1) entries h.1
    ∙ (ap (λ x. x ++ rest) (add-buffer interval b e.0 e.1 h.0)
        ∙ append_assoc b.buffer (item_bytes item) rest)

pub items_from-Shares :
    (interval : ℕ) (b : BlockBuilder) (entries : List Entry)
    → All Fits entries
    → Shares b.last_key (items_from interval b entries)
items_from-Shares interval b [] h = tt
items_from-Shares interval b (e ∷ entries) h =
    let s = shared_of-Shares interval b e.0 in
    let later = items_from-Shares interval (add interval b e.0 e.1) entries h.1 in
    let items = items_from interval (add interval b e.0 e.1) entries in
    (s.0, s.1, s.2, h.0.0, subst (λ key. Shares key items) (add-last_key interval b e.0 e.1) later)

pub entries_of-items_from :
    (interval : ℕ) (b : BlockBuilder) (entries : List Entry)
    → entries_of (items_from interval b entries) ≡ entries
entries_of-items_from interval b [] = refl
entries_of-items_from interval b (e ∷ entries) =
    ap (λ l. e ∷ l) (entries_of-items_from interval (add interval b e.0 e.1) entries)

pub length-items_from :
    (interval : ℕ) (b : BlockBuilder) (entries : List Entry)
    → length (items_from interval b entries) ≡ length entries
length-items_from interval b [] = refl
length-items_from interval b (e ∷ entries) =
    ap suc (length-items_from interval (add interval b e.0 e.1) entries)

add-restarts :
    (interval : ℕ) (b : BlockBuilder) (key value : Bytes) (more : List ℕ)
    → b.restarts ≡ 0 ∷ more
    → (later : List ℕ) × ((add interval b key value).restarts ≡ 0 ∷ later)
unfolding add
add-restarts interval b key value more h = elim (Bool-cases (ltb b.counter interval)) [
  | inl sharing ↦ (more, rw sharing h)
  | inr restart ↦ (more ++ (length b.buffer % 2 ^ 32 ∷ []), rw (restart, h) refl)
]

-- The first restart stays at the front.
pub add_all-restarts :
    (interval : ℕ) (b : BlockBuilder) (entries : List Entry) (more : List ℕ)
    → b.restarts ≡ 0 ∷ more
    → (later : List ℕ) × ((add_all interval b entries).restarts ≡ 0 ∷ later)
unfolding add_all
add_all-restarts interval b [] more h = (more, h)
add_all-restarts interval b (e ∷ entries) more h =
    let (later, k) = add-restarts interval b e.0 e.1 more h in
    add_all-restarts interval (add interval b e.0 e.1) entries later k
