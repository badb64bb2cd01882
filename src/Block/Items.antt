-- ===== src/Block/Items.antt =====
-- The bytes of the entries of a block.
use leveldb_mcpe_dotnet.Common.{
  ℕ, ◌+◌, ◌-◌, ◌^◌, ◌≤◌, ◌<◌, List, [], ◌∷◌, ◌++◌, append_assoc, length, length-append, take, drop,
  take-append_length, drop-append_length, length-drop, ◌≡◌, sym, ap, ◌∙◌, arith,
}
use leveldb_mcpe_dotnet.Common.Bytes.{Bytes}
use leveldb_mcpe_dotnet.Coding.{encode_varint32}
use leveldb_mcpe_dotnet.Iterator.{Entry}

-- An entry as it is written: how many bytes of its key are those of the key before.
abbrev pub Item : Type 0
Item = ℕ × Entry

abbrev pub item_bytes : Item → Bytes
item_bytes (s, (key, value)) =
    encode_varint32 s
    ++ (encode_varint32 (length key - s)
        ++ (encode_varint32 (length value) ++ (drop s key ++ value)))

abbrev pub items_bytes : List Item → Bytes
items_bytes [] = []
items_bytes (item ∷ items) = item_bytes item ++ items_bytes items

abbrev pub entries_of : List Item → List Entry
entries_of [] = []
entries_of (item ∷ items) = item.1 ∷ entries_of items

-- The shared bytes are those of the key before, and the lengths fit 32 bits.
abbrev pub Shares : Bytes → List Item → Type 0
Shares previous [] = Unit {0}
Shares previous (item ∷ items) =
    (take item.0 previous ≡ take item.0 item.1.0)
    × (item.0 ≤ length previous)
    × (item.0 ≤ length item.1.0)
    × (length item.1.0 < 2 ^ 32)
    × Shares item.1.0 items

pub length-item_bytes :
    (item : Item)
    → length (item_bytes item)
      ≡ length (encode_varint32 item.0)
        + length (encode_varint32 (length item.1.0 - item.0))
        + length (encode_varint32 (length item.1.1))
        + (length item.1.0 - item.0)
        + length item.1.1
length-item_bytes (s, (key, value)) =
    let es = encode_varint32 s in
    let en = encode_varint32 (length key - s) in
    let ev = encode_varint32 (length value) in
    omega (
      arith,
      length-append es (en ++ (ev ++ (drop s key ++ value))),
      length-append en (ev ++ (drop s key ++ value)),
      length-append ev (drop s key ++ value),
      length-append (drop s key) value,
      length-drop s key,
    )

-- The bytes of an item in front of others, with the lengths in front of the rest.
pub item-rest :
    (s : ℕ) (key value rest : Bytes)
    → item_bytes (s, (key, value)) ++ rest
      ≡ encode_varint32 s
        ++ (encode_varint32 (length key - s)
            ++ (encode_varint32 (length value) ++ ((drop s key ++ value) ++ rest)))
item-rest s key value rest =
    let es = encode_varint32 s in
    let en = encode_varint32 (length key - s) in
    let ev = encode_varint32 (length value) in
    let b = drop s key ++ value in
    append_assoc es (en ++ (ev ++ b)) rest
    ∙ ap (λ x. es ++ x)
        (append_assoc en (ev ++ b) rest ∙ ap (λ x. en ++ x) (append_assoc ev b rest))

-- The same, cut in front of the value.
pub item-value :
    (s : ℕ) (key value : Bytes)
    → item_bytes (s, (key, value))
      ≡ (encode_varint32 s
          ++ (encode_varint32 (length key - s) ++ (encode_varint32 (length value) ++ drop s key)))
        ++ value
item-value s key value =
    let es = encode_varint32 s in
    let en = encode_varint32 (length key - s) in
    let ev = encode_varint32 (length value) in
    let d = drop s key in
    sym (
      append_assoc es (en ++ (ev ++ d)) value
      ∙ ap (λ x. es ++ x)
          (append_assoc en (ev ++ d) value ∙ ap (λ x. en ++ x) (append_assoc ev d value)))

pub regroup : (b e v r t : Bytes) → (b ++ ((e ++ v) ++ r)) ++ t ≡ (b ++ e) ++ (v ++ (r ++ t))
regroup b e v r t =
    append_assoc b ((e ++ v) ++ r) t
    ∙ (ap (λ x. b ++ x) (append_assoc (e ++ v) r t ∙ append_assoc e v (r ++ t))
        ∙ sym (append_assoc b e (v ++ (r ++ t))))

pub value_behind :
    (data_ front value more : Bytes) (at : ℕ)
    → data_ ≡ front ++ (value ++ more)
    → at ≡ length front
    → take (length value) (drop at data_) ≡ value
value_behind data_ front value more at h k =
    rw (h, k, drop-append_length front (value ++ more)) (take-append_length value more)
