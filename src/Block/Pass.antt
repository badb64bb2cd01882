-- ===== src/Block/Pass.antt =====
-- A pass over a block gives the entries that its bytes hold.
use leveldb_mcpe_dotnet.Common.{
  ℕ, zero, suc, ◌+◌, ◌-◌, ◌%◌, ◌^◌, ◌≤◌, ◌<◌, Bool, true, false, Option, none, some, List, [], ◌∷◌,
  ◌++◌, append-nil, append_assoc, length, length-append, take, drop, ltb, leb, ltb-true, ltb-false,
  take-append_length, take-append-drop, drop-append_length, length-drop, ◌≡◌, refl, sym, ap, ◌∙◌,
  arith,
}
use leveldb_mcpe_dotnet.Common.Bytes.{Bytes}
use leveldb_mcpe_dotnet.Coding.{encode_varint32}
use leveldb_mcpe_dotnet.Iterator.{Entry}
use leveldb_mcpe_dotnet.Block.Reader.{
  BlockIter, is_valid, value_of, next_entry_offset, parse_entry, parse_next_key, next,
}
use leveldb_mcpe_dotnet.Block.Entries.{decode_entry-lengths, length-encode_varint32}
use leveldb_mcpe_dotnet.Block.Items.{
  Item, item_bytes, items_bytes, entries_of, Shares, length-item_bytes, item-rest, item-value,
  regroup, value_behind,
}

module _ (data_ : Bytes) (restarts num : ℕ) where
  -- The keys and values from the entry at hand on, at most `limit` of them.
  unfoldable pub collect : ℕ → BlockIter → Option (List Entry)
  collect zero i = none
  collect (suc limit) i = elim (is_valid data_ restarts num i) [
    | false ↦ some []
    | true ↦ elim (collect limit (next data_ restarts num i)) [
      | none ↦ none
      | some rest ↦ some ((i.key_, value_of data_ restarts num i) ∷ rest)
    ]
  ]

  collect-stop :
      (limit : ℕ) (i : BlockIter)
      → is_valid data_ restarts num i ≡ false
      → collect (suc limit) i ≡ some []
  unfolding collect
  collect-stop limit i h = rw (collect, h) refl

  collect-step :
      (limit : ℕ) (i : BlockIter) (key value : Bytes) (rest : List Entry)
      → is_valid data_ restarts num i ≡ true
      → i.key_ ≡ key
      → value_of data_ restarts num i ≡ value
      → collect limit (next data_ restarts num i) ≡ some rest
      → collect (suc limit) i ≡ some ((key, value) ∷ rest)
  unfolding collect
  collect-step limit i key value rest h k v r = rw (collect, h, r, v, k) refl

module _ (buffer tail : Bytes) (num : ℕ) (small : length buffer < 2 ^ 32) where
  abbrev pub parse : BlockIter → BlockIter × Bool
  parse i = parse_next_key (buffer ++ tail) (length buffer) num i

  -- What a parse leaves for the item at hand.
  record Parsed (before : Bytes) (item : Item) (i : BlockIter) : Type 0 where
    key_of : i.key_ ≡ item.1.0
    value_is : value_of (buffer ++ tail) (length buffer) num i ≡ item.1.1
    offset_of :
        next_entry_offset (buffer ++ tail) (length buffer) num i
        ≡ length (before ++ item_bytes item)
    current_of : i.current ≡ length before

  parse-item :
      (before rest : Bytes) (item : Item) (i : BlockIter)
      → buffer ≡ before ++ (item_bytes item ++ rest)
      → next_entry_offset (buffer ++ tail) (length buffer) num i ≡ length before
      → take item.0 i.key_ ≡ take item.0 item.1.0
      → item.0 ≤ length i.key_
      → item.0 ≤ length item.1.0
      → length item.1.0 < 2 ^ 32
      → Parsed before item (parse i).0
  unfolding parse_next_key parse_entry value_of next_entry_offset
  parse-item before rest (s, (key, value)) i at_item at_offset shared hs hk hkey =
      let n = length key - s in
      let delta = (drop s key ++ value) ++ rest in
      let long = length-item_bytes (s, (key, value)) in
      let total : length buffer
          ≡ length before + (length (item_bytes (s, (key, value))) + length rest) =
        ap length at_item
        ∙ (length-append before (item_bytes (s, (key, value)) ++ rest)
            ∙ ap (λ (x : ℕ). length before + x)
                (length-append (item_bytes (s, (key, value))) rest)) in
      let body : length delta ≡ n + length value + length rest = omega (
        arith,
        length-append (drop s key ++ value) rest,
        length-append (drop s key) value,
        length-drop s key,
      ) in
      let some_bytes = length-encode_varint32 s (omega arith) in
      let cur : next_entry_offset (buffer ++ tail) (length buffer) num i % 2 ^ 32 ≡ length before =
        omega arith in
      let inside : leb (length buffer) (length before) ≡ false = ground arith in
      let piece =
        ap (drop (length before)) (take-append_length buffer tail ∙ at_item)
        ∙ (drop-append_length before (item_bytes (s, (key, value)) ++ rest)
            ∙ item-rest s key value rest) in
      let decoded =
        decode_entry-lengths s n (length value) delta (omega arith) (omega arith) (omega arith)
          (omega arith) (omega arith) in
      let kept : ltb (length i.key_) s ≡ false = ltb-false hs in
      let taken : take n delta ≡ drop s key =
        rw (append_assoc (drop s key) value rest, sym (length-drop s key))
          (take-append_length (drop s key) (value ++ rest)) in
      let lengths =
        encode_varint32 s
        ++ (encode_varint32 n ++ (encode_varint32 (length value) ++ drop s key)) in
      let front = before ++ lengths in
      let at_value : buffer ++ tail ≡ front ++ (value ++ (rest ++ tail)) =
        ap (λ x. x ++ tail) (at_item ∙ ap (λ x. before ++ (x ++ rest)) (item-value s key value))
        ∙ regroup before lengths value rest tail in
      let front_length : length (item_bytes (s, (key, value))) ≡ length lengths + length value =
        ap length (item-value s key value) ∙ length-append lengths value in
      rw (parse_next_key, cur, inside, piece, decoded, parse_entry, kept)
        (record {
          key_of = rw (shared, taken) (take-append-drop s key);
          value_is =
              value_behind (buffer ++ tail) front value (rest ++ tail)
                (length buffer - length delta + n) at_value
                (omega (arith, front_length, length-append before lengths));
          offset_of = omega (arith, length-append before (item_bytes (s, (key, value))));
          current_of = cur;
        })

  parse-end :
      (i : BlockIter)
      → next_entry_offset (buffer ++ tail) (length buffer) num i ≡ length buffer
      → is_valid (buffer ++ tail) (length buffer) num (parse i).0 ≡ false
  unfolding parse_next_key is_valid
  parse-end i at_end =
      let cur : next_entry_offset (buffer ++ tail) (length buffer) num i % 2 ^ 32 ≡ length buffer =
        omega arith in
      let over : leb (length buffer) (length buffer) ≡ true = ground arith in
      rw (parse_next_key, cur, over) (ground arith)

  in_front :
      (before rest : Bytes) (item : Item) (i : BlockIter)
      → buffer ≡ before ++ (item_bytes item ++ rest)
      → i.current ≡ length before
      → item.0 ≤ length item.1.0
      → length item.1.0 < 2 ^ 32
      → is_valid (buffer ++ tail) (length buffer) num i ≡ true
  unfolding is_valid
  in_front before rest item i at_item h hk hkey =
      let total =
        ap length at_item
        ∙ (length-append before (item_bytes item ++ rest)
            ∙ ap (λ (x : ℕ). length before + x) (length-append (item_bytes item) rest)) in
      let some_bytes = length-encode_varint32 item.0 (omega arith) in
      let long = length-item_bytes item in
      let ahead : length before < length buffer = omega arith in rw h (ltb-true ahead)

  pub collect-items :
      (items : List Item) (before previous : Bytes) (i : BlockIter) (limit : ℕ)
      → buffer ≡ before ++ items_bytes items
      → next_entry_offset (buffer ++ tail) (length buffer) num i ≡ length before
      → i.key_ ≡ previous
      → Shares previous items
      → length items < limit
      → collect (buffer ++ tail) (length buffer) num limit (parse i).0 ≡ some (entries_of items)
  unfolding next
  collect-items items before previous i zero at_items at_offset key_is shares hl =
      absurd (omega arith)
  collect-items [] before previous i (suc limit) at_items at_offset key_is shares hl =
      let at_end = at_offset ∙ ap length (sym (at_items ∙ append-nil before)) in
      collect-stop (buffer ++ tail) (length buffer) num limit (parse i).0 (parse-end i at_end)
  collect-items (item ∷ items) before previous i (suc limit) at_items at_offset key_is shares hl =
      let p =
        parse-item before (items_bytes items) item i at_items at_offset (rw key_is shares.0)
          (rw key_is shares.1) shares.2 shares.3 in
      let later =
        collect-items items (before ++ item_bytes item) item.1.0 (parse i).0 limit
          (at_items ∙ sym (append_assoc before (item_bytes item) (items_bytes items))) p.offset_of
          p.key_of shares.4 (omega arith) in
      let valid =
        in_front before (items_bytes items) item (parse i).0 at_items p.current_of shares.2
          shares.3 in
      collect-step (buffer ++ tail) (length buffer) num limit (parse i).0 item.1.0 item.1.1
        (entries_of items) valid p.key_of p.value_is later
