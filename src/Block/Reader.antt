-- ===== src/Block/Reader.antt =====
-- table/block.cc: a block and the iterator over its entries. Offsets stand for pointers into the
-- data, and a piece of the data that ends at `limit` stands for a pointer that is read up to there.
use leveldb_mcpe_dotnet.Common.{
  ℕ, zero, suc, ◌+◌, ◌-◌, ◌*◌, ◌/◌, ◌%◌, ◌^◌, bit_or, Bool, true, false, Option, none, some, [],
  ◌++◌, length, take, drop, get_or, ltb, leb, ◌==◌, ◌&&◌, if◌then◌else◌,
}
use leveldb_mcpe_dotnet.Common.Bytes.{Bytes}
use leveldb_mcpe_dotnet.Coding.{decode_fixed32, get_varint32_ptr}
use leveldb_mcpe_dotnet.Comparator.{Comparator, is_lt}
use leveldb_mcpe_dotnet.Status.{Status}

pub record Block : Type 0 where
  pub data_ : Bytes
  pub size : ℕ
  pub restart_offset : ℕ

-- The last four bytes, of the bytes that the block counts.
unfoldable pub num_restarts : Bytes → ℕ → ℕ
num_restarts data_ size = decode_fixed32 (drop (size - 4) data_)

-- The offset of the restarts is not set for a block that is refused; 0 stands for it.
unfoldable pub new_block : Bytes → Block
new_block contents =
    let size = length contents in
    let n = num_restarts contents size in
    if ltb size 4
    then record { data_ = contents; size = 0; restart_offset = 0 }
    else if ltb ((size - 4) / 4) n
    then record { data_ = contents; size = 0; restart_offset = 0 }
    else record {
      data_ = contents;
      size = size;
      restart_offset = (size % 2 ^ 32 + 2 ^ 64 - (1 + n) % 2 ^ 32 * 4) % 2 ^ 32;
    }

pub record DecodedEntry : Type 0 where
  pub shared : ℕ
  pub non_shared : ℕ
  pub value_length : ℕ
  pub delta : Bytes

-- The three lengths behind the fast path.
unfoldable pub decode_lengths : Bytes → Option DecodedEntry
decode_lengths p = elim (get_varint32_ptr p) [
  | none ↦ none
  | some (shared, p1) ↦ elim (get_varint32_ptr p1) [
    | none ↦ none
    | some (non_shared, p2) ↦ elim (get_varint32_ptr p2) [
      | none ↦ none
      | some (value_length, p3) ↦ some (record {
        shared = shared;
        non_shared = non_shared;
        value_length = value_length;
        delta = p3;
      })
    ]
  ]
]

unfoldable pub fits : Option DecodedEntry → Option DecodedEntry
fits none = none
fits (some e) =
    if ltb (length e.delta % 2 ^ 32) ((e.non_shared + e.value_length) % 2 ^ 32)
    then none
    else some e

unfoldable pub decode_entry : Bytes → Option DecodedEntry
decode_entry p =
    let shared = get_or p 0 0 in
    let non_shared = get_or p 1 0 in
    let value_length = get_or p 2 0 in
    if ltb (length p) 3
    then none
    else if ltb (bit_or (bit_or shared non_shared) value_length) 128
    then fits (
        some (record {
          shared = shared;
          non_shared = non_shared;
          value_length = value_length;
          delta = drop 3 p;
        }))
    else fits (decode_lengths p)

-- `value_` is its offset in the data and its length.
pub record BlockIter : Type 0 where
  pub current : ℕ
  pub restart_index : ℕ
  pub key_ : Bytes
  pub value_at : ℕ
  pub value_size : ℕ
  pub status_ : Status

module _ (data_ : Bytes) (restarts num : ℕ) where
  unfoldable pub new_iter : BlockIter
  new_iter = record {
    current = restarts;
    restart_index = num;
    key_ = [];
    value_at = 0;
    value_size = 0;
    status_ = Status.ok;
  }

  unfoldable pub is_valid : BlockIter → Bool
  is_valid i = ltb i.current restarts

  unfoldable pub value_of : BlockIter → Bytes
  value_of i = take i.value_size (drop i.value_at data_)

  unfoldable pub next_entry_offset : BlockIter → ℕ
  next_entry_offset i = i.value_at + i.value_size

  unfoldable pub get_restart_point : ℕ → ℕ
  get_restart_point index = decode_fixed32 (drop (restarts + index * 4) data_)

  unfoldable pub seek_to_restart_point : BlockIter → ℕ → BlockIter
  seek_to_restart_point i index = record i {
    key_ = [];
    restart_index = index;
    value_at = get_restart_point index;
    value_size = 0;
  }

  -- `value_` is no piece of the data any more; its offset is not read again.
  unfoldable pub corruption_error : BlockIter → BlockIter
  corruption_error i = record {
    current = restarts;
    restart_index = num;
    key_ = [];
    value_at = 0;
    value_size = 0;
    status_ = Status.corruption "bad entry in block";
  }

  -- The loop that moves on to the restart block of the entry, on fuel for the restarts.
  unfoldable pub advance : ℕ → ℕ → ℕ → ℕ
  advance zero current index = index
  advance (suc fuel) current index =
      let later = advance fuel current (index + 1) in
      if ltb (index + 1) num && ltb (get_restart_point (index + 1)) current then later else index

  unfoldable pub parse_entry : BlockIter → Option DecodedEntry → BlockIter × Bool
  parse_entry i none = (corruption_error i, false)
  parse_entry i (some e) = if ltb (length i.key_) e.shared then (corruption_error i, false) else (
    record i {
      key_ = take e.shared i.key_ ++ take e.non_shared e.delta;
      value_at = restarts - length e.delta + e.non_shared;
      value_size = e.value_length;
      restart_index = advance num i.current i.restart_index;
    },
    true,
  )

  unfoldable pub parse_next_key : BlockIter → BlockIter × Bool
  parse_next_key i =
      let current = next_entry_offset i % 2 ^ 32 in
      if leb restarts current
      then (record i { current = restarts; restart_index = num }, false)
      else parse_entry (record i { current = current })
          (decode_entry (drop current (take restarts data_)))

  unfoldable pub next : BlockIter → BlockIter
  next i = (parse_next_key i).0

  unfoldable pub seek_to_first : BlockIter → BlockIter
  seek_to_first i = (parse_next_key (seek_to_restart_point i 0)).0

  -- The loops that parse until an offset is reached, on fuel for the entries.
  unfoldable pub parse_until : ℕ → BlockIter → ℕ → Option BlockIter
  parse_until zero i target = none
  parse_until (suc fuel) i target =
      let parsed = parse_next_key i in
      elim (parsed.1 && ltb (next_entry_offset parsed.0) target) [
        | true ↦ parse_until fuel parsed.0 target
        | false ↦ some parsed.0
      ]

  unfoldable pub seek_to_last : ℕ → BlockIter → Option BlockIter
  seek_to_last fuel i = parse_until fuel (seek_to_restart_point i (num - 1)) restarts

  -- The last restart point before `original`, from an index on down.
  unfoldable pub restart_before : ℕ → ℕ → Option ℕ
  restart_before zero original = if leb original (get_restart_point 0) then none else some 0
  restart_before (suc index) original =
      let earlier = restart_before index original in
      if leb original (get_restart_point (suc index)) then earlier else some (suc index)

  unfoldable pub prev : ℕ → BlockIter → Option BlockIter
  prev fuel i = elim (restart_before i.restart_index i.current) [
    | none ↦ some (record i { current = restarts; restart_index = num })
    | some index ↦ parse_until fuel (seek_to_restart_point i index) i.current
  ]

  module _ (comparator : Comparator) where
    -- The binary search in the restarts: the left end, or none where an entry is bad.
    unfoldable pub seek_restart : ℕ → Bytes → ℕ → ℕ → Option ℕ
    seek_restart zero target left right = some left
    seek_restart (suc fuel) target left right =
        let mid = (left + right + 1) % 2 ^ 32 / 2 in
        elim (ltb left right) [
          | false ↦ some left
          | true ↦ elim (decode_entry (drop (get_restart_point mid) (take restarts data_))) [
            | none ↦ none
            | some e ↦ elim (e.shared == 0) [
              | false ↦ none
              | true ↦ elim (is_lt (comparator.compare (take e.non_shared e.delta) target)) [
                | true ↦ seek_restart fuel target mid right
                | false ↦ seek_restart fuel target left (mid - 1)
              ]
            ]
          ]
        ]

    -- The linear search behind the restart point, on fuel for the entries.
    unfoldable pub seek_linear : ℕ → BlockIter → Bytes → Option BlockIter
    seek_linear zero i target = none
    seek_linear (suc fuel) i target =
        let parsed = parse_next_key i in
        elim (parsed.1 && is_lt (comparator.compare parsed.0.key_ target)) [
          | true ↦ seek_linear fuel parsed.0 target
          | false ↦ some parsed.0
        ]

    unfoldable pub seek : ℕ → BlockIter → Bytes → Option BlockIter
    seek fuel i target = elim (seek_restart num target 0 (num - 1)) [
      | none ↦ some (corruption_error i)
      | some left ↦ seek_linear fuel (seek_to_restart_point i left) target
    ]
