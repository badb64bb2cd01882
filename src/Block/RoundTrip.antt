-- ===== src/Block/RoundTrip.antt =====
-- What is added to a builder is what an iterator over the finished block gives.
use leveldb_mcpe_dotnet.Common.{
  ℕ, suc, ◌+◌, ◌-◌, ◌*◌, ◌%◌, ◌/◌, ◌^◌, ◌<◌, false, Option, some, List, [], ◌∷◌, ◌++◌, append-nil,
  append_assoc, length, length-append, drop, All, ltb, ltb-false, drop-append_length, ◌≡◌, refl,
  sym, ap, ◌∙◌, arith,
}
use leveldb_mcpe_dotnet.Common.Bytes.{Bytes}
use leveldb_mcpe_dotnet.Coding.{put_fixed32, encode_fixed32, decode_fixed32}
use leveldb_mcpe_dotnet.Coding.Fixed.{decode_fixed32-encode_fixed32, length-encode_fixed32}
use leveldb_mcpe_dotnet.Iterator.{Entry}
use leveldb_mcpe_dotnet.FilterBlock.Layout.{words, length-words}
use leveldb_mcpe_dotnet.Block.{BlockBuilder, new_block_builder, put_restarts, finish}
use leveldb_mcpe_dotnet.Block.Reader.{
  Block, new_block, num_restarts, new_iter, seek_to_first, seek_to_restart_point, get_restart_point,
  next_entry_offset,
}
use leveldb_mcpe_dotnet.Block.Items.{Item, items_bytes, entries_of, Shares}
use leveldb_mcpe_dotnet.Block.Pass.{collect, collect-items}
use leveldb_mcpe_dotnet.Block.Built.{
  add_all, Fits, items_from, add_all-buffer, items_from-Shares, entries_of-items_from,
  length-items_from, add_all-restarts,
}

put_restarts-words : (r : Bytes) (vs : List ℕ) → put_restarts r vs ≡ r ++ words vs
unfolding put_restarts put_fixed32
put_restarts-words r [] = sym (append-nil r)
put_restarts-words r (v ∷ vs) =
    put_restarts-words (r ++ encode_fixed32 v) vs ∙ append_assoc r (encode_fixed32 v) (words vs)

-- The last words of a block.
abbrev trailer : List ℕ → Bytes
trailer restarts = words restarts ++ encode_fixed32 (length restarts)

length-trailer :
    (buffer : Bytes) (restarts : List ℕ) (v : ℕ)
    → length (buffer ++ (words restarts ++ encode_fixed32 v))
      ≡ length buffer + length restarts * 4 + 4
length-trailer buffer restarts v = omega (
  arith,
  length-append buffer (words restarts ++ encode_fixed32 v),
  length-append (words restarts) (encode_fixed32 v),
  length-words restarts,
  length-encode_fixed32 v,
)

length-finish :
    (b : BlockBuilder) → length (finish b).buffer ≡ length b.buffer + length b.restarts * 4 + 4
unfolding finish put_fixed32
length-finish b =
    let v = length b.restarts % 2 ^ 32 in
    rw
      (
        put_restarts-words b.buffer b.restarts,
        append_assoc b.buffer (words b.restarts) (encode_fixed32 v),
      )
      (length-trailer b.buffer b.restarts v)

finish-trailer :
    (b : BlockBuilder)
    → length b.restarts < 2 ^ 32
    → (finish b).buffer ≡ b.buffer ++ trailer b.restarts
unfolding finish put_fixed32
finish-trailer b h =
    let e : length b.restarts % 2 ^ 32 ≡ length b.restarts = omega arith in
    rw (e, put_restarts-words b.buffer b.restarts)
      (append_assoc b.buffer (words b.restarts) (encode_fixed32 (length b.restarts)))

block-trailer :
    (buffer : Bytes) (restarts : List ℕ)
    → length (buffer ++ trailer restarts) < 2 ^ 32
    → new_block (buffer ++ trailer restarts) ≡ record {
      data_ = buffer ++ trailer restarts;
      size = length buffer + length restarts * 4 + 4;
      restart_offset = length buffer;
    }
unfolding new_block num_restarts
block-trailer buffer restarts h =
    let w = words restarts in
    let e = encode_fixed32 (length restarts) in
    let total : length (buffer ++ (w ++ e)) ≡ length buffer + length restarts * 4 + 4 =
      omega (arith, length-trailer buffer restarts (length restarts)) in
    let long : ltb (length buffer + length restarts * 4 + 4) 4 ≡ false = ltb-false (omega arith) in
    let back : length buffer + length restarts * 4 + 4 - 4 ≡ length (buffer ++ w) =
      omega (arith, length-append buffer w, length-words restarts) in
    let word : decode_fixed32 (drop (length (buffer ++ w)) (buffer ++ (w ++ e))) ≡ length restarts =
      rw (sym (append_assoc buffer w e), drop-append_length (buffer ++ w) e, ← append-nil e)
        (decode_fixed32-encode_fixed32 (length restarts) [] (omega (arith, total))) in
    let room : ltb (length (buffer ++ w) / 4) (length restarts) ≡ false =
      ltb-false (omega (arith, length-append buffer w, length-words restarts)) in
    let offset : ((length buffer + length restarts * 4 + 4) % 2 ^ 32
            + 2 ^ 64
            - (1 + length restarts) % 2 ^ 32 * 4)
          % 2 ^ 32
        ≡ length buffer =
      omega (arith, total) in
    rw (total, long, back, word, room, offset) refl

first_restart :
    (buffer : Bytes) (more : List ℕ) (num : ℕ)
    → get_restart_point (buffer ++ trailer (0 ∷ more)) (length buffer) num 0 ≡ 0
unfolding get_restart_point
first_restart buffer more num =
    let e : length buffer + 0 ≡ length buffer = omega arith in
    rw
      (
        e,
        drop-append_length buffer (trailer (0 ∷ more)),
        append_assoc (encode_fixed32 0) (words more) (encode_fixed32 (suc (length more))),
      )
      (decode_fixed32-encode_fixed32 0 (words more ++ encode_fixed32 (suc (length more)))
        (omega arith))

-- Opens a block and goes over it from `SeekToFirst`.
unfoldable pub read_entries : Block → ℕ → Option (List Entry)
read_entries block limit =
    let num = num_restarts block.data_ block.size in
    let start = new_iter block.data_ block.restart_offset num in
    collect block.data_ block.restart_offset num limit
      (seek_to_first block.data_ block.restart_offset num start)

read_entries-trailer :
    (buffer : Bytes) (more : List ℕ) (items : List Item)
    → buffer ≡ items_bytes items
    → Shares [] items
    → length (buffer ++ trailer (0 ∷ more)) < 2 ^ 32
    → read_entries (new_block (buffer ++ trailer (0 ∷ more))) (suc (length items))
      ≡ some (entries_of items)
unfolding read_entries seek_to_first seek_to_restart_point new_iter next_entry_offset
read_entries-trailer buffer more items h shares small =
    let tail = trailer (0 ∷ more) in
    let num = num_restarts (buffer ++ tail) (length buffer + length (0 ∷ more) * 4 + 4) in
    let start =
      seek_to_restart_point (buffer ++ tail) (length buffer) num
        (new_iter (buffer ++ tail) (length buffer) num) 0 in
    let front : get_restart_point (buffer ++ tail) (length buffer) num 0 + 0 ≡ 0 =
      omega (arith, first_restart buffer more num) in
    let fits : length buffer < 2 ^ 32 = omega (arith, length-append buffer tail) in
    rw (block-trailer buffer (0 ∷ more) small) (
      collect-items buffer tail num fits items [] [] start (suc (length items)) h front refl shares
        (omega arith))

-- For any restart interval and list of entries with keys and values below 2^32 bytes, added to a
-- new block builder, if the finished block is below 2^32 bytes, then an iterator over it gives, by
-- SeekToFirst and Next until it is not valid, exactly the entries in the order in which they were
-- added.
pub read_entries-finish :
    (interval : ℕ) (entries : List Entry)
    → All Fits entries
    → length (finish (add_all interval new_block_builder entries)).buffer < 2 ^ 32
    → read_entries
        (new_block (finish (add_all interval new_block_builder entries)).buffer)
        (suc (length entries))
      ≡ some entries
unfolding new_block_builder
read_entries-finish interval entries h small =
    let b = add_all interval new_block_builder entries in
    let items = items_from interval new_block_builder entries in
    let (more, first) = add_all-restarts interval new_block_builder entries [] refl in
    let made : (finish b).buffer ≡ b.buffer ++ trailer (0 ∷ more) =
      finish-trailer b (omega (arith, length-finish b)) ∙ ap (λ rs. b.buffer ++ trailer rs) first in
    let read =
      read_entries-trailer b.buffer more items (add_all-buffer interval new_block_builder entries h)
        (items_from-Shares interval new_block_builder entries h) (rw (sym made) small) in
    rw (made, sym (length-items_from interval new_block_builder entries))
      (read ∙ ap some (entries_of-items_from interval new_block_builder entries))
