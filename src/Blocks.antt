-- ===== src/Blocks.antt =====
-- FileSystem/src/filetable.c with Shared/file.c: how the contents of a file are cut into blocks, and put_piece
-- together again from its blocks. A mapped file is the list of its bytes. A `none` around a result is a
-- fault: a write outside a buffer or a map, or NULL read through.
pub mod Fill
pub mod Pieces
pub mod Write
pub mod Partition
pub mod Reconstruct
pub mod Count
pub mod LongLine
pub mod Written
pub mod RoundTrip
mod Tests
use opsys_17b.Base.{
  ℕ, zero, suc, ◌+◌, ◌-◌, ◌*◌, ◌/◌, ◌%◌, ◌^◌, Bool, true, false, Option, none, some, List, [], ◌∷◌,
  ◌++◌, map, ◌==◌, leb, ltb, if◌then◌else◌, length, take, drop, get_elem?, pos,
}
use opsys_17b.YFile.{FType, txt, bin, Block, YFile, yfile_addblock}

-- `BLOCK_SIZE`; it is unfolded only where its value matters.
unfoldable pub block_size : ℕ
block_size = 1048576

-- The pieces that `fread` gives `file_btraverse`: `left` more bytes go into the piece begun.
unfoldable pub pieces_loop : List ℕ → ℕ → List ℕ → List (List ℕ)
pieces_loop cur left [] = if length cur == 0 then [] else cur ∷ []
pieces_loop cur zero (c ∷ s) = cur ∷ pieces_loop (c ∷ []) 4095 s
pieces_loop cur (suc left) (c ∷ s) = pieces_loop (cur ++ (c ∷ [])) left s

abbrev pub pieces : List ℕ → List (List ℕ)
pieces s = pieces_loop [] 4096 s

-- The lines that `getline` gives `file_ltraverse`, each with its line feed.
unfoldable pub lines_loop : List ℕ → List ℕ → List (List ℕ)
lines_loop cur [] = if length cur == 0 then [] else cur ∷ []
lines_loop cur (c ∷ s) =
    let rest = lines_loop (if c == b'\n' then [] else cur ++ (c ∷ [])) s in
    if c == b'\n' then (cur ++ (c ∷ [])) ∷ rest else rest

abbrev pub lines : List ℕ → List (List ℕ)
lines s = lines_loop [] s

-- The bytes of a text up to the first zero byte.
unfoldable pub c_string : List ℕ → List ℕ
c_string [] = []
c_string (c ∷ s) = if c == 0 then [] else c ∷ c_string s

-- `memcpy` to a place in a buffer.
unfoldable pub copy_to : List ℕ → ℕ → List ℕ → Option (List ℕ)
copy_to target at bytes =
    if ltb (length target) (at + length bytes)
    then none
    else some (take at target ++ (bytes ++ drop (at + length bytes) target))

-- The target and the file that blocks are added to; without them they are counted only.
abbrev pub Sink : Type 0
Sink = Option (List ℕ × YFile)

-- A block that `calloc` gave, and its size.
abbrev pub new_block : ℕ → Block
new_block size = record {
  index = pos 0;
  size = size;
  copy0 = record { blockno = pos 0; node = none };
  copy1 = record { blockno = pos 0; node = none };
}

-- The place of a block is a product of two `int`, which overflows from number 2,048 on.
unfoldable pub add_block : List ℕ → ℕ → ℕ → Sink → Option (ℕ × Sink)
add_block block blockno size none = some (if size == 0 then 0 else 1, none)
add_block block blockno size (some (target, file)) =
    if size == 0
    then some (0, some (target, file))
    else if ltb 2047 blockno
    then none
    else elim (copy_to target (blockno * block_size) (take block_size block)) [
      | none ↦ none
      | some target' ↦ some (1, some (target', yfile_addblock file (new_block size)))
    ]

-- The variables that the handlers of `partition_text_file` and `partition_bin_file` share.
pub record State : Type 0 where
  pub buffer : List ℕ
  pub size : ℕ
  pub count : ℕ
  pub sink : Sink

unfoldable pub flush : State → Option State
flush st = elim (add_block st.buffer st.count st.size st.sink) [
  | none ↦ none
  | some (n, sink) ↦ some (record st { size = 0; count = st.count + n; sink = sink })
]

unfoldable pub put_piece : List ℕ → List ℕ → State → Option State
put_piece end piece st = elim (copy_to st.buffer st.size (piece ++ end)) [
  | none ↦ none
  | some buffer ↦ some (record st { buffer = buffer; size = st.size + length piece })
]

-- `line_handler` writes the line and a zero byte; `block_handler` has no such end.
unfoldable pub handler : List ℕ → List ℕ → State → Option State
handler end piece st =
    if ltb block_size (st.size + length piece + length end)
    then elim (flush st) [ none ↦ none | some st' ↦ put_piece end piece st' ]
    else put_piece end piece st

-- The traversal, and the last block.
unfoldable pub partition : List ℕ → List (List ℕ) → State → Option (ℕ × Sink)
partition end [] st = elim (flush st) [ none ↦ none | some st' ↦ some (st'.count, st'.sink) ]
partition end (piece ∷ rest) st = elim (handler end piece st) [
  | none ↦ none
  | some st' ↦ partition end rest st'
]

-- `buffer` is what the stack held.
abbrev pub start : List ℕ → Sink → State
start buffer sink = record { buffer = buffer; size = 0; count = 0; sink = sink }

unfoldable pub partition_text_file : List ℕ → List ℕ → Sink → Option (ℕ × Sink)
partition_text_file buffer source sink =
    partition (0 ∷ []) (map (λ line. c_string line) (lines source)) (start buffer sink)

unfoldable pub partition_bin_file : List ℕ → List ℕ → Sink → Option (ℕ × Sink)
partition_bin_file buffer source sink = partition [] (pieces source) (start buffer sink)

unfoldable pub partition_file_into_blocks : FType → List ℕ → List ℕ → Sink → Option (ℕ × Sink)
partition_file_into_blocks txt buffer source sink = partition_text_file buffer source sink
partition_file_into_blocks bin buffer source sink = partition_bin_file buffer source sink

-- Rounding a quotient up.
unfoldable pub count_file_blocks : FType → List ℕ → List ℕ → Option ℕ
count_file_blocks txt buffer source = elim (partition_text_file buffer source none) [
  | none ↦ none
  | some (n, sink) ↦ some n
]
count_file_blocks bin buffer source = some ((length source + (block_size - 1)) / block_size)

-- The variables of `reconstruct_file`, and what it has written.
pub record Copy : Type 0 where
  pub out : List ℕ
  pub index : ℕ
  pub block : Option Block
  pub size : ℕ

-- `size_t` has 32 bits.
abbrev pub size_sub : ℕ → ℕ → ℕ
size_sub a b = (a + 2 ^ 32 - b) % 2 ^ 32

abbrev pub number_min : ℕ → ℕ → ℕ
number_min a b = if ltb a b then a else b

-- `next_block`; `index` is one more than the source's.
unfoldable pub next_block : List Block → Copy → Bool × Copy
next_block blocks st = elim (get_elem? blocks st.index) [
  | none ↦ (false, record st { index = st.index + 1; block = none })
  | some b ↦ (true, record st { index = st.index + 1; block = some b; size = 0 })
]

-- One turn of the loop of `traverser`: whether it goes on, the offset and the bytes left in the piece.
unfoldable pub turn : List Block → List ℕ → ℕ → ℕ → Block → Copy → Option (Bool × ℕ × ℕ × Copy)
turn blocks piece offset cur block st =
    let bytes = number_min cur (size_sub block.size st.size) in
    let size = st.size + bytes in
    let written = record st { out = st.out ++ take bytes (drop offset piece); size = size } in
    if ltb (length piece) (offset + bytes)
    then none
    else if size == block.size
    then (let (more, st') = next_block blocks written in
        some (more, offset + size_sub block_size size + bytes, cur - bytes, st'))
    else some (true, offset + bytes, cur - bytes, written)

-- A turn that writes no byte leaves the piece, so a piece has no more turns than bytes.
unfoldable pub traverser_loop : ℕ → List Block → List ℕ → ℕ → ℕ → Copy → Option (Bool × Copy)
traverser_loop zero blocks piece offset cur st = none
traverser_loop (suc fuel) blocks piece offset cur st =
    if ltb offset (length piece)
    then elim st.block [
      | none ↦ none
      | some block ↦ elim (turn blocks piece offset cur block st) [
        | none ↦ none
        | some (false, offset', cur', st') ↦ some (false, st')
        | some (true, offset', cur', st') ↦ traverser_loop fuel blocks piece offset' cur' st'
      ]
    ]
    else some (true, st)

unfoldable pub traverser : List Block → List ℕ → Copy → Option (Bool × Copy)
traverser blocks piece st =
    if st.size == block_size
    then (let (more, st') = next_block blocks st in
        if more
        then traverser_loop (length piece + 1) blocks piece 0 (length piece) st'
        else some (false, st'))
    else traverser_loop (length piece + 1) blocks piece 0 (length piece) st

-- `file_btraverse` of it
unfoldable pub traverse : List Block → List (List ℕ) → Copy → Option Copy
traverse blocks [] st = some st
traverse blocks (piece ∷ rest) st = elim (traverser blocks piece st) [
  | none ↦ none
  | some (false, st') ↦ some st'
  | some (true, st') ↦ traverse blocks rest st'
]

unfoldable pub reconstruct_file : List Block → List ℕ → Option (List ℕ)
reconstruct_file blocks bytes =
    elim (traverse blocks (pieces bytes)
      (record { out = []; index = 0; block = none; size = block_size })) [
        | none ↦ none
        | some st ↦ some st.out
      ]
