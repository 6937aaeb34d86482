-- ===== src/YFile/RoundTrip.antt =====
-- Shared/yfile.c: `yfile_unpack` inverts `yfile_pack`.
use opsys_17b.Base.{
  ℕ, ◌+◌, ◌%◌, ◌^◌, ◌<◌, ◌≤◌, ◌≡◌, refl, some, List, [], ◌++◌, arith, inl, inr, Option-cases,
  length, All, pos, IsSigned,
}
use opsys_17b.Serial.{Serial, IsArg, serial_add}
use opsys_17b.Serial.Growth.{encode_all}
use opsys_17b.Serial.Queue.{
  whole, serial_add-whole, serial_add-whole_inv, serial_remove-whole, length-encode_all_pos,
}
use opsys_17b.Serial.Records.{
  IsFormat, encode_records, add_each, add_each_lem, add_each_inv, remove_while_lem,
  length-encode_records_ge,
}
use opsys_17b.YFile.{
  FType, txt, bin, Block, YFile, int_of_size, block_args, block_of_args, block_format, header_args,
  header_of_args, add_blocks, yfile_pack, yfile_unpack, ftype_of, IsBlock, IsYFile, ftype_int,
}

pub int_of_size_small : (n : ℕ) → n < 2 ^ 31 → int_of_size n ≡ pos n
int_of_size_small n h = ground arith

pub word_small : (n : ℕ) → n < 2 ^ 31 → n % 2 ^ 32 ≡ n
word_small n h = omega arith

block_of_args-block_args : (b : Block) → IsBlock b → block_of_args (block_args b) ≡ some b
block_of_args-block_args b h = rw (int_of_size_small b.size h.1) (rw (word_small b.size h.1))

block_args-IsArg : (b : Block) → IsBlock b → All IsArg (block_args b)
block_args-IsArg b h =
    rw (int_of_size_small b.size h.1) (h.0, (h.1, (h.2, (h.3, (h.4, (h.5, tt))))))

block_format-IsFormat : IsFormat block_format IsBlock
block_format-IsFormat = record {
  codes-args_of = λ b. refl;
  args_of-IsArg = block_args-IsArg;
  args_of_pos = λ b. length-encode_all_pos _ _;
  of_args-args_of = block_of_args-block_args;
}

ftype_int-IsSigned : (t : FType) → IsSigned 31 (ftype_int t)
ftype_int-IsSigned txt = omega arith
ftype_int-IsSigned bin = omega arith

ftype_of-ftype_int : (t : FType) → ftype_of (ftype_int t) ≡ some t
ftype_of-ftype_int txt = refl
ftype_of-ftype_int bin = refl

header_args-IsArg : (f : YFile) → IsYFile f → All IsArg (header_args f)
header_args-IsArg f h =
    rw (int_of_size_small f.size h.1) (h.0, (h.1, (ftype_int-IsSigned f.ftype, tt)))

header_of_args-header_args :
    (f : YFile) → IsYFile f → header_of_args (header_args f) ≡ some (record f { blocks = [] })
unfolding header_of_args
header_of_args-header_args f h =
    rw (ftype_of-ftype_int f.ftype, header_of_args)
      (rw (int_of_size_small f.size h.1) (rw (word_small f.size h.1)))

-- What a packed file looks like on the wire: the header, then one record for each block.
unfoldable pub encode_file : YFile → List ℕ
encode_file f = encode_all (header_args f) ++ encode_records block_format f.blocks

-- A file whose texts are short enough for the buffer and the container.
pub record IsShort (f : YFile) : Type 0 where
  pub header : length (encode_all (header_args f)) ≤ 2 ^ 31
  pub blocks : All (λ b. length (encode_all (block_args b)) ≤ 2 ^ 31) f.blocks
  pub whole_file :
      length (encode_all (header_args f)) + length (encode_records block_format f.blocks) < 2 ^ 32

-- `yfile_pack` of a file in range, with such texts, succeeds.
pub yfile_pack_lem :
    (f : YFile) → IsYFile f → IsShort f → yfile_pack f ≡ some (whole (encode_file f))
unfolding yfile_pack encode_file
yfile_pack_lem f h short =
    let head = short.header in
    rw
      (
        serial_add-whole (header_args f) [] (header_args-IsArg f h) head (omega (arith, head)),
        yfile_pack,
      )
      (add_each_lem block_format-IsFormat f.blocks (encode_all (header_args f)) h.2 short.blocks
        short.whole_file)

-- Whenever it succeeds.
yfile_pack_inv : (f : YFile) (s : Serial) → yfile_pack f ≡ some s → s ≡ whole (encode_file f)
unfolding yfile_pack encode_file
yfile_pack_inv f s e = elim (Option-cases (serial_add (header_args f) (whole []))) [
  | inl out ↦ absurd (ground (arith, e, out))
  | inr (t, run) ↦
      let made : t ≡ whole (encode_all (header_args f)) =
        serial_add-whole_inv (header_args f) [] t run in
      let rest : add_each block_format f.blocks t ≡ some s = rw (run, yfile_pack) at e in
      add_each_inv block_format f.blocks (encode_all (header_args f)) s (rw made at rest)
]

add_blocks_lem :
    (f : YFile) (bs : List Block)
    → All IsBlock bs
    → add_blocks f (whole (encode_records block_format bs)) ≡ some (record f { blocks = bs })
unfolding add_blocks
add_blocks_lem f bs h = rw (
  remove_while_lem block_format-IsFormat (length (encode_records block_format bs) + 1) bs h
      (omega (arith, length-encode_records_ge block_format-IsFormat bs)),
  add_blocks,
)

-- A file in range that the file system packs is the file that the other side unpacks: path, size,
-- type, and every block with its index, size and both copies, in order.
pub yfile_unpack-yfile_pack :
    (f : YFile) (s : Serial) → IsYFile f → yfile_pack f ≡ some s → yfile_unpack s ≡ some f
unfolding yfile_unpack encode_file
yfile_unpack-yfile_pack f s h e = rw s_lem (
    rw
      (
        serial_remove-whole (header_args f) (encode_records block_format f.blocks)
            (header_args-IsArg f h) (length-encode_all_pos _ _),
        yfile_unpack,
      )
      (rw (header_of_args-header_args f h, yfile_unpack)
        (add_blocks_lem (record f { blocks = [] }) f.blocks h.2)))
  where
    s_lem : s ≡ whole (encode_all (header_args f) ++ encode_records block_format f.blocks)
    s_lem = yfile_pack_inv f s e
