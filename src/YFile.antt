-- ===== src/YFile.antt =====
-- Shared/yfile.c and yfile.h: files of the distributed file system and their blocks, and their form
-- on the wire. `size_t` has 32 bits, the size of the `int` that the format passes it as.
pub mod RoundTrip
mod Tests
use opsys_17b.Base.{
  ℕ, zero, suc, ◌+◌, ◌%◌, ◌^◌, ◌<◌, ◌≡◌, Option, none, some, List, [], ◌∷◌, ◌++◌, length, All, ℤ,
  pos, negsuc, to_word, IsSigned, leb, if◌then◌else◌,
}
use opsys_17b.Serial.{
  Serial, serial_empty, Code, Arg, int32, string, removed, untouched, fault, serial_add,
  serial_remove, IsArg,
}
use opsys_17b.Serial.Word.{resign}
use opsys_17b.Serial.Records.{Format, add_each, remove_while}

-- `t_ftype`, an `int` on the wire
pub data FType : Type 0 where
  txt bin : FType

pub record BlockCopy : Type 0 where
  pub blockno : ℤ
  pub node : Option (List ℕ)

pub record Block : Type 0 where
  pub index : ℤ
  pub size : ℕ
  pub copy0 : BlockCopy
  pub copy1 : BlockCopy

pub record YFile : Type 0 where
  pub path : Option (List ℕ)
  pub size : ℕ
  pub ftype : FType
  pub blocks : List Block

unfoldable pub yfile_create : Option (List ℕ) → FType → YFile
yfile_create path ftype = record { path = path; size = 0; ftype = ftype; blocks = [] }

-- The block gets its place in the list as its index, and the file grows by its size.
unfoldable pub yfile_addblock : YFile → Block → YFile
yfile_addblock file block = record file {
  blocks = file.blocks ++ record block { index = pos (length file.blocks) } ∷ [];
  size = (file.size + block.size) % 2 ^ 32;
}

abbrev pub ftype_int : FType → ℤ
ftype_int txt = pos 0
ftype_int bin = pos 1

abbrev pub ftype_of : ℤ → Option FType
ftype_of (pos n) = elim n [ zero ↦ some txt | suc k ↦ elim k [ zero ↦ some bin | suc _ ↦ none ] ]
ftype_of (negsuc n) = none

-- A `size_t` where the format takes an `int`.
abbrev pub int_of_size : ℕ → ℤ
int_of_size n = resign 0x7fff_ffff 0xffff_ffff (n % 2 ^ 32)

abbrev pub block_args : Block → List Arg
block_args b =
    int32 b.index
    ∷ int32 (int_of_size b.size)
    ∷ int32 b.copy0.blockno
    ∷ string b.copy0.node
    ∷ int32 b.copy1.blockno
    ∷ string b.copy1.node
    ∷ []

-- The fields as `serial_remove` sets them.
abbrev pub block_of_args : List Arg → Option Block
block_of_args (int32 i ∷ int32 n ∷ int32 b0 ∷ string n0 ∷ int32 b1 ∷ string n1 ∷ []) =
    some (record {
      index = i;
      size = to_word 32 n;
      copy0 = record { blockno = b0; node = n0 };
      copy1 = record { blockno = b1; node = n1 };
    })
block_of_args _ = none

-- "iiisis"
abbrev pub block_format : Format Block
block_format = record {
  format = Code.int32 ∷ Code.int32 ∷ Code.int32 ∷ Code.string ∷ Code.int32 ∷ Code.string ∷ [];
  args_of = block_args;
  of_args = block_of_args;
}

abbrev pub header_args : YFile → List Arg
header_args file =
    string file.path ∷ int32 (int_of_size file.size) ∷ int32 (ftype_int file.ftype) ∷ []

unfoldable pub yfile_pack : YFile → Option Serial
yfile_pack file = elim (serial_add (header_args file) serial_empty) [
  | none ↦ none
  | some s ↦ add_each block_format file.blocks s
]

-- The header as `serial_remove` sets it, over the fields that `yfile_create` gave.
unfoldable pub header_of_args : List Arg → Option YFile
header_of_args (string p ∷ int32 n ∷ int32 t ∷ []) = elim (ftype_of t) [
  | none ↦ none
  | some ft ↦ some (record { path = p; size = to_word 32 n; ftype = ft; blocks = [] })
]
header_of_args _ = none

unfoldable pub add_blocks : YFile → Serial → Option YFile
add_blocks file s = elim (remove_while (s.size + 1) block_format s) [
  | none ↦ none
  | some blocks ↦ some (record file { blocks = blocks })
]

-- Each round takes a byte at least, so one more than `size` rounds are enough fuel.
unfoldable pub yfile_unpack : Serial → Option YFile
yfile_unpack s = elim (serial_remove (Code.string ∷ Code.int32 ∷ Code.int32 ∷ []) s) [
  | fault ↦ none
  | untouched ↦ add_blocks (yfile_create none txt) s
  | removed args s' ↦ elim (header_of_args args) [ none ↦ none | some file ↦ add_blocks file s' ]
]

-- Fields within the range of C's types, in a signed 32-bit `int` where they pass through one.
abbrev pub IsBlock : Block → Type 0
IsBlock b =
    IsSigned 31 b.index
    × (b.size < 2 ^ 31)
    × IsSigned 31 b.copy0.blockno
    × IsArg (string b.copy0.node)
    × IsSigned 31 b.copy1.blockno
    × IsArg (string b.copy1.node)

abbrev pub IsYFile : YFile → Type 0
IsYFile f = IsArg (string f.path) × (f.size < 2 ^ 31) × All IsBlock f.blocks
