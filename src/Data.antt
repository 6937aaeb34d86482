-- ===== src/Data.antt =====
-- Shared/data.c: the blocks that a data node stores, in a mapped file. The map is the list of its bytes.
-- `none` is a fault: bytes outside the map or the block, or a place `blockno * BLOCK_SIZE` that is no
-- `int`. A block number is not negative.
pub mod Slots
mod Tests
use opsys_17b.Base.{
  ℕ, ◌+◌, ◌*◌, ◌/◌, Option, none, some, List, ltb, if◌then◌else◌, length, take, drop,
}
use opsys_17b.Blocks.{block_size, copy_to}

-- `data`
pub record Data : Type 0 where
  pub size : ℕ
  pub map : List ℕ

unfoldable pub data_set : ℕ → List ℕ → Data → Option Data
data_set blockno block d =
    if ltb 2047 blockno
    then none
    else if ltb (length block) block_size
    then none
    else elim (copy_to d.map (blockno * block_size) (take block_size block)) [
      | none ↦ none
      | some map ↦ some (record d { map = map })
    ]

-- The bytes of the block that the pointer is for.
unfoldable pub data_get : ℕ → Data → Option (List ℕ)
data_get blockno d =
    if ltb 2047 blockno
    then none
    else if ltb (length d.map) (blockno * block_size + block_size)
    then none
    else some (take block_size (drop (blockno * block_size) d.map))

unfoldable pub data_blocks : Data → ℕ
data_blocks d = d.size / block_size
