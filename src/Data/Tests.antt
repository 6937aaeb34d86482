-- ===== src/Data/Tests.antt =====
-- Shared/data.c on a data space of two blocks.
use opsys_17b.Base.{
  ℕ, zero, suc, ◌*◌, ◌≡◌, refl, ap, false, some, List, [], ◌∷◌, arith, ◌==◌, length, ◌<◌,
}
use opsys_17b.Blocks.{block_size}
use opsys_17b.Data.{Data, data_set, data_get, data_blocks}
use opsys_17b.Data.Slots.{IsMapped, data_get-data_set}

-- As many bytes of one value.
same_byte : ℕ → ℕ → List ℕ
same_byte c zero = []
same_byte c (suc n) = c ∷ same_byte c n

length-same_byte : (c n : ℕ) → length (same_byte c n) ≡ n
unfolding same_byte
length-same_byte c zero = refl
length-same_byte c (suc n) = ap suc (length-same_byte c n)

abbrev two_blocks : Data
two_blocks = record { size = 2 * block_size; map = same_byte 0 (2 * block_size) }

two_blocks_run : data_blocks two_blocks ≡ 2
unfolding data_blocks block_size
two_blocks_run = refl

data_get-data_set_example :
    (d' : Data) × (data_set 1 (same_byte 7 block_size) two_blocks ≡ some d')
    × (data_get 1 d' ≡ some (same_byte 7 block_size))
    × ((j : ℕ)
        → j < data_blocks two_blocks
        → (1 == j) ≡ false
        → data_get j d' ≡ data_get j two_blocks)
    × IsMapped d'
    × (data_blocks d' ≡ data_blocks two_blocks)
data_get-data_set_example =
    data_get-data_set two_blocks 1 (same_byte 7 block_size) (length-same_byte 0 (2 * block_size))
      (rw two_blocks_run (omega arith)) (rw two_blocks_run (omega arith))
      (length-same_byte 7 block_size)
