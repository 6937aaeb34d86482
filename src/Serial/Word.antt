-- ===== src/Serial/Word.antt =====
-- Shared/serial.c, the integer codecs: `packi16`, `packi32`, `packi64` and the `unpack` functions.
-- A byte is a number below 256, and a buffer is the list of its bytes.
pub mod Laws
use opsys_17b.Base.{
  ℕ, ◌-◌, ◌*◌, ◌/◌, ◌%◌, ◌^◌, ◌<◌, List, [], ◌∷◌, bit_or, leb, if◌then◌else◌, ℤ, pos, negsuc,
}

abbrev pub IsByte : ℕ → Type 0
IsByte b = b < 256

-- `*buf++ = i >> k`: the store keeps the low eight bits.
abbrev pub byte_at : ℕ → ℕ → ℕ
byte_at i k = i / 2 ^ k % 256

unfoldable pub packi16 : ℕ → List ℕ
packi16 i = byte_at i 8 ∷ byte_at i 0 ∷ []

unfoldable pub packi32 : ℕ → List ℕ
packi32 i = byte_at i 24 ∷ byte_at i 16 ∷ byte_at i 8 ∷ byte_at i 0 ∷ []

unfoldable pub packi64 : ℕ → List ℕ
packi64 i =
    byte_at i 56
    ∷ byte_at i 48
    ∷ byte_at i 40
    ∷ byte_at i 32
    ∷ byte_at i 24
    ∷ byte_at i 16
    ∷ byte_at i 8
    ∷ byte_at i 0
    ∷ []

unfoldable pub unpacku16 : ℕ → ℕ → ℕ
unpacku16 b0 b1 = bit_or (b0 * 2 ^ 8) b1

unfoldable pub unpacku32 : ℕ → ℕ → ℕ → ℕ → ℕ
unpacku32 b0 b1 b2 b3 = bit_or (bit_or (bit_or (b0 * 2 ^ 24) (b1 * 2 ^ 16)) (b2 * 2 ^ 8)) b3

unfoldable pub unpacku64 : ℕ → ℕ → ℕ → ℕ → ℕ → ℕ → ℕ → ℕ → ℕ
unpacku64 b0 b1 b2 b3 b4 b5 b6 b7 =
    bit_or
      (bit_or
        (bit_or
          (bit_or (bit_or (bit_or (bit_or (b0 * 2 ^ 56) (b1 * 2 ^ 48)) (b2 * 2 ^ 40)) (b3 * 2 ^ 32))
            (b4 * 2 ^ 24))
          (b5 * 2 ^ 16))
        (b6 * 2 ^ 8))
      b7

-- The sign change at the end of each signed reader: `-1 - (top - i2)` is `negsuc (top - i2)`.
abbrev pub resign : ℕ → ℕ → ℕ → ℤ
resign half top i2 = if leb i2 half then pos i2 else negsuc (top - i2)

unfoldable pub unpacki16 : ℕ → ℕ → ℤ
unpacki16 b0 b1 = resign 0x7fff 0xffff (bit_or (b0 * 2 ^ 8) b1)

unfoldable pub unpacki32 : ℕ → ℕ → ℕ → ℕ → ℤ
unpacki32 b0 b1 b2 b3 = resign 0x7fff_ffff 0xffff_ffff (unpacku32 b0 b1 b2 b3)

unfoldable pub unpacki64 : ℕ → ℕ → ℕ → ℕ → ℕ → ℕ → ℕ → ℕ → ℤ
unpacki64 b0 b1 b2 b3 b4 b5 b6 b7 =
    resign 0x7fff_ffff_ffff_ffff 0xffff_ffff_ffff_ffff (unpacku64 b0 b1 b2 b3 b4 b5 b6 b7)

-- The reader of `case 'c'`, on the byte as a number.
unfoldable pub unpacki8 : ℕ → ℤ
unpacki8 b = resign 0x7f 0xff b
