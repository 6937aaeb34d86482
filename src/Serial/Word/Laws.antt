-- ===== src/Serial/Word/Laws.antt =====
-- Shared/serial.c: the integer readers invert the integer writers.
use opsys_17b.Base.{
  ℕ, ◌+◌, ◌*◌, ◌%◌, ◌^◌, ◌<◌, ◌≡◌, refl, [], ◌∷◌, arith, bit_or, bit_or-add, ℤ, pos, negsuc,
  to_word, IsSigned, ◌∙◌,
}
use opsys_17b.Serial.Word.{
  IsByte, packi32, byte_at, resign, unpacku16, unpacku32, unpacku64, unpacki8, unpacki16, unpacki32,
  unpacki64,
}

-- What the readers compute, in plain arithmetic.
pub unpacku16_value : (b0 b1 : ℕ) → IsByte b1 → unpacku16 b0 b1 ≡ b0 * 2 ^ 8 + b1
unfolding unpacku16
unpacku16_value b0 b1 h = bit_or-add 8 b0 b1 h

-- One byte more under the bytes read so far.
or_byte : (k a b : ℕ) {n : ℕ} → n ≡ a * 2 ^ k → b < 2 ^ k → bit_or n b ≡ n + b
or_byte k a b e h = rw e (bit_or-add k a b h)

pub unpacku32_value :
    (b0 b1 b2 b3 : ℕ)
    → IsByte b1
    → IsByte b2
    → IsByte b3
    → unpacku32 b0 b1 b2 b3 ≡ b0 * 2 ^ 24 + b1 * 2 ^ 16 + b2 * 2 ^ 8 + b3
unfolding unpacku32
unpacku32_value b0 b1 b2 b3 h1 h2 h3 =
    rw (or_byte 24 b0 (b1 * 2 ^ 16) {n = b0 * 2 ^ 24} refl (omega arith)) (
      rw
        (or_byte 16 (b0 * 2 ^ 8 + b1) (b2 * 2 ^ 8) {n = b0 * 2 ^ 24 + b1 * 2 ^ 16} (omega arith)
          (omega arith))
        (or_byte 8 (b0 * 2 ^ 16 + b1 * 2 ^ 8 + b2) b3 (omega arith) h3))

pub unpacku64_value :
    (b0 b1 b2 b3 b4 b5 b6 b7 : ℕ)
    → IsByte b1
    → IsByte b2
    → IsByte b3
    → IsByte b4
    → IsByte b5
    → IsByte b6
    → IsByte b7
    → unpacku64 b0 b1 b2 b3 b4 b5 b6 b7
      ≡ b0 * 2 ^ 56
        + b1 * 2 ^ 48
        + b2 * 2 ^ 40
        + b3 * 2 ^ 32
        + b4 * 2 ^ 24
        + b5 * 2 ^ 16
        + b6 * 2 ^ 8
        + b7
unfolding unpacku64
unpacku64_value b0 b1 b2 b3 b4 b5 b6 b7 h1 h2 h3 h4 h5 h6 h7 =
    rw (or_byte 56 b0 (b1 * 2 ^ 48) {n = b0 * 2 ^ 56} refl (omega arith)) (
      rw
        (or_byte 48 (b0 * 2 ^ 8 + b1) (b2 * 2 ^ 40) {n = b0 * 2 ^ 56 + b1 * 2 ^ 48} (omega arith)
          (omega arith))
        (rw
          (or_byte 40 (b0 * 2 ^ 16 + b1 * 2 ^ 8 + b2) (b3 * 2 ^ 32)
            {n = b0 * 2 ^ 56 + b1 * 2 ^ 48 + b2 * 2 ^ 40} (omega arith) (omega arith))
          (rw
            (or_byte 32 (b0 * 2 ^ 24 + b1 * 2 ^ 16 + b2 * 2 ^ 8 + b3) (b4 * 2 ^ 24)
              {n = b0 * 2 ^ 56 + b1 * 2 ^ 48 + b2 * 2 ^ 40 + b3 * 2 ^ 32} (omega arith)
              (omega arith))
            (low_bytes (b0 * 2 ^ 24 + b1 * 2 ^ 16 + b2 * 2 ^ 8 + b3)
              {n = b0 * 2 ^ 56 + b1 * 2 ^ 48 + b2 * 2 ^ 40 + b3 * 2 ^ 32} (omega arith)))))
  where
    low_bytes :
        (a : ℕ) {n : ℕ}
        → n ≡ a * 2 ^ 32
        → bit_or (bit_or (bit_or (n + b4 * 2 ^ 24) (b5 * 2 ^ 16)) (b6 * 2 ^ 8)) b7
          ≡ n + b4 * 2 ^ 24 + b5 * 2 ^ 16 + b6 * 2 ^ 8 + b7
    low_bytes a {n} e =
        rw
          (or_byte 24 (a * 2 ^ 8 + b4) (b5 * 2 ^ 16) {n = n + b4 * 2 ^ 24} (omega arith)
            (omega arith))
          (rw
            (or_byte 16 (a * 2 ^ 16 + b4 * 2 ^ 8 + b5) (b6 * 2 ^ 8)
              {n = n + b4 * 2 ^ 24 + b5 * 2 ^ 16} (omega arith) (omega arith))
            (or_byte 8 (a * 2 ^ 24 + b4 * 2 ^ 16 + b5 * 2 ^ 8 + b6) b7 (omega arith) h7))

-- The bytes that a writer stores are read back as the number, cut to the width.
pub unpacku16-packi16 : (w : ℕ) → unpacku16 (byte_at w 8) (byte_at w 0) ≡ w % 2 ^ 16
unpacku16-packi16 w = omega (arith, unpacku16_value (byte_at w 8) (byte_at w 0) (omega arith))

pub unpacku32-packi32 :
    (w : ℕ) → unpacku32 (byte_at w 24) (byte_at w 16) (byte_at w 8) (byte_at w 0) ≡ w % 2 ^ 32
unpacku32-packi32 w = omega (
  arith,
  unpacku32_value (byte_at w 24) (byte_at w 16) (byte_at w 8) (byte_at w 0) (omega arith)
      (omega arith) (omega arith),
)

pub unpacku64-packi64 :
    (w : ℕ)
    → unpacku64
        (byte_at w 56)
        (byte_at w 48)
        (byte_at w 40)
        (byte_at w 32)
        (byte_at w 24)
        (byte_at w 16)
        (byte_at w 8)
        (byte_at w 0)
      ≡ w % 2 ^ 64
unpacku64-packi64 w =
    unpacku64_value (byte_at w 56) (byte_at w 48) (byte_at w 40) (byte_at w 32) (byte_at w 24)
      (byte_at w 16) (byte_at w 8) (byte_at w 0) (omega arith) (omega arith) (omega arith)
      (omega arith) (omega arith) (omega arith) (omega arith)
    ∙ omega arith

-- A signed number in range survives the conversion to a wider word, the bytes, and the way back.
pub unpacki8-byte_at : (z : ℤ) → IsSigned 7 z → unpacki8 (byte_at (to_word 32 z) 0) ≡ z
unfolding unpacki8
unpacki8-byte_at (pos n) h = ground arith
unpacki8-byte_at (negsuc n) h = ground arith

pub unpacki16-packi16 :
    (z : ℤ) → IsSigned 15 z → unpacki16 (byte_at (to_word 32 z) 8) (byte_at (to_word 32 z) 0) ≡ z
unfolding unpacki16 unpacku16
unpacki16-packi16 (pos n) h = ground (arith, unpacku16-packi16 (to_word 32 (pos n)))
unpacki16-packi16 (negsuc n) h = ground (arith, unpacku16-packi16 (to_word 32 (negsuc n)))

to_word-32 : (z : ℤ) → to_word 64 z % 2 ^ 32 ≡ to_word 32 z
to_word-32 (pos n) = omega arith
to_word-32 (negsuc n) = omega arith

resign-32 :
    (w : ℕ) (z : ℤ) → IsSigned 31 z → w ≡ to_word 32 z → resign 0x7fff_ffff 0xffff_ffff w ≡ z
resign-32 w (pos n) h e = ground arith
resign-32 w (negsuc n) h e = ground arith

pub unpacki32-packi32 :
    (z : ℤ)
    → IsSigned 31 z
    → let w = to_word 64 z in
      unpacki32 (byte_at w 24) (byte_at w 16) (byte_at w 8) (byte_at w 0) ≡ z
unfolding unpacki32
unpacki32-packi32 z h = resign-32 _ z h (unpacku32-packi32 (to_word 64 z) ∙ to_word-32 z)

to_word-64 : (z : ℤ) → to_word 64 z % 2 ^ 64 ≡ to_word 64 z
to_word-64 (pos n) = omega arith
to_word-64 (negsuc n) = omega arith

resign-64 :
    (w : ℕ) (z : ℤ)
    → IsSigned 63 z
    → w ≡ to_word 64 z
    → resign 0x7fff_ffff_ffff_ffff 0xffff_ffff_ffff_ffff w ≡ z
resign-64 w (pos n) h e = ground arith
resign-64 w (negsuc n) h e = ground arith

pub unpacki64-packi64 :
    (z : ℤ)
    → IsSigned 63 z
    → let w = to_word 64 z in
      unpacki64
        (byte_at w 56)
        (byte_at w 48)
        (byte_at w 40)
        (byte_at w 32)
        (byte_at w 24)
        (byte_at w 16)
        (byte_at w 8)
        (byte_at w 0)
      ≡ z
unfolding unpacki64
unpacki64-packi64 z h = resign-64 _ z h (unpacku64-packi64 (to_word 64 z) ∙ to_word-64 z)

-- The other way round: a number that was read writes the bytes that it was read from.
packi32-unpacki32 :
    (b0 b1 b2 b3 : ℕ)
    → IsByte b0
    → IsByte b1
    → IsByte b2
    → IsByte b3
    → packi32 (to_word 64 (unpacki32 b0 b1 b2 b3)) ≡ b0 ∷ b1 ∷ b2 ∷ b3 ∷ []
unfolding packi32 unpacki32
packi32-unpacki32 b0 b1 b2 b3 h0 h1 h2 h3 = ground (arith, unpacku32_value b0 b1 b2 b3)
