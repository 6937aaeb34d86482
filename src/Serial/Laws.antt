-- ===== src/Serial/Laws.antt =====
-- Shared/serial.c, `remove_variadic`: each case reads back what the same case of `add_variadic`
-- stored, and leaves what follows.
use opsys_17b.Base.{
  ℕ, zero, suc, ◌%◌, ◌^◌, ◌<◌, ◌≡◌, refl, false, none, some, List, [], ◌∷◌, ◌++◌, arith, length,
  take, take-length, append_assoc, All, pos, map,
}
use opsys_17b.Serial.{
  serial, Code, Arg, int8, uint8, int16, uint16, int32, uint32, int64, uint64, string, binary,
  null_string, same_bytes, code, encode, split_string, split_bytes, read, read_all, IsArg,
}
use opsys_17b.Serial.Growth.{encode_all}
use opsys_17b.Serial.Word.{packi16, packi32, packi64, unpacki32, byte_at}
use opsys_17b.Serial.Word.Laws.{
  unpacki8-byte_at, unpacki16-packi16, unpacki32-packi32, unpacki64-packi64, unpacku16-packi16,
  unpacku32-packi32, unpacku64-packi64,
}

split_string-append :
    (s rest : List ℕ) → All (λ b. 0 < b) s → split_string (s ++ 0 ∷ rest) ≡ some (s, rest)
unfolding split_string
split_string-append [] rest h = refl
split_string-append (zero ∷ s) rest h = absurd (omega arith)
split_string-append (suc b ∷ s) rest h = rw (split_string-append s rest h.1)

split_bytes-append : (xs rest : List ℕ) → split_bytes (length xs) (xs ++ rest) ≡ some (xs, rest)
unfolding split_bytes
split_bytes-append [] rest = refl
split_bytes-append (x ∷ xs) rest = rw (split_bytes-append xs rest)

read_string :
    (s rest : List ℕ)
    → All (λ b. 0 < b) s
    → same_bytes s null_string ≡ false
    → read Code.string ((s ++ 0 ∷ []) ++ rest) ≡ some (string (some s), rest)
unfolding read
read_string s rest h ne = rw append_assoc (rw (split_string-append s rest h, read) (rw ne))

small_word : (n : ℕ) → n < 2 ^ 31 → n % 2 ^ 64 ≡ n
small_word n h = omega arith

read_size :
    (n : ℕ)
    → n < 2 ^ 31
    → unpacki32 (byte_at n 24) (byte_at n 16) (byte_at n 8) (byte_at n 0) ≡ pos n
read_size n h = rw (small_word n h) at (unpacki32-packi32 (pos n) h)

read_binary :
    (bs : List ℕ) (n : ℕ) (rest : List ℕ)
    → length bs ≡ n
    → n < 2 ^ 31
    → read Code.binary ((packi32 n ++ take n bs) ++ rest) ≡ some (binary (serial bs n), rest)
unfolding read packi32
read_binary bs n rest e h =
    rw (read_size n h, read)
      (rw (← e, read) (rw (take-length bs, read) (rw (split_bytes-append bs rest, read) (rw e))))

-- Every case of `serial_remove` reads back the argument that the same letter of `serial_add` wrote.
pub read-encode :
    (a : Arg) (rest : List ℕ) → IsArg a → read (code a) (encode a ++ rest) ≡ some (a, rest)
unfolding read encode packi16 packi32 packi64
read-encode (int8 z) rest h = rw (unpacki8-byte_at z h)
read-encode (uint8 n) rest h = let e : byte_at n 0 ≡ n = omega arith in rw e
read-encode (int16 z) rest h = rw (unpacki16-packi16 z h)
read-encode (uint16 n) rest h = let e : n % 2 ^ 16 ≡ n = omega arith in rw (unpacku16-packi16 n, e)
read-encode (int32 z) rest h = rw (unpacki32-packi32 z h)
read-encode (uint32 n) rest h = let e : n % 2 ^ 32 ≡ n = omega arith in rw (unpacku32-packi32 n, e)
read-encode (int64 z) rest h = rw (unpacki64-packi64 z h)
read-encode (uint64 n) rest h = let e : n % 2 ^ 64 ≡ n = omega arith in rw (unpacku64-packi64 n, e)
read-encode (string none) rest h = unfold split_string in refl
read-encode (string (some s)) rest h = read_string s rest h.0 h.1
read-encode (binary x) rest h = read_binary x.bytes x.size rest h.0 h.1

abbrev pub codes : List Arg → List Code
codes = map code

pub read_all-encode_all :
    (args : List Arg) (rest : List ℕ)
    → All IsArg args
    → read_all (codes args) (encode_all args ++ rest) ≡ some (args, rest)
unfolding read_all encode_all
read_all-encode_all [] rest h = refl
read_all-encode_all (a ∷ args) rest h = rw append_assoc (
    rw (read-encode a (encode_all args ++ rest) h.0, read_all)
      (rw (read_all-encode_all args rest h.1)))
