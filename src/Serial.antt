-- ===== src/Serial.antt =====
-- Shared/serial.c: `t_serial`, `serial_add` and `serial_remove` over a format and its arguments.
-- A format letter is a `Code`, and a letter with its argument is an `Arg`; the letters `f` and `d`
-- are left out. A `char*` is its bytes without the closing zero, `none` for NULL.
pub mod Word
pub mod Growth
pub mod Endless
pub mod Laws
pub mod Queue
pub mod Records
mod Types
mod Tests
use opsys_17b.Base.{
  ℕ, zero, suc, ◌+◌, ◌-◌, ◌*◌, ◌%◌, ◌^◌, ◌≤◌, ◌<◌, ◌≡◌, ◌≢◌, Bool, true, false, Option, none, some,
  List, [], ◌∷◌, ◌++◌, leb, ltb, ◌==◌, if◌then◌else◌, length, take, All, ℤ, pos, negsuc, to_word,
  IsSigned,
}
use opsys_17b.Serial.Word.{
  byte_at, packi16, packi32, packi64, unpacku16, unpacku32, unpacku64, unpacki8, unpacki16,
  unpacki32, unpacki64,
}

pub record Serial : Type 0 where
  pub bytes : List ℕ
  pub size : ℕ

abbrev pub serial : List ℕ → ℕ → Serial
serial bs n = record { bytes = bs; size = n }

pub data Code : Type 0 where
  int8 uint8 int16 uint16 int32 uint32 int64 uint64 string binary : Code

pub data Arg : Type 0 where
  int8 : ℤ → Arg
  uint8 : ℕ → Arg
  int16 : ℤ → Arg
  uint16 : ℕ → Arg
  int32 : ℤ → Arg
  uint32 : ℕ → Arg
  int64 : ℤ → Arg
  uint64 : ℕ → Arg
  string : Option (List ℕ) → Arg
  binary : Serial → Arg

abbrev pub code : Arg → Code
code (int8 z) = Code.int8
code (uint8 n) = Code.uint8
code (int16 z) = Code.int16
code (uint16 n) = Code.uint16
code (int32 z) = Code.int32
code (uint32 n) = Code.uint32
code (int64 z) = Code.int64
code (uint64 n) = Code.uint64
code (string s) = Code.string
code (binary x) = Code.binary

-- "__NULL__"
abbrev pub null_string : List ℕ
null_string = 95 ∷ 95 ∷ 78 ∷ 85 ∷ 76 ∷ 76 ∷ 95 ∷ 95 ∷ []

abbrev pub or_null : Option (List ℕ) → List ℕ
or_null none = null_string
or_null (some s) = s

-- `len` of each case of `add_variadic`.
unfoldable pub size_of : Arg → ℕ
size_of (int8 z) = 1
size_of (uint8 n) = 1
size_of (int16 z) = 2
size_of (uint16 n) = 2
size_of (int32 z) = 4
size_of (uint32 n) = 4
size_of (int64 z) = 8
size_of (uint64 n) = 8
size_of (string s) = length (or_null s) + 1
size_of (binary x) = 4 + x.size

-- What each case stores at `buf`.
unfoldable pub encode : Arg → List ℕ
encode (int8 z) = byte_at (to_word 32 z) 0 ∷ []
encode (uint8 n) = byte_at n 0 ∷ []
encode (int16 z) = packi16 (to_word 32 z)
encode (uint16 n) = packi16 n
encode (int32 z) = packi32 (to_word 64 z)
encode (uint32 n) = packi32 n
encode (int64 z) = packi64 (to_word 64 z)
encode (uint64 n) = packi64 n
encode (string s) = or_null s ++ 0 ∷ []
encode (binary x) = packi32 x.size ++ take x.size x.bytes

-- The local buffer: `bytes` lies between `buffer` and `buf`, `cap` is what `malloc` gave.
pub record Buffer : Type 0 where
  pub bytes : List ℕ
  pub cap : ℕ

abbrev pub buffer : List ℕ → ℕ → Buffer
buffer bs n = record { bytes = bs; cap = n }

-- `while(size + len > cap) cap *= 2`, on fuel, with a `cap` of 32 bits: once it is 0 it stays 0.
-- `none` means that the fuel ran out.
unfoldable pub grow : ℕ → ℕ → ℕ → Option ℕ
grow zero need cap = none
grow (suc fuel) need cap =
    let rest = grow fuel need (cap * 2 % 2 ^ 32) in if leb need cap then some cap else rest

-- `resize_buffer`, where `size + len` has 32 bits. One round for each byte that is needed is enough fuel
-- for up to 2 ^ 31 of them; for more the loop does not end.
unfoldable pub resize_buffer : ℕ → Buffer → Option Buffer
resize_buffer len b =
    let need = (length b.bytes + len) % 2 ^ 32 in
    if leb need b.cap
    then some b
    else elim (grow (suc need) need b.cap) [ none ↦ none | some cap ↦ some (buffer b.bytes cap) ]

-- A store at `buf`; past the end of the buffer it is a fault.
unfoldable pub store : List ℕ → Buffer → Option Buffer
store bs b =
    if leb (length b.bytes + length bs) b.cap then some (buffer (b.bytes ++ bs) b.cap) else none

unfoldable pub put : Arg → Buffer → Option Buffer
put a b = elim (resize_buffer (size_of a) b) [ none ↦ none | some b' ↦ store (encode a) b' ]

unfoldable pub put_all : List Arg → Buffer → Option Buffer
put_all [] b = some b
put_all (a ∷ args) b = elim (put a b) [ none ↦ none | some b' ↦ put_all args b' ]

-- What `add_variadic` makes of its buffer: if the new size needs more than 32 bits, `realloc` is asked for
-- too little, and `memcpy` writes past it.
unfoldable pub append_buffer : Serial → List ℕ → Option Serial
append_buffer s bs =
    if ltb (s.size + length bs) (2 ^ 32)
    then some (serial (take s.size s.bytes ++ bs) (s.size + length bs))
    else none

-- `add_variadic`, and `serial_add`, which calls it.
unfoldable pub serial_add : List Arg → Serial → Option Serial
serial_add args s = elim (put_all args (buffer [] 256)) [
  | none ↦ none
  | some b ↦ append_buffer s b.bytes
]

abbrev pub serial_empty : Serial
serial_empty = serial [] 0

unfoldable pub serial_pack : List Arg → Option Serial
serial_pack args = serial_add args serial_empty

unfoldable pub serial_clone : Serial → Serial
serial_clone s = serial (take s.size s.bytes) s.size

-- `strlen` from `buf` on; past the end of the data it is a fault.
unfoldable pub split_string : List ℕ → Option (List ℕ × List ℕ)
split_string [] = none
split_string (zero ∷ rest) = some ([], rest)
split_string (suc b ∷ rest) = elim (split_string rest) [
  | none ↦ none
  | some (s, rest') ↦ some (suc b ∷ s, rest')
]

-- `memcpy` of `n` bytes from `buf`.
unfoldable pub split_bytes : ℕ → List ℕ → Option (List ℕ × List ℕ)
split_bytes zero bs = some ([], bs)
split_bytes (suc n) [] = none
split_bytes (suc n) (b ∷ bs) = elim (split_bytes n bs) [
  | none ↦ none
  | some (xs, rest) ↦ some (b ∷ xs, rest)
]

abbrev pub same_bytes : List ℕ → List ℕ → Bool
same_bytes [] [] = true
same_bytes (a ∷ args) (b ∷ bs) = if a == b then same_bytes args bs else false
same_bytes _ _ = false

abbrev pub of_string : List ℕ → Option (List ℕ)
of_string s = if same_bytes s null_string then none else some s

-- One case of `remove_variadic`: the argument, and what stands behind it. A size that reads as a
-- negative number is a `size_t` beyond all memory, and copying that much faults.
unfoldable pub read : Code → List ℕ → Option (Arg × List ℕ)
read Code.int8 (b ∷ r) = some (int8 (unpacki8 b), r)
read Code.uint8 (b ∷ r) = some (uint8 b, r)
read Code.int16 (a ∷ b ∷ r) = some (int16 (unpacki16 a b), r)
read Code.uint16 (a ∷ b ∷ r) = some (uint16 (unpacku16 a b), r)
read Code.int32 (a ∷ b ∷ c ∷ d ∷ r) = some (int32 (unpacki32 a b c d), r)
read Code.uint32 (a ∷ b ∷ c ∷ d ∷ r) = some (uint32 (unpacku32 a b c d), r)
read Code.int64 (a ∷ b ∷ c ∷ d ∷ e ∷ f ∷ g ∷ h ∷ r) = some (int64 (unpacki64 a b c d e f g h), r)
read Code.uint64 (a ∷ b ∷ c ∷ d ∷ e ∷ f ∷ g ∷ h ∷ r) = some (uint64 (unpacku64 a b c d e f g h), r)
read Code.string bs = elim (split_string bs) [
  | none ↦ none
  | some (s, r) ↦ some (string (of_string s), r)
]
read Code.binary (a ∷ b ∷ c ∷ d ∷ r) = elim (unpacki32 a b c d) [
  | negsuc n ↦ none
  | pos n ↦ elim (split_bytes n r) [ none ↦ none | some (xs, r') ↦ some (binary (serial xs n), r') ]
]
read _ _ = none

unfoldable pub read_all : List Code → List ℕ → Option (List Arg × List ℕ)
read_all [] bs = some ([], bs)
read_all (c ∷ cs) bs = elim (read c bs) [
  | none ↦ none
  | some (a, r) ↦ elim (read_all cs r) [ none ↦ none | some (args, r') ↦ some (a ∷ args, r') ]
]

-- `untouched` is the early return: no output is written. `fault` is a read past the data.
pub data Removed : Type 0 where
  untouched : Removed
  fault : Removed
  removed : List Arg → Serial → Removed

-- The rest of `remove_variadic`: `size` loses what was read, and the bytes behind move down.
unfoldable pub shift_down : ℕ → List ℕ → ℕ → List Arg → Removed
shift_down size rest consumed args =
    if ltb size consumed
    then fault
    else if size == consumed
    then removed args serial_empty
    else removed args (serial (take (size - consumed) rest) (size - consumed))

unfoldable pub serial_remove : List Code → Serial → Removed
serial_remove cs s = if s.size == 0 then untouched else elim (read_all cs s.bytes) [
  | none ↦ fault
  | some (args, rest) ↦ shift_down s.size rest (length s.bytes - length rest) args
]

-- `serial_unpack`: what `serial_remove` reads; the container is gone.
unfoldable pub serial_unpack : List Code → Serial → Option (List Arg)
serial_unpack cs s = elim (serial_remove cs s) [ removed args s' ↦ some args | _ ↦ none ]

-- A container that owns as many bytes as it says.
abbrev pub IsValid : Serial → Type 0
IsValid s = length s.bytes ≡ s.size

-- The arguments that C's types allow, for strings without the text that stands for NULL.
abbrev pub IsArg : Arg → Type 0
IsArg (int8 z) = IsSigned 7 z
IsArg (uint8 n) = n < 256
IsArg (int16 z) = IsSigned 15 z
IsArg (uint16 n) = n < 0x1_0000
IsArg (int32 z) = IsSigned 31 z
IsArg (uint32 n) = n < 0x1_0000_0000
IsArg (int64 z) = IsSigned 63 z
IsArg (uint64 n) = n < 0x1_0000_0000_0000_0000
IsArg (string none) = Unit {0}
IsArg (string (some s)) = All (λ b. 0 < b) s × (same_bytes s null_string ≡ false)
IsArg (binary x) = IsValid x × (x.size < 0x8000_0000)
