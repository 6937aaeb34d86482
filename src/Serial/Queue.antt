-- ===== src/Serial/Queue.antt =====
-- Shared/serial.c: a container is a queue of arguments. What is added last comes out last, and
-- removing leaves what was added behind it.
use opsys_17b.Base.{
  ℕ, suc, ◌+◌, ◌-◌, ◌<◌, ◌≤◌, ◌^◌, ◌≡◌, refl, ◌∙◌, false, some, List, [], ◌∷◌, ◌++◌, arith, ◌==◌,
  length, length-append, take-length, append-nil, All,
}
use opsys_17b.Serial.{
  Serial, serial, serial_empty, Code, Arg, string, or_null, encode, removed, untouched, shift_down,
  serial_add, serial_remove, serial_pack, serial_unpack, IsArg,
}
use native.Mathlib.Nat.{zero-add, add-zero}
use opsys_17b.Serial.Word.{packi16, packi32, packi64}
use opsys_17b.Serial.Growth.{encode_all, serial_add_lem, append_buffer_lem, Adds, serial_add_inv}
use opsys_17b.Serial.Laws.{codes, read_all-encode_all}

shift_down_lem :
    (args : List Arg) (consumed : ℕ) (rest : List ℕ)
    → shift_down (consumed + length rest) rest consumed args
      ≡ removed args (serial rest (length rest))
unfolding shift_down
shift_down_lem args consumed [] = ground arith
shift_down_lem args consumed (x ∷ rest) = ground (arith, take-length (x ∷ rest), left)
  where
    left : consumed + suc (length rest) - consumed ≡ suc (length rest)
    left = omega arith

length-encode_pos : (a : Arg) → 0 < length (encode a)
unfolding encode packi16 packi32 packi64
length-encode_pos (string s) = omega (arith, length-append (or_null s) (0 ∷ []))
length-encode_pos _ = omega arith

pub length-encode_all_pos : (a : Arg) (args : List Arg) → 0 < length (encode_all (a ∷ args))
unfolding encode_all
length-encode_all_pos a args =
    omega (arith, length-encode_pos a, length-append (encode a) (encode_all args))

-- `serial_pack` of arguments of their types, of 2 ^ 31 bytes at most, gives their encodings, one behind the
-- other.
pub serial_pack_lem :
    (args : List Arg)
    → All IsArg args
    → length (encode_all args) ≤ 2 ^ 31
    → serial_pack args ≡ some (serial (encode_all args) (length (encode_all args)))
unfolding serial_pack
serial_pack_lem args h small =
    rw (zero-add) at (serial_add_lem args serial_empty h refl small (omega (arith, small)))

pub serial_pack_inv :
    (args : List Arg) (s : Serial)
    → serial_pack args ≡ some s
    → s ≡ serial (encode_all args) (length (encode_all args))
unfolding serial_pack
serial_pack_inv args s e = rw (zero-add) at (serial_add_inv args serial_empty s refl e).result

-- Reading from the front of a valid container that is not empty.
serial_remove-encode_all :
    (args : List Arg) (rest : List ℕ)
    → All IsArg args
    → 0 < length (encode_all args)
    → serial_remove
        (codes args)
        (serial (encode_all args ++ rest) (length (encode_all args) + length rest))
      ≡ removed args (serial rest (length rest))
unfolding serial_remove
serial_remove-encode_all args rest h p =
    let full : (length (encode_all args) + length rest == 0) ≡ false = ground arith in
    let front : length (encode_all args ++ rest) - length rest ≡ length (encode_all args) =
      omega (arith, length-append (encode_all args) rest) in
    rw (full, serial_remove)
      (rw (read_all-encode_all args rest h, serial_remove)
        (rw front (shift_down_lem args (length (encode_all args)) rest)))

-- A container that owns exactly the bytes `bs`.
abbrev pub whole : List ℕ → Serial
whole bs = serial bs (length bs)

pub serial_add-whole :
    (args : List Arg) (bs : List ℕ)
    → All IsArg args
    → length (encode_all args) ≤ 2 ^ 31
    → length bs + length (encode_all args) < 2 ^ 32
    → serial_add args (whole bs) ≡ some (whole (bs ++ encode_all args))
serial_add-whole args bs h small fits =
    serial_add_lem args (whole bs) h refl small fits ∙ cc (length-append bs (encode_all args))

-- Whenever it succeeds.
pub serial_add-whole_inv :
    (args : List Arg) (bs : List ℕ) (t : Serial)
    → serial_add args (whole bs) ≡ some t
    → t ≡ whole (bs ++ encode_all args)
serial_add-whole_inv args bs t e =
    (serial_add_inv args (whole bs) t refl e).result ∙ cc (length-append bs (encode_all args))

pub serial_remove-whole :
    (args : List Arg) (rest : List ℕ)
    → All IsArg args
    → 0 < length (encode_all args)
    → serial_remove (codes args) (whole (encode_all args ++ rest)) ≡ removed args (whole rest)
serial_remove-whole args rest h p =
    rw (length-append (encode_all args) rest) (serial_remove-encode_all args rest h p)

-- A buffer that was filled behind other bytes can be packed alone.
pack_of_Adds :
    (args : List Arg) (s t : Serial)
    → Adds args s t
    → serial_pack args ≡ some (serial (encode_all args) (length (encode_all args)))
unfolding serial_pack serial_add
pack_of_Adds args s t added =
    let fits = added.fits in
    rw (added.filled, serial_add)
      (rw (zero-add) at
        (append_buffer_lem serial_empty (encode_all args) refl (omega (arith, fits))))

-- A container is a first-in first-out queue: once `more` was added behind `a ∷ args`, removing by
-- the format of `a ∷ args` returns exactly these and leaves what packing `more` alone would give.
pub serial_remove-serial_add :
    (a : Arg) (args more : List Arg) (s t : Serial)
    → All IsArg (a ∷ args)
    → All IsArg more
    → serial_pack (a ∷ args) ≡ some s
    → serial_add more s ≡ some t
    → (u : Serial) × (serial_pack more ≡ some u)
      × (serial_remove (codes (a ∷ args)) t ≡ removed (a ∷ args) u)
serial_remove-serial_add a args more s t h h' p q = (
  serial (encode_all more) (length (encode_all more)),
  pack_of_Adds more s t added,
  rw t_lem (serial_remove-encode_all (a ∷ args) (encode_all more) h (length-encode_all_pos a args)),
)
  where
    s_lem : s ≡ serial (encode_all (a ∷ args)) (length (encode_all (a ∷ args)))
    s_lem = serial_pack_inv (a ∷ args) s p

    added : Adds more s t
    added = serial_add_inv more s t (rw s_lem refl) q

    t_lem :
        t
        ≡ serial
            (encode_all (a ∷ args) ++ encode_all more)
            (length (encode_all (a ∷ args)) + length (encode_all more))
    t_lem = rw s_lem at added.result

-- What `serial_pack` packs, `serial_unpack` by the same format reads back.
pub serial_unpack-serial_pack :
    (a : Arg) (args : List Arg) (s : Serial)
    → All IsArg (a ∷ args)
    → serial_pack (a ∷ args) ≡ some s
    → serial_unpack (codes (a ∷ args)) s ≡ some (a ∷ args)
unfolding serial_unpack
serial_unpack-serial_pack a args s h e = rw s_lem (rw (whole, serial_unpack))
  where
    s_lem : s ≡ serial (encode_all (a ∷ args)) (length (encode_all (a ∷ args)))
    s_lem = serial_pack_inv (a ∷ args) s e

    whole :
        serial_remove
          (codes (a ∷ args))
          (serial (encode_all (a ∷ args)) (length (encode_all (a ∷ args))))
        ≡ removed (a ∷ args) serial_empty
    whole =
        rw (append-nil, add-zero) at
          (serial_remove-encode_all (a ∷ args) [] h (length-encode_all_pos a args))

-- A format that asks an empty container for anything writes no output.
pub serial_remove_empty :
    (cs : List Code) (bs : List ℕ) → serial_remove cs (serial bs 0) ≡ untouched
unfolding serial_remove
serial_remove_empty cs bs = refl
