-- ===== src/Serial/Tests.antt =====
-- Shared/serial.c: the theorems at concrete containers, and runs of the code.
use opsys_17b.Base.{ℕ, ◌≡◌, refl, some, none, List, [], ◌∷◌, arith, negsuc, All}
use opsys_17b.Serial.Endless.{resize_buffer-none}
use opsys_17b.Serial.{
  buffer, append_buffer, Serial, serial, Code, Arg, int32, uint16, string, encode, removed, grow,
  resize_buffer, store, put, put_all, size_of, serial_add, serial_pack, serial_remove, read,
  read_all, shift_down, split_string, IsArg,
}
use opsys_17b.Serial.Word.{IsByte, packi16, packi32, unpacki32, unpacku32}
use opsys_17b.Serial.Growth.{encode_all, serial_add_lem}
use opsys_17b.Serial.Laws.{codes}
use opsys_17b.Serial.Types.{Takes, serial_remove-Takes}
use opsys_17b.Serial.Queue.{serial_remove-serial_add}

-- -5, then NULL
abbrev first_args : List Arg
first_args = string none ∷ []

abbrev more_args : List Arg
more_args = uint16 513 ∷ string (some (97 ∷ 98 ∷ [])) ∷ []

abbrev first_serial : Serial
first_serial = serial (255 ∷ 255 ∷ 255 ∷ 251 ∷ 95 ∷ 95 ∷ 78 ∷ 85 ∷ 76 ∷ 76 ∷ 95 ∷ 95 ∷ 0 ∷ []) 13

abbrev both_serial : Serial
both_serial =
    serial
      (255 ∷ 255 ∷ 255 ∷ 251 ∷ 95 ∷ 95 ∷ 78 ∷ 85 ∷ 76 ∷ 76 ∷ 95 ∷ 95 ∷ 0 ∷ 2 ∷ 1 ∷ 97 ∷ 98 ∷ 0 ∷ [])
      18

pack_run : serial_pack (int32 (negsuc 4) ∷ first_args) ≡ some first_serial
unfolding serial_pack serial_add put_all put resize_buffer append_buffer store size_of encode
    packi32 grow
pack_run = refl

add_run : serial_add more_args first_serial ≡ some both_serial
unfolding serial_add put_all put resize_buffer append_buffer store size_of encode packi16 grow
add_run = refl

remove_run :
    serial_remove (Code.int32 ∷ Code.string ∷ []) both_serial
    ≡ removed (int32 (negsuc 4) ∷ first_args) (serial (2 ∷ 1 ∷ 97 ∷ 98 ∷ 0 ∷ []) 5)
unfolding serial_remove read_all read shift_down split_string unpacki32 unpacku32
remove_run = refl

args_ok : All IsArg (int32 (negsuc 4) ∷ first_args)
args_ok = (omega arith, (tt, tt))

more_ok : All IsArg more_args
more_ok = (omega arith, (((omega arith, omega arith), refl), tt))

serial_remove-serial_add_example :
    (u : Serial) × (serial_pack more_args ≡ some u)
    × (serial_remove (codes (int32 (negsuc 4) ∷ first_args)) both_serial
        ≡ removed (int32 (negsuc 4) ∷ first_args) u)
serial_remove-serial_add_example =
    serial_remove-serial_add (int32 (negsuc 4)) first_args more_args first_serial both_serial
      args_ok more_ok pack_run add_run

serial_add_lem_example : serial_add more_args first_serial ≡ some both_serial
unfolding encode_all encode packi16
serial_add_lem_example =
    serial_add_lem more_args first_serial more_ok refl (omega arith) (omega arith)

-- The text that stands for NULL comes back as NULL.
null_text_run :
    read Code.string (95 ∷ 95 ∷ 78 ∷ 85 ∷ 76 ∷ 76 ∷ 95 ∷ 95 ∷ 0 ∷ []) ≡ some (string none, [])
unfolding read split_string
null_text_run = refl

both_serial-IsByte : All IsByte both_serial.bytes
both_serial-IsByte = (
  omega arith,
  (
    omega arith,
    (
      omega arith,
      (
        omega arith,
        (
          omega arith,
          (
            omega arith,
            (
              omega arith,
              (
                omega arith,
                (
                  omega arith,
                  (
                    omega arith,
                    (
                      omega arith,
                      (
                        omega arith,
                        (
                          omega arith,
                          (
                            omega arith,
                            (omega arith, (omega arith, (omega arith, (omega arith, tt)))),
                          ),
                        ),
                      ),
                    ),
                  ),
                ),
              ),
            ),
          ),
        ),
      ),
    ),
  ),
)

serial_remove-Takes_example :
    Takes
      (Code.int32 ∷ Code.string ∷ [])
      (serial_remove (Code.int32 ∷ Code.string ∷ []) both_serial)
serial_remove-Takes_example =
    serial_remove-Takes (Code.int32 ∷ Code.string ∷ []) both_serial refl both_serial-IsByte

-- A buffer of 256 bytes, and an argument of 3 GiB.
resize_buffer-none_example :
    ((fuel : ℕ) → grow fuel 3_221_225_472 256 ≡ none)
    × (resize_buffer 3_221_225_472 (buffer [] 256) ≡ none)
resize_buffer-none_example =
    resize_buffer-none 3_221_225_472 (buffer [] 256) refl (omega arith) (omega arith)
