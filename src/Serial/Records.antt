-- ===== src/Serial/Records.antt =====
-- The two loops by which Shared/yfile.c, Shared/struct.c and YAMA/src/struct.c unpack a list of
-- records, and the traversal that packs one. A record is given by its format, its arguments, and
-- the record that a list of arguments makes.
use opsys_17b.Base.{
  ℕ, zero, suc, ◌≡◌, refl, ◌∙◌, Option, none, some, List, [], ◌∷◌, ◌++◌, arith, append-nil,
  append_assoc, All, ◌<◌, ◌≤◌, length, length-append, ◌==◌, true, false, pos, ◌+◌, ◌^◌, inl, inr,
  sym, some_inj, Option-cases,
}
use opsys_17b.Serial.{Serial, Code, Arg, IsArg, removed, serial_add, serial_remove, int32}
use opsys_17b.Serial.Growth.{encode_all}
use opsys_17b.Serial.Laws.{codes}
use opsys_17b.Serial.Queue.{whole, serial_add-whole, serial_add-whole_inv, serial_remove-whole}

-- How a record goes through a container: its format, its arguments, and the record that a list of
-- arguments makes.
pub record Format (A : Type 0) : Type 0 where
  pub format : List Code
  pub args_of : A → List Arg
  pub of_args : List Arg → Option A

-- What the loops below rely on, for the records that `P` holds of.
pub record IsFormat {A : Type 0} (f : Format A) (P : A → Type 0) : Type 0 where
  pub codes-args_of : (x : A) → codes (f.args_of x) ≡ f.format
  pub args_of-IsArg : (x : A) → P x → All IsArg (f.args_of x)
  pub args_of_pos : (x : A) → 0 < length (encode_all (f.args_of x))
  pub of_args-args_of : (x : A) → P x → f.of_args (f.args_of x) ≡ some x

module _ {A : Type 0} where
  -- `mlist_traverse(list, routine)` where the routine adds one record.
  unfoldable pub add_each : Format A → List A → Serial → Option Serial
  add_each f [] s = some s
  add_each f (x ∷ xs) s = elim (serial_add (f.args_of x) s) [
    | none ↦ none
    | some s' ↦ add_each f xs s'
  ]

  -- One round of an unpacking loop. `none` is a read past the data, or a record whose fields stay
  -- unset since the container was empty.
  unfoldable pub remove_one : Format A → Serial → Option (A × Serial)
  remove_one f s = elim (serial_remove f.format s) [
    | removed args s' ↦ elim (f.of_args args) [ none ↦ none | some x ↦ some (x, s') ]
    | _ ↦ none
  ]

  -- `while(n--)`
  unfoldable pub remove_count : Format A → ℕ → Serial → Option (List A × Serial)
  remove_count f zero s = some ([], s)
  remove_count f (suc n) s = elim (remove_one f s) [
    | none ↦ none
    | some (x, s') ↦ elim (remove_count f n s') [
      | none ↦ none
      | some (xs, s'') ↦ some (x ∷ xs, s'')
    ]
  ]

  -- `while(serial->size > 0)`, on fuel
  unfoldable pub remove_while : ℕ → Format A → Serial → Option (List A)
  remove_while zero f s = none
  remove_while (suc fuel) f s = elim (s.size == 0) [
    | true ↦ some []
    | false ↦ elim (remove_one f s) [
      | none ↦ none
      | some (x, s') ↦ elim (remove_while fuel f s') [ none ↦ none | some xs ↦ some (x ∷ xs) ]
    ]
  ]

-- The count in front of a list, `serial_remove(serial, "i", &n)`. Unset or negative, it is no count.
unfoldable pub remove_int : Serial → Option (ℕ × Serial)
remove_int s = elim (serial_remove (Code.int32 ∷ []) s) [
  | removed (int32 (pos n) ∷ []) s' ↦ some (n, s')
  | _ ↦ none
]

module _ {A : Type 0} (f : Format A) where
  unfoldable pub encode_records : List A → List ℕ
  encode_records [] = []
  encode_records (x ∷ xs) = encode_all (f.args_of x) ++ encode_records xs

-- Whatever was added, a container that comes of it holds just the records.
pub add_each_inv :
    {A : Type 0} (f : Format A) (xs : List A) (bs : List ℕ) (t : Serial)
    → add_each f xs (whole bs) ≡ some t
    → t ≡ whole (bs ++ encode_records f xs)
unfolding add_each encode_records
add_each_inv f [] bs t e = sym (some_inj e) ∙ rw append-nil
add_each_inv f (x ∷ xs) bs t e = elim (Option-cases (serial_add (f.args_of x) (whole bs))) [
  | inl out ↦ absurd (ground (arith, e, out))
  | inr (s, run) ↦
      let made : s ≡ whole (bs ++ encode_all (f.args_of x)) =
        serial_add-whole_inv (f.args_of x) bs s run in
      let rest : add_each f xs s ≡ some t = rw (run, add_each) at e in
      add_each_inv f xs (bs ++ encode_all (f.args_of x)) t (rw made at rest) ∙ rw append_assoc
]

module _ {A : Type 0} {f : Format A} {P : A → Type 0} (law : IsFormat f P) where
  -- Each record needs 2 ^ 31 bytes at most, and the container 2 ^ 32 in the end.
  pub add_each_lem :
      (xs : List A) (bs : List ℕ)
      → All P xs
      → All (λ x. length (encode_all (f.args_of x)) ≤ 2 ^ 31) xs
      → length bs + length (encode_records f xs) < 2 ^ 32
      → add_each f xs (whole bs) ≡ some (whole (bs ++ encode_records f xs))
  unfolding add_each encode_records
  add_each_lem [] bs h small fits = rw append-nil
  add_each_lem (x ∷ xs) bs h small fits =
      let one = encode_all (f.args_of x) in
      let len : length (one ++ encode_records f xs) ≡ length one + length (encode_records f xs) =
        length-append one (encode_records f xs) in
      let len' : length (bs ++ one) ≡ length bs + length one = length-append bs one in
      rw
        (
          serial_add-whole (f.args_of x) bs (law.args_of-IsArg x h.0) small.0
              (omega (arith, fits, len)),
          add_each,
        )
        (add_each_lem xs (bs ++ one) h.1 small.1 (omega (arith, fits, len, len')) ∙ rw append_assoc)

  pub remove_one_lem :
      (x : A) (rest : List ℕ)
      → P x
      → remove_one f (whole (encode_all (f.args_of x) ++ rest)) ≡ some (x, whole rest)
  unfolding remove_one
  remove_one_lem x rest h =
      rw (← law.codes-args_of x, remove_one)
        (rw
          (
            serial_remove-whole (f.args_of x) rest (law.args_of-IsArg x h) (law.args_of_pos x),
            remove_one,
          )
          (rw (law.of_args-args_of x h)))

  pub remove_count_lem :
      (xs : List A) (rest : List ℕ)
      → All P xs
      → remove_count f (length xs) (whole (encode_records f xs ++ rest)) ≡ some (xs, whole rest)
  unfolding remove_count encode_records
  remove_count_lem [] rest h = refl
  remove_count_lem (x ∷ xs) rest h = rw append_assoc (
      rw (remove_one_lem x (encode_records f xs ++ rest) h.0, remove_count)
        (rw (remove_count_lem xs rest h.1)))

  pub length-encode_records_ge : (xs : List A) → length xs ≤ length (encode_records f xs)
  unfolding encode_records
  length-encode_records_ge [] = omega arith
  length-encode_records_ge (x ∷ xs) = omega (
    arith,
    length-encode_records_ge xs,
    law.args_of_pos x,
    length-append (encode_all (f.args_of x)) (encode_records f xs),
  )

  pub remove_while_lem :
      (fuel : ℕ) (xs : List A)
      → All P xs
      → length xs < fuel
      → remove_while fuel f (whole (encode_records f xs)) ≡ some xs
  unfolding remove_while encode_records
  remove_while_lem zero xs h k = absurd (omega arith)
  remove_while_lem (suc fuel) [] h k = refl
  remove_while_lem (suc fuel) (x ∷ xs) h k =
      rw (more, remove_while)
        (rw (remove_one_lem x (encode_records f xs) h.0, remove_while)
          (rw (remove_while_lem fuel xs h.1 (omega arith))))
    where
      more : (length (encode_all (f.args_of x) ++ encode_records f xs) == 0) ≡ false
      more =
          ground (
            arith,
            law.args_of_pos x,
            length-append (encode_all (f.args_of x)) (encode_records f xs),
          )
