-- ===== src/Stage/RoundTrip.antt =====
-- Shared/struct.c, YAMA/src/struct.c: what the packers write, the unpackers read back.
use opsys_17b.Base.{
  ℕ, ◌+◌, ◌≤◌, arith, inl, inr, Option-cases, ◌^◌, ◌<◌, ◌≡◌, refl, some, List, [], ◌∷◌, ◌++◌,
  append-nil, length, All, pos,
}
use opsys_17b.Serial.{Serial, int32, IsArg, serial_add, encode}
use opsys_17b.Serial.Word.{packi32}
use opsys_17b.Serial.Growth.{encode_all}
use opsys_17b.Serial.Queue.{
  whole, serial_add-whole, serial_add-whole_inv, serial_remove-whole, length-encode_all_pos,
  serial_unpack-serial_pack,
}
use opsys_17b.Serial.Records.{
  Format, IsFormat, encode_records, remove_int, add_each, add_each_lem, add_each_inv,
  remove_count_lem,
}
use opsys_17b.Stage.{
  EtapaTransformacion, EtapaReduccionGlobal, AlmacenadoFinal, InfoNodo, transformacion_format,
  reduccion_global_format, info_nodo_format, list_pack, list_unpack, list_transformacion_pack,
  list_transformacion_unpack, list_reduccion_global_pack, list_reduccion_global_unpack,
  nodelist_active_pack, nodelist_unpack, almacenado_final_args, etapa_af_pack, etapa_af_unpack,
  IsTransformacion, IsReduccionGlobal, IsInfoNodo,
}

length-count : (n : ℕ) → length (encode_all (int32 (pos n) ∷ [])) ≡ 4
unfolding encode_all encode packi32
length-count n = refl

list_pack_inv :
    {A : Type 0} (f : Format A) (xs : List A) (s : Serial)
    → list_pack f xs ≡ some s
    → s ≡ whole (encode_all (int32 (pos (length xs)) ∷ []) ++ encode_records f xs)
unfolding list_pack
list_pack_inv f xs s e =
    elim (Option-cases (serial_add (int32 (pos (length xs)) ∷ []) (whole []))) [
      | inl out ↦ absurd (ground (arith, e, out))
      | inr (t, run) ↦
          let made : t ≡ whole (encode_all (int32 (pos (length xs)) ∷ [])) =
            serial_add-whole_inv (int32 (pos (length xs)) ∷ []) [] t run in
          let rest : add_each f xs t ≡ some s = rw (run, list_pack) at e in
          add_each_inv f xs (encode_all (int32 (pos (length xs)) ∷ [])) s (rw made at rest)
    ]

module _ {A : Type 0} {f : Format A} {P : A → Type 0} (law : IsFormat f P) where
  list_pack_lem :
      (xs : List A)
      → length xs < 2 ^ 31
      → All P xs
      → All (λ x. length (encode_all (f.args_of x)) ≤ 2 ^ 31) xs
      → 4 + length (encode_records f xs) < 2 ^ 32
      → list_pack f xs
        ≡ some (whole (encode_all (int32 (pos (length xs)) ∷ []) ++ encode_records f xs))
  unfolding list_pack
  list_pack_lem xs n h small fits =
      let four = length-count (length xs) in
      rw
        (
          serial_add-whole (int32 (pos (length xs)) ∷ []) [] (n, tt) (omega (arith, four))
              (omega (arith, four)),
          list_pack,
        )
        (add_each_lem law xs (encode_all (int32 (pos (length xs)) ∷ [])) h small
          (omega (arith, fits, four)))

  remove_int_lem :
      (n : ℕ) (rest : List ℕ)
      → n < 2 ^ 31
      → remove_int (whole (encode_all (int32 (pos n) ∷ []) ++ rest)) ≡ some (n, whole rest)
  unfolding remove_int
  remove_int_lem n rest h = rw (
    serial_remove-whole (int32 (pos n) ∷ []) rest (h, tt) (length-encode_all_pos _ _),
    remove_int,
  )

  list_unpack-list_pack :
      (xs : List A) (s : Serial)
      → length xs < 2 ^ 31
      → All P xs
      → list_pack f xs ≡ some s
      → list_unpack f s ≡ some xs
  unfolding list_unpack
  list_unpack-list_pack xs s n h e = rw s_lem (
      rw (remove_int_lem (length xs) (encode_records f xs) n, list_unpack)
        (rw (rw append-nil at (remove_count_lem law xs [] h))))
    where
      s_lem : s ≡ whole (encode_all (int32 (pos (length xs)) ∷ []) ++ encode_records f xs)
      s_lem = list_pack_inv f xs s e

transformacion_format-IsFormat : IsFormat transformacion_format IsTransformacion
transformacion_format-IsFormat = record {
  codes-args_of = λ t. refl;
  args_of-IsArg = λ t h. h;
  args_of_pos = λ t. length-encode_all_pos _ _;
  of_args-args_of = λ t h. refl;
}

reduccion_global_format-IsFormat : IsFormat reduccion_global_format IsReduccionGlobal
reduccion_global_format-IsFormat = record {
  codes-args_of = λ t. refl;
  args_of-IsArg = λ t h. h;
  args_of_pos = λ t. length-encode_all_pos _ _;
  of_args-args_of = λ t h. refl;
}

info_nodo_format-IsFormat : IsFormat info_nodo_format IsInfoNodo
info_nodo_format-IsFormat = record {
  codes-args_of = λ t. refl;
  args_of-IsArg = λ t h. h;
  args_of_pos = λ t. length-encode_all_pos _ _;
  of_args-args_of = λ t h. refl;
}

-- Master unpacks the transformation stages that YAMA packed, all of them and in order.
pub list_transformacion_unpack-list_transformacion_pack :
    (xs : List EtapaTransformacion) (s : Serial)
    → length xs < 2 ^ 31
    → All IsTransformacion xs
    → list_transformacion_pack xs ≡ some s
    → list_transformacion_unpack s ≡ some xs
unfolding list_transformacion_pack list_transformacion_unpack
list_transformacion_unpack-list_transformacion_pack =
    list_unpack-list_pack transformacion_format-IsFormat

-- Master unpacks the global reduction stages that YAMA packed, all of them and in order.
pub list_reduccion_global_unpack-list_reduccion_global_pack :
    (xs : List EtapaReduccionGlobal) (s : Serial)
    → length xs < 2 ^ 31
    → All IsReduccionGlobal xs
    → list_reduccion_global_pack xs ≡ some s
    → list_reduccion_global_unpack s ≡ some xs
unfolding list_reduccion_global_pack list_reduccion_global_unpack
list_reduccion_global_unpack-list_reduccion_global_pack =
    list_unpack-list_pack reduccion_global_format-IsFormat

-- YAMA unpacks the active nodes that FileSystem packed, all of them and in order.
pub nodelist_unpack-nodelist_active_pack :
    (xs : List InfoNodo) (s : Serial)
    → length xs < 2 ^ 31
    → All IsInfoNodo xs
    → nodelist_active_pack xs ≡ some s
    → nodelist_unpack s ≡ some xs
unfolding nodelist_active_pack nodelist_unpack
nodelist_unpack-nodelist_active_pack = list_unpack-list_pack info_nodo_format-IsFormat

-- Master unpacks the final storage stage that YAMA packed.
etapa_af_unpack-etapa_af_pack :
    (a : AlmacenadoFinal) (s : Serial)
    → All IsArg (almacenado_final_args a)
    → etapa_af_pack a ≡ some s
    → etapa_af_unpack s ≡ some a
unfolding etapa_af_pack etapa_af_unpack
etapa_af_unpack-etapa_af_pack a s h e = rw (serial_unpack-serial_pack _ _ s h e, etapa_af_unpack)
