-- ===== src/Stage/Tests.antt =====
-- Shared/struct.c, YAMA/src/struct.c: the round trips at lists of one record.
use opsys_17b.Base.{◌≡◌, refl, some, none, Option, List, [], ◌∷◌, ℕ, arith, pos}
use opsys_17b.Serial.{
  Serial, serial, encode, grow, append_buffer, resize_buffer, store, put, put_all, size_of,
  serial_add, serial_pack,
}
use opsys_17b.Serial.Word.{packi32}
use opsys_17b.Serial.Records.{add_each}
use opsys_17b.Stage.{
  EtapaTransformacion, EtapaReduccionGlobal, AlmacenadoFinal, InfoNodo, list_pack,
  list_transformacion_pack, list_transformacion_unpack, list_reduccion_global_pack,
  nodelist_active_pack, etapa_af_pack,
}
use opsys_17b.Stage.RoundTrip.{list_transformacion_unpack-list_transformacion_pack}

abbrev text : Option (List ℕ)
text = some (65 ∷ [])

abbrev one_transformacion : List EtapaTransformacion
one_transformacion =
    record {
      nodo = text;
      ip = text;
      puerto = text;
      bloque = pos 3;
      bytes_ocupados = pos 2;
      archivo_etapa = none;
    }
    ∷ []

abbrev transformacion_serial : Serial
transformacion_serial =
    serial
      (0 ∷ 0 ∷ 0 ∷ 1 ∷ 65 ∷ 0 ∷ 65 ∷ 0 ∷ 65 ∷ 0 ∷ 0 ∷ 0 ∷ 0 ∷ 3 ∷ 0 ∷ 0 ∷ 0 ∷ 2 ∷ 95 ∷ 95 ∷ 78 ∷ 85
        ∷ 76 ∷ 76 ∷ 95 ∷ 95 ∷ 0 ∷ [])
      27

transformacion_run : list_transformacion_pack one_transformacion ≡ some transformacion_serial
unfolding list_transformacion_pack list_pack add_each serial_add put_all put append_buffer
    resize_buffer store size_of encode packi32 grow
transformacion_run = refl

list_transformacion_unpack-list_transformacion_pack_example :
    list_transformacion_unpack transformacion_serial ≡ some one_transformacion
list_transformacion_unpack-list_transformacion_pack_example =
    list_transformacion_unpack-list_transformacion_pack one_transformacion transformacion_serial
      (omega arith)
      (
        (
          ((omega arith, tt), refl),
          (
            ((omega arith, tt), refl),
            (((omega arith, tt), refl), (omega arith, (omega arith, (tt, tt)))),
          ),
        ),
        tt,
      )
      transformacion_run

abbrev one_reduccion : List EtapaReduccionGlobal
one_reduccion =
    record {
      nodo = text;
      ip = none;
      puerto = none;
      archivo_temporal_de_rl = none;
      archivo_etapa = none;
      encargado = text;
    }
    ∷ []

abbrev null_bytes : List ℕ → List ℕ
null_bytes r = 95 ∷ 95 ∷ 78 ∷ 85 ∷ 76 ∷ 76 ∷ 95 ∷ 95 ∷ 0 ∷ r

abbrev reduccion_serial : Serial
reduccion_serial =
    serial
      (0 ∷ 0 ∷ 0 ∷ 1 ∷ 65 ∷ 0 ∷ null_bytes (null_bytes (null_bytes (null_bytes (65 ∷ 0 ∷ []))))) 44

reduccion_run : list_reduccion_global_pack one_reduccion ≡ some reduccion_serial
unfolding list_reduccion_global_pack list_pack add_each serial_add put_all put append_buffer
    resize_buffer store size_of encode packi32 grow
reduccion_run = refl

abbrev one_info : List InfoNodo
one_info = record { nodo = text; ip = text; puerto = none } ∷ []

abbrev info_serial : Serial
info_serial = serial (0 ∷ 0 ∷ 0 ∷ 1 ∷ 65 ∷ 0 ∷ 65 ∷ 0 ∷ null_bytes []) 17

info_run : nodelist_active_pack one_info ≡ some info_serial
unfolding nodelist_active_pack list_pack add_each serial_add put_all put append_buffer resize_buffer
    store size_of encode packi32 grow
info_run = refl

abbrev one_final : AlmacenadoFinal
one_final = record { nodo = text; ip = text; puerto = none; archivo_etapa = text }

abbrev final_serial : Serial
final_serial = serial (65 ∷ 0 ∷ 65 ∷ 0 ∷ null_bytes (65 ∷ 0 ∷ [])) 15

final_run : etapa_af_pack one_final ≡ some final_serial
unfolding etapa_af_pack serial_pack serial_add put_all put append_buffer resize_buffer store size_of
    encode grow
final_run = refl
