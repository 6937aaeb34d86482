-- ===== src/Stage.antt =====
-- Shared/struct.c and struct.h: the stages of a job as YAMA sends them to Master, and YAMA/src/struct.c:
-- the list of active nodes as FileSystem sends it to YAMA.
pub mod RoundTrip
mod Tests
use opsys_17b.Base.{ℕ, ◌^◌, ◌<◌, Option, none, some, List, [], ◌∷◌, length, All, ℤ, pos, IsSigned}
use opsys_17b.Serial.{
  Serial, serial_empty, Code, Arg, int32, string, serial_add, serial_pack, serial_unpack, IsArg,
}
use opsys_17b.Serial.Records.{Format, add_each, remove_int, remove_count}

-- A `char*`.
abbrev pub Str : Type 0
Str = Option (List ℕ)

pub record EtapaTransformacion : Type 0 where
  pub nodo : Str
  pub ip : Str
  pub puerto : Str
  pub bloque : ℤ
  pub bytes_ocupados : ℤ
  pub archivo_etapa : Str

pub record EtapaReduccionGlobal : Type 0 where
  pub nodo : Str
  pub ip : Str
  pub puerto : Str
  pub archivo_temporal_de_rl : Str
  pub archivo_etapa : Str
  pub encargado : Str

pub record AlmacenadoFinal : Type 0 where
  pub nodo : Str
  pub ip : Str
  pub puerto : Str
  pub archivo_etapa : Str

-- `t_infoNodo` in YAMA; in FileSystem the same three strings of a `t_node`.
pub record InfoNodo : Type 0 where
  pub nodo : Str
  pub ip : Str
  pub puerto : Str

abbrev pub transformacion_of_args : List Arg → Option EtapaTransformacion
transformacion_of_args (string n ∷ string i ∷ string p ∷ int32 b ∷ int32 o ∷ string a ∷ []) =
    some
      (record { nodo = n; ip = i; puerto = p; bloque = b; bytes_ocupados = o; archivo_etapa = a })
transformacion_of_args _ = none

-- "sssiis"
abbrev pub transformacion_format : Format EtapaTransformacion
transformacion_format = record {
  format = Code.string ∷ Code.string ∷ Code.string ∷ Code.int32 ∷ Code.int32 ∷ Code.string ∷ [];
  args_of = λ t.
      string t.nodo
      ∷ string t.ip
      ∷ string t.puerto
      ∷ int32 t.bloque
      ∷ int32 t.bytes_ocupados
      ∷ string t.archivo_etapa
      ∷ [];
  of_args = transformacion_of_args;
}

abbrev pub reduccion_global_of_args : List Arg → Option EtapaReduccionGlobal
reduccion_global_of_args (string n ∷ string i ∷ string p ∷ string t ∷ string a ∷ string e ∷ []) =
    some (record {
      nodo = n;
      ip = i;
      puerto = p;
      archivo_temporal_de_rl = t;
      archivo_etapa = a;
      encargado = e;
    })
reduccion_global_of_args _ = none

-- "ssssss"
abbrev pub reduccion_global_format : Format EtapaReduccionGlobal
reduccion_global_format = record {
  format = Code.string ∷ Code.string ∷ Code.string ∷ Code.string ∷ Code.string ∷ Code.string ∷ [];
  args_of = λ r.
      string r.nodo
      ∷ string r.ip
      ∷ string r.puerto
      ∷ string r.archivo_temporal_de_rl
      ∷ string r.archivo_etapa
      ∷ string r.encargado
      ∷ [];
  of_args = reduccion_global_of_args;
}

abbrev pub info_nodo_of_args : List Arg → Option InfoNodo
info_nodo_of_args (string n ∷ string i ∷ string p ∷ []) =
    some (record { nodo = n; ip = i; puerto = p })
info_nodo_of_args _ = none

-- "sss"
abbrev pub info_nodo_format : Format InfoNodo
info_nodo_format = record {
  format = Code.string ∷ Code.string ∷ Code.string ∷ [];
  args_of = λ n. string n.nodo ∷ string n.ip ∷ string n.puerto ∷ [];
  of_args = info_nodo_of_args;
}

-- The shape that the list packers share: the length as an `int`, then every record.
unfoldable pub list_pack : {A : Type 0} → Format A → List A → Option Serial
list_pack f xs = elim (serial_add (int32 (pos (length xs)) ∷ []) serial_empty) [
  | none ↦ none
  | some s ↦ add_each f xs s
]

-- The shape that the list unpackers share: the count, then `while(n--)`.
unfoldable pub list_unpack : {A : Type 0} → Format A → Serial → Option (List A)
list_unpack f s = elim (remove_int s) [
  | none ↦ none
  | some (n, s') ↦ elim (remove_count f n s') [ none ↦ none | some (xs, s'') ↦ some xs ]
]

unfoldable pub list_transformacion_pack : List EtapaTransformacion → Option Serial
list_transformacion_pack = list_pack transformacion_format

unfoldable pub list_transformacion_unpack : Serial → Option (List EtapaTransformacion)
list_transformacion_unpack = list_unpack transformacion_format

unfoldable pub list_reduccion_global_pack : List EtapaReduccionGlobal → Option Serial
list_reduccion_global_pack = list_pack reduccion_global_format

unfoldable pub list_reduccion_global_unpack : Serial → Option (List EtapaReduccionGlobal)
list_reduccion_global_unpack = list_unpack reduccion_global_format

-- `nodelist_active_pack`, given the active nodes, and YAMA's `nodelist_unpack`.
unfoldable pub nodelist_active_pack : List InfoNodo → Option Serial
nodelist_active_pack = list_pack info_nodo_format

unfoldable pub nodelist_unpack : Serial → Option (List InfoNodo)
nodelist_unpack = list_unpack info_nodo_format

abbrev pub almacenado_final_args : AlmacenadoFinal → List Arg
almacenado_final_args a =
    string a.nodo ∷ string a.ip ∷ string a.puerto ∷ string a.archivo_etapa ∷ []

unfoldable pub etapa_af_pack : AlmacenadoFinal → Option Serial
etapa_af_pack a = serial_pack (almacenado_final_args a)

abbrev pub almacenado_final_of_args : List Arg → Option AlmacenadoFinal
almacenado_final_of_args (string n ∷ string i ∷ string p ∷ string a ∷ []) =
    some (record { nodo = n; ip = i; puerto = p; archivo_etapa = a })
almacenado_final_of_args _ = none

-- "ssss"
unfoldable pub etapa_af_unpack : Serial → Option AlmacenadoFinal
etapa_af_unpack s =
    elim (serial_unpack (Code.string ∷ Code.string ∷ Code.string ∷ Code.string ∷ []) s) [
      | none ↦ none
      | some args ↦ almacenado_final_of_args args
    ]

abbrev pub IsTransformacion : EtapaTransformacion → Type 0
IsTransformacion t = All IsArg (transformacion_format.args_of t)

abbrev pub IsReduccionGlobal : EtapaReduccionGlobal → Type 0
IsReduccionGlobal r = All IsArg (reduccion_global_format.args_of r)

abbrev pub IsInfoNodo : InfoNodo → Type 0
IsInfoNodo n = All IsArg (info_nodo_format.args_of n)
