-- ===== src/Jobs.antt =====
-- YAMA/src/server.c and YAMA/src/funcionesYAMA.c: what YAMA does when a job begins and between its
-- stages, with the loads, the table of states and the messages to Master. An `int` is its pattern of 32
-- bits. `string_equals_ignore_case` is of a library outside the repository and a parameter, `same_name`.
-- `none` is a fault: a NULL pointer is read, or a text does not fit the bytes that it got.
pub mod Carga
pub mod Encargado
pub mod Primero
mod Tests
use opsys_17b.Base.{
  ℕ, zero, suc, ◌+◌, ◌-◌, ◌/◌, ◌%◌, ◌^◌, Bool, true, false, not, ◌||◌, ◌&&◌, Option, none, some,
  List, [], ◌∷◌, ◌++◌, ◌==◌, leb, ltb, if◌then◌else◌, length, get_elem?, set, ℤ, pos, negsuc,
  to_word,
}
use opsys_17b.Serial.{same_bytes}
use opsys_17b.Dirtree.{eqz}
use opsys_17b.YFile.{Block, int_of_size}
use opsys_17b.Stage.{EtapaTransformacion, EtapaReduccionGlobal, AlmacenadoFinal, InfoNodo}
use opsys_17b.Plan.{Worker}
use opsys_17b.Carga.{
  CargaJob, CargaNodo, add32, posicion_carga_nodo, carga_de_nodo, actualizar_carga_del_nodo,
}
use opsys_17b.Estados.{
  Tabla, transformacion, reduccion_local, reduccion_global, en_proceso, agregar_a_tabla_estado,
  busco_ip_puerto, busco_nodos, busco_nodo_encargado,
}
use opsys_17b.Files.{◌>>=◌, print_int}

-- `%d`
unfoldable pub print_int32 : ℕ → List ℕ
print_int32 n = if ltb n (2 ^ 31) then print_int n else b'-' ∷ print_int (2 ^ 32 - n)

-- `sprintf` into a buffer of `malloc(n)`.
unfoldable pub fits : ℕ → List ℕ → Option (List ℕ)
fits n s = if ltb (length s) n then some s else none

-- "/tmp/j%dMaster%d-temp%d"
unfoldable pub generar_nombre_archivo_temporal_transf : ℕ → ℕ → ℕ → Option (List ℕ)
generar_nombre_archivo_temporal_transf job master bloque = fits 21 (
    (b'/' ∷ b't' ∷ b'm' ∷ b'p' ∷ b'/' ∷ b'j' ∷ [])
    ++ (print_int32 job
        ++ ((b'M' ∷ b'a' ∷ b's' ∷ b't' ∷ b'e' ∷ b'r' ∷ [])
            ++ (print_int32 master
                ++ ((b'-' ∷ b't' ∷ b'e' ∷ b'm' ∷ b'p' ∷ []) ++ print_int32 bloque)))))

-- "/tmp/J%dMaster%d-%s"
unfoldable pub generar_nombre_temporal_local : List ℕ → ℕ → ℕ → Option (List ℕ)
generar_nombre_temporal_local nodo master job = fits 21 (
    (b'/' ∷ b't' ∷ b'm' ∷ b'p' ∷ b'/' ∷ b'J' ∷ [])
    ++ (print_int32 job
        ++ ((b'M' ∷ b'a' ∷ b's' ∷ b't' ∷ b'e' ∷ b'r' ∷ []) ++ (print_int32 master ++ b'-' ∷ nodo))))

-- "final"
abbrev pub final : List ℕ
final = b'f' ∷ b'i' ∷ b'n' ∷ b'a' ∷ b'l' ∷ []

unfoldable pub generar_archivo_rg : ℕ → ℕ → Option (List ℕ)
generar_archivo_rg master job = generar_nombre_temporal_local final master job

-- `crearCargaPorNodo`, where a pointer has `pointer` bytes: `sizeof` is taken of the pointer.
unfoldable pub crear_carga_por_nodo : ℕ → List ℕ → List CargaNodo → Option (List CargaNodo)
crear_carga_por_nodo pointer nombre cargas = fits (pointer + 1) nombre >>= λ s.
    some (
      cargas ++ record { nodo = s; carga_actual = 0; carga_historica = 0; carga_por_job = [] } ∷ [])

-- The block's number on the node.
unfoldable pub nro_bloque : Block → List ℕ → ℤ
nro_bloque b nodo = elim b.copy0.node [
  | none ↦ b.copy1.blockno
  | some n ↦ if same_bytes n nodo then b.copy0.blockno else b.copy1.blockno
]

-- `mlist_find` of the block with an index.
unfoldable pub busco_bloque : List Block → ℕ → Option Block
busco_bloque [] index = none
busco_bloque (b ∷ bs) index =
    let rest = busco_bloque bs index in if eqz b.index (pos index) then some b else rest

-- The stage of one block, and the table with its entry. A node without a name is a fault.
unfoldable pub nueva_etapa : ℕ → ℕ → InfoNodo → Block → Tabla → Option (EtapaTransformacion × Tabla)
nueva_etapa job sock info b tabla = do
  nodo ← info.nodo
  let nro = nro_bloque b nodo
  archivo ← generar_nombre_archivo_temporal_transf job sock (to_word 32 nro)
  some (
    record {
      nodo = info.nodo;
      ip = info.ip;
      puerto = info.puerto;
      bloque = nro;
      bytes_ocupados = int_of_size b.size;
      archivo_etapa = some archivo;
    },
    agregar_a_tabla_estado tabla job nodo sock (to_word 32 nro) transformacion archivo en_proceso,
  )

-- The stages of the blocks of one worker.
unfoldable pub etapas_de_nodo :
    ℕ
    → ℕ
    → List Block
    → InfoNodo
    → List ℕ
    → List EtapaTransformacion
    → Tabla
    → Option (List EtapaTransformacion × Tabla)
etapas_de_nodo job sock blocks info [] lista tabla = some (lista, tabla)
etapas_de_nodo job sock blocks info (i ∷ is) lista tabla = do
  b ← busco_bloque blocks i
  (et, tabla') ← nueva_etapa job sock info b tabla
  etapas_de_nodo job sock blocks info is (lista ++ et ∷ []) tabla'

-- `enviarEtapa_transformacion_Master`, from the worker and the active node at one place on.
unfoldable pub enviar_etapa_transformacion :
    ℕ
    → ℕ
    → List Block
    → List Worker
    → List InfoNodo
    → List EtapaTransformacion
    → Tabla
    → Option (List EtapaTransformacion × Tabla)
enviar_etapa_transformacion job sock blocks [] activos lista tabla = some (lista, tabla)
enviar_etapa_transformacion job sock blocks (w ∷ ws) [] lista tabla = elim w.bloque [
  | [] ↦ enviar_etapa_transformacion job sock blocks ws [] lista tabla
  | _ ∷ _ ↦ none
]
enviar_etapa_transformacion job sock blocks (w ∷ ws) (info ∷ activos) lista tabla =
    etapas_de_nodo job sock blocks info w.bloque lista tabla >>= λ r.
    enviar_etapa_transformacion job sock blocks ws activos r.0 r.1

-- A signed comparison of two words.
abbrev pub le32 : ℕ → ℕ → Bool
le32 a b = leb ((a + 2 ^ 31) % 2 ^ 32) ((b + 2 ^ 31) % 2 ^ 32)

-- The share of a job that was planned; no share of the job is looked for.
abbrev pub con_planificado : ℕ → ℕ → CargaNodo → CargaNodo
con_planificado job cantidad c = record c {
  carga_actual = add32 c.carga_actual cantidad;
  carga_historica = add32 c.carga_historica cantidad;
  carga_por_job = c.carga_por_job ++ record { job = job; carga_del_job = cantidad } ∷ [];
}

-- "AlmacenamientoFinal"
abbrev pub almacenamiento_final : List ℕ
almacenamiento_final =
    b'A' ∷ b'l' ∷ b'm' ∷ b'a' ∷ b'c' ∷ b'e' ∷ b'n' ∷ b'a' ∷ b'm' ∷ b'i' ∷ b'e' ∷ b'n' ∷ b't' ∷ b'o'
    ∷ b'F' ∷ b'i' ∷ b'n' ∷ b'a' ∷ b'l' ∷ []

-- `mandarEtapaReduccionLocal`: the node's data, and the table with the new entry.
unfoldable pub mandar_etapa_reduccion_local :
    ℕ → ℕ → List ℕ → Option InfoNodo → List ℕ → Tabla → Option (InfoNodo × Tabla)
mandar_etapa_reduccion_local job socket nodo worker temporal tabla = worker >>= λ info. some (
  info,
  agregar_a_tabla_estado tabla job nodo socket (2 ^ 32 - 1) reduccion_local temporal en_proceso,
)

module _ (same_name : List ℕ → List ℕ → Bool) where
  -- `mlist_any` of the loads of a node.
  unfoldable pub tiene_carga : List CargaNodo → List ℕ → Bool
  tiene_carga [] nodo = false
  tiene_carga (c ∷ cs) nodo = same_name c.nodo nodo || tiene_carga cs nodo

  -- The loops of `completarPrimeraVez`; the first time, all nodes get a load.
  unfoldable pub completar : ℕ → Bool → List InfoNodo → List CargaNodo → Option (List CargaNodo)
  completar pointer todos [] cargas = some cargas
  completar pointer todos (info ∷ activos) cargas = do
    nodo ← info.nodo
    cargas' ←
        (if not todos && tiene_carga cargas nodo
          then some cargas
          else crear_carga_por_nodo pointer nodo cargas)
    completar pointer todos activos cargas'

  -- `completarPrimeraVez`: whether the next time is the first one again, and the loads.
  unfoldable pub completar_primera_vez :
      ℕ → Bool → List InfoNodo → List CargaNodo → Option (Bool × List CargaNodo)
  completar_primera_vez pointer true activos cargas =
      completar pointer true activos [] >>= λ cargas'.
      some (elim activos [ [] ↦ true | _ ∷ _ ↦ false ], cargas')
  completar_primera_vez pointer false activos cargas =
      if ltb (length cargas) (length activos)
      then (completar pointer false activos cargas >>= λ cargas'. some (false, cargas'))
      else some (false, cargas)

  unfoldable pub agregar_carga_nodo_segun_lo_planificado :
      ℕ → List Worker → List CargaNodo → Option (List CargaNodo)
  agregar_carga_nodo_segun_lo_planificado job [] cargas = some cargas
  agregar_carga_nodo_segun_lo_planificado job (w ∷ ws) cargas = do
    i ← posicion_carga_nodo same_name cargas w.nombre
    c ← get_elem? cargas i
    agregar_carga_nodo_segun_lo_planificado job ws
        (set cargas i (con_planificado job (length w.bloque) c))

  unfoldable pub carga_actual_de : List CargaNodo → List ℕ → Option ℕ
  carga_actual_de cargas nodo =
      carga_de_nodo (λ a b. same_name b a) cargas nodo >>= λ c. some c.carga_actual

  -- The stages of `mandarEtapaReduccionGL`, once the one in charge is chosen.
  unfoldable pub etapas_rg :
      List InfoNodo → List ℕ → List ℕ → List (List ℕ × List ℕ) → Option (List EtapaReduccionGlobal)
  etapas_rg activos encargado nombre_rg [] = some []
  etapas_rg activos encargado nombre_rg ((nodo, temporal) ∷ nodos) = do
    info ← busco_ip_puerto activos nodo
    rest ← etapas_rg activos encargado nombre_rg nodos
    let si = same_name nodo encargado
    some (
        record {
          nodo = some nodo;
          ip = info.ip;
          puerto = info.puerto;
          archivo_temporal_de_rl = some temporal;
          archivo_etapa = some (if si then nombre_rg else b'-' ∷ b'1' ∷ []);
          encargado = some (if si then b'S' ∷ b'I' ∷ [] else b'N' ∷ b'O' ∷ []);
        }
        ∷ rest)

  -- `mandarEtapaReduccionGL` after `seleccionarEncargado`.
  unfoldable pub mandar_etapa_reduccion_gl :
      ℕ → ℕ → List InfoNodo → List ℕ → Tabla → Option (List EtapaReduccionGlobal × Tabla)
  mandar_etapa_reduccion_gl master job activos encargado tabla = do
    nombre_rg ← generar_archivo_rg master job
    etapas ← etapas_rg activos encargado nombre_rg (busco_nodos same_name master job tabla)
    some (
      etapas,
      agregar_a_tabla_estado tabla job encargado master (2 ^ 32 - 2) reduccion_global nombre_rg
          en_proceso,
    )

  unfoldable pub mandar_etapa_almacenado_final :
      List InfoNodo → List ℕ → ℕ → ℕ → Tabla → Option (AlmacenadoFinal × Tabla)
  mandar_etapa_almacenado_final activos nodo master job tabla = do
    info ← busco_ip_puerto activos nodo
    archivo ← busco_nodo_encargado same_name job tabla
    some (
      record { nodo = some nodo; ip = info.ip; puerto = info.puerto; archivo_etapa = some archivo },
      agregar_a_tabla_estado tabla job nodo master (2 ^ 32 - 3) almacenamiento_final archivo
          en_proceso,
    )
