-- ===== src/Jobs/Tests.antt =====
-- YAMA/src/server.c: two nodes with loads, and a list of both in the heap.
use opsys_17b.Base.{
  ℕ, ◌≡◌, refl, none, some, List, [], ◌∷◌, ◌+◌, arith, ◌==◌, if◌then◌else◌, All, true, false, pos,
}
use opsys_17b.Serial.{same_bytes}
use opsys_17b.Plan.{Worker}
use opsys_17b.MList.{node, Heap, MList, mlist}
use opsys_17b.MList.Chain.{Cells, IsMList}
use opsys_17b.MList.Traverse.Laws.{elems, Unused}
use opsys_17b.Carga.{CargaNodo, posicion_carga_nodo}
use opsys_17b.Carga.Nodo.{IsCarga}
use opsys_17b.Jobs.{
  le32, agregar_carga_nodo_segun_lo_planificado, generar_archivo_rg, generar_nombre_temporal_local,
  generar_nombre_archivo_temporal_transf, fits, print_int32, completar_primera_vez, completar,
  crear_carga_por_nodo, tiene_carga, enviar_etapa_transformacion, etapas_de_nodo, nueva_etapa,
  busco_bloque, nro_bloque,
}
use opsys_17b.Files.{print_int, digits}
use opsys_17b.YFile.{Block}
use opsys_17b.Stage.{InfoNodo}
use opsys_17b.Estados.{transformacion, en_proceso, agregar_a_tabla_estado}
use opsys_17b.Jobs.Carga.{total, Libres, agregar_carga_lem}
use opsys_17b.Jobs.Primero.{IsFirst}
use opsys_17b.Jobs.Encargado.{obtener_carga_maxima, obtener_carga_maxima_lem}

abbrev carga_of : List ℕ → ℕ → CargaNodo
carga_of nodo n = record {
  nodo = nodo;
  carga_actual = n;
  carga_historica = n;
  carga_por_job = record { job = 1; carga_del_job = n } ∷ [];
}

abbrev cargas : List CargaNodo
cargas = carga_of (65 ∷ []) 5 ∷ carga_of (66 ∷ []) 2 ∷ []

cargas-IsCarga : All IsCarga cargas
cargas-IsCarga = (
  record { unicos = (refl, tt); cuenta = refl },
  (record { unicos = (refl, tt); cuenta = refl }, tt),
)

abbrev workers : List Worker
workers =
    record { disponibilidad = 0; nombre = 66 ∷ []; bloque = 0 ∷ 2 ∷ [] }
    ∷ record { disponibilidad = 1; nombre = 65 ∷ []; bloque = 1 ∷ [] }
    ∷ []

workers-Libres : Libres same_bytes 4 cargas workers
unfolding posicion_carga_nodo
workers-Libres =
    (1, carga_of (66 ∷ []) 2, refl, refl, refl, (0, carga_of (65 ∷ []) 5, refl, refl, refl, tt))

agregar_carga_lem_example :
    (cargas' : List CargaNodo) × (agregar_carga_nodo_segun_lo_planificado same_bytes 4 workers
        cargas
      ≡ some cargas')
    × All IsCarga cargas'
    × (total 4 cargas' ≡ total 4 cargas + 3)
agregar_carga_lem_example =
    agregar_carga_lem same_bytes 4 cargas workers cargas-IsCarga workers-Libres

-- The names of the nodes stand at 7 and 8.
abbrev texts : ℕ → List ℕ
texts v = if v == 7 then 65 ∷ [] else 66 ∷ []

abbrev two_heap : Heap
two_heap a = if a == 10 then some (node 0 20 7) else if a == 20 then some (node 10 0 8) else none

abbrev two_list : MList
two_list = mlist 10 20 2

abbrev two_cells : Cells
two_cells = (10, 7) ∷ (20, 8) ∷ []

two_list-IsMList : IsMList two_heap two_list two_cells
two_list-IsMList = record {
  chain = (omega arith, refl, (omega arith, refl, tt));
  head_lem = refl;
  tail_lem = refl;
  length_lem = refl;
  distinct = (refl, (refl, tt));
}

two_free : Unused two_heap (30 ∷ 40 ∷ [])
two_free = (omega arith, refl, (refl, tt), (omega arith, refl, tt, tt))

obtener_carga_maxima_lem_example :
    (v : ℕ) × (g : Heap) × (new : Cells) × (obtener_carga_maxima
        (λ v. v)
        (30 ∷ 40 ∷ [])
        two_list
        two_heap
      ≡ some (v, g))
    × (elems new ≡ 7 ∷ 8 ∷ [])
    × IsFirst (λ a b. le32 b a) v new
obtener_carga_maxima_lem_example =
    obtener_carga_maxima_lem two_heap two_list two_cells (30 ∷ 40 ∷ []) two_list-IsMList two_free
      (omega arith) (omega arith) (λ v. v)

abbrev info_of : List ℕ → InfoNodo
info_of nodo = record { nodo = some nodo; ip = none; puerto = none }

abbrev empty_carga : List ℕ → CargaNodo
empty_carga nodo = record { nodo = nodo; carga_actual = 0; carga_historica = 0; carga_por_job = [] }

abbrev one_block : Block
one_block = record {
  index = pos 0;
  size = 10;
  copy0 = record { blockno = pos 3; node = some (65 ∷ []) };
  copy1 = record { blockno = pos 7; node = some (66 ∷ []) };
}

abbrev worker_of : List ℕ → List ℕ → Worker
worker_of nombre bloque = record { disponibilidad = 1; nombre = nombre; bloque = bloque }

-- "/tmp/j1Master5-temp7"
abbrev temporal : List ℕ
temporal =
    b'/' ∷ b't' ∷ b'm' ∷ b'p' ∷ b'/' ∷ b'j' ∷ b'1' ∷ b'M' ∷ b'a' ∷ b's' ∷ b't' ∷ b'e' ∷ b'r' ∷ b'5'
    ∷ b'-' ∷ b't' ∷ b'e' ∷ b'm' ∷ b'p' ∷ b'7' ∷ []

-- "/tmp/J1Master10-final" has one byte more than fit; "/tmp/J1Master9-final" has not.
names_run :
    (generar_archivo_rg 10 1 ≡ none)
    × (generar_archivo_rg 9 1
        ≡ some (
            b'/' ∷ b't' ∷ b'm' ∷ b'p' ∷ b'/' ∷ b'J' ∷ b'1' ∷ b'M' ∷ b'a' ∷ b's' ∷ b't' ∷ b'e' ∷ b'r'
            ∷ b'9' ∷ b'-' ∷ b'f' ∷ b'i' ∷ b'n' ∷ b'a' ∷ b'l' ∷ []))
unfolding generar_archivo_rg generar_nombre_temporal_local fits print_int32 print_int digits
names_run = (refl, refl)

-- The first time, each node gets a load; the next time, the new one does.
completar_run :
    (completar_primera_vez same_bytes 4 true (info_of (65 ∷ []) ∷ []) cargas
      ≡ some (false, empty_carga (65 ∷ []) ∷ []))
    × (completar_primera_vez same_bytes 4 false
          (info_of (65 ∷ []) ∷ info_of (66 ∷ []) ∷ [])
          (empty_carga (65 ∷ []) ∷ [])
        ≡ some (false, empty_carga (65 ∷ []) ∷ empty_carga (66 ∷ []) ∷ []))
unfolding completar_primera_vez completar crear_carga_por_nodo tiene_carga fits
completar_run = (refl, refl)

-- A block with copies on both nodes, as the second worker gets it.
transformacion_run :
    enviar_etapa_transformacion 1 5
      (one_block ∷ [])
      (worker_of (65 ∷ []) [] ∷ worker_of (66 ∷ []) (0 ∷ []) ∷ [])
      (info_of (65 ∷ []) ∷ info_of (66 ∷ []) ∷ [])
      []
      []
    ≡ some (
      record {
        nodo = some (66 ∷ []);
        ip = none;
        puerto = none;
        bloque = pos 7;
        bytes_ocupados = pos 10;
        archivo_etapa = some temporal;
      }
          ∷ [],
      agregar_a_tabla_estado [] 1 (66 ∷ []) 5 7 transformacion temporal en_proceso,
    )
unfolding enviar_etapa_transformacion etapas_de_nodo nueva_etapa busco_bloque nro_bloque
    generar_nombre_archivo_temporal_transf fits print_int32 print_int digits
transformacion_run = refl
