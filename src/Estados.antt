-- ===== src/Estados.antt =====
-- YAMA/src/funcionesYAMA.c and YAMA/src/server.c: the table of states, `listaEstados`, with an entry for
-- each stage that a job has in a node. Entries are changed in their place, so the table is the list of
-- their values. An `int` is its pattern of 32 bits. `string_equals_ignore_case` is of a library outside
-- the repository and a parameter, `same_name`. Where a result is an option around another, `none` is a
-- fault: an entry that is not there is read or written.
pub mod Pendientes
mod Tests
use opsys_17b.Base.{
  ℕ, zero, suc, ◌+◌, ◌-◌, ◌^◌, Bool, true, false, not, ◌||◌, ◌&&◌, Option, none, some, List, [],
  ◌∷◌, ◌++◌, map, ◌==◌, if◌then◌else◌, length, get_elem?, set,
}
use opsys_17b.Stage.{InfoNodo}
use opsys_17b.Text.{mstring_equali}
use opsys_17b.YFile.{Block, BlockCopy}
use opsys_17b.Carga.{CargaNodo, actualizar_carga_del_nodo}

-- `t_Estado`
pub record Estado : Type 0 where
  pub job : ℕ
  pub master : ℕ
  pub nodo : List ℕ
  pub block : ℕ
  pub etapa : List ℕ
  pub archivo_temporal : List ℕ
  pub estado : List ℕ

abbrev pub Tabla : Type 0
Tabla = List Estado

-- "En proceso"
abbrev pub en_proceso : List ℕ
en_proceso = b'E' ∷ b'n' ∷ b' ' ∷ b'p' ∷ b'r' ∷ b'o' ∷ b'c' ∷ b'e' ∷ b's' ∷ b'o' ∷ []

-- "Error"
abbrev pub error : List ℕ
error = b'E' ∷ b'r' ∷ b'r' ∷ b'o' ∷ b'r' ∷ []

-- "FinalizadoOK"
abbrev pub finalizado_ok : List ℕ
finalizado_ok =
    b'F' ∷ b'i' ∷ b'n' ∷ b'a' ∷ b'l' ∷ b'i' ∷ b'z' ∷ b'a' ∷ b'd' ∷ b'o' ∷ b'O' ∷ b'K' ∷ []

-- "Transformacion"
abbrev pub transformacion : List ℕ
transformacion =
    b'T' ∷ b'r' ∷ b'a' ∷ b'n' ∷ b's' ∷ b'f' ∷ b'o' ∷ b'r' ∷ b'm' ∷ b'a' ∷ b'c' ∷ b'i' ∷ b'o' ∷ b'n'
    ∷ []

-- "ReduccionLocal"
abbrev pub reduccion_local : List ℕ
reduccion_local =
    b'R' ∷ b'e' ∷ b'd' ∷ b'u' ∷ b'c' ∷ b'c' ∷ b'i' ∷ b'o' ∷ b'n' ∷ b'L' ∷ b'o' ∷ b'c' ∷ b'a' ∷ b'l'
    ∷ []

-- "ReduccionGlobal"
abbrev pub reduccion_global : List ℕ
reduccion_global =
    b'R' ∷ b'e' ∷ b'd' ∷ b'u' ∷ b'c' ∷ b'c' ∷ b'i' ∷ b'o' ∷ b'n' ∷ b'G' ∷ b'l' ∷ b'o' ∷ b'b' ∷ b'a'
    ∷ b'l' ∷ []

unfoldable pub agregar_a_tabla_estado :
    Tabla → ℕ → List ℕ → ℕ → ℕ → List ℕ → List ℕ → List ℕ → Tabla
agregar_a_tabla_estado tabla job nodo master bloque etapa archivo estado =
    tabla
    ++ (record {
      job = job;
      master = master;
      nodo = nodo;
      block = bloque;
      etapa = etapa;
      archivo_temporal = archivo;
      estado = estado;
    }
        ∷ [])

-- `mlist_index`, `none` for -1.
unfoldable pub indice : (Estado → Bool) → Tabla → Option ℕ
indice cond [] = none
indice cond (e ∷ tabla) =
    let rest = indice cond tabla in
    if cond e then some 0 else elim rest [ none ↦ none | some i ↦ some (suc i) ]

-- `mlist_filter`
unfoldable pub filtrar : (Estado → Bool) → Tabla → Tabla
filtrar cond [] = []
filtrar cond (e ∷ tabla) = let rest = filtrar cond tabla in if cond e then e ∷ rest else rest

-- `mlist_all`
unfoldable pub todos : (Estado → Bool) → Tabla → Bool
todos cond [] = true
todos cond (e ∷ tabla) = cond e && todos cond tabla

-- `mlist_get` at the index, the field written, and `mlist_replace`.
abbrev pub con_estado : List ℕ → Estado → Estado
con_estado estado e = record e { estado = estado }

unfoldable pub cambiar : List ℕ → Option ℕ → Tabla → Option Tabla
cambiar estado none tabla = none
cambiar estado (some i) tabla = elim (get_elem? tabla i) [
  | none ↦ none
  | some e ↦ some (set tabla i (con_estado estado e))
]

module _ (same_name : List ℕ → List ℕ → Bool) where
  abbrev pub es_tarea : List ℕ → ℕ → ℕ → ℕ → Estado → Bool
  es_tarea nodo bloque master job e =
      same_name e.nodo nodo && ((e.block == bloque) && ((e.master == master) && (e.job == job)))

  unfoldable pub actualizo_tabla_estado : List ℕ → ℕ → ℕ → ℕ → List ℕ → Tabla → Option Tabla
  actualizo_tabla_estado nodo bloque master job estado tabla =
      cambiar estado (indice (λ e. es_tarea nodo bloque master job e) tabla) tabla

  abbrev pub es_nodo_buscado : List ℕ → ℕ → ℕ → Estado → Bool
  es_nodo_buscado nodo master job e =
      same_name e.nodo nodo
      && ((e.master == master) && (not (same_name e.estado error) && (e.job == job)))

  abbrev pub termino : Estado → Bool
  termino e = same_name e.estado finalizado_ok

  unfoldable pub verifico_finalizacion_transformacion : List ℕ → ℕ → ℕ → Tabla → Bool
  verifico_finalizacion_transformacion nodo master job tabla =
      todos termino (filtrar (λ e. es_nodo_buscado nodo master job e) tabla)

  abbrev pub es_job_buscado : ℕ → ℕ → Estado → Bool
  es_job_buscado job master e =
      (e.master == master)
      && ((e.job == job)
          && ((same_name e.etapa reduccion_local || same_name e.etapa transformacion)
              && not (same_name e.estado error)))

  unfoldable pub verifico_finalizacion_rl : ℕ → ℕ → Tabla → Bool
  verifico_finalizacion_rl job master tabla =
      todos termino (filtrar (λ e. es_job_buscado job master e) tabla)

  unfoldable pub busco_archivos_temporales : List ℕ → ℕ → ℕ → Tabla → List (List ℕ)
  busco_archivos_temporales nodo master job tabla =
      map (λ (e : Estado). e.archivo_temporal)
        (filtrar
          (λ e. same_name e.nodo nodo && ((e.master == master) && ((e.job == job) && termino e)))
          tabla)

  -- The node and the file of each local reduction.
  unfoldable pub busco_nodos : ℕ → ℕ → Tabla → List (List ℕ × List ℕ)
  busco_nodos master job tabla =
      map (λ (e : Estado). (e.nodo, e.archivo_temporal))
        (filtrar
          (λ e. (e.master == master) && ((e.job == job) && same_name e.etapa reduccion_local))
          tabla)

  unfoldable pub busco_nodo_encargado : ℕ → Tabla → Option (List ℕ)
  busco_nodo_encargado job tabla =
      elim (filtrar (λ e. (e.job == job) && same_name e.etapa reduccion_global) tabla) [
        | [] ↦ none
        | e ∷ es ↦ some e.archivo_temporal
      ]

  -- `none` for -1
  unfoldable pub buscar_id_job_para_master_caido : ℕ → Tabla → Option ℕ
  buscar_id_job_para_master_caido master tabla =
      elim (filtrar (λ e. (e.master == master) && same_name e.estado en_proceso) tabla) [
        | [] ↦ none
        | e ∷ es ↦ some e.job
      ]

  unfoldable pub buscar_sockets_activos : Tabla → Tabla
  buscar_sockets_activos tabla = filtrar (λ e. same_name e.estado en_proceso) tabla

  -- `activos` has the names of `listaNodosActivos`.
  unfoldable pub nodo_con_copia_is_active : List (List ℕ) → List ℕ → Bool
  nodo_con_copia_is_active [] nodo = false
  nodo_con_copia_is_active (n ∷ activos) nodo =
      same_name n nodo || nodo_con_copia_is_active activos nodo

  -- The block can be read from the other copy than the one that the node has.
  unfoldable pub nodo_esta_en_la_copia : List (List ℕ) → Block → ℕ → List ℕ → Bool
  nodo_esta_en_la_copia activos b copia nodo = elim b.copy0.node [
    | none ↦ false
    | some n0 ↦ elim b.copy1.node [
      | none ↦ false
      | some n1 ↦
          if copia == 0
          then same_name nodo n0 && nodo_con_copia_is_active activos n1
          else same_name nodo n1 && nodo_con_copia_is_active activos n0
    ]
  ]

  -- The loads of the local reductions in the other nodes are taken away one after the other.
  unfoldable pub quitar_cargas : ℕ → Tabla → List CargaNodo → Option (List CargaNodo)
  quitar_cargas job [] cargas = some cargas
  quitar_cargas job (e ∷ locales) cargas =
      elim (actualizar_carga_del_nodo same_name cargas e.nodo job 0 1) [
        | none ↦ none
        | some cargas' ↦ quitar_cargas job locales cargas'
      ]

  unfoldable pub eliminar_cargas_reducciones_locales :
      List ℕ → ℕ → ℕ → Tabla → List CargaNodo → Option (List CargaNodo)
  eliminar_cargas_reducciones_locales nodo_global master job tabla cargas =
      quitar_cargas job
        (filtrar
          (λ e.
            (e.job == job)
            && ((e.master == master)
                && (not (same_name e.nodo nodo_global) && same_name e.etapa reduccion_local)))
          tabla)
        cargas

  abbrev pub es_global : ℕ → ℕ → Estado → Bool
  es_global job master e = (e.job == job) && ((e.master == master) && same_name e.estado en_proceso)

  unfoldable pub finalizar_job_global_en_tabla_estado :
      ℕ → ℕ → List ℕ → Tabla → List CargaNodo → Option (Tabla × List CargaNodo)
  finalizar_job_global_en_tabla_estado master job estado tabla cargas =
      elim (indice (λ e. es_global job master e) tabla) [
        | none ↦ none
        | some i ↦ elim (get_elem? tabla i) [
          | none ↦ none
          | some e ↦ elim (actualizar_carga_del_nodo same_name cargas e.nodo job 0 1) [
            | none ↦ none
            | some cargas' ↦
                let tabla' = set tabla i (con_estado estado e) in
                elim (eliminar_cargas_reducciones_locales e.nodo master job tabla' cargas') [
                  | none ↦ none
                  | some cargas'' ↦ some (tabla', cargas'')
                ]
          ]
        ]
      ]

-- `BuscoIP_PUERTO`
unfoldable pub busco_ip_puerto : List InfoNodo → List ℕ → Option InfoNodo
busco_ip_puerto [] nodo = none
busco_ip_puerto (n ∷ activos) nodo =
    let rest = busco_ip_puerto activos nodo in
    if mstring_equali n.nodo (some nodo) then some n else rest
