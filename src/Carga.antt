-- ===== src/Carga.antt =====
-- YAMA/src/funcionesYAMA.c: the load of each node, with the share of each job, in `listaCargaPorNodo`.
-- An `int` is its pattern of 32 bits. `string_equals_ignore_case` is of a library outside the
-- repository and a parameter, `same_name`. `none` is a fault: the load of a node that is not listed.
pub mod Cuenta
pub mod Nodo
mod Tests
use opsys_17b.Base.{
  ℕ, zero, suc, ◌+◌, ◌-◌, ◌%◌, ◌^◌, Bool, true, false, Option, none, some, List, [], ◌∷◌, ◌++◌,
  ◌==◌, if◌then◌else◌, get_elem?, set,
}

-- `t_cargaPorJob`
pub record CargaJob : Type 0 where
  pub job : ℕ
  pub carga_del_job : ℕ

-- `t_cargaPorNodo`
pub record CargaNodo : Type 0 where
  pub nodo : List ℕ
  pub carga_actual : ℕ
  pub carga_historica : ℕ
  pub carga_por_job : List CargaJob

-- The `+=` and `-=` of an `int`.
abbrev pub add32 : ℕ → ℕ → ℕ
add32 a b = (a + b) % 2 ^ 32

abbrev pub sub32 : ℕ → ℕ → ℕ
sub32 a b = (a + (2 ^ 32 - b % 2 ^ 32)) % 2 ^ 32

-- `existeElJobEnLaCopia`: the place of the job's share, `none` for -1.
unfoldable pub existe_el_job : ℕ → List CargaJob → Option ℕ
existe_el_job job [] = none
existe_el_job job (x ∷ xs) =
    let rest = existe_el_job job xs in
    if x.job == job then some 0 else elim rest [ none ↦ none | some i ↦ some (suc i) ]

-- `eliminarCargaJobDelNodo`
unfoldable pub eliminar_carga_job : ℕ → List CargaJob → List CargaJob
eliminar_carga_job job [] = []
eliminar_carga_job job (x ∷ xs) =
    let rest = eliminar_carga_job job xs in if x.job == job then rest else x ∷ rest

-- The branch of `actualizarCargaDelNodo` that takes the job's load away.
unfoldable pub quitar : ℕ → CargaNodo → CargaNodo
quitar job n = elim (existe_el_job job n.carga_por_job) [
  | none ↦ n
  | some i ↦ elim (get_elem? n.carga_por_job i) [
    | none ↦ n
    | some c ↦ record n {
      carga_actual = sub32 n.carga_actual c.carga_del_job;
      carga_por_job = eliminar_carga_job job n.carga_por_job;
    }
  ]
]

-- The job's share with more load, or a new one.
unfoldable pub sumar : ℕ → ℕ → List CargaJob → List CargaJob
sumar job cantidad xs = elim (existe_el_job job xs) [
  | none ↦ xs ++ record { job = job; carga_del_job = cantidad } ∷ []
  | some i ↦ elim (get_elem? xs i) [
    | none ↦ xs
    | some c ↦ set xs i (record c { carga_del_job = add32 c.carga_del_job cantidad })
  ]
]

-- The other branch.
unfoldable pub aumentar : ℕ → ℕ → CargaNodo → CargaNodo
aumentar job cantidad n = record n {
  carga_actual = add32 n.carga_actual cantidad;
  carga_historica = add32 n.carga_historica cantidad;
  carga_por_job = sumar job cantidad n.carga_por_job;
}

module _ (same_name : List ℕ → List ℕ → Bool) where
  -- `mlist_index` of the first load whose node has the name.
  unfoldable pub posicion_carga_nodo : List CargaNodo → List ℕ → Option ℕ
  posicion_carga_nodo [] nodo = none
  posicion_carga_nodo (n ∷ ns) nodo =
      let rest = posicion_carga_nodo ns nodo in
      if same_name n.nodo nodo then some 0 else elim rest [ none ↦ none | some i ↦ some (suc i) ]

  unfoldable pub actualizar_carga_del_nodo :
      List CargaNodo → List ℕ → ℕ → ℕ → ℕ → Option (List CargaNodo)
  actualizar_carga_del_nodo cargas nodo job aumentar_o_quitar cantidad =
      elim (posicion_carga_nodo cargas nodo) [
        | none ↦ none
        | some i ↦ elim (get_elem? cargas i) [
          | none ↦ none
          | some n ↦ some (
              set cargas i
                (if aumentar_o_quitar == 0 then quitar job n else aumentar job cantidad n))
        ]
      ]

  -- The load that `mlist_find` returns for a name.
  unfoldable pub carga_de_nodo : List CargaNodo → List ℕ → Option CargaNodo
  carga_de_nodo cargas nodo = elim (posicion_carga_nodo cargas nodo) [
    | none ↦ none
    | some i ↦ get_elem? cargas i
  ]

  unfoldable pub obtener_historico : List CargaNodo → List ℕ → Option ℕ
  obtener_historico cargas nodo = elim (carga_de_nodo cargas nodo) [
    | none ↦ none
    | some n ↦ some n.carga_historica
  ]
