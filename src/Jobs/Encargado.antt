-- ===== src/Jobs/Encargado.antt =====
-- YAMA/src/server.c and YAMA/src/funcionesYAMA.c: `seleccionarEncargado` and `obtenerCargaMaxima` sort a
-- list in the heap and take its first element. An element is a pointer; the argument `mem` has the
-- addresses that `malloc` will return.
use opsys_17b.Base.{
  ℕ, ◌+◌, ◌-◌, ◌/◌, ◌≡◌, ◌<◌, ◌≤◌, Bool, none, some, List, map, arith, length, get_elem?, set, true,
  false, ℤ, pos, negsuc,
}
use opsys_17b.MList.{Ptr, Heap, MList, M, fault, ◌>>=◌, pure}
use opsys_17b.MList.Chain.{Cells, IsMList}
use opsys_17b.MList.Traverse.{mlist_map, mlist_clear}
use opsys_17b.MList.Traverse.Laws.{elems, Unused}
use opsys_17b.MList.Traverse.Copies.{mlist_map_lem}
use opsys_17b.Carga.{CargaNodo, posicion_carga_nodo, actualizar_carga_del_nodo}
use opsys_17b.Carga.Nodo.{IsCambio}
use opsys_17b.Jobs.{le32, carga_actual_de}
use opsys_17b.MList.{mlist_index}
use opsys_17b.Jobs.Primero.{
  first_sorted, IsFirst, first_sorted_lem, clear-Sorted, elems-length, le32_trans, le32_total,
}

-- `obtenerCargaMaxima`, where `carga` reads the load of a node; the list of loads is destroyed.
unfoldable pub obtener_carga_maxima : (ℕ → ℕ) → List Ptr → MList → M ℕ
obtener_carga_maxima carga mem l = do
  g ← mlist_map carga mem l
  (v, s) ← first_sorted (λ a b. le32 b a) g.list
  t ← mlist_clear s
  pure v

-- The load that the node in charge of the global reduction of `n` nodes gets.
abbrev pub cantidad_a_aumentar : ℕ → ℕ
cantidad_a_aumentar n = 1 + (n - 1) / 2

-- `cargaActual` of a node that has a load; without one it reads NULL, which is tested for below.
abbrev pub carga_del_nodo : (List ℕ → List ℕ → Bool) → List CargaNodo → List ℕ → ℕ
carga_del_nodo same_name cargas nodo = elim (carga_actual_de same_name cargas nodo) [
  | none ↦ 0
  | some c ↦ c
]

abbrev pub sin_carga : (List ℕ → List ℕ → Bool) → List CargaNodo → List ℕ → Bool
sin_carga same_name cargas nodo = elim (carga_actual_de same_name cargas nodo) [
  | none ↦ true
  | some c ↦ false
]

-- `condicionAComparar`: `bytes` is the text of a name.
abbrev pub condicion_a_comparar :
    (List ℕ → List ℕ → Bool) → (bytes : ℕ → List ℕ) → List CargaNodo → ℕ → ℕ → Bool
condicion_a_comparar same_name bytes cargas a b =
    le32 (carga_del_nodo same_name cargas (bytes a)) (carga_del_nodo same_name cargas (bytes b))

-- The first of the sorted names, if there is no place of one without a load.
abbrev pub primero_con_carga : ℤ → (ℕ → ℕ → Bool) → MList → M (ℕ × MList)
primero_con_carga (pos _) cmp l = fault
primero_con_carga (negsuc _) cmp l = first_sorted cmp l

-- `seleccionarEncargado`: `nombre` reads the name of an element of the list. Sorting two names or more
-- compares each of them, and the load of a single one is changed, so that one without a load is a fault.
unfoldable pub seleccionar_encargado :
    (List ℕ → List ℕ → Bool)
    → (nombre : ℕ → ℕ) → (bytes : ℕ → List ℕ) → List CargaNodo
    → ℕ
    → List Ptr
    → MList
    → M (ℕ × List CargaNodo)
seleccionar_encargado same_name nombre bytes cargas job mem nodos_rl = do
  g ← mlist_map nombre mem nodos_rl
  i ← mlist_index (λ v. sin_carga same_name cargas (bytes v)) g.list
  (v, s) ← primero_con_carga i (condicion_a_comparar same_name bytes cargas) g.list
  elim (actualizar_carga_del_nodo same_name cargas (bytes v) job 1
      (cantidad_a_aumentar nodos_rl.length)) [ none ↦ fault | some cargas' ↦ pure (v, cargas') ]

-- The node in charge was chosen, and `cantidad` more of the job are on it alone.
pub record Encarga (same_name : List ℕ → List ℕ → Bool) (bytes : ℕ → List ℕ) (job cantidad : ℕ)
    (cargas cargas' : List CargaNodo) (v : ℕ) : Type 0 where
  pub i : ℕ
  pub antes : CargaNodo
  pub despues : CargaNodo
  pub found : posicion_carga_nodo same_name cargas (bytes v) ≡ some i
  pub at_i : get_elem? cargas i ≡ some antes
  pub result : cargas' ≡ set cargas i despues
  pub cambio : IsCambio 1 job cantidad antes despues

module _ (h : Heap) (l : MList) (xs : Cells) (mem : List Ptr) (is : IsMList h l xs)
    (unused : Unused h mem) (enough : length xs ≤ length mem) (some_x : 0 < length xs) where
  -- With memory for the copies `obtenerCargaMaxima` ends on a list that is not empty, and returns a load of the list that, as a signed
  -- number, no other exceeds.
  pub obtener_carga_maxima_lem :
      (carga : ℕ → ℕ)
      → (v : ℕ) × (g : Heap) × (new : Cells) × (obtener_carga_maxima carga mem l h ≡ some (v, g))
        × (elems new ≡ map carga (elems xs))
        × IsFirst (λ a b. le32 b a) v new
  unfolding obtener_carga_maxima
  obtener_carga_maxima_lem carga =
      let (l1, h1, new, mem1, run1, is1, same, old) =
        mlist_map_lem h l xs mem is unused enough carga in
      let some_new : 0 < length new = omega (arith, elems-length xs new carga same, some_x) in
      let (v, zs, g, run2, first, sorted) =
        first_sorted_lem (λ a b. le32 b a) (λ x y z p q. le32_trans (λ n. n) z y x q p)
          (λ x y p. le32_total (λ n. n) y x p) h1 l1 new is1 some_new in
      let (g', run3) =
        clear-Sorted (λ a b. le32 b a) (λ x y z p q. le32_trans (λ n. n) z y x q p)
          (λ x y p. le32_total (λ n. n) y x p) h1 g l1 new zs is1 sorted in
      (v, g', new, rw (run1, ◌>>=◌) (rw (run2, ◌>>=◌) (rw (run3, ◌>>=◌))), same, first)
