-- ===== src/Estados/Pendientes.antt =====
-- YAMA/src/server.c: when the transformations of a node are taken for finished.
use opsys_17b.Base.{
  ℕ, zero, suc, ◌+◌, ◌≡◌, refl, ap, ◌∙◌, Bool, true, false, not, ◌&&◌, some, List, [], ◌∷◌, ◌==◌,
  arith, if◌then◌else◌, get_elem?, set, get_elem?-set_other, Bool-cases, inl, inr, some_inj,
}
use opsys_17b.Estados.{
  Estado, Tabla, indice, filtrar, todos, con_estado, cambiar, es_tarea, actualizo_tabla_estado,
  es_nodo_buscado, termino, verifico_finalizacion_transformacion, finalizado_ok,
}

none_more : (n : ℕ) → (n == 0) ≡ (0 + n == 0)
none_more n = let same : n ≡ 0 + n = omega arith in ap (λ k. k == 0) same

one_less : (n m : ℕ) → suc n ≡ m → (n == 0) ≡ (m == 1)
one_less n m h = let same : (suc n == 1) ≡ (m == 1) = ap (λ k. k == 1) h in last n ∙ same
  where
    last : (n : ℕ) → (n == 0) ≡ (suc n == 1)
    last n = ground arith

module _ (same_name : List ℕ → List ℕ → Bool) (nodo : List ℕ) (master job : ℕ) where
  -- An entry of the node that is neither an error nor finished.
  abbrev pub pendiente : Estado → Bool
  pendiente e = es_nodo_buscado same_name nodo master job e && not (termino same_name e)

  unfoldable pub pendientes : Tabla → ℕ
  pendientes [] = 0
  pendientes (e ∷ tabla) = (if pendiente e then 1 else 0) + pendientes tabla

  -- The node is taken for finished when nothing is pending.
  verifico-pendientes :
      (tabla : Tabla)
      → verifico_finalizacion_transformacion same_name nodo master job tabla
        ≡ (pendientes tabla == 0)
  unfolding verifico_finalizacion_transformacion pendientes todos filtrar
  verifico-pendientes [] = refl
  verifico-pendientes (e ∷ tabla) =
      let rec = verifico-pendientes tabla in
      elim (Bool-cases (es_nodo_buscado same_name nodo master job e)) [
        | inl a ↦ elim (Bool-cases (termino same_name e)) [
          | inl b ↦ rw a (rw b (rec ∙ none_more (pendientes tabla)))
          | inr b ↦ rw a (rw b (ground arith))
        ]
        | inr a ↦ rw a (rec ∙ none_more (pendientes tabla))
      ]

  pendientes-set :
      (tabla : Tabla) (i : ℕ) (e e' : Estado)
      → get_elem? tabla i ≡ some e
      → pendiente e ≡ true
      → pendiente e' ≡ false
      → suc (pendientes (set tabla i e')) ≡ pendientes tabla
  unfolding pendientes
  pendientes-set [] i e e' at a b = absurd (ground (arith, at))
  pendientes-set (x ∷ tabla) zero e e' at a b =
      let same : x ≡ e = some_inj at in rw same (rw a (rw b (omega arith)))
  pendientes-set (x ∷ tabla) (suc i) e e' at a b = omega (arith, pendientes-set tabla i e e' at a b)

  -- When the first entry of a task is pending for its node, `actualizo_tabla_estado` with "FinalizadoOK"
  -- changes that entry alone and leaves one pending entry less; then the transformations of the node are
  -- taken for finished just when it was the last one pending.
  pub actualizo_tabla_estado_lem :
      (bloque i : ℕ) (e : Estado) (tabla : Tabla)
      → same_name finalizado_ok finalizado_ok ≡ true
      → indice (λ x. es_tarea same_name nodo bloque master job x) tabla ≡ some i
      → get_elem? tabla i ≡ some e
      → pendiente e ≡ true
      → (tabla' : Tabla) × (actualizo_tabla_estado same_name nodo bloque master job finalizado_ok
            tabla
          ≡ some tabla')
        × (suc (pendientes tabla') ≡ pendientes tabla)
        × (verifico_finalizacion_transformacion same_name nodo master job tabla'
            ≡ (pendientes tabla == 1))
        × ((j : ℕ) → (i == j) ≡ false → get_elem? tabla' j ≡ get_elem? tabla j)
  unfolding actualizo_tabla_estado cambiar
  actualizo_tabla_estado_lem bloque i e tabla ok first at pending =
      let tabla' = set tabla i (con_estado finalizado_ok e) in
      let less = pendientes-set tabla i e (con_estado finalizado_ok e) at pending (done e) in
      (
        tabla',
        rw first (rw (at, cambiar) refl),
        less,
        verifico-pendientes tabla' ∙ one_less (pendientes tabla') (pendientes tabla) less,
        λ j other. get_elem?-set_other tabla i j (con_estado finalizado_ok e) other,
      )
    where
      done : (e : Estado) → pendiente (con_estado finalizado_ok e) ≡ false
      done e =
          elim (Bool-cases
            (es_nodo_buscado same_name nodo master job (con_estado finalizado_ok e))) [
              | inl a ↦ rw a (rw ok refl)
              | inr a ↦ rw a refl
            ]
