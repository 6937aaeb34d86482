-- ===== src/Carga/Nodo.antt =====
-- YAMA/src/funcionesYAMA.c: `actualizarCargaDelNodo` keeps the load of every node the sum of the
-- shares of its jobs.
use opsys_17b.Base.{
  ℕ, ◌%◌, ◌^◌, ◌≡◌, refl, ap, ◌∙◌, inl, inr, Bool, true, false, none, some, List, arith, ◌==◌,
  if◌then◌else◌, get_elem?, set, All, All-set, All-get_elem?, Bool-cases,
}
use opsys_17b.Carga.{
  CargaJob, CargaNodo, add32, sub32, existe_el_job, eliminar_carga_job, quitar, aumentar,
  posicion_carga_nodo, actualizar_carga_del_nodo,
}
use opsys_17b.Carga.Cuenta.{
  suma, carga_de, Unicos, existe-cases, carga_de_absent, suma-eliminar, Unicos-eliminar,
  carga_de-eliminar, sumar_lem,
}

-- A job has one share at most, and the load is the sum of the shares, in 32 bits.
pub record IsCarga (n : CargaNodo) : Type 0 where
  pub unicos : Unicos n.carga_por_job
  pub cuenta : n.carga_actual ≡ suma n.carga_por_job % 2 ^ 32

-- The share of a job after a call: none when its load is taken away, and more by `cantidad` otherwise.
abbrev pub esperada : ℕ → ℕ → ℕ → ℕ → List CargaJob → ℕ
esperada aumentar_o_quitar job cantidad j xs =
    if j == job
    then (if aumentar_o_quitar == 0 then 0 else add32 (carga_de j xs) cantidad)
    else carga_de j xs % 2 ^ 32

-- What a call does to the node.
pub record IsCambio (aumentar_o_quitar job cantidad : ℕ) (n n' : CargaNodo) : Type 0 where
  pub nodo_lem : n'.nodo ≡ n.nodo
  pub shares :
      (j : ℕ)
      → carga_de j n'.carga_por_job % 2 ^ 32
        ≡ esperada aumentar_o_quitar job cantidad j n.carga_por_job
  pub historica :
      n'.carga_historica
      ≡ (if aumentar_o_quitar == 0 then n.carga_historica else add32 n.carga_historica cantidad)

module _ (job : ℕ) (n : CargaNodo) (is : IsCarga n) where
  quitar_absent : existe_el_job job n.carga_por_job ≡ none → quitar job n ≡ n
  unfolding quitar
  quitar_absent a = rw (a, quitar)

  quitar_present :
      (i : ℕ) (c : CargaJob)
      → existe_el_job job n.carga_por_job ≡ some i
      → get_elem? n.carga_por_job i ≡ some c
      → quitar job n ≡ record n {
        carga_actual = sub32 n.carga_actual c.carga_del_job;
        carga_por_job = eliminar_carga_job job n.carga_por_job;
      }
  unfolding quitar
  quitar_present i c a b = rw (a, quitar) (rw (b, quitar))

  quitar_lem : (cantidad : ℕ) → IsCarga (quitar job n) × IsCambio 0 job cantidad n (quitar job n)
  quitar_lem cantidad =
      let xs = n.carga_por_job in
      let total = is.cuenta in
      elim (existe-cases job xs) [
        | inl (a, b) ↦
            let z = carga_de_absent job xs b in
            let run = quitar_absent a in
            (
              rw run is,
              rw run (record {
                nodo_lem = refl;
                shares = λ j. elim (Bool-cases (j == job)) [
                  | inl e ↦ let same : j ≡ job = ground arith in rw e (rw same (rw z))
                  | inr e ↦ rw e
                ];
                historica = refl;
              }),
            )
        | inr (i, c, a, b, d, f) ↦
            let run = quitar_present i c a b in
            (
              rw run (record {
                unicos = Unicos-eliminar job xs is.unicos;
                cuenta = omega (arith, suma-eliminar job xs is.unicos, f, total);
              }),
              rw run (record {
                nodo_lem = refl;
                shares = λ j.
                    ap (λ k. k % 2 ^ 32) (carga_de-eliminar job xs j)
                    ∙ low (j == job) (carga_de j xs);
                historica = refl;
              }),
            )
      ]
    where
      low : (t : Bool) (k : ℕ) → (if t then 0 else k) % 2 ^ 32 ≡ (if t then 0 else k % 2 ^ 32)
      low true k = refl
      low false k = refl

  aumentar_lem :
      (k cantidad : ℕ)
      → (k == 0) ≡ false
      → IsCarga (aumentar job cantidad n) × IsCambio k job cantidad n (aumentar job cantidad n)
  unfolding aumentar
  aumentar_lem k cantidad ne =
      let (u, s, c) = sumar_lem job cantidad n.carga_por_job is.unicos in
      let total = is.cuenta in
      (
        record { unicos = u; cuenta = omega (arith, s, total) },
        record { nodo_lem = refl; shares = λ j. rw ne (c j); historica = rw ne },
      )

-- When each node's load is the sum of its shares, a call for a listed node keeps that so on all nodes. The
-- first node of that name changes, in the share of that job alone: it goes, or grows by the amount
-- and the historic load with it, in 32 bits.
pub actualizar_carga_del_nodo_lem :
    (same_name : List ℕ → List ℕ → Bool) (cargas : List CargaNodo) (nodo : List ℕ)
    (job aumentar_o_quitar cantidad i : ℕ) (n : CargaNodo)
    → All IsCarga cargas
    → posicion_carga_nodo same_name cargas nodo ≡ some i
    → get_elem? cargas i ≡ some n
    → (n' : CargaNodo) × (actualizar_carga_del_nodo same_name cargas nodo job aumentar_o_quitar
          cantidad
        ≡ some (set cargas i n'))
      × IsCambio aumentar_o_quitar job cantidad n n'
      × All IsCarga (set cargas i n')
unfolding actualizar_carga_del_nodo
actualizar_carga_del_nodo_lem same_name cargas nodo job k cantidad i n all found at_i =
    let is : IsCarga n = All-get_elem? IsCarga cargas i n all at_i in
    elim (Bool-cases (k == 0)) [
      | inl e ↦
          let zero_k : k ≡ 0 = ground arith in
          let (is', change) = quitar_lem job n is cantidad in
          (
            quitar job n,
            rw (found, actualizar_carga_del_nodo) (rw (at_i, actualizar_carga_del_nodo) (rw e)),
            rw zero_k change,
            All-set IsCarga cargas i (quitar job n) all is',
          )
      | inr e ↦
          let (is', change) = aumentar_lem job n is k cantidad e in
          (
            aumentar job cantidad n,
            rw (found, actualizar_carga_del_nodo) (rw (at_i, actualizar_carga_del_nodo) (rw e)),
            change,
            All-set IsCarga cargas i (aumentar job cantidad n) all is',
          )
    ]
