-- ===== src/Plan/Start.antt =====
-- YAMA/src/funcionesYAMA.c: `llenarArrayPlanificador` sets the clock on a node of the largest
-- availability, one with the least historic load among those.
use opsys_17b.Base.{
  ℕ, suc, ◌+◌, ◌^◌, ◌≡◌, refl, subst, ap, ◌∙◌, ◌⊎◌, inl, inr, Bool, false, none, some, List, [],
  ◌∷◌, map, arith, ◌==◌, length, get_elem?, All, ◌≤◌, ◌<◌, Bool-cases, ltb,
}
use opsys_17b.Plan.{Worker, Nodo, Elegido, elegir, llenar, disponibilidad}
use opsys_17b.Plan.Workers.{vista}

-- The node's name fits into six bytes, its load is at most the largest, and the rations and the historic
-- load are no negative `int`.
pub record IsNodo (base carga_max : ℕ) (x : Nodo) : Type 0 where
  pub name_fits : length x.nombre ≤ 5
  pub below_max : x.carga ≤ carga_max
  pub fits : base + carga_max < 2 ^ 31
  pub historico_fits : x.historico < 2 ^ 31

module _ (i disp historico : ℕ) (c : Elegido) where
  elegir_max :
      (disp ≤ (elegir i disp historico c).maxima) × (c.maxima ≤ (elegir i disp historico c).maxima)
  unfolding elegir
  elegir_max = (ground arith, ground arith)

  elegir_ties :
      (disp ≡ (elegir i disp historico c).maxima → (elegir i disp historico c).anterior ≤ historico)
      × ((elegir i disp historico c).maxima ≡ c.maxima
          → (elegir i disp historico c).anterior ≤ c.anterior)
  unfolding elegir
  elegir_ties = (λ e. ground arith, λ e. ground arith)

  elegir_from :
      (elegir i disp historico c ≡ c)
      ⊎ (elegir i disp historico c
          ≡ record { maxima = disp; anterior = historico; posicion = some i })
  unfolding elegir
  elegir_from = elim (Bool-cases (ltb c.maxima disp)) [
    | inl e ↦ inr (rw e)
    | inr e ↦ elim (Bool-cases (disp == c.maxima)) [
      | inl e' ↦
          let same : disp ≡ c.maxima = ground arith in
          elim (Bool-cases (ltb historico c.anterior)) [
            | inl e'' ↦ inr (rw e (rw e' (rw e'' (rw same))))
            | inr e'' ↦ inl (rw e (rw e' (rw e'')))
          ]
      | inr e' ↦ inl (rw e (rw e'))
    ]
  ]

module _ (clock : Bool) (base carga_max : ℕ) where
  abbrev pub disp_of : Nodo → ℕ
  disp_of x = disponibilidad clock base carga_max x.carga

  pub disp_of_pos : (x : Nodo) → 0 < base → IsNodo base carga_max x → 0 < disp_of x
  unfolding disponibilidad
  disp_of_pos x lt is =
      let le = is.below_max in
      let fits = is.fits in
      elim (Bool-cases clock) [ inl e ↦ rw e (omega arith) | inr e ↦ rw e (omega arith) ]

  -- What the loop from the node `i` on makes of `c`.
  record Best (i : ℕ) (xs : List Nodo) (c c' : Elegido) : Type 0 where
    top :
        All (λ x. (disp_of x ≤ c'.maxima) × (disp_of x ≡ c'.maxima → c'.anterior ≤ x.historico)) xs
    grew : c.maxima ≤ c'.maxima
    kept : c'.maxima ≡ c.maxima → c'.anterior ≤ c.anterior
    from :
        (c' ≡ c)
        ⊎ ((k : ℕ) × (x : Nodo) × (get_elem? xs k ≡ some x)
            × (c' ≡ record { maxima = disp_of x; anterior = x.historico; posicion = some (i + k) }))

  Best-cons :
      (i : ℕ) (x : Nodo) (xs : List Nodo) (c c' : Elegido)
      → Best (i + 1) xs (elegir i (disp_of x) x.historico c) c'
      → Best i (x ∷ xs) c c'
  Best-cons i x xs c c' best =
      let (m, m') = elegir_max i (disp_of x) x.historico c in
      let (t, t') = elegir_ties i (disp_of x) x.historico c in
      let g = best.grew in
      let k = best.kept in
      record {
        top = ((omega arith, λ e. omega (arith, t (omega arith), k (omega arith))), best.top);
        grew = omega arith;
        kept = λ e. omega (arith, t' (omega arith), k (omega arith));
        from = elim best.from [
          | inl e ↦ elim (elegir_from i (disp_of x) x.historico c) [
            | inl e' ↦ inl (e ∙ e')
            | inr e' ↦ let z : i + 0 ≡ i = omega arith in inr (0, x, refl, rw z (e ∙ e'))
          ]
          | inr (j, y, at_y, e) ↦
              let z : i + suc j ≡ i + 1 + j = omega arith in inr (suc j, y, at_y, rw z e)
        ];
      }

  llenar_loop :
      (i : ℕ) (xs : List Nodo) (c : Elegido)
      → All (IsNodo base carga_max) xs
      → (ws : List Worker) × (c' : Elegido) × (llenar clock base carga_max i xs c ≡ some (ws, c'))
        × (map vista ws ≡ map (λ x. (x.nombre, [])) xs)
        × Best i xs c c'
  unfolding llenar
  llenar_loop i [] c is = (
    [],
    c,
    refl,
    refl,
    record { top = tt; grew = omega arith; kept = λ e. omega arith; from = inl refl },
  )
  llenar_loop i (x ∷ xs) c is =
      let (ws, c', run, same, best) =
        llenar_loop (i + 1) xs (elegir i (disp_of x) x.historico c) is.1 in
      let short : ltb 5 (length x.nombre) ≡ false = ground (arith, is.0.name_fits) in
      (
        record { disponibilidad = disp_of x; nombre = x.nombre; bloque = [] } ∷ ws,
        c',
        rw (short, llenar) (rw (run, llenar)),
        rw same,
        Best-cons i x xs c c' best,
      )

  -- With a base above 0, and one node at least, whose names have five bytes at most, loads no more than
  -- the largest, and rations and historic loads within an `int`, the array is filled, one worker without blocks per node, and
  -- the clock starts at a node that no other exceeds in availability, nor, of those that
  -- equal it, has a smaller historic load.
  pub llenar_lem :
      (xs : List Nodo)
      → 0 < length xs
      → 0 < base
      → All (IsNodo base carga_max) xs
      → (ws : List Worker) × (c : Elegido) × (p : ℕ) × (x : Nodo) × (llenar clock base carga_max 0
            xs
            (record { maxima = 0; anterior = 0; posicion = none })
          ≡ some (ws, c))
        × (map vista ws ≡ map (λ y. (y.nombre, [])) xs)
        × (c.posicion ≡ some p)
        × (get_elem? xs p ≡ some x)
        × All
            (λ y. (disp_of y ≤ disp_of x) × (disp_of y ≡ disp_of x → x.historico ≤ y.historico))
            xs
  llenar_lem [] lt po is = absurd (omega arith)
  llenar_lem (y ∷ ys) lt po is =
      let (ws, c, run, same, best) =
        llenar_loop 0 (y ∷ ys) (record { maxima = 0; anterior = 0; posicion = none }) is in
      elim best.from [
        | inl e ↦
            absurd
              (omega (arith, ap (λ (t : Elegido). t.maxima) e, best.top.0.0, disp_of_pos y po is.0))
        | inr (k, x, at_x, e) ↦
            let z : 0 + k ≡ k = omega arith in
            (
              ws,
              c,
              k,
              x,
              run,
              same,
              rw e (rw z),
              at_x,
              subst
                  (λ t.
                    All
                      (λ z.
                        (disp_of z ≤ t.maxima) × (disp_of z ≡ t.maxima → t.anterior ≤ z.historico))
                      (y ∷ ys))
                  e best.top,
            )
      ]
