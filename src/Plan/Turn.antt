-- ===== src/Plan/Turn.antt =====
-- YAMA/src/funcionesYAMA.c: one round of the loop of `planificar`, seen from a worker `c` that holds a
-- copy of the next block: the block is given out, or the clock is one place nearer to the worker.
use opsys_17b.Base.{
  length-map, get_elem?-map, get_elem?-set, get_elem?-set_other, get_elem?_inside,
  inside_of_get_elem?, ℕ, suc, ◌+◌, ◌%◌, ◌^◌, ◌≡◌, refl, sym, subst, ap, ◌∙◌, ◌⊎◌, inl, inr, true,
  false, some, List, map, arith, ◌==◌, length, get_elem?, ◌<◌, Bool-cases,
}
use opsys_17b.YFile.{Block}
use opsys_17b.Plan.{
  Worker, Plan, on_worker, refill, avanzo_posicion, asigno_bloque, renuevo, verificar_condicion,
}
use opsys_17b.Plan.Workers.{vista}
use opsys_17b.Plan.Step.{on_worker-some, step_renuevo, step_intento, avanzo-rest}
use opsys_17b.Plan.Invariant.{IsPlan, avanzo-IsPlan, renuevo-IsPlan, asigno-IsPlan}

-- The clock at `p` comes to `c` after `d` places, around the end if need be.
abbrev pub Dist : ℕ → ℕ → ℕ → ℕ → Type 0
Dist n p c d = (p + d ≡ c) ⊎ (p + d ≡ c + n)

module _ (base : ℕ) (blocks : List Block) (names : List (List ℕ)) where
  -- The planner before a round that places the block `b`.
  pub record IsTurn (b : Block) (s : Plan) : Type 0 where
    pub is : IsPlan blocks names s
    pub busy : s.asigne ≡ false
    pub at_b : get_elem? blocks s.bloque ≡ some b

  -- The round gives the block out.
  abbrev pub Given : Plan → Type 0
  Given s =
      (s' : Plan) × (verificar_condicion base (length names) blocks s ≡ some s')
      × IsPlan blocks names s'
      × (s'.bloque ≡ s.bloque + 1)

  -- What a round that passes does to the worker: nothing, or a ration more when all got one.
  abbrev pub Change : Plan → Plan → Worker → Worker → Type 0
  Change s s' w w' =
      ((w'.disponibilidad ≡ w.disponibilidad) × (s'.seguidos ≡ s.seguidos + 1))
      ⊎ ((w'.disponibilidad ≡ (w.disponibilidad + base) % 2 ^ 32)
          × (s'.seguidos ≡ 0)
          × (s.seguidos + 1 ≡ length names))

  -- The round passes, and leaves the worker at `c` as `Q` says.
  abbrev pub Passed : Block → ℕ → ℕ → Plan → (Plan → Worker → Type 0) → Type 0
  Passed b c d s Q =
      (s' : Plan) × (verificar_condicion base (length names) blocks s ≡ some s')
      × IsTurn b s'
      × (s'.bloque ≡ s.bloque)
      × Dist (length names) s'.posicion c d
      × ((w : Worker) × (get_elem? s'.planificador c ≡ some w) × Q s' w)

  module _ (b : Block) (s : Plan) (t : IsTurn b s) where
    length_lem : length s.planificador ≡ length names
    length_lem =
        sym (length-map vista s.planificador)
        ∙ sym (length-map (λ v. v.0) (map vista s.planificador))
        ∙ ap length t.is.spread.names_lem

    pub worker_at :
        (c : ℕ) → c < length names → (w : Worker) × (get_elem? s.planificador c ≡ some w)
    worker_at c lt = get_elem?_inside s.planificador c (omega (arith, length_lem))

    name_at :
        (c : ℕ) (w : Worker)
        → get_elem? s.planificador c ≡ some w
        → get_elem? names c ≡ some w.nombre
    name_at c w e =
        subst (λ ns. get_elem? ns c ≡ some w.nombre) t.is.spread.names_lem
          (get_elem?-map (λ v. v.0) (map vista s.planificador) c (vista w)
            (get_elem?-map vista s.planificador c w e))

    -- The block goes to the worker under the clock.
    give :
        (w : Worker)
        → s.posicion < length names
        → get_elem? s.planificador s.posicion ≡ some w
        → on_worker b w.nombre ≡ some true
        → (w.disponibilidad == 0) ≡ false
        → Given s
    unfolding asigno_bloque
    give w lt at_w on some_left = (
      asigno_bloque (length blocks) w s,
      step_intento base (length names) blocks s w b true at_w t.at_b on some_left,
      asigno-IsPlan blocks names s t.is lt w at_w (b, t.at_b, on) t.busy
          (inside_of_get_elem? blocks s.bloque b t.at_b),
      refl,
    )

    module _ (c d : ℕ) (lt : s.posicion < length names)
        (dist : Dist (length names) s.posicion c (suc d)) where
      nearer : Dist (length names) (s.posicion + 1) c d
      nearer = elim dist [ inl e ↦ inl (omega arith) | inr e ↦ inr (omega arith) ]

      not_here : suc d < length names → (s.posicion == c) ≡ false
      not_here le = elim dist [ inl e ↦ ground arith | inr e ↦ ground arith ]

      renew :
          (w wc : Worker)
          → suc d < length names
          → get_elem? s.planificador s.posicion ≡ some w
          → get_elem? s.planificador c ≡ some wc
          → verificar_condicion base (length names) blocks s ≡ some (renuevo base w s)
          → Passed b c d s (λ s' w'. Change s s' wc w')
      unfolding renuevo
      renew w wc le at_w at_c run = (
        renuevo base w s,
        run,
        record {
          is = renuevo-IsPlan blocks names s t.is lt w at_w base;
          busy = t.busy;
          at_b = t.at_b;
        },
        refl,
        nearer,
        (
          wc,
          get_elem?-set_other s.planificador s.posicion c _ (not_here le) ∙ at_c,
          inl (refl, refl),
        ),
      )

      refilled :
          (wc : Worker)
          → get_elem? s.planificador c ≡ some wc
          → (w' : Worker) × (get_elem? (avanzo_posicion base (length names) s).planificador c
              ≡ some w')
            × Change s (avanzo_posicion base (length names) s) wc w'
      unfolding avanzo_posicion
      refilled wc at_c = elim (Bool-cases (s.seguidos + 1 == length names)) [
        | inl e ↦ (
          refill base wc,
          rw e (get_elem?-map (refill base) s.planificador c wc at_c),
          inr (refl, rw e, ground arith),
        )
        | inr e ↦ (wc, rw e at_c, inl (refl, rw e))
      ]

      advance :
          (wc : Worker)
          → get_elem? s.planificador c ≡ some wc
          → verificar_condicion base (length names) blocks s
            ≡ some (avanzo_posicion base (length names) s)
          → Passed b c d s (λ s' w'. Change s s' wc w')
      advance wc at_c run =
          let (p, k, a) = avanzo-rest base (length names) s in
          (
            avanzo_posicion base (length names) s,
            run,
            record {
              is = avanzo-IsPlan blocks names s t.is lt base (length names);
              busy = a ∙ t.busy;
              at_b = rw k t.at_b;
            },
            k,
            rw p nearer,
            refilled wc at_c,
          )

      -- A round with the clock elsewhere.
      pub pass_lem :
          (m : List ℕ) (wc : Worker)
          → on_worker b m ≡ some true
          → suc d < length names
          → get_elem? s.planificador c ≡ some wc
          → Given s ⊎ Passed b c d s (λ s' w'. Change s s' wc w')
      pass_lem m wc on_m le at_c =
          let (w, at_w) = worker_at s.posicion lt in
          let (q, on) = on_worker-some b m w.nombre true on_m in
          elim (Bool-cases (w.disponibilidad == 0)) [
            | inl z ↦ inr (
                renew w wc le at_w at_c
                  (step_renuevo base (length names) blocks s w b q at_w t.at_b on (ground arith)))
            | inr nz ↦ elim (Bool-cases q) [
              | inl e ↦ inl (give w lt at_w (rw e at on) nz)
              | inr e ↦
                  let on' : on_worker b w.nombre ≡ some false = rw e at on in
                  inr (
                    advance wc at_c
                      (step_intento base (length names) blocks s w b false at_w t.at_b on' nz))
            ]
          ]

    -- A round with the clock at the worker `c`: it takes the block, or it had nothing left and the
    -- clock has a whole lap before it.
    arrive_lem :
        (m : List ℕ) (wc : Worker) (n' : ℕ)
        → on_worker b m ≡ some true
        → get_elem? names s.posicion ≡ some m
        → length names ≡ suc n'
        → s.posicion < length names
        → get_elem? s.planificador s.posicion ≡ some wc
        → Given s
          ⊎ ((wc.disponibilidad ≡ 0) × Passed b s.posicion n' s (λ s' w'. w'.disponibilidad ≡ base))
    unfolding renuevo
    arrive_lem m wc n' on_m at_m n_lem lt at_w =
        let same : m ≡ wc.nombre = some_same (sym at_m ∙ name_at s.posicion wc at_w) in
        let on : on_worker b wc.nombre ≡ some true = rw same at on_m in
        elim (Bool-cases (wc.disponibilidad == 0)) [
          | inr nz ↦ inl (give wc lt at_w on nz)
          | inl z ↦
              let z' : wc.disponibilidad ≡ 0 = ground arith in
              inr (
                z',
                (
                  renuevo base wc s,
                  step_renuevo base (length names) blocks s wc b true at_w t.at_b on z',
                  record {
                    is = renuevo-IsPlan blocks names s t.is lt wc at_w base;
                    busy = t.busy;
                    at_b = t.at_b;
                  },
                  refl,
                  inr (omega arith),
                  (
                    record wc { disponibilidad = base },
                    get_elem?-set s.planificador s.posicion _ (omega (arith, length_lem)),
                    refl,
                  ),
                ),
              )
        ]
      where
        some_same : {x y : List ℕ} → some x ≡ some y → x ≡ y
        some_same e = cc

    pub arrive_at :
        (c : ℕ) (m : List ℕ) (wc : Worker) (n' : ℕ)
        → s.posicion ≡ c
        → on_worker b m ≡ some true
        → get_elem? names c ≡ some m
        → length names ≡ suc n'
        → s.posicion < length names
        → get_elem? s.planificador c ≡ some wc
        → Given s ⊎ ((wc.disponibilidad ≡ 0) × Passed b c n' s (λ s' w'. w'.disponibilidad ≡ base))
    arrive_at c m wc n' here on_m at_m n_lem lt at_w =
        subst
          (λ c.
            Given s
            ⊎ ((wc.disponibilidad ≡ 0) × Passed b c n' s (λ s' w'. w'.disponibilidad ≡ base)))
          here (arrive_lem m wc n' on_m (rw here at_m) n_lem lt (rw here at_w))
