-- ===== src/Plan/Progress.antt =====
-- YAMA/src/funcionesYAMA.c: the loop of `planificar` ends with every block given out. The clock
-- reaches a worker with a copy within a lap; if that worker had nothing left, it has after the next.
use opsys_17b.Base.{
  ℕ, zero, suc, ◌+◌, ◌-◌, ◌^◌, ◌≡◌, ap, ◌∙◌, ◌⊎◌, inl, inr, true, false, some, List, arith, ◌==◌,
  length, get_elem?, ◌≤◌, ◌<◌, Bool-cases,
}
use opsys_17b.YFile.{Block}
use opsys_17b.Plan.{Worker, Plan, on_worker, verificar_condicion, da_la_vuelta, planificar_loop}
use opsys_17b.Plan.Step.{vuelta-rest}
use opsys_17b.Plan.Invariant.{IsPlan}
use opsys_17b.Plan.Turn.{Dist, IsTurn, Given, Passed, Change, pass_lem, arrive_at}

-- The wrap of the position changes neither the planner's data nor the way to a worker.
module _ (base : ℕ) (blocks : List Block) (names : List (List ℕ)) (b : Block) (s : Plan) where
  vuelta-IsTurn :
      IsTurn base blocks names b s
      → 0 < length names
      → IsTurn base blocks names b (da_la_vuelta (length names) s)
        × ((da_la_vuelta (length names) s).posicion < length names)
  unfolding da_la_vuelta
  vuelta-IsTurn t lt = elim (Bool-cases (s.posicion == length names)) [
    | inl e ↦ (
      rw e (record {
        is = record {
          inside = omega arith;
          below = t.is.below;
          flag = t.is.flag;
          spread = t.is.spread;
        };
        busy = t.busy;
        at_b = t.at_b;
      }),
      rw e (omega arith),
    )
    | inr e ↦ (rw e t, let le = t.is.inside in rw e (ground (arith, e, le)))
  ]

  vuelta-Dist :
      (c d : ℕ)
      → c < length names
      → Dist (length names) s.posicion c d
      → Dist (length names) (da_la_vuelta (length names) s).posicion c d
  unfolding da_la_vuelta
  vuelta-Dist c d lt h = elim (Bool-cases (s.posicion == length names)) [
    | inl e ↦
        let at_n : s.posicion ≡ length names = ground arith in
        rw e (elim h [ inl e' ↦ absurd (omega arith) | inr e' ↦ inl (omega arith) ])
    | inr e ↦ rw e h
  ]

-- The loop gives the block out within `m` rounds.
abbrev pub Reached : ℕ → List Block → List (List ℕ) → ℕ → Plan → ℕ → Type 0
Reached base blocks names fuel s m =
    (s' : Plan) × (fuel' : ℕ) × (fuel ≤ fuel' + m)
    × (planificar_loop fuel base (length names) blocks s
        ≡ planificar_loop fuel' base (length names) blocks s')
    × IsPlan blocks names s'
    × (s'.bloque ≡ s.bloque + 1)

module _ (base : ℕ) (blocks : List Block) (names : List (List ℕ)) (b : Block) (m : List ℕ) (c : ℕ)
    (on_m : on_worker b m ≡ some true) (at_m : get_elem? names c ≡ some m)
    (inside : c < length names) (fits : base + base < 2 ^ 32) (some_base : 0 < base) where
  loop_round :
      (fuel : ℕ) (s s' : Plan)
      → s.asigne ≡ false
      → verificar_condicion base (length names) blocks (da_la_vuelta (length names) s) ≡ some s'
      → planificar_loop (suc fuel) base (length names) blocks s
        ≡ planificar_loop fuel base (length names) blocks s'
  unfolding planificar_loop
  loop_round fuel s s' busy run = rw (busy, planificar_loop) (rw run)

  given_lem :
      (fuel k : ℕ) (s : Plan)
      → s.asigne ≡ false
      → Given base blocks names (da_la_vuelta (length names) s)
      → Reached base blocks names (suc fuel) s (suc k)
  given_lem fuel k s busy (s', run, is, e) = (
    s',
    fuel,
    omega arith,
    loop_round fuel s s' busy run,
    is,
    e ∙ ap (λ t. t + 1) (vuelta-rest (length names) s).1,
  )

  passed_lem :
      (fuel k : ℕ) (s s' : Plan)
      → s.asigne ≡ false
      → verificar_condicion base (length names) blocks (da_la_vuelta (length names) s) ≡ some s'
      → s'.bloque ≡ (da_la_vuelta (length names) s).bloque
      → Reached base blocks names fuel s' k
      → Reached base blocks names (suc fuel) s (suc k)
  passed_lem fuel k s s' busy run e (s'', fuel', le, run', is, e') = (
    s'',
    fuel',
    omega arith,
    loop_round fuel s s' busy run ∙ run',
    is,
    e' ∙ ap (λ t. t + 1) (e ∙ (vuelta-rest (length names) s).1),
  )

  -- The worker got its ration on the lap before: once more at most was one added.
  abbrev Lap : Plan → Worker → ℕ → Type 0
  Lap s w d =
      (w.disponibilidad ≡ base)
      ⊎ ((w.disponibilidad ≡ base + base) × (s.seguidos + d < length names))

  lap_lem :
      (s s' : Plan) (w w' : Worker) (d : ℕ)
      → suc d < length names
      → Lap s w (suc d)
      → Change base blocks names s s' w w'
      → Lap s' w' d
  lap_lem s s' w w' d lt (inl e) (inl (e', n)) = inl (e' ∙ e)
  lap_lem s s' w w' d lt (inl e) (inr (e', n, n')) = inr (omega arith, omega arith)
  lap_lem s s' w w' d lt (inr (e, n)) (inl (e', n')) = inr (e' ∙ e, omega arith)
  lap_lem s s' w w' d lt (inr (e, n)) (inr (e', n', n'')) = absurd (omega arith)

  -- The round with the clock at the worker.
  arrival :
      (s : Plan) (w : Worker) (n' : ℕ)
      → IsTurn base blocks names b s
      → Dist (length names) s.posicion c 0
      → get_elem? s.planificador c ≡ some w
      → length names ≡ suc n'
      → Given base blocks names (da_la_vuelta (length names) s)
        ⊎ ((w.disponibilidad ≡ 0)
            × Passed base blocks names b c n'
                (da_la_vuelta (length names) s)
                (λ s' w'. w'.disponibilidad ≡ base))
  arrival s w n' t dist at_c n_lem =
      let (t', lt') = vuelta-IsTurn base blocks names b s t (omega arith) in
      let here : (da_la_vuelta (length names) s).posicion ≡ c =
        elim (vuelta-Dist base blocks names b s c 0 inside dist) [
          | inl e ↦ omega arith
          | inr e ↦ absurd (omega arith)
        ] in
      arrive_at base blocks names b (da_la_vuelta (length names) s) t' c m w n' here on_m at_m n_lem
        lt' (rw (vuelta-rest (length names) s).0 at_c)

  second-Lap :
      (d fuel : ℕ) (s : Plan) (w : Worker)
      → IsTurn base blocks names b s
      → Dist (length names) s.posicion c d
      → d < length names
      → get_elem? s.planificador c ≡ some w
      → Lap s w d
      → d < fuel
      → Reached base blocks names fuel s (suc d)
  second-Lap d zero s w t dist lt at_c lap f = absurd (omega arith)
  second-Lap zero (suc fuel) s w t dist lt at_c lap f =
      elim (arrival s w (length names - 1) t dist at_c (omega arith)) [
        | inl g ↦ given_lem fuel 0 s t.busy g
        | inr (z, p) ↦ absurd (elim lap [ inl e ↦ omega arith | inr (e, _) ↦ omega arith ])
      ]
  second-Lap (suc d) (suc fuel) s w t dist lt at_c lap f =
      let (t', lt') = vuelta-IsTurn base blocks names b s t (omega arith) in
      let dist' = vuelta-Dist base blocks names b s c (suc d) inside dist in
      let (ps, k, a, n) = vuelta-rest (length names) s in
      elim (pass_lem base blocks names b (da_la_vuelta (length names) s) t' c d lt' dist' m w on_m
        lt (rw ps at_c)) [
          | inl g ↦ given_lem fuel (suc d) s t.busy g
          | inr (s', run, t'', e, dist'', (w', at_c', ch)) ↦
              passed_lem fuel (suc d) s s' t.busy run e (
                second-Lap d fuel s' w' t'' dist'' (omega arith) at_c'
                  (lap_lem (da_la_vuelta (length names) s) s' w w' d lt (rw n lap) ch)
                  (omega arith))
        ]

  pub weaken :
      (fuel k k' : ℕ) (s : Plan)
      → k ≤ k'
      → Reached base blocks names fuel s k
      → Reached base blocks names fuel s k'
  weaken fuel k k' s le (s', fuel', le', run, is, e) = (s', fuel', omega arith, run, is, e)

  pub first_lap :
      (d fuel : ℕ) (s : Plan) (w : Worker)
      → IsTurn base blocks names b s
      → Dist (length names) s.posicion c d
      → d < length names
      → get_elem? s.planificador c ≡ some w
      → d + length names < fuel
      → Reached base blocks names fuel s (suc d + length names)
  first_lap d zero s w t dist lt at_c f = absurd (omega arith)
  first_lap zero (suc fuel) s w t dist lt at_c f =
      weaken (suc fuel) (suc (length names)) (suc zero + length names) s (omega arith)
        (elim (arrival s w (length names - 1) t dist at_c (omega arith)) [
          | inl g ↦ given_lem fuel (length names) s t.busy g
          | inr (z, (s', run, t'', e, dist'', (w', at_c', full))) ↦
              passed_lem fuel (length names) s s' t.busy run e (
                let r =
                  second-Lap (length names - 1) fuel s' w' t'' dist'' (omega arith) at_c' (inl full)
                    (omega arith) in
                let n_lem : suc (length names - 1) ≡ length names = omega arith in rw n_lem at r)
        ])
  first_lap (suc d) (suc fuel) s w t dist lt at_c f =
      let (t', lt') = vuelta-IsTurn base blocks names b s t (omega arith) in
      let dist' = vuelta-Dist base blocks names b s c (suc d) inside dist in
      let (ps, k, a, n) = vuelta-rest (length names) s in
      weaken (suc fuel) (suc (suc d + length names)) (suc (suc d) + length names) s (omega arith)
        (elim (pass_lem base blocks names b (da_la_vuelta (length names) s) t' c d lt' dist' m w
          on_m lt (rw ps at_c)) [
            | inl g ↦ given_lem fuel (suc d + length names) s t.busy g
            | inr (s', run, t'', e, dist'', (w', at_c', ch)) ↦
                passed_lem fuel (suc d + length names) s s' t.busy run e
                  (first_lap d fuel s' w' t'' dist'' (omega arith) at_c' (omega arith))
          ])
