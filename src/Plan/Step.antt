-- ===== src/Plan/Step.antt =====
-- YAMA/src/funcionesYAMA.c: the three ways `verificarCondicion` ends, and when it does not fault.
use opsys_17b.Base.{
  map-set, set_same, get_elem?-map, ℕ, ◌+◌, ◌≡◌, refl, inl, inr, Bool, true, false, some, map,
  arith, ◌==◌, if◌then◌else◌, get_elem?, set, Bool-cases, Option-cases, [], ◌∷◌, ◌++◌, List, [],
  ◌∷◌, length, ap,
}
use opsys_17b.Serial.{same_bytes}
use opsys_17b.YFile.{Block}
use opsys_17b.Plan.{
  Worker, Plan, on_worker, refill, avanzo_posicion, asigno_bloque, renuevo, intento,
  verificar_condicion, da_la_vuelta,
}
use opsys_17b.Plan.Workers.{vista}

-- A block with a copy on one worker is compared with every worker without a fault.
pub on_worker-some :
    (b : Block) (n m : List ℕ) (r : Bool)
    → on_worker b n ≡ some r
    → (q : Bool) × (on_worker b m ≡ some q)
unfolding on_worker
on_worker-some b n m r h = elim (Option-cases b.copy0.node) [
  | inl e0 ↦ elim (Option-cases b.copy1.node) [
    | inl e1 ↦ absurd (ground (arith, e0, e1))
    | inr (y, e1) ↦ (same_bytes y m, rw e0 (rw e1))
  ]
  | inr (x, e0) ↦ elim (Option-cases b.copy1.node) [
    | inl e1 ↦ (same_bytes x m, rw e0 (rw e1))
    | inr (y, e1) ↦ (if same_bytes x m then true else same_bytes y m, rw e0 (rw e1))
  ]
]

module _ (base n : ℕ) (blocks : List Block) (s : Plan) (w : Worker) (b : Block) (here : Bool)
    (at_w : get_elem? s.planificador s.posicion ≡ some w)
    (at_b : get_elem? blocks s.bloque ≡ some b) (on : on_worker b w.nombre ≡ some here) where
  pub step_renuevo :
      w.disponibilidad ≡ 0 → verificar_condicion base n blocks s ≡ some (renuevo base w s)
  unfolding verificar_condicion
  step_renuevo z =
      let e : (w.disponibilidad == 0) ≡ true = ground arith in rw (at_w, verificar_condicion) (rw e)

  pub step_intento :
      (w.disponibilidad == 0) ≡ false
      → verificar_condicion base n blocks s
        ≡ some (if here then asigno_bloque (length blocks) w s else avanzo_posicion base n s)
  unfolding verificar_condicion intento
  step_intento z = rw (at_w, verificar_condicion) (rw z (rw (at_b, intento) (rw (on, intento))))

-- Passing a worker changes availabilities only, and moves the position by one.
module _ (base : ℕ) where
  refill-vista : (ws : List Worker) → map vista (map (refill base) ws) ≡ map vista ws
  refill-vista [] = refl
  refill-vista (w ∷ ws) = ap (λ vs. vista w ∷ vs) (refill-vista ws)

  module _ (n : ℕ) (s : Plan) where
    pub avanzo-vista : map vista (avanzo_posicion base n s).planificador ≡ map vista s.planificador
    unfolding avanzo_posicion
    avanzo-vista = elim (Bool-cases (s.seguidos + 1 == n)) [
      | inl e ↦ rw e (refill-vista s.planificador)
      | inr e ↦ rw e
    ]

    pub avanzo-rest :
        ((avanzo_posicion base n s).posicion ≡ s.posicion + 1)
        × ((avanzo_posicion base n s).bloque ≡ s.bloque)
        × ((avanzo_posicion base n s).asigne ≡ s.asigne)
    unfolding avanzo_posicion
    avanzo-rest = elim (Bool-cases (s.seguidos + 1 == n)) [
      | inl e ↦ (rw e, rw e, rw e)
      | inr e ↦ (rw e, rw e, rw e)
    ]

  pub renuevo-vista :
      (s : Plan) (w : Worker)
      → get_elem? s.planificador s.posicion ≡ some w
      → map vista (renuevo base w s).planificador ≡ map vista s.planificador
  unfolding renuevo
  renuevo-vista s w at_w = rw map-set (
      set_same (map vista s.planificador) s.posicion (vista w)
        (get_elem?-map vista s.planificador s.posicion w at_w))

pub asigno-vista :
    (k : ℕ) (s : Plan) (w : Worker)
    → map vista (asigno_bloque k w s).planificador
      ≡ set (map vista s.planificador) s.posicion (w.nombre, w.bloque ++ s.bloque ∷ [])
unfolding asigno_bloque
asigno-vista k s w = rw map-set

-- The wrap of the position, which the loop does first.
pub vuelta-rest :
    (n : ℕ) (s : Plan)
    → ((da_la_vuelta n s).planificador ≡ s.planificador)
      × ((da_la_vuelta n s).bloque ≡ s.bloque)
      × ((da_la_vuelta n s).asigne ≡ s.asigne)
      × ((da_la_vuelta n s).seguidos ≡ s.seguidos)
unfolding da_la_vuelta
vuelta-rest n s = elim (Bool-cases (s.posicion == n)) [
  | inl e ↦ (rw e, rw e, rw e, rw e)
  | inr e ↦ (rw e, rw e, rw e, rw e)
]
