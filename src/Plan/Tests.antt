-- ===== src/Plan/Tests.antt =====
-- YAMA/src/funcionesYAMA.c: the planner on a file of three blocks and two nodes.
use opsys_17b.Base.{
  ℕ, ◌≡◌, refl, false, some, none, List, [], ◌∷◌, map, arith, pos, All, get_elem?, ◌≤◌,
}
use opsys_17b.YFile.{Block}
use opsys_17b.Plan.{
  Worker, Plan, Nodo, Elegido, planificar, planificar_loop, rounds, llenar, elegir, disponibilidad,
  verificar_condicion, renuevo, intento, asigno_bloque, avanzo_posicion, da_la_vuelta, on_worker,
}
use opsys_17b.Plan.Workers.{vista}
use opsys_17b.Plan.Invariant.{IsSpread}
use opsys_17b.Plan.Start.{IsNodo, disp_of, llenar_lem}
use opsys_17b.Plan.Total.{IsPlaceable, planificar_lem}

abbrev name_a : List ℕ
name_a = 65 ∷ []

abbrev name_b : List ℕ
name_b = 66 ∷ []

abbrev nodes : List Nodo
nodes =
    record { nombre = name_a; carga = 2; historico = 7 }
    ∷ record { nombre = name_b; carga = 1; historico = 3 }
    ∷ []

abbrev only_on : List ℕ → Block
only_on n = record {
  index = pos 0;
  size = 10;
  copy0 = record { blockno = pos 0; node = some n };
  copy1 = record { blockno = pos 0; node = none };
}

abbrev on_both : Block
on_both = record {
  index = pos 0;
  size = 10;
  copy0 = record { blockno = pos 0; node = some name_a };
  copy1 = record { blockno = pos 1; node = some name_b };
}

abbrev blocks : List Block
blocks = on_both ∷ only_on name_a ∷ only_on name_a ∷ []

-- WCLOCK with a ration of one: the clock starts at the second node, which has the smaller load.
planificar_run :
    planificar false 1 2 nodes blocks
    ≡ some (record {
      planificador =
          record { disponibilidad = 0; nombre = name_a; bloque = 1 ∷ 2 ∷ [] }
          ∷ record { disponibilidad = 1; nombre = name_b; bloque = 0 ∷ [] }
          ∷ [];
      posicion = 1;
      bloque = 3;
      seguidos = 0;
      asigne = false;
    })
unfolding planificar planificar_loop rounds llenar elegir disponibilidad verificar_condicion renuevo
    intento asigno_bloque avanzo_posicion da_la_vuelta on_worker
planificar_run = refl

IsPlaceable-a : IsPlaceable (map (λ (x : Nodo). x.nombre) nodes) (only_on name_a)
unfolding on_worker
IsPlaceable-a = (0, name_a, refl, refl)

IsPlaceable-both : IsPlaceable (map (λ (x : Nodo). x.nombre) nodes) on_both
unfolding on_worker
IsPlaceable-both = (1, name_b, refl, refl)

nodes-IsNodo : All (IsNodo 1 2) nodes
nodes-IsNodo = (
  record {
    name_fits = omega arith;
    below_max = omega arith;
    historico_fits = omega arith;
    fits = omega arith;
  },
  (
    record {
      name_fits = omega arith;
      below_max = omega arith;
      historico_fits = omega arith;
      fits = omega arith;
    },
    tt,
  ),
)

planificar_lem_example :
    (s : Plan) × (planificar false 1 2 nodes blocks ≡ some s)
    × IsSpread blocks (name_a ∷ name_b ∷ []) (map vista s.planificador) 3
    × (s.asigne ≡ false)
planificar_lem_example =
    planificar_lem false 1 2 nodes blocks (omega arith) (omega arith) (omega arith) nodes-IsNodo
      (IsPlaceable-both, (IsPlaceable-a, (IsPlaceable-a, tt)))

llenar_lem_example :
    (ws : List Worker) × (c : Elegido) × (p : ℕ) × (x : Nodo) × (llenar false 1 2 0 nodes
        (record { maxima = 0; anterior = 0; posicion = none })
      ≡ some (ws, c))
    × (map vista ws ≡ (name_a, []) ∷ (name_b, []) ∷ [])
    × (c.posicion ≡ some p)
    × (get_elem? nodes p ≡ some x)
    × All
        (λ y.
          (disp_of false 1 2 y ≤ disp_of false 1 2 x)
          × (disp_of false 1 2 y ≡ disp_of false 1 2 x → x.historico ≤ y.historico))
        nodes
llenar_lem_example = llenar_lem false 1 2 nodes (omega arith) (omega arith) nodes-IsNodo
