-- ===== src/Plan.antt =====
-- YAMA/src/funcionesYAMA.c: `planificar`, which spreads the blocks of a file over the nodes that hold
-- a copy, by the (weighted) clock algorithm. `none` is a fault: a NULL pointer or an index out of
-- range. `base` is what `config_get("DISP_BASE")` stands for. An availability is a `uint32_t`.
pub mod Workers
pub mod Step
pub mod Invariant
pub mod Turn
pub mod Progress
pub mod Start
pub mod Total
mod Tests
use opsys_17b.Base.{
  ℕ, zero, suc, ◌+◌, ◌-◌, ◌*◌, ◌%◌, ◌^◌, Bool, true, false, Option, none, some, List, [], ◌∷◌, ◌++◌,
  map, ◌==◌, ltb, if◌then◌else◌, length, get_elem?, set,
}
use opsys_17b.Serial.{same_bytes}
use opsys_17b.YFile.{Block}

-- `t_workerPlanificacion`
pub record Worker : Type 0 where
  pub disponibilidad : ℕ
  pub nombre : List ℕ
  pub bloque : List ℕ

-- The planner's variables, with the two static ones of the file.
pub record Plan : Type 0 where
  pub planificador : List Worker
  pub posicion : ℕ
  pub bloque : ℕ
  pub seguidos : ℕ
  pub asigne : Bool

-- Whether the block has a copy on the worker. With no copy at all `strcmp` reads NULL.
unfoldable pub on_worker : Block → List ℕ → Option Bool
on_worker b nombre = elim b.copy0.node [
  | none ↦ elim b.copy1.node [ none ↦ none | some m ↦ some (same_bytes m nombre) ]
  | some n ↦ elim b.copy1.node [
    | none ↦ some (same_bytes n nombre)
    | some m ↦ some (if same_bytes n nombre then true else same_bytes m nombre)
  ]
]

abbrev pub refill : ℕ → Worker → Worker
refill base w = record w { disponibilidad = (w.disponibilidad + base) % 2 ^ 32 }

unfoldable pub avanzo_posicion : ℕ → ℕ → Plan → Plan
avanzo_posicion base n s =
    if s.seguidos + 1 == n
    then record s {
      posicion = s.posicion + 1;
      seguidos = 0;
      planificador = map (refill base) s.planificador;
    }
    else record s { posicion = s.posicion + 1; seguidos = s.seguidos + 1 }

-- `w` is `planificador[*posicion]`, which `verificarCondicion` read.
unfoldable pub asigno_bloque : ℕ → Worker → Plan → Plan
asigno_bloque n_blocks w s = record {
  planificador =
      set s.planificador s.posicion
        (record w { disponibilidad = w.disponibilidad - 1; bloque = w.bloque ++ s.bloque ∷ [] });
  posicion = s.posicion + 1;
  bloque = s.bloque + 1;
  seguidos = 0;
  asigne = if n_blocks == s.bloque + 1 then true else s.asigne;
}

-- The first branch of `verificarCondicion`: a node with nothing left gets a new ration and is passed.
unfoldable pub renuevo : ℕ → Worker → Plan → Plan
renuevo base w s = record s {
  planificador = set s.planificador s.posicion (record w { disponibilidad = base });
  posicion = s.posicion + 1;
  seguidos = s.seguidos + 1;
}

unfoldable pub intento : ℕ → ℕ → List Block → Worker → Plan → Option Plan
intento base n blocks w s = elim (get_elem? blocks s.bloque) [
  | none ↦ none
  | some b ↦ elim (on_worker b w.nombre) [
    | none ↦ none
    | some here ↦
        some (if here then asigno_bloque (length blocks) w s else avanzo_posicion base n s)
  ]
]

unfoldable pub verificar_condicion : ℕ → ℕ → List Block → Plan → Option Plan
verificar_condicion base n blocks s = elim (get_elem? s.planificador s.posicion) [
  | none ↦ none
  | some w ↦ if w.disponibilidad == 0 then some (renuevo base w s) else intento base n blocks w s
]

-- `if(posicionArray == tamaniolistaNodos) posicionArray = 0`
unfoldable pub da_la_vuelta : ℕ → Plan → Plan
da_la_vuelta n s = if s.posicion == n then record s { posicion = 0 } else s

-- `while(!asigneBloquesDeArchivo)`, on fuel, and the reset of the flag behind it.
unfoldable pub planificar_loop : ℕ → ℕ → ℕ → List Block → Plan → Option Plan
planificar_loop zero base n blocks s = none
planificar_loop (suc fuel) base n blocks s = elim s.asigne [
  | true ↦ some (record s { asigne = false })
  | false ↦ elim (verificar_condicion base n blocks (da_la_vuelta n s)) [
    | none ↦ none
    | some s' ↦ planificar_loop fuel base n blocks s'
  ]
]

-- Rounds of the loop that are enough for so many blocks on `n` nodes: two laps for each.
unfoldable pub rounds : ℕ → ℕ → ℕ
rounds n zero = 0
rounds n (suc k) = 2 * n + rounds n k

-- A node of `listaNodosActivos`, with what `cargaActual` and `obtenerHistorico` say of it.
pub record Nodo : Type 0 where
  pub nombre : List ℕ
  pub carga : ℕ
  pub historico : ℕ

-- `Disponibilidad` as a `uint32_t`; `clock` is whether the algorithm is CLOCK, not WCLOCK.
unfoldable pub disponibilidad : Bool → ℕ → ℕ → ℕ → ℕ
disponibilidad clock base carga_max carga =
    if clock then base % 2 ^ 32 else (base + carga_max + (2 ^ 32 - carga % 2 ^ 32)) % 2 ^ 32

-- The variables of the loop: `*posicion` is not set until some node has an availability.
pub record Elegido : Type 0 where
  pub maxima : ℕ
  pub anterior : ℕ
  pub posicion : Option ℕ

unfoldable pub elegir : ℕ → ℕ → ℕ → Elegido → Elegido
elegir i disp historico c =
    if ltb c.maxima disp
    then record { maxima = disp; anterior = historico; posicion = some i }
    else if disp == c.maxima
    then (if ltb historico c.anterior
        then record c { anterior = historico; posicion = some i }
        else c)
    else c

-- `llenarArrayPlanificador` from the node `i` on. The name goes into six bytes: a longer one is
-- written past their end.
unfoldable pub llenar : Bool → ℕ → ℕ → ℕ → List Nodo → Elegido → Option (List Worker × Elegido)
llenar clock base carga_max i [] c = some ([], c)
llenar clock base carga_max i (x ∷ xs) c =
    let disp = disponibilidad clock base carga_max x.carga in
    let rest = llenar clock base carga_max (i + 1) xs (elegir i disp x.historico c) in
    if ltb 5 (length x.nombre) then none else elim rest [
      | none ↦ none
      | some (ws, c') ↦
          some (record { disponibilidad = disp; nombre = x.nombre; bloque = [] } ∷ ws, c')
    ]

-- `planificar`. `carga_max` is what `obtenerCargaMaxima` returns for WCLOCK.
unfoldable pub planificar : Bool → ℕ → ℕ → List Nodo → List Block → Option Plan
planificar clock base carga_max nodos blocks =
    elim (llenar clock base carga_max 0 nodos
      (record { maxima = 0; anterior = 0; posicion = none })) [
        | none ↦ none
        | some (ws, c) ↦ elim c.posicion [
          | none ↦ none
          | some p ↦
              planificar_loop (rounds (length nodos) (length blocks) + 1) base (length nodos) blocks
                (record {
                  planificador = ws;
                  posicion = p;
                  bloque = 0;
                  seguidos = 0;
                  asigne = false;
                })
        ]
      ]
