-- ===== src/Plan/Total.antt =====
-- YAMA/src/funcionesYAMA.c: `planificar` as a whole.
use opsys_17b.Base.{
  inside_of_get_elem?, get_elem?_inside, length-map, All-get_elem?, ℕ, zero, suc, ◌+◌, ◌-◌, ◌*◌,
  ◌^◌, ◌≡◌, refl, sym, subst, ap, ◌∙◌, inl, inr, Bool, true, false, some, List, [], ◌∷◌, map, arith,
  length, get_elem?, All, ◌≤◌, ◌<◌, Bool-cases, leb,
}
use opsys_17b.YFile.{Block}
use opsys_17b.Plan.{Plan, Nodo, on_worker, planificar_loop, planificar, rounds}
use opsys_17b.Plan.Workers.{Vista, vista, total}
use opsys_17b.Plan.Invariant.{HasCopies, IsPlan, IsSpread}
use opsys_17b.Plan.Turn.{Dist, IsTurn, worker_at}
use opsys_17b.Plan.Progress.{Reached, weaken, first_lap}
use opsys_17b.Plan.Start.{IsNodo, llenar_lem}

-- Some node of the list holds a copy of the block.
abbrev pub IsPlaceable : List (List ℕ) → Block → Type 0
IsPlaceable names b =
    (c : ℕ) × (m : List ℕ) × (get_elem? names c ≡ some m) × (on_worker b m ≡ some true)

some-Dist : (n p c : ℕ) → p ≤ n → c < n → (d : ℕ) × Dist n p c d × (d < n)
some-Dist n p c le lt = elim (Bool-cases (leb p c)) [
  | inl e ↦ let h : p ≤ c = ground arith in (c - p, inl (omega arith), omega arith)
  | inr e ↦ let h : c < p = ground arith in (c + n - p, inr (omega arith), omega arith)
]

module _ (base : ℕ) (blocks : List Block) (names : List (List ℕ)) (fits : base + base < 2 ^ 32)
    (some_base : 0 < base) (placeable : All (IsPlaceable names) blocks) where
  place_lem :
      (fuel : ℕ) (s : Plan)
      → IsPlan blocks names s
      → s.bloque < length blocks
      → 2 * length names < fuel
      → Reached base blocks names fuel s (2 * length names)
  place_lem fuel s is lt f =
      let (b, at_b) = get_elem?_inside blocks s.bloque lt in
      let (c, m, at_m, on_m) = All-get_elem? (IsPlaceable names) blocks s.bloque b placeable at_b in
      let inside = inside_of_get_elem? names c m at_m in
      let (d, dist, lt') = some-Dist (length names) s.posicion c is.inside inside in
      let fl = is.flag in
      let t : IsTurn base blocks names b s = record { is = is; busy = ground arith; at_b = at_b } in
      let (w, at_c) = worker_at base blocks names b s t c inside in
      weaken base blocks names b m c on_m at_m inside fits some_base fuel (suc d + length names)
        (2 * length names) s (omega arith)
        (first_lap base blocks names b m c on_m at_m inside fits some_base d fuel s w t dist lt'
          at_c (omega arith))

  loop_lem :
      (k fuel : ℕ) (s : Plan)
      → IsPlan blocks names s
      → s.bloque + k ≡ length blocks
      → rounds (length names) k < fuel
      → (s' : Plan) × (planificar_loop fuel base (length names) blocks s ≡ some s')
        × IsSpread blocks names (map vista s'.planificador) (length blocks)
        × (s'.asigne ≡ false)
  unfolding planificar_loop rounds
  loop_lem zero zero s is e f = absurd (omega arith)
  loop_lem zero (suc fuel) s is e f =
      let done : s.bloque ≡ length blocks = omega arith in
      let fl : s.asigne ≡ true = let fl' = is.flag in ground arith in
      (
        record s { asigne = false },
        rw (fl, planificar_loop),
        subst (λ t. IsSpread blocks names (map vista s.planificador) t) done is.spread,
        refl,
      )
  loop_lem (suc k) fuel s is e f =
      let (s', fuel', le, run, is', e') = place_lem fuel s is (omega arith) (omega arith) in
      let (s'', run', sp, fl) = loop_lem k fuel' s' is' (omega arith) (omega arith) in
      (s'', run ∙ run', sp, fl)

-- The workers of `llenarArrayPlanificador` have no blocks.
module _ (blocks : List Block) where
  abbrev fresh : Nodo → Vista
  fresh x = (x.nombre, [])

  fresh-names : (xs : List Nodo) → map (λ v. v.0) (map fresh xs) ≡ map (λ x. x.nombre) xs
  fresh-names [] = refl
  fresh-names (x ∷ xs) = ap (λ ns. x.nombre ∷ ns) (fresh-names xs)

  fresh-HasCopies : (xs : List Nodo) → All (HasCopies blocks) (map fresh xs)
  fresh-HasCopies [] = tt
  fresh-HasCopies (x ∷ xs) = (tt, fresh-HasCopies xs)

  total-fresh : (k : ℕ) (xs : List Nodo) → total k (map fresh xs) ≡ 0
  total-fresh k [] = refl
  total-fresh k (x ∷ xs) = omega (arith, total-fresh k xs)

  IsSpread-fresh : (xs : List Nodo) → IsSpread blocks (map (λ x. x.nombre) xs) (map fresh xs) 0
  IsSpread-fresh xs = record {
    names_lem = fresh-names xs;
    copies = fresh-HasCopies xs;
    once = λ k. ground (arith, total-fresh k xs);
  }

-- For a file with blocks, each with a copy on an active node, `planificar` ends, within two laps of the
-- clock for each block, with every block given out exactly once, to a worker that holds a copy of it.
-- The base of the rations is above 0, and twice the base is an `int`; the nodes' names have five bytes at
-- most, their loads are no more than the largest, and the base with it, like the historic loads,
-- is an `int`.
pub planificar_lem :
    (clock : Bool) (base carga_max : ℕ) (nodos : List Nodo) (blocks : List Block)
    → 0 < length blocks
    → 0 < base
    → base + base < 2 ^ 31
    → All (IsNodo base carga_max) nodos
    → All (IsPlaceable (map (λ x. x.nombre) nodos)) blocks
    → (s : Plan) × (planificar clock base carga_max nodos blocks ≡ some s)
      × IsSpread blocks (map (λ x. x.nombre) nodos) (map vista s.planificador) (length blocks)
      × (s.asigne ≡ false)
unfolding planificar
planificar_lem clock base carga_max nodos blocks lt some_base fits is placeable =
    let n_lem : length (map (λ (x : Nodo). x.nombre) nodos) ≡ length nodos =
      length-map (λ (x : Nodo). x.nombre) nodos in
    let (b, at_b) = get_elem?_inside blocks 0 lt in
    let (c, m, at_m, on_m) =
      All-get_elem? (IsPlaceable (map (λ x. x.nombre) nodos)) blocks 0 b placeable at_b in
    let some_node = inside_of_get_elem? (map (λ x. x.nombre) nodos) c m at_m in
    let (ws, e, p, x, run, same, at_p, at_x, best) =
      llenar_lem clock base carga_max nodos (omega (arith, n_lem)) some_base is in
    let s0 : Plan = record {
      planificador = ws;
      posicion = p;
      bloque = 0;
      seguidos = 0;
      asigne = false;
    } in
    let start : IsPlan blocks (map (λ x. x.nombre) nodos) s0 = record {
      inside = omega (arith, n_lem, inside_of_get_elem? nodos p x at_x);
      below = omega arith;
      flag = ground arith;
      spread = rw same (IsSpread-fresh blocks nodos);
    } in
    let z : 0 + length blocks ≡ length blocks = omega arith in
    let enough : rounds (length (map (λ (x : Nodo). x.nombre) nodos)) (length blocks)
        < rounds (length nodos) (length blocks) + 1 =
      rw n_lem (omega arith) in
    let (s, run', sp, fl) =
      loop_lem base blocks (map (λ x. x.nombre) nodos) (omega (arith, fits)) some_base placeable
        (length blocks) (rounds (length nodos) (length blocks) + 1) s0 start z enough in
    (
      s,
      rw (run, planificar)
          (rw (at_p, planificar)
            (ap (λ k. planificar_loop (rounds (length nodos) (length blocks) + 1) base k blocks s0)
                (sym n_lem)
              ∙ run')),
      sp,
      fl,
    )
