-- ===== src/Plan/Invariant.antt =====
-- YAMA/src/funcionesYAMA.c: what holds of the planner whenever its loop tests the flag: the blocks
-- below the next one are given out once each, to workers that hold a copy.
use opsys_17b.Base.{
  All-set, All-get_elem?, get_elem?-map, map-set, set_same, ℕ, ◌+◌, ◌≡◌, sym, subst, ◌∙◌, true,
  false, some, List, [], ◌∷◌, ◌++◌, map, arith, ◌==◌, ltb, if◌then◌else◌, length, get_elem?, set,
  All, All-append, ◌≤◌, ◌<◌,
}
use opsys_17b.YFile.{Block}
use opsys_17b.Plan.{Worker, Plan, on_worker, avanzo_posicion, asigno_bloque, renuevo}
use opsys_17b.Plan.Workers.{Vista, vista, total, total-set}
use opsys_17b.Plan.Step.{avanzo-vista, avanzo-rest, renuevo-vista, asigno-vista}

-- A copy of the block `k` of the file is on the worker of that name.
abbrev pub IsCopy : List Block → List ℕ → ℕ → Type 0
IsCopy blocks m k = (b : Block) × (get_elem? blocks k ≡ some b) × (on_worker b m ≡ some true)

abbrev pub HasCopies : List Block → Vista → Type 0
HasCopies blocks (m, ks) = All (IsCopy blocks m) ks

-- The workers hold copies of their blocks, and each block below `bloque` stands in one list, once.
pub record IsSpread (blocks : List Block) (names : List (List ℕ)) (vs : List Vista) (bloque : ℕ)
    : Type 0 where
  pub names_lem : map (λ v. v.0) vs ≡ names
  pub copies : All (HasCopies blocks) vs
  pub once : (k : ℕ) → total k vs ≡ (if ltb k bloque then 1 else 0)

pub record IsPlan (blocks : List Block) (names : List (List ℕ)) (s : Plan) : Type 0 where
  pub inside : s.posicion ≤ length names
  pub below : s.bloque ≤ length blocks
  pub flag : s.asigne ≡ (length blocks == s.bloque)
  pub spread : IsSpread blocks names (map vista s.planificador) s.bloque

module _ (blocks : List Block) (names : List (List ℕ)) where
  pub IsSpread-set :
      (vs : List Vista) (k i : ℕ) (m ks : List ℕ)
      → IsSpread blocks names vs k
      → get_elem? vs i ≡ some (m, ks)
      → IsCopy blocks m k
      → IsSpread blocks names (set vs i (m, ks ++ k ∷ [])) (k + 1)
  IsSpread-set vs k i m ks is at_i copy = record {
    names_lem = rw map-set (
        set_same (map (λ v. v.0) vs) i m (get_elem?-map (λ v. v.0) vs i (m, ks) at_i)
        ∙ is.names_lem);
    copies =
        All-set (HasCopies blocks) vs i (m, ks ++ k ∷ []) is.copies
          (All-append (IsCopy blocks m) ks (k ∷ [])
            (All-get_elem? (HasCopies blocks) vs i (m, ks) is.copies at_i) (copy, tt));
    once = λ j. ground (arith, total-set j vs i m ks k at_i, is.once j);
  }

  module _ (s : Plan) (is : IsPlan blocks names s) (ne : s.posicion < length names) where
    pub avanzo-IsPlan : (base n : ℕ) → IsPlan blocks names (avanzo_posicion base n s)
    avanzo-IsPlan base n =
        let (p, b, a) = avanzo-rest base n s in
        record {
          inside = omega (arith, p);
          below = rw b is.below;
          flag = rw a (rw b is.flag);
          spread = rw avanzo-vista (rw b is.spread);
        }

    module _ (w : Worker) (at_w : get_elem? s.planificador s.posicion ≡ some w) where
      pub renuevo-IsPlan : (base : ℕ) → IsPlan blocks names (renuevo base w s)
      unfolding renuevo
      renuevo-IsPlan base = record {
        inside = omega arith;
        below = is.below;
        flag = is.flag;
        spread =
            subst (λ vs. IsSpread blocks names vs s.bloque) (sym (renuevo-vista base s w at_w))
              is.spread;
      }

      pub asigno-IsPlan :
          IsCopy blocks w.nombre s.bloque
          → s.asigne ≡ false
          → s.bloque < length blocks
          → IsPlan blocks names (asigno_bloque (length blocks) w s)
      unfolding asigno_bloque
      asigno-IsPlan copy f lt = record {
        inside = omega arith;
        below = omega arith;
        flag = ground (arith, f);
        spread =
            subst (λ vs. IsSpread blocks names vs (s.bloque + 1))
              (sym (asigno-vista (length blocks) s w))
              (IsSpread-set (map vista s.planificador) s.bloque s.posicion w.nombre w.bloque
                is.spread (get_elem?-map vista s.planificador s.posicion w at_w) copy);
      }
