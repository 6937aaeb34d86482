-- ===== src/Jobs/Carga.antt =====
-- YAMA/src/server.c: `agregarCargaNodoSegunLoPlanificado` gives the load of a new job to its nodes.
use opsys_17b.Base.{
  ℕ, zero, suc, ◌+◌, ◌≡◌, refl, Bool, false, some, List, [], ◌∷◌, ◌++◌, arith, ◌==◌, length,
  get_elem?, set, All, All-set, All-get_elem?, some_inj,
}
use opsys_17b.Plan.{Worker}
use opsys_17b.Carga.{CargaJob, CargaNodo, posicion_carga_nodo}
use opsys_17b.Carga.Cuenta.{suma, carga_de, carga_de_absent, tiene, Unicos}
use opsys_17b.Carga.Nodo.{IsCarga}
use opsys_17b.Files.{◌>>=◌}
use opsys_17b.Jobs.{con_planificado, agregar_carga_nodo_segun_lo_planificado}

-- The blocks that the workers have, and the load of a job on all nodes.
abbrev pub bloques : List Worker → ℕ
bloques [] = 0
bloques (w ∷ ws) = length w.bloque + bloques ws

abbrev pub total : ℕ → List CargaNodo → ℕ
total job [] = 0
total job (c ∷ cs) = carga_de job c.carga_por_job + total job cs

-- The shares with one more at the end, of a job that had none.
module _ (job n : ℕ) where
  abbrev nueva : CargaJob
  nueva = record { job = job; carga_del_job = n }

  suma-append : (xs : List CargaJob) → suma (xs ++ nueva ∷ []) ≡ suma xs + n
  suma-append [] = omega arith
  suma-append (x ∷ xs) = omega (arith, suma-append xs)

  carga_de-append :
      (xs : List CargaJob) → tiene job xs ≡ false → carga_de job (xs ++ nueva ∷ []) ≡ n
  carga_de-append [] h = ground arith
  carga_de-append (x ∷ xs) h = ground (arith, carga_de-append xs)

  tiene-append :
      (j : ℕ) (xs : List CargaJob)
      → tiene j xs ≡ false
      → (job == j) ≡ false
      → tiene j (xs ++ nueva ∷ []) ≡ false
  tiene-append j [] h e = ground arith
  tiene-append j (x ∷ xs) h e = ground (arith, tiene-append j xs)

  Unicos-append :
      (xs : List CargaJob) → Unicos xs → tiene job xs ≡ false → Unicos (xs ++ nueva ∷ [])
  Unicos-append [] u h = (refl, tt)
  Unicos-append (x ∷ xs) u h =
      (tiene-append x.job xs u.0 (ground arith), Unicos-append xs u.1 (ground arith))

  IsCarga-con_planificado :
      (c : CargaNodo)
      → IsCarga c
      → tiene job c.carga_por_job ≡ false
      → IsCarga (con_planificado job n c)
  IsCarga-con_planificado c is h =
      let t = is.cuenta in
      record {
        unicos = Unicos-append c.carga_por_job is.unicos h;
        cuenta = omega (arith, suma-append c.carga_por_job, t);
      }

  total-set :
      (cs : List CargaNodo) (i : ℕ) (c : CargaNodo)
      → get_elem? cs i ≡ some c
      → tiene job c.carga_por_job ≡ false
      → carga_de job c.carga_por_job ≡ 0
      → total job (set cs i (con_planificado job n c)) ≡ total job cs + n
  total-set [] i c at_i h z = absurd (ground (arith, at_i))
  total-set (d ∷ cs) zero c at_i h z =
      let same : d ≡ c = some_inj at_i in
      let e : carga_de job d.carga_por_job ≡ 0 = rw same z in
      omega (arith, carga_de-append c.carga_por_job h, e)
  total-set (d ∷ cs) (suc i) c at_i h z = omega (arith, total-set cs i c at_i h z)

module _ (same_name : List ℕ → List ℕ → Bool) (job : ℕ) where
  -- Each worker's node is listed, and has no share of the job when its turn comes.
  abbrev pub Libres : List CargaNodo → List Worker → Type 0
  Libres cargas [] = Unit {0}
  Libres cargas (w ∷ ws) =
      (i : ℕ) × (c : CargaNodo) × (posicion_carga_nodo same_name cargas w.nombre ≡ some i)
      × (get_elem? cargas i ≡ some c)
      × (tiene job c.carga_por_job ≡ false)
      × Libres (set cargas i (con_planificado job (length w.bloque) c)) ws

  -- If each worker's node is listed and has no share of the job when its turn comes, each node's load
  -- stays the sum of its shares, and the job's load on all nodes grows by the blocks planned.
  pub agregar_carga_lem :
      (cargas : List CargaNodo) (ws : List Worker)
      → All IsCarga cargas
      → Libres cargas ws
      → (cargas' : List CargaNodo) × (agregar_carga_nodo_segun_lo_planificado same_name job ws
            cargas
          ≡ some cargas')
        × All IsCarga cargas'
        × (total job cargas' ≡ total job cargas + bloques ws)
  unfolding agregar_carga_nodo_segun_lo_planificado
  agregar_carga_lem cargas [] all libres = (cargas, refl, all, omega arith)
  agregar_carga_lem cargas (w ∷ ws) all (i, c, found, at_i, free, rest) =
      let is = All-get_elem? IsCarga cargas i c all at_i in
      let all' =
        All-set IsCarga cargas i (con_planificado job (length w.bloque) c) all
          (IsCarga-con_planificado job (length w.bloque) c is free) in
      let (cargas', run, cuenta, suma_lem) =
        agregar_carga_lem (set cargas i (con_planificado job (length w.bloque) c)) ws all' rest in
      let one =
        total-set job (length w.bloque) cargas i c at_i free
          (carga_de_absent job c.carga_por_job free) in
      (
        cargas',
        rw (found, agregar_carga_nodo_segun_lo_planificado) (rw (at_i, ◌>>=◌) run),
        cuenta,
        omega (arith, suma_lem, one),
      )
