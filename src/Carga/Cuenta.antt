-- ===== src/Carga/Cuenta.antt =====
-- YAMA/src/funcionesYAMA.c: the shares of the jobs on a node as a function from jobs to loads, and
-- their sum.
use opsys_17b.Base.{
  ℕ, zero, suc, ◌+◌, ◌%◌, ◌^◌, ◌≡◌, refl, subst, ap, ◌∙◌, ◌⊎◌, inl, inr, Bool, true, false, ◌||◌,
  none, some, List, [], ◌∷◌, ◌++◌, arith, ◌==◌, if◌then◌else◌, get_elem?, set, Bool-cases,
}
use opsys_17b.Carga.{CargaJob, add32, existe_el_job, eliminar_carga_job, sumar}

abbrev pub suma : List CargaJob → ℕ
suma [] = 0
suma (x ∷ xs) = x.carga_del_job + suma xs

-- The load of a job, 0 if it has no share.
abbrev pub carga_de : ℕ → List CargaJob → ℕ
carga_de j [] = 0
carga_de j (x ∷ xs) = let rest = carga_de j xs in if x.job == j then x.carga_del_job else rest

abbrev pub tiene : ℕ → List CargaJob → Bool
tiene j [] = false
tiene j (x ∷ xs) = (x.job == j) || tiene j xs

-- No job has two shares.
abbrev pub Unicos : List CargaJob → Type 0
Unicos [] = Unit {0}
Unicos (x ∷ xs) = (tiene x.job xs ≡ false) × Unicos xs

module _ (job : ℕ) where
  -- Where the search ends.
  pub existe-cases :
      (xs : List CargaJob)
      → ((existe_el_job job xs ≡ none) × (tiene job xs ≡ false))
        ⊎ ((i : ℕ) × (c : CargaJob) × (existe_el_job job xs ≡ some i)
            × (get_elem? xs i ≡ some c)
            × (c.job ≡ job)
            × (carga_de job xs ≡ c.carga_del_job))
  unfolding existe_el_job
  existe-cases [] = inl (refl, refl)
  existe-cases (x ∷ xs) = elim (Bool-cases (x.job == job)) [
    | inl e ↦ inr (0, x, rw e, refl, ground arith, rw e)
    | inr e ↦ elim (existe-cases xs) [
      | inl (a, b) ↦ inl (rw e (rw a), rw e b)
      | inr (i, c, a, b, d, f) ↦ inr (suc i, c, rw e (rw a), b, d, rw e f)
    ]
  ]

  -- Removing a job that has no share.
  eliminar_absent : (xs : List CargaJob) → tiene job xs ≡ false → eliminar_carga_job job xs ≡ xs
  unfolding eliminar_carga_job
  eliminar_absent [] h = refl
  eliminar_absent (x ∷ xs) h =
      let e : (x.job == job) ≡ false = ground arith in
      rw e (ap (λ ys. x ∷ ys) (eliminar_absent xs (ground arith)))

  pub suma-eliminar :
      (xs : List CargaJob)
      → Unicos xs
      → suma xs ≡ suma (eliminar_carga_job job xs) + carga_de job xs
  unfolding eliminar_carga_job
  suma-eliminar [] u = refl
  suma-eliminar (x ∷ xs) u = elim (Bool-cases (x.job == job)) [
    | inl e ↦
        let same : x.job ≡ job = ground arith in
        let out = eliminar_absent xs (rw same at u.0) in rw e (rw out (omega arith))
    | inr e ↦ rw e (omega (arith, suma-eliminar xs u.1))
  ]

  tiene-eliminar :
      (xs : List CargaJob) (j : ℕ)
      → tiene j xs ≡ false
      → tiene j (eliminar_carga_job job xs) ≡ false
  unfolding eliminar_carga_job
  tiene-eliminar [] j h = refl
  tiene-eliminar (x ∷ xs) j h = ground (arith, tiene-eliminar xs j)

  pub Unicos-eliminar : (xs : List CargaJob) → Unicos xs → Unicos (eliminar_carga_job job xs)
  unfolding eliminar_carga_job
  Unicos-eliminar [] u = tt
  Unicos-eliminar (x ∷ xs) u = elim (Bool-cases (x.job == job)) [
    | inl e ↦ rw e (Unicos-eliminar xs u.1)
    | inr e ↦ rw e (tiene-eliminar xs x.job u.0, Unicos-eliminar xs u.1)
  ]

  pub carga_de-eliminar :
      (xs : List CargaJob) (j : ℕ)
      → carga_de j (eliminar_carga_job job xs) ≡ (if j == job then 0 else carga_de j xs)
  unfolding eliminar_carga_job
  carga_de-eliminar [] j = ground arith
  carga_de-eliminar (x ∷ xs) j = ground (arith, carga_de-eliminar xs j)

module _ (c c' : CargaJob) (same : c'.job ≡ c.job) where
  suma-set :
      (xs : List CargaJob) (i : ℕ)
      → get_elem? xs i ≡ some c
      → suma (set xs i c') + c.carga_del_job ≡ suma xs + c'.carga_del_job
  suma-set [] i e = absurd (ground arith)
  suma-set (x ∷ xs) zero e = let e' : x ≡ c = cc in rw e' (omega arith)
  suma-set (x ∷ xs) (suc i) e = omega (arith, suma-set xs i e)

  tiene-set :
      (xs : List CargaJob) (i j : ℕ) → get_elem? xs i ≡ some c → tiene j (set xs i c') ≡ tiene j xs
  tiene-set [] i j e = refl
  tiene-set (x ∷ xs) zero j e = let e' : x ≡ c = cc in rw e' (rw same)
  tiene-set (x ∷ xs) (suc i) j e = rw (tiene-set xs i j e)

  Unicos-set :
      (xs : List CargaJob) (i : ℕ) → get_elem? xs i ≡ some c → Unicos xs → Unicos (set xs i c')
  Unicos-set [] i e u = u
  Unicos-set (x ∷ xs) zero e u = let e' : x ≡ c = cc in (rw same (rw e' at u.0), u.1)
  Unicos-set (x ∷ xs) (suc i) e u = (rw (tiene-set xs i x.job e) u.0, Unicos-set xs i e u.1)

  carga_de-set :
      (xs : List CargaJob) (i j : ℕ)
      → get_elem? xs i ≡ some c
      → Unicos xs
      → carga_de j (set xs i c') ≡ (if j == c.job then c'.carga_del_job else carga_de j xs)
  carga_de-set [] i j e u = absurd (ground arith)
  carga_de-set (x ∷ xs) zero j e u = let e' : x ≡ c = cc in rw e' (ground (arith, same))
  carga_de-set (x ∷ xs) (suc i) j e u =
      let out = not_later xs i x.job e u.0 in ground (arith, carga_de-set xs i j e u.1, out)
    where
      not_later :
          (ys : List CargaJob) (k n : ℕ)
          → get_elem? ys k ≡ some c
          → tiene n ys ≡ false
          → (c.job == n) ≡ false
      not_later [] k n e t = absurd (ground arith)
      not_later (y ∷ ys) zero n e t =
          let e' : y ≡ c = cc in subst (λ (z : CargaJob). (z.job == n) ≡ false) e' (ground arith)
      not_later (y ∷ ys) (suc k) n e t = not_later ys k n e (ground arith)

suma-append : (xs : List CargaJob) (x : CargaJob) → suma (xs ++ x ∷ []) ≡ suma xs + x.carga_del_job
suma-append [] x = omega arith
suma-append (y ∷ xs) x = omega (arith, suma-append xs x)

tiene-append :
    (j : ℕ) (xs : List CargaJob) (x : CargaJob)
    → tiene j (xs ++ x ∷ []) ≡ (tiene j xs || (x.job == j))
tiene-append j [] x = ground arith
tiene-append j (y ∷ xs) x = ground (arith, tiene-append j xs x)

Unicos-append :
    (xs : List CargaJob) (x : CargaJob) → tiene x.job xs ≡ false → Unicos xs → Unicos (xs ++ x ∷ [])
Unicos-append [] x h u = (refl, tt)
Unicos-append (y ∷ xs) x h u =
    (ground (arith, tiene-append y.job xs x, u.0), Unicos-append xs x (ground arith) u.1)

carga_de-append :
    (j : ℕ) (xs : List CargaJob) (x : CargaJob)
    → tiene x.job xs ≡ false
    → carga_de j (xs ++ x ∷ []) ≡ (if j == x.job then x.carga_del_job else carga_de j xs)
carga_de-append j [] x h = ground arith
carga_de-append j (y ∷ xs) x h = ground (arith, carga_de-append j xs x)

pub carga_de_absent : (j : ℕ) (xs : List CargaJob) → tiene j xs ≡ false → carga_de j xs ≡ 0
carga_de_absent j [] h = refl
carga_de_absent j (y ∷ xs) h = ground (arith, carga_de_absent j xs)

module _ (job cantidad : ℕ) (xs : List CargaJob) (u : Unicos xs) where
  sumar_absent :
      existe_el_job job xs ≡ none
      → sumar job cantidad xs ≡ xs ++ record { job = job; carga_del_job = cantidad } ∷ []
  unfolding sumar
  sumar_absent a = rw (a, sumar)

  sumar_present :
      (i : ℕ) (c : CargaJob)
      → existe_el_job job xs ≡ some i
      → get_elem? xs i ≡ some c
      → sumar job cantidad xs
        ≡ set xs i (record c { carga_del_job = add32 c.carga_del_job cantidad })
  unfolding sumar
  sumar_present i c a b = rw (a, sumar) (rw (b, sumar))

  -- More load for a job keeps its share the only one, leaves the other shares as they are, and adds to
  -- the sum.
  pub sumar_lem :
      Unicos (sumar job cantidad xs)
      × (suma (sumar job cantidad xs) % 2 ^ 32 ≡ (suma xs + cantidad) % 2 ^ 32)
      × ((j : ℕ)
          → carga_de j (sumar job cantidad xs) % 2 ^ 32
            ≡ (if j == job then add32 (carga_de j xs) cantidad else carga_de j xs % 2 ^ 32))
  sumar_lem = elim (existe-cases job xs) [
    | inl (a, b) ↦
        let x : CargaJob = record { job = job; carga_del_job = cantidad } in
        let run = sumar_absent a in
        (
          rw run (Unicos-append xs x b u),
          rw run (rw suma-append refl),
          λ j. rw run (elim (Bool-cases (j == job)) [
            | inl e ↦
                let same : j ≡ job = ground arith in
                let z = carga_de_absent job xs b in
                rw e (rw same (omega (arith, z, fresh x b refl)))
            | inr e ↦ rw e (
                ap (λ n. n % 2 ^ 32)
                  (carga_de-append j xs x b ∙ ap (λ t. if t then cantidad else carga_de j xs) e))
          ]),
        )
    | inr (i, c, a, b, d, f) ↦
        let c' : CargaJob = record c { carga_del_job = add32 c.carga_del_job cantidad } in
        let run = sumar_present i c a b in
        (
          rw run (Unicos-set c c' refl xs i b u),
          rw run (omega (arith, suma-set c c' refl xs i b)),
          λ j. rw run (elim (Bool-cases (j == job)) [
            | inl e ↦
                let same : j ≡ job = ground arith in
                rw e (rw same (omega (arith, f, changed c c' i refl b d)))
            | inr e ↦
                let e' : (j == c.job) ≡ false = rw d e in
                rw e (
                  ap (λ n. n % 2 ^ 32)
                    (carga_de-set c c' refl xs i j b u
                      ∙ ap (λ t. if t then add32 c.carga_del_job cantidad else carga_de j xs) e'))
          ]),
        )
  ]
    where
      fresh :
          (x : CargaJob)
          → tiene job xs ≡ false
          → x.job ≡ job
          → carga_de job (xs ++ x ∷ []) ≡ x.carga_del_job
      fresh x b same =
          let t : (job == x.job) ≡ true = ground (arith, same) in
          carga_de-append job xs x (rw same b)
          ∙ ap (λ t. if t then x.carga_del_job else carga_de job xs) t

      changed :
          (c c' : CargaJob) (i : ℕ)
          → c'.job ≡ c.job
          → get_elem? xs i ≡ some c
          → c.job ≡ job
          → carga_de job (set xs i c') ≡ c'.carga_del_job
      changed c c' i same b d =
          let t : (job == c.job) ≡ true = ground (arith, d) in
          carga_de-set c c' same xs i job b u
          ∙ ap (λ t. if t then c'.carga_del_job else carga_de job xs) t
