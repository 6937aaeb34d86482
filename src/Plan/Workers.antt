-- ===== src/Plan/Workers.antt =====
-- YAMA/src/funcionesYAMA.c: the array of workers as a list, what a write to one of them changes, and
-- how often a block stands in their lists.
use opsys_17b.Base.{
  ℕ, zero, suc, ◌+◌, ◌≡◌, some, List, [], ◌∷◌, ◌++◌, arith, ◌==◌, if◌then◌else◌, get_elem?, set,
}
use opsys_17b.Plan.{Worker}

-- A worker without its availability: its name and the blocks it got.
abbrev pub Vista : Type 0
Vista = List ℕ × List ℕ

abbrev pub vista : Worker → Vista
vista w = (w.nombre, w.bloque)

-- How often a block stands in a list, and in those of all workers.
abbrev pub count : ℕ → List ℕ → ℕ
count k [] = 0
count k (x ∷ xs) = (if x == k then 1 else 0) + count k xs

abbrev pub total : ℕ → List Vista → ℕ
total k [] = 0
total k ((m, ks) ∷ vs) = count k ks + total k vs

count-append :
    (k : ℕ) (xs : List ℕ) (x : ℕ) → count k (xs ++ x ∷ []) ≡ count k xs + (if x == k then 1 else 0)
count-append k [] x = omega arith
count-append k (y ∷ xs) x = omega (arith, count-append k xs x)

pub total-set :
    (k : ℕ) (vs : List Vista) (i : ℕ) (m ks : List ℕ) (x : ℕ)
    → get_elem? vs i ≡ some (m, ks)
    → total k (set vs i (m, ks ++ x ∷ [])) ≡ total k vs + (if x == k then 1 else 0)
total-set k [] i m ks x h = absurd (ground arith)
total-set k ((m', ks') ∷ vs) zero m ks x h =
    let e : ks' ≡ ks = cc in rw e (omega (arith, count-append k ks x))
total-set k (v ∷ vs) (suc i) m ks x h = omega (arith, total-set k vs i m ks x h)
