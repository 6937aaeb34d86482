-- ===== src/Base/Lists.antt =====
-- Lists measured and indexed by native numbers, under the library's names.
use Prim.Native.Nat.{ℕ, zero, suc, ◌+◌, ◌<◌, ◌≤◌}
use mathlib.Core.Path.{◌≡◌, refl, subst, ap}
use mathlib.Core.List.{List, [], ◌∷◌, ◌++◌, map}
use mathlib.Core.Option.{Option, none, some}
use mathlib.Core.Bool.{false}
use native.Mathlib.Omega.{arith}
use opsys_17b.Base.Tests.{◌==◌}

module _ {ℓ} {A : Type ℓ} where
  abbrev pub length : List A → ℕ
  length [] = 0
  length (x ∷ xs) = suc (length xs)

  abbrev pub get_elem? : List A → ℕ → Option A
  get_elem? [] i = none
  get_elem? (x ∷ xs) zero = some x
  get_elem? (x ∷ xs) (suc i) = get_elem? xs i

  -- A write out of bounds changes nothing.
  abbrev pub set : List A → ℕ → A → List A
  set [] i v = []
  set (x ∷ xs) zero v = v ∷ xs
  set (x ∷ xs) (suc i) v = x ∷ set xs i v

  abbrev pub take : ℕ → List A → List A
  take zero xs = []
  take (suc n) [] = []
  take (suc n) (x ∷ xs) = x ∷ take n xs

  abbrev pub drop : ℕ → List A → List A
  drop zero xs = xs
  drop (suc n) [] = []
  drop (suc n) (x ∷ xs) = drop n xs

  abbrev pub All {κ} : (A → Type κ) → List A → Type κ
  All P [] = Unit {κ}
  All P (x ∷ xs) = P x × All P xs

  pub length-append : (xs ys : List A) → length (xs ++ ys) ≡ length xs + length ys
  length-append [] ys = omega arith
  length-append (x ∷ xs) ys = omega (arith, length-append xs ys)

module _ {ℓ} {A : Type ℓ} where
  pub take-length : (xs : List A) → take (length xs) xs ≡ xs
  take-length [] = refl
  take-length (x ∷ xs) = ap (λ ys. x ∷ ys) (take-length xs)

  pub take-append : (xs ys : List A) → take (length xs) (xs ++ ys) ≡ xs
  take-append [] ys = refl
  take-append (x ∷ xs) ys = ap (λ zs. x ∷ zs) (take-append xs ys)

  pub length-set : (xs : List A) (i : ℕ) (v : A) → length (set xs i v) ≡ length xs
  length-set [] i v = refl
  length-set (x ∷ xs) zero v = refl
  length-set (x ∷ xs) (suc i) v = ap suc (length-set xs i v)

  pub All-append {κ} : (P : A → Type κ) (xs ys : List A) → All P xs → All P ys → All P (xs ++ ys)
  All-append P [] ys hx hy = hy
  All-append P (x ∷ xs) ys hx hy = (hx.0, All-append P xs ys hx.1 hy)

module _ {ℓ} {A : Type ℓ} where
  pub get_elem?-set :
      (xs : List A) (i : ℕ) (v : A) → i < length xs → get_elem? (set xs i v) i ≡ some v
  get_elem?-set [] i v h = absurd (omega arith)
  get_elem?-set (x ∷ xs) zero v h = refl
  get_elem?-set (x ∷ xs) (suc i) v h = get_elem?-set xs i v (omega arith)

  pub get_elem?-set_other :
      (xs : List A) (i j : ℕ) (v : A) → (i == j) ≡ false → get_elem? (set xs i v) j ≡ get_elem? xs j
  get_elem?-set_other [] i j v h = refl
  get_elem?-set_other (x ∷ xs) zero zero v h = absurd (ground arith)
  get_elem?-set_other (x ∷ xs) zero (suc j) v h = refl
  get_elem?-set_other (x ∷ xs) (suc i) zero v h = refl
  get_elem?-set_other (x ∷ xs) (suc i) (suc j) v h = get_elem?-set_other xs i j v (ground arith)

  pub get_elem?_inside : (xs : List A) (i : ℕ) → i < length xs → (v : A) × (get_elem? xs i ≡ some v)
  get_elem?_inside [] i h = absurd (omega arith)
  get_elem?_inside (x ∷ xs) zero h = (x, refl)
  get_elem?_inside (x ∷ xs) (suc i) h = get_elem?_inside xs i (omega arith)

  pub inside_of_get_elem? : (xs : List A) (i : ℕ) (v : A) → get_elem? xs i ≡ some v → i < length xs
  inside_of_get_elem? [] i v h = absurd (ground arith)
  inside_of_get_elem? (x ∷ xs) zero v h = omega arith
  inside_of_get_elem? (x ∷ xs) (suc i) v h = omega (arith, inside_of_get_elem? xs i v h)

  pub All-set {κ} :
      (P : A → Type κ) (xs : List A) (i : ℕ) (v : A) → All P xs → P v → All P (set xs i v)
  All-set P [] i v hs h = hs
  All-set P (x ∷ xs) zero v hs h = (h, hs.1)
  All-set P (x ∷ xs) (suc i) v hs h = (hs.0, All-set P xs i v hs.1 h)

  pub All-get_elem? {κ} :
      (P : A → Type κ) (xs : List A) (i : ℕ) (v : A) → All P xs → get_elem? xs i ≡ some v → P v
  All-get_elem? P [] i v hs e = absurd (ground arith)
  All-get_elem? P (x ∷ xs) zero v hs e = subst P (some_inj e) hs.0
    where
      some_inj : {a b : A} → some a ≡ some b → a ≡ b
      some_inj h = cc
  All-get_elem? P (x ∷ xs) (suc i) v hs e = All-get_elem? P xs i v hs.1 e

module _ {ℓ} {A : Type ℓ} {B : Type ℓ} (f : A → B) where
  pub length-map : (xs : List A) → length (map f xs) ≡ length xs
  length-map [] = refl
  length-map (x ∷ xs) = ap suc (length-map xs)

  pub get_elem?-map :
      (xs : List A) (i : ℕ) (v : A) → get_elem? xs i ≡ some v → get_elem? (map f xs) i ≡ some (f v)
  get_elem?-map [] i v h = absurd (ground arith)
  get_elem?-map (x ∷ xs) zero v h = cc
  get_elem?-map (x ∷ xs) (suc i) v h = get_elem?-map xs i v h

  pub map-set : (xs : List A) (i : ℕ) (v : A) → map f (set xs i v) ≡ set (map f xs) i (f v)
  map-set [] i v = refl
  map-set (x ∷ xs) zero v = refl
  map-set (x ∷ xs) (suc i) v = ap (λ ys. f x ∷ ys) (map-set xs i v)

pub set_same {ℓ} :
    {A : Type ℓ} (xs : List A) (i : ℕ) (v : A) → get_elem? xs i ≡ some v → set xs i v ≡ xs
set_same [] i v h = refl
set_same (x ∷ xs) zero v h = cc
set_same (x ∷ xs) (suc i) v h = ap (λ ys. x ∷ ys) (set_same xs i v h)

module _ {ℓ} {A : Type ℓ} where
  pub take-append_short : (k : ℕ) (d rest : List A) → k ≤ length d → take k (d ++ rest) ≡ take k d
  take-append_short zero d rest h = refl
  take-append_short (suc k) [] rest h = absurd (omega arith)
  take-append_short (suc k) (x ∷ d) rest h =
      ap (λ ys. x ∷ ys) (take-append_short k d rest (omega arith))

  pub drop-append_short :
      (k : ℕ) (d rest : List A) → k ≤ length d → drop k (d ++ rest) ≡ drop k d ++ rest
  drop-append_short zero d rest h = refl
  drop-append_short (suc k) [] rest h = absurd (omega arith)
  drop-append_short (suc k) (x ∷ d) rest h = drop-append_short k d rest (omega arith)

  pub length-take : (k : ℕ) (d : List A) → k ≤ length d → length (take k d) ≡ k
  length-take zero d h = refl
  length-take (suc k) [] h = absurd (omega arith)
  length-take (suc k) (x ∷ d) h = ap suc (length-take k d (omega arith))

  pub length-drop : (k : ℕ) (d : List A) → k ≤ length d → length (drop k d) + k ≡ length d
  length-drop zero d h = omega arith
  length-drop (suc k) [] h = absurd (omega arith)
  length-drop (suc k) (x ∷ d) h = omega (arith, length-drop k d (omega arith))

  pub take-drop : (k : ℕ) (d : List A) → take k d ++ drop k d ≡ d
  take-drop zero d = refl
  take-drop (suc k) [] = refl
  take-drop (suc k) (x ∷ d) = ap (λ ys. x ∷ ys) (take-drop k d)
