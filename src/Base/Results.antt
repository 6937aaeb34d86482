-- ===== src/Base/Results.antt =====
-- What holds of the result of fallible code, taken apart the way the code branches.
use mathlib.Core.Path.{◌≡◌, refl, subst}
use mathlib.Core.Bool.{Bool, true, false}
use mathlib.Core.Option.{Option, none, some}
use native.Mathlib.Omega.{arith}
use opsys_17b.Base.Tests.{if◌then◌else◌}

-- What holds of the value of a result, if it has one.
abbrev pub Holds {ℓ κ} : {A : Type ℓ} → (A → Type κ) → Option A → Type κ
Holds P none = Unit
Holds P (some a) = P a

pub cases {ℓ κ ι} :
    {A : Type ℓ} {B : Type κ} (P : B → Type ι) (o : Option A) (b : Option B) (k : A → Option B)
    → Holds P b
    → ((a : A) → o ≡ some a → Holds P (k a))
    → Holds P (elim o [ none ↦ b | some a ↦ k a ])
cases P none b k h h' = h
cases P (some a) b k h h' = h' a refl

pub test {ℓ κ} :
    {A : Type ℓ} (P : A → Type κ) (b : Bool) (o o' : Option A)
    → (b ≡ true → Holds P o)
    → (b ≡ false → Holds P o')
    → Holds P (if b then o else o')
test P true o o' h h' = h refl
test P false o o' h h' = h' refl

pub held {ℓ κ} : {A : Type ℓ} (P : A → Type κ) (o : Option A) (a : A) → Holds P o → o ≡ some a → P a
held P none a h e = absurd (ground (arith, e))
held P (some x) a h e = subst P some_eq h
  where
    some_eq : x ≡ a
    some_eq = cc

pub some_inj {ℓ} : {A : Type ℓ} {x y : A} → some x ≡ some y → x ≡ y
some_inj e = cc
