-- ===== src/Base/Bits.antt =====
-- `|` of a shifted number and a number that fits below the shift is their sum.
use Prim.Native.Nat.{
  ℕ, zero, suc, ◌+◌, ◌*◌, ◌/◌, ◌%◌, ◌^◌, ◌≤◌, ◌<◌, max, bit_or, digits, bit_or-bitwise,
}
use native.Mathlib.Nat.{pow-suc}
use mathlib.Core.Path.{◌≡◌, refl, ap}
use native.Mathlib.Omega.{arith}

-- `bit_or` is defined by a recursion on digits that takes fuel; any fuel that covers the first
-- number gives the same result.
abbrev or_digits : ℕ → ℕ → ℕ → ℕ
or_digits fuel x y = digits (λ y. y) max fuel x y

or_digits-zero : (k y : ℕ) → or_digits k 0 y ≡ y
or_digits-zero zero y = refl
or_digits-zero (suc k) y = refl

or_digits_enough : (k j x y : ℕ) → x ≤ k → x ≤ j → or_digits k x y ≡ or_digits j x y
or_digits_enough (suc k) (suc j) (suc x) y p q =
    rw (or_digits_enough k j (suc x / 2) (y / 2) (omega arith) (omega arith))
or_digits_enough k j zero y p q = omega (arith, or_digits-zero k y, or_digits-zero j y)
or_digits_enough zero j (suc x) y p q = absurd (omega arith)
or_digits_enough k zero (suc x) y p q = absurd (omega arith)

zero-bit_or : (y : ℕ) → bit_or 0 y ≡ y
zero-bit_or y = bit_or-bitwise 0 y

-- The lowest digit.
bit_or_step : (x y : ℕ) → bit_or x y ≡ bit_or (x / 2) (y / 2) * 2 + max (x % 2) (y % 2)
bit_or_step zero y = omega (arith, zero-bit_or y, zero-bit_or (y / 2))
bit_or_step (suc x) y = omega (
  arith,
  bit_or-bitwise (suc x) y,
  bit_or-bitwise (suc x / 2) (y / 2),
  or_digits_enough x (suc x / 2) (suc x / 2) (y / 2) (omega arith) (omega arith),
)

bit_or-zero_fuel : (n a : ℕ) → a ≤ n → bit_or a 0 ≡ a
bit_or-zero_fuel zero zero h = refl
bit_or-zero_fuel zero (suc a) h = absurd (omega arith)
bit_or-zero_fuel (suc n) zero h = refl
bit_or-zero_fuel (suc n) (suc a) h =
    omega (arith, bit_or_step (suc a) 0, bit_or-zero_fuel n (suc a / 2) (omega arith))

bit_or-zero : (a : ℕ) → bit_or a 0 ≡ a
bit_or-zero a = bit_or-zero_fuel a a (omega arith)

-- The halves of a number `n` that is `m` shifted by one digit.
bit_or-double : (m n b : ℕ) → n ≡ m * 2 → bit_or m (b / 2) ≡ m + b / 2 → bit_or n b ≡ n + b
bit_or-double m n b e h =
    let half : n / 2 ≡ m = omega arith in
    omega (arith, bit_or_step n b, ap (λ (t : ℕ). bit_or t (b / 2)) half)

pub bit_or-add : (k a b : ℕ) → b < 2 ^ k → bit_or (a * 2 ^ k) b ≡ a * 2 ^ k + b
bit_or-add zero a b h =
    let e : b ≡ 0 = omega arith in
    rw e (let e' : a * 1 ≡ a = omega arith in rw e' (omega (arith, bit_or-zero a)))
bit_or-add (suc k) a b h =
    bit_or-double (a * 2 ^ k) (a * 2 ^ suc k) b
      (omega (arith, pow-suc 2 k, ap (λ (t : ℕ). a * t) (pow-suc 2 k)))
      (bit_or-add k a (b / 2) (omega (arith, pow-suc 2 k)))
