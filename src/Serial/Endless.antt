-- ===== src/Serial/Endless.antt =====
-- Shared/serial.c: `resize_buffer` when more than 2 ^ 31 bytes are needed.
use opsys_17b.Base.{
  ℕ, zero, suc, ◌+◌, ◌*◌, ◌%◌, ◌^◌, ◌<◌, ◌≡◌, refl, Bool, true, false, none, arith, ◌==◌, ◌&&◌, ltb,
  leb, length, ◌∙◌,
}
use opsys_17b.Serial.{Buffer, grow, resize_buffer}

-- `n` doublings make 2 ^ 31 of the number.
abbrev doubles : ℕ → ℕ → Bool
doubles zero cap = cap == 2 ^ 31
doubles (suc n) cap = ltb cap (2 ^ 31) && doubles n (cap * 2)

module _ (need : ℕ) (more : 2 ^ 31 < need) where
  grow-zero : (fuel : ℕ) → grow fuel need 0 ≡ none
  unfolding grow
  grow-zero zero = refl
  grow-zero (suc fuel) =
      let small : leb need 0 ≡ false = ground (arith, more) in rw small (grow-zero fuel)

  grow-none : (fuel n cap : ℕ) → doubles n cap ≡ true → grow fuel need cap ≡ none
  unfolding grow
  grow-none zero n cap d = refl
  grow-none (suc fuel) zero cap d =
      let small : leb need cap ≡ false = ground (arith, more, d) in
      let wrapped : cap * 2 % 2 ^ 32 ≡ 0 = ground (arith, d) in
      rw small (rw wrapped (grow-zero fuel))
  grow-none (suc fuel) (suc n) cap d =
      let under : cap < 2 ^ 31 = ground (arith, d) in
      let small : leb need cap ≡ false = ground (arith, more, under) in
      let word : cap * 2 % 2 ^ 32 ≡ cap * 2 = omega (arith, under) in
      rw small (rw word (grow-none fuel n (cap * 2) (ground (arith, d))))

-- A buffer that still has its first 256 bytes, when between 2 ^ 31 and 2 ^ 32 bytes are needed: the loop
-- of `resize_buffer` runs out of any fuel, since `cap` becomes 0 and stays so.
pub resize_buffer-none :
    (len : ℕ) (b : Buffer)
    → b.cap ≡ 256
    → 2 ^ 31 < length b.bytes + len
    → length b.bytes + len < 2 ^ 32
    → ((fuel : ℕ) → grow fuel (length b.bytes + len) b.cap ≡ none) × (resize_buffer len b ≡ none)
unfolding resize_buffer
resize_buffer-none len b first more fits =
    let need = length b.bytes + len in
    let d : doubles 23 b.cap ≡ true = (λ i. doubles 23 (first i)) ∙ refl in
    let word : need % 2 ^ 32 ≡ need = omega (arith, fits) in
    let small : leb need b.cap ≡ false = ground (arith, first, more) in
    (
      λ fuel. grow-none need more fuel 23 b.cap d,
      rw word (rw small (rw (grow-none need more (suc need) 23 b.cap d))),
    )
