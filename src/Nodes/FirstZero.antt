-- ===== src/Nodes/FirstZero.antt =====
-- Shared/bitmap.c: `bitmap_firstzero` finds the first free bit, and what setting a bit does to the
-- number of free ones.
use opsys_17b.Base.{
  ℕ, zero, suc, ◌+◌, ◌≡◌, refl, sym, ap, ◌∙◌, inl, inr, true, false, arith, ◌==◌, if◌then◌else◌,
  ◌≤◌, ◌<◌, Bool-cases, ==_refl, pos, negsuc, ℤ,
}
use opsys_17b.Nodes.{
  BitOps, IsBitOps, Bitmap, bitmap_set, bitmap_unset, bitmap_test, first_bit, bitmap_firstzero,
}

module _ {B : Type 0} (ops : BitOps B) where
  -- The free bits among `left` bits from `i`.
  unfoldable pub zeros : ℕ → ℕ → Bitmap ops → ℕ
  zeros zero i m = 0
  zeros (suc left) i m = (if bitmap_test ops m i then 0 else 1) + zeros left (i + 1) m

  -- The first free bit from `i`, or none.
  abbrev pub FirstFrom : ℕ → ℕ → Bitmap ops → ℤ → Type 0
  FirstFrom left i m (negsuc e) = (e ≡ 0) × (zeros left i m ≡ 0)
  FirstFrom left i m (pos k) =
      (i ≤ k)
      × (k < i + left)
      × (bitmap_test ops m k ≡ false)
      × ((j : ℕ) → i ≤ j → j < k → bitmap_test ops m j ≡ true)

  first_bit_lem : (left i : ℕ) (m : Bitmap ops) → FirstFrom left i m (first_bit ops false left i m)
  unfolding first_bit zeros
  first_bit_lem zero i m = (refl, refl)
  first_bit_lem (suc left) i m = elim (Bool-cases (bitmap_test ops m i)) [
    | inl e ↦ rw e (next (first_bit ops false left (i + 1) m) e (first_bit_lem left (i + 1) m))
    | inr e ↦ rw e (omega arith, omega arith, e, λ j a b. absurd (omega arith))
  ]
    where
      next :
          (r : ℤ)
          → bitmap_test ops m i ≡ true
          → FirstFrom left (i + 1) m r
          → FirstFrom (suc left) i m r
      next (negsuc e) set (n, z) = (n, rw set (omega (arith, z)))
      next (pos k) set (a, b, c, d) = (
        omega arith,
        omega arith,
        c,
        λ j p q. elim (Bool-cases (i == j)) [
          | inl e ↦ let same : i ≡ j = ground arith in rw same at set
          | inr e ↦ d j (ground arith) q
        ],
      )

  -- `bitmap_firstzero` returns the first free bit of the bitmap, or -1 when no bit is free.
  pub bitmap_firstzero_lem : (m : Bitmap ops) → FirstFrom m.size 0 m (bitmap_firstzero ops m)
  unfolding bitmap_firstzero
  bitmap_firstzero_lem m = first_bit_lem m.size 0 m

  module _ (k : ℕ) (m m' : Bitmap ops) (free : bitmap_test ops m k ≡ false)
      (taken : bitmap_test ops m' k ≡ true)
      (rest : (j : ℕ) → (k == j) ≡ false → bitmap_test ops m' j ≡ bitmap_test ops m j) where
    zeros-above : (left i : ℕ) → k < i → zeros left i m' ≡ zeros left i m
    unfolding zeros
    zeros-above zero i lt = refl
    zeros-above (suc left) i lt =
        rw (rest i (ground arith)) (omega (arith, zeros-above left (i + 1) (omega arith)))

    -- One bit more is taken.
    zeros-change : (left i : ℕ) → i ≤ k → k < i + left → zeros left i m ≡ suc (zeros left i m')
    unfolding zeros
    zeros-change zero i le lt = absurd (omega arith)
    zeros-change (suc left) i le lt = elim (Bool-cases (k == i)) [
      | inl e ↦
          let same : i ≡ k = ground arith in
          let a : bitmap_test ops m i ≡ false = rw same free in
          let b : bitmap_test ops m' i ≡ true = rw same taken in
          rw a (rw b (omega (arith, zeros-above left (i + 1) (omega arith))))
      | inr e ↦
          rw (rest i e) (omega (arith, zeros-change left (i + 1) (ground arith) (omega arith)))
    ]

  module _ (laws : IsBitOps ops) (m : Bitmap ops) (k : ℕ) (lt : k < m.size) where
    -- Setting a free bit takes it, and no other.
    pub zeros-bitmap_set :
        bitmap_test ops m k ≡ false → zeros m.size 0 m ≡ suc (zeros m.size 0 (bitmap_set ops m k))
    unfolding bitmap_set bitmap_test
    zeros-bitmap_set free =
        zeros-change k m (bitmap_set ops m k) free
          (laws.test-set m.bitarray k k
            ∙ ap (λ t. if t then true else ops.test_bit m.bitarray k) (==_refl k))
          (λ j ne.
            laws.test-set m.bitarray k j
            ∙ ap (λ t. if t then true else ops.test_bit m.bitarray j) ne)
          m.size 0 (omega arith) (omega arith)

    pub zeros-bitmap_unset :
        bitmap_test ops m k ≡ true → zeros m.size 0 (bitmap_unset ops m k) ≡ suc (zeros m.size 0 m)
    unfolding bitmap_unset bitmap_test
    zeros-bitmap_unset taken =
        zeros-change k (bitmap_unset ops m k) m
          (laws.test-clean m.bitarray k k
            ∙ ap (λ t. if t then false else ops.test_bit m.bitarray k) (==_refl k))
          taken
          (λ j ne. sym (
            laws.test-clean m.bitarray k j
            ∙ ap (λ t. if t then false else ops.test_bit m.bitarray j) ne))
          m.size 0 (omega arith) (omega arith)
