-- ===== src/MList/Sort/Ascending.antt =====
-- Shared/mlist.c: merging two ordered lists gives an ordered one.
use opsys_17b.Base.{ℕ, ◌≡◌, inl, inr, Bool, true, false, [], ◌∷◌, All, Bool-cases}
use opsys_17b.MList.Chain.{Cells}
use opsys_17b.MList.Sort.{goes_first}
use opsys_17b.MList.Sort.Merge.{merged, merged_first, merged_second, All-merged}

-- No element stands before one that must precede it.
abbrev pub IsAscending : (ℕ → ℕ → Bool) → Cells → Type 0
IsAscending le [] = Unit {0}
IsAscending le ((p, v) ∷ xs) = All (λ c. le v c.1 ≡ true) xs × IsAscending le xs

module _ (le : ℕ → ℕ → Bool)
    (trans : (x y z : ℕ) → le x y ≡ true → le y z ≡ true → le x z ≡ true) where
  All_le :
      (v w : ℕ) (xs : Cells)
      → le v w ≡ true
      → All (λ c. le w c.1 ≡ true) xs
      → All (λ c. le v c.1 ≡ true) xs
  All_le v w [] e h = tt
  All_le v w ((p, x) ∷ xs) e h = (trans v w x e h.0, All_le v w xs e h.1)

  module _ (cmp : ℕ → ℕ → Bool) (fwd : Bool)
      (first : (x y : ℕ) → goes_first cmp fwd x y ≡ true → le x y ≡ true)
      (second : (x y : ℕ) → goes_first cmp fwd x y ≡ false → le y x ≡ true) where
    pub merged-IsAscending :
        (xs ys : Cells)
        → IsAscending le xs
        → IsAscending le ys
        → IsAscending le (merged cmp fwd xs ys)
    unfolding merged
    merged-IsAscending [] ys ax ay = ay
    merged-IsAscending (x ∷ xs) [] ax ay = ax
    merged-IsAscending ((p, v) ∷ xs) ((q, w) ∷ ys) ax ay =
        elim (Bool-cases (goes_first cmp fwd v w)) [
          | inl e ↦ rw (merged_first cmp fwd (p, v) (q, w) xs ys e) (
              (
                All-merged cmp fwd (λ c. le v c.1 ≡ true) xs ((q, w) ∷ ys) ax.0
                    ((first v w e, All_le v w ys (first v w e) ay.0)),
                merged-IsAscending xs ((q, w) ∷ ys) ax.1 ay,
              ))
          | inr e ↦ rw (merged_second cmp fwd (p, v) (q, w) xs ys e) (
              (
                All-merged cmp fwd (λ c. le w c.1 ≡ true) ((p, v) ∷ xs) ys
                    ((second v w e, All_le w v xs (second v w e) ax.0)) ay.0,
                merged-IsAscending ((p, v) ∷ xs) ys ax ay.1,
              ))
        ]
