-- ===== src/Text/Same.antt =====
-- `strcmp` of two texts says that they are equal just when they are.
use opsys_17b.Base.{ℕ, ◌≡◌, refl, true, List, [], ◌∷◌, arith}
use opsys_17b.Serial.{same_bytes}

pub same_bytes_eq : (s t : List ℕ) → same_bytes s t ≡ true → s ≡ t
same_bytes_eq [] [] h = refl
same_bytes_eq [] (d ∷ t) h = absurd (ground (arith, h))
same_bytes_eq (c ∷ s) [] h = absurd (ground (arith, h))
same_bytes_eq (c ∷ s) (d ∷ t) h = ground (arith, same_bytes_eq s t, h)

pub same_bytes_refl : (s : List ℕ) → same_bytes s s ≡ true
same_bytes_refl [] = refl
same_bytes_refl (c ∷ s) = ground (arith, same_bytes_refl s)
