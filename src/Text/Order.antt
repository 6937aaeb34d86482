-- ===== src/Text/Order.antt =====
-- Shared/mstring.c: `mstring_asc` orders texts.
use opsys_17b.Base.{ℕ, ◌≡◌, refl, true, ◌||◌, ◌&&◌, not, List, [], ◌∷◌, arith}
use opsys_17b.Serial.{same_bytes}
use opsys_17b.Text.{mstring_asc, mstring_desc}

mstring_asc_total : (s t : List ℕ) → (mstring_asc s t || mstring_desc s t) ≡ true
unfolding mstring_asc mstring_desc
mstring_asc_total [] t = refl
mstring_asc_total (c ∷ s) [] = refl
mstring_asc_total (c ∷ s) (d ∷ t) = ground (arith, mstring_asc_total s t)

mstring_asc_trans :
    (s t u : List ℕ) → mstring_asc s t ≡ true → mstring_asc t u ≡ true → mstring_asc s u ≡ true
unfolding mstring_asc
mstring_asc_trans [] t u a b = refl
mstring_asc_trans (c ∷ s) [] u a b = absurd (ground (arith, a))
mstring_asc_trans (c ∷ s) (d ∷ t) [] a b = absurd (ground (arith, b))
mstring_asc_trans (c ∷ s) (d ∷ t) (e ∷ u) a b = ground (arith, mstring_asc_trans s t u, a, b)

mstring_asc-same_bytes : (s t : List ℕ) → (mstring_asc s t && mstring_asc t s) ≡ same_bytes s t
unfolding mstring_asc
mstring_asc-same_bytes [] [] = refl
mstring_asc-same_bytes [] (d ∷ t) = refl
mstring_asc-same_bytes (c ∷ s) [] = refl
mstring_asc-same_bytes (c ∷ s) (d ∷ t) = ground (arith, mstring_asc-same_bytes s t)

-- `mstring_asc` is a linear order of texts with `mstring_desc` its converse: one of the two holds, both
-- hold of equal texts only, and it is transitive.
pub mstring_asc_lem :
    (s t u : List ℕ)
    → ((mstring_asc s t || mstring_desc s t) ≡ true)
      × ((mstring_asc s t && mstring_desc s t) ≡ same_bytes s t)
      × ((not (mstring_asc s t && mstring_asc t u) || mstring_asc s u) ≡ true)
unfolding mstring_desc
mstring_asc_lem s t u =
    (mstring_asc_total s t, mstring_asc-same_bytes s t, ground (arith, mstring_asc_trans s t u))
