-- ===== src/Text/Pieces.antt =====
-- Shared/mstring.c: `mstring_count` ends, and counts the occurrences that do not overlap.
use opsys_17b.Base.{
  ℕ, zero, suc, ◌+◌, ◌≡◌, refl, sym, subst, ap, ◌∙◌, inl, inr, true, false, Option, none, some,
  List, [], ◌∷◌, ◌++◌, arith, length, length-append, take, drop, take-drop, All, ◌<◌, Bool-cases,
}
use opsys_17b.Text.{mstring_hasprefix, mstring_find, count_loop, mstring_count}
use opsys_17b.Text.Find.{IsFirst, mstring_find_lem, mstring_hasprefix-append, cut_at}

-- The pieces with the substring between them.
unfoldable pub join : List ℕ → List (List ℕ) → List ℕ
join sub [] = []
join sub (p ∷ []) = p
join sub (p ∷ q ∷ ps) = p ++ (sub ++ join sub (q ∷ ps))

-- The substring is nowhere in the text.
abbrev pub Lacks : List ℕ → List ℕ → Type 0
Lacks sub s = IsFirst s sub none

-- What comes in front of the first occurrence holds none.
Lacks-take :
    (s sub : List ℕ) (i : ℕ) (c : ℕ) (cs : List ℕ)
    → sub ≡ c ∷ cs
    → ((j : ℕ) → j < i → mstring_hasprefix (drop j s) sub ≡ false)
    → Lacks sub (take i s)
unfolding mstring_hasprefix
Lacks-take s sub zero c cs e before j = rw e (empty j)
  where
    empty : (j : ℕ) → mstring_hasprefix (drop j []) (c ∷ cs) ≡ false
    empty zero = refl
    empty (suc j) = refl
Lacks-take [] sub (suc i) c cs e before j = rw e (empty j)
  where
    empty : (j : ℕ) → mstring_hasprefix (drop j []) (c ∷ cs) ≡ false
    empty zero = refl
    empty (suc j) = refl
Lacks-take (x ∷ s) sub (suc i) c cs e before zero =
    elim (Bool-cases (mstring_hasprefix (x ∷ take i s) sub)) [
      | inl t ↦
          let whole : mstring_hasprefix (x ∷ s) sub ≡ true =
            subst (λ u. mstring_hasprefix (x ∷ u) sub ≡ true) (take-drop i s)
              (mstring_hasprefix-append (x ∷ take i s) sub (drop i s) t) in
          absurd (ground (arith, whole, before 0))
      | inr f ↦ f
    ]
Lacks-take (x ∷ s) sub (suc i) c cs e before (suc j) =
    Lacks-take s sub i c cs e (λ k lt. before (suc k) (omega arith)) j

module _ (c : ℕ) (cs : List ℕ) where
  -- The result of the loop, and the pieces it passed.
  abbrev Counted : ℕ → List ℕ → Type 0
  Counted fuel s =
      (n : ℕ) × (p : List ℕ) × (ps : List (List ℕ)) × (count_loop fuel s (c ∷ cs) ≡ some n)
      × (length ps ≡ n)
      × (join (c ∷ cs) (p ∷ ps) ≡ s)
      × All (Lacks (c ∷ cs)) (p ∷ ps)

  count_loop_lem : (fuel : ℕ) (s : List ℕ) → length s < fuel → Counted fuel s
  unfolding count_loop join
  count_loop_lem zero s f = absurd (omega arith)
  count_loop_lem (suc fuel) s f =
      go (mstring_find s (c ∷ cs)) refl (mstring_find_lem s (c ∷ cs)) (count_loop_lem fuel)
    where
      go :
          (r : Option ℕ)
          → mstring_find s (c ∷ cs) ≡ r
          → IsFirst s (c ∷ cs) r
          → ((t : List ℕ) → length t < fuel → Counted fuel t)
          → Counted (suc fuel) s
      go none e first ih = (0, s, [], rw (e, count_loop), refl, refl, (first, tt))
      go (some i) e (le, at_i, before) ih =
          let rest = drop (i + length (c ∷ cs)) s in
          let cut = cut_at s (c ∷ cs) i at_i in
          let total =
            ap (λ (t : List ℕ). length t) cut ∙ length-append (take i s) ((c ∷ cs) ++ rest) in
          let total' = length-append (c ∷ cs) rest in
          let (n, p, ps, run, len, joined, lacks) = ih rest (omega (arith, total, total')) in
          (
            suc n,
            take i s,
            p ∷ ps,
            rw (e, count_loop) (rw (run, count_loop)),
            ap suc len,
            ap (λ t. take i s ++ ((c ∷ cs) ++ t)) joined ∙ sym cut,
            (Lacks-take s (c ∷ cs) i c cs refl before, lacks),
          )

-- For a substring that is not empty `mstring_count` ends with the number of occurrences that do not
-- overlap: the text is one piece more than the count, joined by the substring, and no piece holds it.
pub mstring_count_lem :
    (s sub : List ℕ)
    → 0 < length sub
    → (n : ℕ) × (ps : List (List ℕ)) × (mstring_count s sub ≡ some n)
      × (length ps ≡ suc n)
      × (join sub ps ≡ s)
      × All (Lacks sub) ps
unfolding mstring_count
mstring_count_lem s [] lt = absurd (omega arith)
mstring_count_lem s (c ∷ cs) lt =
    let (n, p, ps, run, len, joined, lacks) = count_loop_lem c cs (length s + 1) s (omega arith) in
    (n, p ∷ ps, run, ap suc len, joined, lacks)
