-- ===== src/Text/Find.antt =====
-- Shared/mstring.c: `mstring_find` meets the first occurrence, and `mstring_replace` puts another text
-- in its place.
use opsys_17b.Base.{
  ℕ, zero, suc, ◌+◌, ◌≡◌, refl, ap, ◌∙◌, ◌⊎◌, inl, inr, Bool, true, false, Option, none, some, List,
  [], ◌∷◌, ◌++◌, arith, ◌==◌, length, length-append, take, drop, length-take, ◌≤◌, ◌<◌, Bool-cases,
}
use opsys_17b.Text.{formatted, mstring_hasprefix, mstring_find, mstring_replace}

-- The substring begins at the place, and nowhere before.
abbrev pub IsFirst : List ℕ → List ℕ → Option ℕ → Type 0
IsFirst s sub none = (j : ℕ) → mstring_hasprefix (drop j s) sub ≡ false
IsFirst s sub (some i) =
    (i ≤ length s)
    × (mstring_hasprefix (drop i s) sub ≡ true)
    × ((j : ℕ) → j < i → mstring_hasprefix (drop j s) sub ≡ false)

pub mstring_hasprefix_lem :
    (s p : List ℕ) → mstring_hasprefix s p ≡ true → s ≡ p ++ drop (length p) s
unfolding mstring_hasprefix
mstring_hasprefix_lem s [] h = refl
mstring_hasprefix_lem [] (p ∷ ps) h = absurd (ground (arith, h))
mstring_hasprefix_lem (c ∷ s) (p ∷ ps) h = elim (Bool-cases (c == p)) [
  | inl e ↦
      let same : c ≡ p = ground arith in
      let ih = mstring_hasprefix_lem s ps (rw e at h) in rw same (ap (λ t. p ∷ t) ih)
  | inr e ↦ absurd (ground (arith, e, h))
]

pub mstring_hasprefix-append :
    (s p t : List ℕ) → mstring_hasprefix s p ≡ true → mstring_hasprefix (s ++ t) p ≡ true
unfolding mstring_hasprefix
mstring_hasprefix-append s [] t h = refl
mstring_hasprefix-append [] (p ∷ ps) t h = absurd (ground (arith, h))
mstring_hasprefix-append (c ∷ s) (p ∷ ps) t h = ground (arith, mstring_hasprefix-append s ps t)

pub mstring_find_lem : (s sub : List ℕ) → IsFirst s sub (mstring_find s sub)
unfolding mstring_find
mstring_find_lem [] sub = elim (Bool-cases (mstring_hasprefix [] sub)) [
  | inl e ↦ rw e (omega arith, e, λ j lt. absurd (omega arith))
  | inr e ↦ rw e (λ j. empty j e)
]
  where
    empty : (j : ℕ) → mstring_hasprefix [] sub ≡ false → mstring_hasprefix (drop j []) sub ≡ false
    empty zero h = h
    empty (suc j) h = h
mstring_find_lem (c ∷ s) sub = elim (Bool-cases (mstring_hasprefix (c ∷ s) sub)) [
  | inl e ↦ rw e (omega arith, e, λ j lt. absurd (omega arith))
  | inr e ↦ rw e (step (mstring_find s sub) e (mstring_find_lem s sub))
]
  where
    later :
        (P : ℕ → Type 0)
        → mstring_hasprefix (c ∷ s) sub ≡ false
        → ((j : ℕ) → P j → mstring_hasprefix (drop j s) sub ≡ false)
        → (j : ℕ) → ((k : ℕ) → j ≡ suc k → P k)
        → mstring_hasprefix (drop j (c ∷ s)) sub ≡ false
    later P h ih zero p = h
    later P h ih (suc j) p = ih j (p j refl)

    step :
        (r : Option ℕ)
        → mstring_hasprefix (c ∷ s) sub ≡ false
        → IsFirst s sub r
        → IsFirst (c ∷ s) sub (elim r [ none ↦ none | some i ↦ some (suc i) ])
    step none h ih = λ j. later (λ k. Unit {0}) h (λ k u. ih k) j (λ k e. tt)
    step (some i) h (le, at_i, before) =
        (omega arith, at_i, λ j lt. later (λ k. k < i) h before j (λ k e. omega arith))

take_all : (n : ℕ) (s : List ℕ) → length s ≤ n → take n s ≡ s
take_all zero [] h = refl
take_all zero (c ∷ s) h = absurd (omega arith)
take_all (suc n) [] h = refl
take_all (suc n) (c ∷ s) h = ap (λ t. c ∷ t) (take_all n s (omega arith))

pub formatted_short : (s : List ℕ) → length s ≤ 1023 → formatted s ≡ s
unfolding formatted
formatted_short s h = take_all 1023 s h

-- A text that is found cuts the other in three.
pub cut_at :
    (s sub : List ℕ) (i : ℕ)
    → mstring_hasprefix (drop i s) sub ≡ true
    → s ≡ take i s ++ (sub ++ drop (i + length sub) s)
unfolding mstring_hasprefix
cut_at s sub zero h =
    let z : zero + length sub ≡ length sub = omega arith in rw z (mstring_hasprefix_lem s sub h)
cut_at [] [] (suc i) h = let z : suc i + 0 ≡ suc i = omega arith in rw z
cut_at [] (p ∷ ps) (suc i) h = absurd (ground (arith, h))
cut_at (c ∷ s) sub (suc i) h =
    let z : suc i + length sub ≡ suc (i + length sub) = omega arith in
    rw z (ap (λ t. c ∷ t) (cut_at s sub i h))

-- The text is as it was and does not hold the substring; or it is cut at the first place of the
-- substring, which the replacement takes.
abbrev pub Replaced : List ℕ → List ℕ → List ℕ → Bool × List ℕ → Type 0
Replaced s sub replacement (done, t) =
    ((done ≡ false) × (t ≡ s) × IsFirst s sub none)
    ⊎ ((front back : List ℕ) × (done ≡ true)
        × (s ≡ front ++ (sub ++ back))
        × IsFirst s sub (some (length front))
        × (t ≡ front ++ (replacement ++ back)))

-- For texts that fit the buffer of the formats, `mstring_replace` replaces the first occurrence of the
-- substring and nothing else, or says that there is none.
pub mstring_replace_lem :
    (s sub replacement : List ℕ)
    → length s + length replacement ≤ 1023
    → Replaced s sub replacement (mstring_replace s sub replacement)
unfolding mstring_replace
mstring_replace_lem s sub replacement h = go (mstring_find s sub) (mstring_find_lem s sub)
  where
    go :
        (r : Option ℕ)
        → IsFirst s sub r
        → Replaced s sub replacement (elim r [
          | none ↦ (false, s)
          | some i ↦
              (true, formatted (formatted (take i s) ++ (replacement ++ drop (i + length sub) s)))
        ])
    go none first = inl (refl, refl, first)
    go (some i) (le, at_i, before) =
        let len : length (take i s) ≡ i = length-take i s le in
        let cut = cut_at s sub i at_i in
        let total =
          ap (λ (t : List ℕ). length t) cut
          ∙ length-append (take i s) (sub ++ drop (i + length sub) s) in
        let total' = length-append sub (drop (i + length sub) s) in
        let out = length-append (take i s) (replacement ++ drop (i + length sub) s) in
        let out' = length-append replacement (drop (i + length sub) s) in
        let short = formatted_short (take i s) (omega (arith, total)) in
        let short' =
          formatted_short (take i s ++ (replacement ++ drop (i + length sub) s))
            (omega (arith, total, total', out, out')) in
        inr
          (take i s, drop (i + length sub) s, refl, cut, rw len (le, at_i, before), rw short short')
