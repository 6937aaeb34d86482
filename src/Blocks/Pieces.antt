-- ===== src/Blocks/Pieces.antt =====
-- Shared/file.c: the pieces and the lines of a file.
use opsys_17b.Base.{
  ℕ, zero, suc, ◌+◌, ◌≡◌, refl, sym, ap, ◌∙◌, false, List, [], ◌∷◌, ◌++◌, map, append_assoc,
  append-nil, arith, ◌==◌, All, length, length-append, ◌<◌, Bool-cases, inl, inr,
}
use opsys_17b.Blocks.{pieces, pieces_loop, lines, lines_loop, c_string}
use opsys_17b.Blocks.Fill.{concat, IsPiece}

concat-pieces_loop :
    (cur : List ℕ) (left : ℕ) (s : List ℕ) → concat (pieces_loop cur left s) ≡ cur ++ s
unfolding pieces_loop concat
concat-pieces_loop [] left [] = refl
concat-pieces_loop (x ∷ cur) left [] =
    let filled : (length (x ∷ cur) == 0) ≡ false = ground arith in rw filled refl
concat-pieces_loop cur zero (c ∷ s) = ap (λ t. cur ++ t) (concat-pieces_loop (c ∷ []) 4095 s)
concat-pieces_loop cur (suc left) (c ∷ s) =
    concat-pieces_loop (cur ++ (c ∷ [])) left s ∙ append_assoc cur (c ∷ []) s

pub concat-pieces : (s : List ℕ) → concat (pieces s) ≡ s
concat-pieces s = concat-pieces_loop [] 4096 s

pieces_loop-IsPiece :
    (cur : List ℕ) (left : ℕ) (s : List ℕ)
    → length cur + left ≡ 4096
    → All (IsPiece 0) (pieces_loop cur left s)
unfolding pieces_loop
pieces_loop-IsPiece [] left [] h = tt
pieces_loop-IsPiece (x ∷ cur) left [] h =
    let filled : (length (x ∷ cur) == 0) ≡ false = ground arith in
    rw filled ((omega arith, omega arith), tt)
pieces_loop-IsPiece cur zero (c ∷ s) h =
    ((omega arith, omega arith), pieces_loop-IsPiece (c ∷ []) 4095 s (omega arith))
pieces_loop-IsPiece cur (suc left) (c ∷ s) h =
    pieces_loop-IsPiece (cur ++ (c ∷ [])) left s (omega (arith, length-append cur (c ∷ [])))

pub pieces-IsPiece : (s : List ℕ) → All (IsPiece 0) (pieces s)
pieces-IsPiece s = pieces_loop-IsPiece [] 4096 s refl

-- The first piece of what has 4,096 bytes and more.
pub pieces_loop-append :
    (cur xs ys : List ℕ)
    → length cur + length xs ≡ 4096
    → pieces_loop cur (length xs) (xs ++ ys) ≡ (cur ++ xs) ∷ pieces ys
unfolding pieces_loop
pieces_loop-append cur [] [] h =
    let filled : (length cur == 0) ≡ false = ground (arith, h) in
    rw filled (ap (λ t. t ∷ []) (sym (append-nil cur)))
pieces_loop-append cur [] (c ∷ ys) h =
    ap (λ t. t ∷ pieces_loop (c ∷ []) 4095 ys) (sym (append-nil cur))
pieces_loop-append cur (x ∷ xs) ys h =
    pieces_loop-append (cur ++ (x ∷ [])) xs ys (omega (arith, h, length-append cur (x ∷ [])))
    ∙ ap (λ t. t ∷ pieces ys) (append_assoc cur (x ∷ []) xs)

concat-lines_loop : (cur s : List ℕ) → concat (lines_loop cur s) ≡ cur ++ s
unfolding lines_loop concat
concat-lines_loop [] [] = refl
concat-lines_loop (x ∷ cur) [] =
    let filled : (length (x ∷ cur) == 0) ≡ false = ground arith in rw filled refl
concat-lines_loop cur (c ∷ s) = elim (Bool-cases (c == b'\n')) [
  | inl e ↦
      rw e (ap (λ t. (cur ++ (c ∷ [])) ++ t) (concat-lines_loop [] s) ∙ append_assoc cur (c ∷ []) s)
  | inr e ↦ rw e (concat-lines_loop (cur ++ (c ∷ [])) s ∙ append_assoc cur (c ∷ []) s)
]

pub concat-lines : (s : List ℕ) → concat (lines s) ≡ s
concat-lines s = concat-lines_loop [] s

abbrev pub NoZero : List ℕ → Type 0
NoZero = All (λ c. (c == 0) ≡ false)

NoZero-append : (s t : List ℕ) → NoZero (s ++ t) → (NoZero s) × (NoZero t)
NoZero-append [] t h = (tt, h)
NoZero-append (c ∷ s) t h = let (a, b) = NoZero-append s t h.1 in ((h.0, a), b)

c_string-NoZero : (s : List ℕ) → NoZero s → c_string s ≡ s
unfolding c_string
c_string-NoZero [] h = refl
c_string-NoZero (c ∷ s) h = rw h.0 (ap (λ t. c ∷ t) (c_string-NoZero s h.1))

-- Pieces of bytes without a zero are whole as texts.
pub map-c_string : (ps : List (List ℕ)) → NoZero (concat ps) → map (λ line. c_string line) ps ≡ ps
unfolding concat
map-c_string [] h = refl
map-c_string (p ∷ ps) h =
    let (a, b) = NoZero-append p (concat ps) h in
    rw (c_string-NoZero p a) (ap (λ t. p ∷ t) (map-c_string ps b))

-- No line is empty.
lines_loop_filled : (cur s : List ℕ) → All (λ l. 0 < length l) (lines_loop cur s)
unfolding lines_loop
lines_loop_filled [] [] = tt
lines_loop_filled (x ∷ cur) [] =
    let filled : (length (x ∷ cur) == 0) ≡ false = ground arith in rw filled (omega arith, tt)
lines_loop_filled cur (c ∷ s) = elim (Bool-cases (c == b'\n')) [
  | inl e ↦ rw e (omega (arith, length-append cur (c ∷ [])), lines_loop_filled [] s)
  | inr e ↦ rw e (lines_loop_filled (cur ++ (c ∷ [])) s)
]

both :
    (ls : List (List ℕ))
    → All (λ l. 0 < length l) ls
    → All (λ l. length l < 4096) ls
    → All (IsPiece 1) ls
both [] h h' = tt
both (l ∷ ls) h h' = ((h.0, omega (arith, h'.0)), both ls h.1 h'.1)

pub lines-IsPiece : (s : List ℕ) → All (λ l. length l < 4096) (lines s) → All (IsPiece 1) (lines s)
lines-IsPiece s h = both (lines s) (lines_loop_filled [] s) h
