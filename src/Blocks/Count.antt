-- ===== src/Blocks/Count.antt =====
-- FileSystem/src/filetable.c: how many blocks a binary file is cut into.
use opsys_17b.Base.{
  ℕ, zero, suc, ◌+◌, ◌-◌, ◌*◌, ◌/◌, ◌≡◌, refl, ap, ◌∙◌, false, List, [], ◌∷◌, ◌++◌, arith, ◌==◌,
  ltb, length, length-append, ◌≤◌, ◌<◌, Bool-cases, inl, inr,
}
use opsys_17b.Blocks.{block_size, pieces, pieces_loop}
use opsys_17b.Blocks.Fill.{fill, concat}
use opsys_17b.Blocks.Pieces.{concat-pieces}

-- Pieces of 4,096 bytes, but the last may be shorter.
abbrev WholePieces : List (List ℕ) → Type 0
WholePieces [] = Unit
WholePieces (p ∷ ps) =
    (0 < length p) × (length p ≤ 4096) × (0 < length ps → length p ≡ 4096) × WholePieces ps

pieces_loop-WholePieces :
    (cur : List ℕ) (left : ℕ) (s : List ℕ)
    → length cur + left ≡ 4096
    → WholePieces (pieces_loop cur left s)
unfolding pieces_loop
pieces_loop-WholePieces [] left [] h = tt
pieces_loop-WholePieces (x ∷ cur) left [] h =
    let filled : (length (x ∷ cur) == 0) ≡ false = ground arith in
    rw filled (omega arith, omega arith, (λ more. absurd (omega (arith, more))), tt)
pieces_loop-WholePieces cur zero (c ∷ s) h = (
  omega arith,
  omega arith,
  (λ more. omega arith),
  pieces_loop-WholePieces (c ∷ []) 4095 s (omega arith),
)
pieces_loop-WholePieces cur (suc left) (c ∷ s) h =
    pieces_loop-WholePieces (cur ++ (c ∷ [])) left s (omega (arith, length-append cur (c ∷ [])))

length-fill :
    (ps : List (List ℕ)) (cur : List ℕ)
    → WholePieces ps
    → length cur ≤ block_size
    → (0 < length ps → (k : ℕ) × (length cur ≡ k * 4096))
    → length (fill 0 cur ps) ≡ (length cur + length (concat ps) + (block_size - 1)) / block_size
unfolding fill block_size concat
length-fill [] [] whole h aligned = refl
length-fill [] (c ∷ cur) whole h aligned =
    let filled : (length (c ∷ cur) == 0) ≡ false = ground arith in rw filled (omega (arith, h))
length-fill (p ∷ ps) cur whole h aligned =
    elim (Bool-cases (ltb block_size (length cur + length p + 0))) [
      | inl e ↦
          let over : block_size < length cur + length p = ground (arith, e) in
          let (k, at) = aligned (omega arith) in
          let full : length cur ≡ block_size = omega (arith, over, at, whole.1, h) in
          let filled : (length cur == 0) ≡ false = ground (arith, full) in
          let rec =
            length-fill ps p whole.3 (omega (arith, whole.1))
              (λ more. (1, omega (arith, whole.2 more))) in
          rw e (rw filled (omega (arith, rec, full, length-append p (concat ps))))
      | inr e ↦
          let fits : length cur + length p ≤ block_size = ground (arith, e) in
          let (k, at) = aligned (omega arith) in
          let rec =
            length-fill ps (cur ++ p) whole.3 (omega (arith, fits, length-append cur p))
              (λ more. (k + 1, omega (arith, whole.2 more, at, length-append cur p))) in
          rw e (omega (arith, rec, length-append cur p, length-append p (concat ps)))
    ]

pub length-fill-pieces :
    (s : List ℕ) → length (fill 0 [] (pieces s)) ≡ (length s + (block_size - 1)) / block_size
length-fill-pieces s =
    let same : length (concat (pieces s)) ≡ length s = ap (λ t. length t) (concat-pieces s) in
    length-fill (pieces s) [] (pieces_loop-WholePieces [] 4096 s (omega arith)) (omega arith)
      (λ more. (0, omega arith))
    ∙ ap (λ n. (n + (block_size - 1)) / block_size) (omega (arith, same))
