-- ===== src/Blocks/Fill.antt =====
-- FileSystem/src/filetable.c: which bytes the partition puts in each block.
use opsys_17b.Base.{
  ℕ, ◌+◌, ◌≡◌, refl, ap, ◌∙◌, false, List, [], ◌∷◌, ◌++◌, append_assoc, arith, ◌==◌, ltb,
  if◌then◌else◌, All, length, length-append, ◌≤◌, ◌<◌, Bool-cases, inl, inr,
}
use opsys_17b.Blocks.{block_size}

-- The bytes `cur` of the block begun, if there are any, before the others.
abbrev pub block_before : List ℕ → List (List ℕ) → List (List ℕ)
block_before cur rest = if length cur == 0 then rest else cur ∷ rest

-- The contents of the blocks: a piece that does not fit with its end begins a new one.
unfoldable pub fill : ℕ → List ℕ → List (List ℕ) → List (List ℕ)
fill end cur [] = block_before cur []
fill end cur (piece ∷ rest) =
    let new = fill end piece rest in
    let same = fill end (cur ++ piece) rest in
    if ltb block_size (length cur + length piece + end) then block_before cur new else same

unfoldable pub concat : List (List ℕ) → List ℕ
concat [] = []
concat (d ∷ ds) = d ++ concat ds

concat-block_before :
    (cur : List ℕ) (ds : List (List ℕ)) → concat (block_before cur ds) ≡ cur ++ concat ds
unfolding concat
concat-block_before [] ds = refl
concat-block_before (c ∷ cur) ds =
    let filled : (length (c ∷ cur) == 0) ≡ false = ground arith in rw filled refl

-- No byte is lost.
pub concat-fill :
    (end : ℕ) (cur : List ℕ) (ps : List (List ℕ)) → concat (fill end cur ps) ≡ cur ++ concat ps
unfolding fill concat
concat-fill end cur [] = concat-block_before cur []
concat-fill end cur (p ∷ ps) = elim (Bool-cases (ltb block_size (length cur + length p + end))) [
  | inl e ↦
      rw e (concat-block_before cur (fill end p ps) ∙ ap (λ t. cur ++ t) (concat-fill end p ps))
  | inr e ↦ rw e (concat-fill end (cur ++ p) ps ∙ append_assoc cur p (concat ps))
]

-- No block is empty or too long, and all but the last lack less than a piece of 4,096 bytes.
abbrev pub Full : List (List ℕ) → Type 0
Full [] = Unit
Full (d ∷ []) = (0 < length d) × (length d ≤ block_size)
Full (d ∷ e ∷ ds) =
    (0 < length d) × (length d ≤ block_size) × (block_size < length d + 4096) × Full (e ∷ ds)

-- A piece that has bytes and that 4,096 bytes take with its end.
abbrev pub IsPiece : ℕ → List ℕ → Type 0
IsPiece end p = (0 < length p) × (length p + end ≤ 4096)

Full-cons :
    (cur : List ℕ) (ds : List (List ℕ))
    → 0 < length cur
    → length cur ≤ block_size
    → block_size < length cur + 4096
    → Full ds
    → Full (cur ∷ ds)
Full-cons cur [] h1 h2 h3 f = (h1, h2)
Full-cons cur (d ∷ ds) h1 h2 h3 f = (h1, h2, h3, f)

pub fill-Full :
    (end : ℕ) (cur : List ℕ) (ps : List (List ℕ))
    → length cur ≤ block_size
    → All (IsPiece end) ps
    → Full (fill end cur ps)
unfolding fill block_size
fill-Full end [] [] h hs = tt
fill-Full end (c ∷ cur) [] h hs =
    let filled : (length (c ∷ cur) == 0) ≡ false = ground arith in rw filled (omega arith, h)
fill-Full end cur (p ∷ ps) h hs = elim (Bool-cases (ltb block_size (length cur + length p + end))) [
  | inl e ↦
      let over : block_size < length cur + length p + end = ground (arith, e) in
      let filled : (length cur == 0) ≡ false = ground (arith, over, hs.0.1) in
      rw e (
        rw filled (
          Full-cons cur (fill end p ps) (omega (arith, over, hs.0.1)) h
            (omega (arith, over, hs.0.1)) (fill-Full end p ps (omega (arith, hs.0.1)) hs.1)))
  | inr e ↦ rw e (fill-Full end (cur ++ p) ps (ground (arith, e, length-append cur p)) hs.1)
]
