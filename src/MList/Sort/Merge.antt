-- ===== src/MList/Sort/Merge.antt =====
-- Shared/mlist.c: `merge_nodes` links the nodes of two lists into one.
use opsys_17b.Base.{
  ℕ, zero, suc, ◌+◌, ◌≡◌, ◌≢◌, refl, ◌∙◌, ◌<◌, inl, inr, Bool, true, false, some, [], ◌∷◌, ◌++◌,
  arith, ◌==◌, ◌||◌, length, All, Bool-cases,
}
use mathlib.Core.List.{Perm, perm_middle, append-nil}
use mathlib.Core.List.Perm
use opsys_17b.MList.{Ptr, null, node, Heap, write, ◌>>=◌}
use opsys_17b.MList.Chain.{Cells, occurs, head_or, Distinct}
use opsys_17b.MList.Insert.{load_lem}
use opsys_17b.MList.Sort.{goes_first, merge_nodes}
use opsys_17b.MList.Sort.Seg.{
  Seg, Seg-frame, write_self, write_other, apart_of_occurs, set_next_lem, not_null,
}

-- Two lists share no node.
abbrev pub Apart : Cells → Cells → Type 0
Apart xs ys = (a : Ptr) → occurs a ys ≡ true → occurs a xs ≡ false

head-Apart : (p v : ℕ) (xs ys : Cells) → Apart ((p, v) ∷ xs) ys → occurs p ys ≡ false
head-Apart p v xs ys apart = elim (Bool-cases (occurs p ys)) [
  | inl i ↦ absurd (ground (arith, apart p i))
  | inr o ↦ o
]

module _ (cmp : ℕ → ℕ → Bool) (fwd : Bool) where
  -- The cells of two lists in the order of the merge.
  unfoldable pub merged : Cells → Cells → Cells
  merged [] ys = ys
  merged (x ∷ xs) [] = x ∷ xs
  merged (x ∷ xs) (y ∷ ys) = elim (goes_first cmp fwd x.1 y.1) [
    | true ↦ x ∷ merged xs (y ∷ ys)
    | false ↦ y ∷ merged (x ∷ xs) ys
  ]

  -- The same, once the test is known.
  pub merged_first :
      (x y : Ptr × ℕ) (xs ys : Cells)
      → goes_first cmp fwd x.1 y.1 ≡ true
      → merged (x ∷ xs) (y ∷ ys) ≡ x ∷ merged xs (y ∷ ys)
  unfolding merged
  merged_first x y xs ys e = rw (e, merged)

  pub merged_second :
      (x y : Ptr × ℕ) (xs ys : Cells)
      → goes_first cmp fwd x.1 y.1 ≡ false
      → merged (x ∷ xs) (y ∷ ys) ≡ y ∷ merged (x ∷ xs) ys
  unfolding merged
  merged_second x y xs ys e = rw (e, merged)

  pub merged-perm : (xs ys : Cells) → Perm (merged xs ys) (xs ++ ys)
  unfolding merged
  merged-perm [] ys = Perm.rfl
  merged-perm (x ∷ xs) [] = rw (append-nil xs) Perm.rfl
  merged-perm (x ∷ xs) (y ∷ ys) = elim (Bool-cases (goes_first cmp fwd x.1 y.1)) [
    | inl e ↦ rw (merged_first x y xs ys e) (Perm.cons x (merged-perm xs (y ∷ ys)))
    | inr e ↦
        rw (merged_second x y xs ys e)
          (Perm.trans (Perm.cons y (merged-perm (x ∷ xs) ys)) (Perm.symm (perm_middle (x ∷ xs) ys)))
  ]

  pub length-merged : (xs ys : Cells) → length (merged xs ys) ≡ length xs + length ys
  unfolding merged
  length-merged [] ys = omega arith
  length-merged (x ∷ xs) [] = omega arith
  length-merged (x ∷ xs) (y ∷ ys) = elim (Bool-cases (goes_first cmp fwd x.1 y.1)) [
    | inl e ↦ rw (merged_first x y xs ys e) (omega (arith, length-merged xs (y ∷ ys)))
    | inr e ↦ rw (merged_second x y xs ys e) (omega (arith, length-merged (x ∷ xs) ys))
  ]

  pub occurs-merged :
      (a : Ptr) (xs ys : Cells) → occurs a (merged xs ys) ≡ (occurs a xs || occurs a ys)
  unfolding merged
  occurs-merged a [] ys = refl
  occurs-merged a (x ∷ xs) [] = ground arith
  occurs-merged a (x ∷ xs) (y ∷ ys) = elim (Bool-cases (goes_first cmp fwd x.1 y.1)) [
    | inl e ↦ rw (merged_first x y xs ys e) (ground (arith, occurs-merged a xs (y ∷ ys)))
    | inr e ↦ rw (merged_second x y xs ys e) (ground (arith, occurs-merged a (x ∷ xs) ys))
  ]

  pub All-merged :
      (P : Ptr × ℕ → Type 0) (xs ys : Cells) → All P xs → All P ys → All P (merged xs ys)
  unfolding merged
  All-merged P [] ys hx hy = hy
  All-merged P (x ∷ xs) [] hx hy = hx
  All-merged P (x ∷ xs) (y ∷ ys) hx hy = elim (Bool-cases (goes_first cmp fwd x.1 y.1)) [
    | inl e ↦ rw (merged_first x y xs ys e) ((hx.0, All-merged P xs (y ∷ ys) hx.1 hy))
    | inr e ↦ rw (merged_second x y xs ys e) ((hy.0, All-merged P (x ∷ xs) ys hx hy.1))
  ]

  pub merged-Distinct :
      (xs ys : Cells) → Distinct xs → Distinct ys → Apart xs ys → Distinct (merged xs ys)
  unfolding merged
  merged-Distinct [] ys dx dy apart = dy
  merged-Distinct (x ∷ xs) [] dx dy apart = dx
  merged-Distinct (x ∷ xs) (y ∷ ys) dx dy apart = elim (Bool-cases (goes_first cmp fwd x.1 y.1)) [
    | inl e ↦ rw (merged_first x y xs ys e) (
        (
          ground (arith, occurs-merged x.0 xs (y ∷ ys), head-Apart x.0 x.1 xs (y ∷ ys) apart),
          merged-Distinct xs (y ∷ ys) dx.1 dy (λ a i. ground (arith, apart a)),
        ))
    | inr e ↦ rw (merged_second x y xs ys e) (
        (
          ground (arith, occurs-merged y.0 (x ∷ xs) ys, apart y.0),
          merged-Distinct (x ∷ xs) ys dx dy.1 (λ a i. apart a (ground arith)),
        ))
  ]

-- The heap with the node `p` put in front of the nodes `m`.
abbrev linked : Heap → (p q v : ℕ) → Cells → Heap
linked g p q v m = write g p (some (node q (head_or null m) v))

linked-Seg :
    (g : Heap) (p q v : ℕ) (m : Cells)
    → p ≢ null
    → occurs p m ≡ false
    → Seg g m null
    → Seg (linked g p q v m) ((p, v) ∷ m) null
linked-Seg g p q v m ne out s = (
  ne,
  q,
  write_self g p _,
  Seg-frame g _ m null (λ a i. write_other g p a _ (apart_of_occurs a p m i out)) s,
)

module _ (cmp : ℕ → ℕ → Bool) (fwd : Bool) where
  -- `merge_nodes` links the nodes of two lists in the order of `merged`, and writes no other.
  abbrev pub Merges : ℕ → Heap → Cells → Cells → Type 0
  Merges fuel h xs ys =
      (g : Heap) × (merge_nodes cmp fwd fuel (head_or null xs) (head_or null ys) h
        ≡ some (head_or null (merged cmp fwd xs ys), g))
      × Seg g (merged cmp fwd xs ys) null
      × ((a : Ptr) → occurs a xs ≡ false → occurs a ys ≡ false → g a ≡ h a)

  module _ (fuel : ℕ) (h : Heap) (p v : ℕ) (xs : Cells) (q w : ℕ) (ys : Cells)
      (sx : Seg h ((p, v) ∷ xs) null) (sy : Seg h ((q, w) ∷ ys) null) (px : occurs p xs ≡ false)
      (py : occurs p ((q, w) ∷ ys) ≡ false) (qx : occurs q ((p, v) ∷ xs) ≡ false)
      (qy : occurs q ys ≡ false) where
    some_p : (p == null) ≡ false
    some_p = not_null p sx.0

    some_q : (q == null) ≡ false
    some_q = not_null q sy.0

    take_first :
        goes_first cmp fwd v w ≡ true
        → Merges fuel h xs ((q, w) ∷ ys)
        → Merges (suc fuel) h ((p, v) ∷ xs) ((q, w) ∷ ys)
    unfolding merge_nodes
    take_first e (g, run, seg, outside) =
        let cell : g p ≡ some (node sx.1 (head_or null xs) v) = outside p px py ∙ sx.2 in
        let m = merged cmp fwd xs ((q, w) ∷ ys) in
        let out : occurs p m ≡ false = ground (arith, occurs-merged cmp fwd p xs ((q, w) ∷ ys)) in
        (
          linked g p sx.1 v m,
          rw (merged_first cmp fwd (p, v) (q, w) xs ys e) (
              rw (some_p, merge_nodes)
                (rw some_q (
                  rw (load_lem h p sx.0 sx.2, ◌>>=◌)
                    (rw (load_lem h q sy.0 sy.2, ◌>>=◌)
                      (rw e (
                        rw (run, ◌>>=◌)
                          (rw (set_next_lem g p sx.1 (head_or null xs) v _ sx.0 cell, ◌>>=◌)))))))),
          rw (merged_first cmp fwd (p, v) (q, w) xs ys e) (linked-Seg g p sx.1 v m sx.0 out seg),
          λ a ox oy. write_other g p a _ (ground arith) ∙ outside a (ground arith) oy,
        )

    take_second :
        goes_first cmp fwd v w ≡ false
        → Merges fuel h ((p, v) ∷ xs) ys
        → Merges (suc fuel) h ((p, v) ∷ xs) ((q, w) ∷ ys)
    unfolding merge_nodes
    take_second e (g, run, seg, outside) =
        let cell : g q ≡ some (node sy.1 (head_or null ys) w) = outside q qx qy ∙ sy.2 in
        let m = merged cmp fwd ((p, v) ∷ xs) ys in
        let out : occurs q m ≡ false = ground (arith, occurs-merged cmp fwd q ((p, v) ∷ xs) ys) in
        (
          linked g q sy.1 w m,
          rw (merged_second cmp fwd (p, v) (q, w) xs ys e) (
              rw (some_p, merge_nodes)
                (rw some_q (
                  rw (load_lem h p sx.0 sx.2, ◌>>=◌)
                    (rw (load_lem h q sy.0 sy.2, ◌>>=◌)
                      (rw e (
                        rw (run, ◌>>=◌)
                          (rw (set_next_lem g q sy.1 (head_or null ys) w _ sy.0 cell, ◌>>=◌)))))))),
          rw (merged_second cmp fwd (p, v) (q, w) xs ys e) (linked-Seg g q sy.1 w m sy.0 out seg),
          λ a ox oy. write_other g q a _ (ground arith) ∙ outside a ox (ground arith),
        )

  pub merge_nodes_lem :
      (fuel : ℕ) (h : Heap) (xs ys : Cells)
      → length xs + length ys < fuel
      → Seg h xs null
      → Seg h ys null
      → Distinct xs
      → Distinct ys
      → Apart xs ys
      → Merges fuel h xs ys
  unfolding merge_nodes merged
  merge_nodes_lem zero h xs ys f sx sy dx dy apart = absurd (omega arith)
  merge_nodes_lem (suc fuel) h [] ys f sx sy dx dy apart = (h, refl, sy, λ a ox oy. refl)
  merge_nodes_lem (suc fuel) h ((p, v) ∷ xs) [] f sx sy dx dy apart =
      let some_p : (p == null) ≡ false = not_null p sx.0 in
      (h, rw (some_p, merge_nodes), sx, λ a ox oy. refl)
  merge_nodes_lem (suc fuel) h ((p, v) ∷ xs) ((q, w) ∷ ys) f sx sy dx dy apart =
      let py : occurs p ((q, w) ∷ ys) ≡ false = head-Apart p v xs ((q, w) ∷ ys) apart in
      let qx : occurs q ((p, v) ∷ xs) ≡ false = apart q (ground arith) in
      elim (Bool-cases (goes_first cmp fwd v w)) [
        | inl e ↦ take_first fuel h p v xs q w ys sx sy dx.0 py qx dy.0 e (
            merge_nodes_lem fuel h xs ((q, w) ∷ ys) (omega arith) sx.3 sy dx.1 dy
              (λ a i. ground (arith, apart a)))
        | inr e ↦ take_second fuel h p v xs q w ys sx sy dx.0 py qx dy.0 e (
            merge_nodes_lem fuel h ((p, v) ∷ xs) ys (omega arith) sx sy.3 dx dy.1
              (λ a i. apart a (ground arith)))
      ]
