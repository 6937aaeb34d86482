-- ===== src/MList/Search.antt =====
-- Shared/mlist.c: `mlist_index`, `mlist_find`, `mlist_contains`, `mlist_any` and `mlist_reduce`
-- against the list of cells.
use opsys_17b.Base.{
  ℕ, zero, suc, ◌+◌, ◌≡◌, refl, sym, subst, inl, inr, Bool, true, false, some, [], ◌∷◌, arith, ◌==◌,
  ltb, length, ◌<◌, pos, negsuc, if◌then◌else◌, Bool-cases,
}
use opsys_17b.MList.{
  Ptr, null, Heap, MList, ◌>>=◌, get_elem, find_loop, mlist_index, mlist_find, reduce_loop,
  mlist_reduce,
}
use opsys_17b.MList.Chain.{Cells, head_or, Chain, IsMList}
use opsys_17b.MList.Insert.{load_lem}

module _ (cond : ℕ → Bool) where
  -- The number of cells before the first whose element meets the condition.
  unfoldable pub count_before : Cells → ℕ
  count_before [] = 0
  count_before ((p, v) ∷ xs) = let rest = count_before xs in if cond v then 0 else suc rest

  -- The cells from that one on.
  unfoldable pub drop_before : Cells → Cells
  drop_before [] = []
  drop_before ((p, v) ∷ xs) = let rest = drop_before xs in if cond v then (p, v) ∷ xs else rest

  -- Its element, NULL if there is none.
  unfoldable pub first_elem : Cells → ℕ
  first_elem [] = null
  first_elem ((p, v) ∷ xs) = let rest = first_elem xs in if cond v then v else rest

  -- Whether there is one.
  unfoldable pub has_elem : Cells → Bool
  has_elem [] = false
  has_elem ((p, v) ∷ xs) = let rest = has_elem xs in if cond v then true else rest

  count_before_lt : (xs : Cells) → ltb (count_before xs) (length xs) ≡ has_elem xs
  unfolding count_before has_elem
  count_before_lt [] = refl
  count_before_lt ((p, v) ∷ xs) = ground (arith, count_before_lt xs)

  find_loop_lem :
      (h : Heap) (fuel : ℕ) (prev : Ptr) (xs : Cells) (k : ℕ)
      → length xs < fuel
      → Chain h prev xs null
      → find_loop cond fuel (head_or null xs) k h
        ≡ some ((head_or null (drop_before xs), k + count_before xs), h)
  unfolding find_loop count_before drop_before
  find_loop_lem h zero prev xs k f c = absurd (omega arith)
  find_loop_lem h (suc fuel) prev [] k f c = let e : k + 0 ≡ k = omega arith in rw e
  find_loop_lem h (suc fuel) prev ((p, v) ∷ xs) k f c =
      let ne : (p == null) ≡ false = ground (arith, c.0) in
      rw (ne, find_loop)
        (rw (load_lem h p c.0 c.1, ◌>>=◌)
          (elim (Bool-cases (cond v)) [
            | inl hit ↦ let e : k + 0 ≡ k = omega arith in rw hit (rw e)
            | inr miss ↦
                let e : k + suc (count_before xs) ≡ k + 1 + count_before xs = omega arith in
                rw miss (rw e (find_loop_lem h fuel p xs (k + 1) (omega arith) c.2))
          ]))

  get_elem_lem :
      (h : Heap) (prev : Ptr) (xs : Cells)
      → Chain h prev xs null
      → get_elem (head_or null (drop_before xs)) h ≡ some (first_elem xs, h)
  unfolding get_elem drop_before first_elem
  get_elem_lem h prev [] c = refl
  get_elem_lem h prev ((p, v) ∷ xs) c = elim (Bool-cases (cond v)) [
    | inl hit ↦
        let ne : (p == null) ≡ false = ground (arith, c.0) in
        rw hit (rw (ne, get_elem) (rw (load_lem h p c.0 c.1, ◌>>=◌)))
    | inr miss ↦ rw miss (get_elem_lem h p xs c.2)
  ]

  module _ (h : Heap) (l : MList) (xs : Cells) (is : IsMList h l xs) where
    loop_lem :
        find_loop cond (l.length + 1) l.head 0 h
        ≡ some ((head_or null (drop_before xs), 0 + count_before xs), h)
    loop_lem =
        subst
          (λ t.
            find_loop cond (l.length + 1) t 0 h
            ≡ some ((head_or null (drop_before xs), 0 + count_before xs), h))
          (sym is.head_lem)
          (find_loop_lem h (l.length + 1) null xs 0 (omega (arith, is.length_lem)) is.chain)

    -- `mlist_index` ends on every list, and returns the place of the first element that meets the
    -- condition, or -1 if none does.
    pub mlist_index_lem :
        mlist_index cond l h ≡ some (if has_elem xs then pos (count_before xs) else negsuc 0, h)
    unfolding mlist_index
    mlist_index_lem =
        let z : 0 + count_before xs ≡ count_before xs = omega arith in
        rw (loop_lem, mlist_index, ◌>>=◌) (rw z (rw is.length_lem (rw (count_before_lt xs))))

    -- `mlist_find` returns the first element that meets the condition, or NULL.
    pub mlist_find_lem : mlist_find cond l h ≡ some (first_elem xs, h)
    unfolding mlist_find
    mlist_find_lem = rw (loop_lem, mlist_find, ◌>>=◌) (get_elem_lem h null xs is.chain)

unfoldable pub fold_cells : (ℕ → ℕ → ℕ) → ℕ → Cells → ℕ
fold_cells add sum [] = sum
fold_cells add sum ((p, v) ∷ xs) = fold_cells add (add sum v) xs

reduce_loop_lem :
    (add : ℕ → ℕ → ℕ) (h : Heap) (fuel : ℕ) (prev : Ptr) (xs : Cells) (sum : ℕ)
    → length xs < fuel
    → Chain h prev xs null
    → reduce_loop add fuel (head_or null xs) sum h ≡ some (fold_cells add sum xs, h)
unfolding reduce_loop fold_cells
reduce_loop_lem add h zero prev xs sum f c = absurd (omega arith)
reduce_loop_lem add h (suc fuel) prev [] sum f c = refl
reduce_loop_lem add h (suc fuel) prev ((p, v) ∷ xs) sum f c =
    let ne : (p == null) ≡ false = ground (arith, c.0) in
    rw (ne, reduce_loop)
      (rw (load_lem h p c.0 c.1, ◌>>=◌)
        (reduce_loop_lem add h fuel p xs (add sum v) (omega arith) c.2))

-- `mlist_reduce` folds the elements from the first to the last, from 0.
pub mlist_reduce_lem :
    (add : ℕ → ℕ → ℕ) (h : Heap) (l : MList) (xs : Cells)
    → IsMList h l xs
    → mlist_reduce add l h ≡ some (fold_cells add 0 xs, h)
unfolding mlist_reduce
mlist_reduce_lem add h l xs is =
    subst (λ t. reduce_loop add (l.length + 1) t 0 h ≡ some (fold_cells add 0 xs, h))
      (sym is.head_lem)
      (reduce_loop_lem add h (l.length + 1) null xs 0 (omega (arith, is.length_lem)) is.chain)
