-- ===== src/MList/Traverse/Ends.antt =====
-- Shared/mlist.c: `mlist_count` and `mlist_clear`.
use opsys_17b.Base.{
  ℕ, zero, suc, ◌+◌, ◌≡◌, ◌≢◌, refl, ◌∙◌, ◌<◌, inl, inr, Bool, true, false, none, some, [], ◌∷◌,
  arith, ◌==◌, length, if◌then◌else◌, Bool-cases,
}
use opsys_17b.MList.{Ptr, null, Node, Heap, write, MList, mlist, ◌>>=◌, pure, free}
use opsys_17b.MList.Chain.{Cells, occurs, head_or, Distinct, IsMList}
use opsys_17b.MList.Insert.{load_lem}
use opsys_17b.MList.Sort.Seg.{
  Seg, Seg-frame, Seg-of_Chain, not_null, write_self, write_other, apart_of_occurs,
}
use opsys_17b.MList.Traverse.{traverse_nodes, skip, every, mlist_count, mlist_clear}
use opsys_17b.MList.Traverse.Laws.{elems}
use opsys_17b.MList.Traverse.Copies.{chosen}

module _ (condition : ℕ → Bool) (h : Heap) where
  count_loop_lem :
      (fuel : ℕ) (xs : Cells) (count : ℕ)
      → length xs < fuel
      → Seg h xs null
      → traverse_nodes
          (λ count p. pure (if p == null then count else count + 1))
          skip
          condition
          false
          fuel
          (head_or null xs)
          count
          h
        ≡ some (count + length (chosen condition (elems xs)), h)
  unfolding traverse_nodes chosen
  count_loop_lem zero xs count k s = absurd (omega arith)
  count_loop_lem (suc fuel) [] count k s = let e : count + 0 ≡ count = omega arith in rw e
  count_loop_lem (suc fuel) ((p, v) ∷ xs) count k (ne, q, e, s) = elim (Bool-cases (condition v)) [
    | inl hit ↦
        rw (not_null p ne, traverse_nodes)
          (rw (load_lem h p ne e, ◌>>=◌)
            (rw hit (
              let one_more : count + suc rest ≡ count + 1 + rest = omega arith in
              rw one_more (count_loop_lem fuel xs (count + 1) (omega arith) s))))
    | inr miss ↦
        rw (not_null p ne, traverse_nodes)
          (rw (load_lem h p ne e, ◌>>=◌) (rw miss (count_loop_lem fuel xs count (omega arith) s)))
  ]
    where
      rest : ℕ
      rest = length (chosen condition (elems xs))

-- `mlist_count` ends on every list with the number of elements that meet the condition.
pub mlist_count_lem :
    (condition : ℕ → Bool) (h : Heap) (l : MList) (xs : Cells)
    → IsMList h l xs
    → mlist_count condition l h ≡ some (length (chosen condition (elems xs)), h)
unfolding mlist_count
mlist_count_lem condition h l xs is = rw is.head_lem (
    count_loop_lem condition h (l.length + 1) xs 0 (omega (arith, is.length_lem))
      (Seg-of_Chain h null xs null is.chain)
    ∙ (λ i. some (zero-add i, h)))
  where
    zero-add : 0 + length (chosen condition (elems xs)) ≡ length (chosen condition (elems xs))
    zero-add = omega arith

-- The nodes of a list freed, and nothing else.
abbrev pub Frees : Heap → Cells → Heap → Type 0
Frees h xs g =
    ((a : Ptr) → occurs a xs ≡ true → g a ≡ none) × ((a : Ptr) → occurs a xs ≡ false → g a ≡ h a)

free_lem :
    (h : Heap) (p : Ptr) {n : Node} → p ≢ null → h p ≡ some n → free p h ≡ some (tt, write h p none)
unfolding free
free_lem h p ne e = rw (load_lem h p ne e, ◌>>=◌)

pub clear_loop_lem :
    (fuel : ℕ) (h : Heap) (xs : Cells)
    → length xs < fuel
    → Seg h xs null
    → Distinct xs
    → (g : Heap) × (traverse_nodes (λ s p. free p) skip every false fuel (head_or null xs) tt h
        ≡ some (tt, g))
      × Frees h xs g
unfolding traverse_nodes
clear_loop_lem zero h xs k s d = absurd (omega arith)
clear_loop_lem (suc fuel) h [] k s d = (h, refl, ((λ a i. cc), λ a o. refl))
clear_loop_lem (suc fuel) h ((p, v) ∷ xs) k (ne, q, e, s) (out, d) =
    let rest : Seg (write h p none) xs null =
      Seg-frame h (write h p none) xs null
        (λ a i. write_other h p a none (apart_of_occurs a p xs i out)) s in
    let (g, run, (gone, kept)) = clear_loop_lem fuel (write h p none) xs (omega arith) rest d in
    (
      g,
      rw (not_null p ne, traverse_nodes)
          (rw (load_lem h p ne e, ◌>>=◌) (rw (free_lem h p ne e, ◌>>=◌) run)),
      (
        λ a i. elim (Bool-cases (occurs a xs)) [
          | inl below ↦ gone a below
          | inr not_below ↦
              let here : a ≡ p = ground arith in kept a not_below ∙ rw here (write_self h p none)
        ],
        λ a o. kept a (ground arith) ∙ write_other h p a none (ground arith),
      ),
    )

-- `mlist_clear` ends on every list: its nodes are freed, no other node changes, and it is empty.
pub mlist_clear_lem :
    (h : Heap) (l : MList) (xs : Cells)
    → IsMList h l xs
    → (g : Heap) × (mlist_clear l h ≡ some (mlist null null 0, g)) × Frees h xs g
unfolding mlist_clear
mlist_clear_lem h l xs is =
    let (g, run, frees) =
      clear_loop_lem (l.length + 1) h xs (omega (arith, is.length_lem))
        (Seg-of_Chain h null xs null is.chain) is.distinct in
    (g, rw is.head_lem (rw (run, ◌>>=◌)), frees)
