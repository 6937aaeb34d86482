-- ===== src/MList/RemoveAll.antt =====
-- Shared/mlist.c: `mlist_remove` and `mlist_pop`.
use opsys_17b.Base.{
  ℕ, zero, suc, ◌+◌, ◌≡◌, refl, sym, subst, inl, inr, Bool, false, some, [], ◌∷◌, ◌++◌, arith, ◌==◌,
  length, if◌then◌else◌, ◌<◌, append_assoc, Bool-cases, pos,
}
use opsys_17b.MList.{null, Heap, MList, ◌>>=◌, remove_loop, mlist_remove, mlist_pop}
use opsys_17b.MList.Chain.{Cells, head_or, last_or, Chain, IsMList, Chain-split}
use opsys_17b.MList.Insert.{load_lem}
use opsys_17b.MList.Remove.{remove_node_lem}
use opsys_17b.MList.Walk.{get_node_mid}

module _ (cond : ℕ → Bool) where
  -- The cells that stay.
  unfoldable pub keep : Cells → Cells
  keep [] = []
  keep ((p, v) ∷ xs) = let rest = keep xs in if cond v then rest else (p, v) ∷ rest

  -- The last element that goes, `out` if none does.
  unfoldable pub last_removed : ℕ → Cells → ℕ
  last_removed out [] = out
  last_removed out ((p, v) ∷ xs) = last_removed (if cond v then v else out) xs

  remove_loop_lem :
      (fuel : ℕ) (h : Heap) (l : MList) (front todo : Cells) (out : ℕ)
      → length todo < fuel
      → IsMList h l (front ++ todo)
      → (l' : MList) × (h' : Heap) × (remove_loop cond fuel l (head_or null todo) out h
          ≡ some ((last_removed out todo, l'), h'))
        × IsMList h' l' (front ++ keep todo)
  unfolding remove_loop keep last_removed
  remove_loop_lem zero h l front todo out f is = absurd (omega arith)
  remove_loop_lem (suc fuel) h l front [] out f is = (l, h, refl, is)
  remove_loop_lem (suc fuel) h l front ((p, v) ∷ todo) out f is = elim (Bool-cases (cond v)) [
    | inl hit ↦
        let (l1, h1, run, is1, gone, same) = remove_node_lem h l front p v todo is in
        let (l2, h2, run2, is2) = remove_loop_lem fuel h1 l1 front todo v (omega arith) is1 in
        rw hit (
          l2,
          h2,
          rw (ne, remove_loop)
              (rw (load_lem h p back.0 back.1, ◌>>=◌) (rw hit (rw (run, ◌>>=◌) run2))),
          is2,
        )
    | inr miss ↦
        let is' : IsMList h l ((front ++ (p, v) ∷ []) ++ todo) = rw append_assoc is in
        let (l2, h2, run2, is2) =
          remove_loop_lem fuel h l (front ++ (p, v) ∷ []) todo out (omega arith) is' in
        rw miss (
          l2,
          h2,
          rw (ne, remove_loop) (rw (load_lem h p back.0 back.1, ◌>>=◌) (rw miss run2)),
          rw append_assoc at is2,
        )
  ]
    where
      back : Chain h (last_or null front) ((p, v) ∷ todo) null
      back = (Chain-split h null front ((p, v) ∷ todo) null is.chain).1

      ne : (p == null) ≡ false
      ne = ground (arith, back.0)

  -- `mlist_remove` ends on every list, takes out every element that meets the condition and keeps
  -- the others in order, and returns the element removed last, NULL if none was.
  pub mlist_remove_lem :
      (h : Heap) (l : MList) (xs : Cells)
      → IsMList h l xs
      → (l' : MList) × (h' : Heap) × (mlist_remove cond l h ≡ some ((last_removed null xs, l'), h'))
        × IsMList h' l' (keep xs)
  unfolding mlist_remove
  mlist_remove_lem h l xs is =
      let (l', h', run, is') =
        remove_loop_lem (l.length + 1) h l [] xs null (omega (arith, is.length_lem)) is in
      (
        l',
        h',
        subst
            (λ t.
              remove_loop cond (l.length + 1) l t null h ≡ some ((last_removed null xs, l'), h'))
            (sym is.head_lem) run,
        is',
      )

-- `mlist_pop` at an index of the list returns the element there and takes just its cell out.
pub mlist_pop_lem :
    (h : Heap) (l : MList) (xs : Cells) (p v : ℕ) (ys : Cells)
    → IsMList h l (xs ++ (p, v) ∷ ys)
    → (l' : MList) × (h' : Heap) × (mlist_pop l (pos (length xs)) h ≡ some ((v, l'), h'))
      × IsMList h' l' (xs ++ ys)
unfolding mlist_pop
mlist_pop_lem h l xs p v ys is =
    let (l', h', run, is', gone, same) = remove_node_lem h l xs p v ys is in
    (l', h', rw (get_node_mid h l xs p v ys is, mlist_pop, ◌>>=◌) (rw ne run), is')
  where
    ne : (p == null) ≡ false
    ne = ground (arith, (Chain-split h null xs ((p, v) ∷ ys) null is.chain).1.0)
