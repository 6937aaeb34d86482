-- ===== src/MList/Remove.antt =====
-- Shared/mlist.c: `remove_node` takes one cell out of a list and frees its node.
use opsys_17b.Base.{
  ℕ, ◌-◌, ◌≡◌, refl, sym, subst, ◌∙◌, ◌≢◌, inl, inr, true, false, Option, none, some, [], ◌∷◌, ◌++◌,
  arith, ◌==◌, length-append, if◌then◌else◌,
}
use opsys_17b.MList.{
  Ptr, null, Node, node, Heap, MList, mlist, ◌>>=◌, write, load, set_next, set_prev, free,
  bypass_prev, bypass_next, remove_node,
}
use opsys_17b.MList.Chain.{
  Cells, occurs, head_or, last_or, Chain, Distinct, IsMList, occurs-append, Chain-split, Chain-join,
  Chain-write, Chain-frame, Distinct-split, Distinct-join, snoc-cases, last_or-append,
  head_or-append,
}
use opsys_17b.MList.Append.{occurs-snoc}
use opsys_17b.MList.Insert.{load_lem}

-- The nodes before `p` come to lead to the node behind it.
abbrev pub Bypassed : Heap → Cells → Ptr → Ptr → Heap → Type 0
Bypassed h xs prev stop g = Chain g prev xs stop × ((a : Ptr) → occurs a xs ≡ false → g a ≡ h a)

bypass_prev_lem :
    (h : Heap) (xs : Cells) (p stop v : ℕ)
    → Chain h null xs p
    → Distinct xs
    → (g : Heap) × (bypass_prev (node (last_or null xs) stop v) h ≡ some (tt, g))
      × Bypassed h xs null stop g
unfolding bypass_prev set_next load write
bypass_prev_lem h xs p stop v c d = elim (snoc-cases xs) [
  | inl e ↦ rw e (h, refl, (tt, λ a o. refl))
  | inr (ys, (q, u), e) ↦
      let c' : Chain h null (ys ++ (q, u) ∷ []) p = rw e at c in
      let d' : Distinct (ys ++ (q, u) ∷ []) = rw e at d in
      let (front, back) = Chain-split h null ys ((q, u) ∷ []) p c' in
      let out : occurs q ys ≡ false = (Distinct-split ys ((q, u) ∷ []) d').2 q (ground arith) in
      let g : Heap = write h q (some (node (last_or null ys) stop u)) in
      rw e (
        rw (last_or-append null ys ((q, u) ∷ [])) (
          g,
          run h q stop v (last_or null ys) p u back.0 back.1,
          (
            Chain-join g null ys ((q, u) ∷ []) stop (Chain-write h null ys q q _ out front)
                (back.0, ground arith, tt),
            λ a o. other h a ys q u (some (node (last_or null ys) stop u)) o,
          ),
        ))
]
  where
    run :
        (h : Heap) (q stop v before p u : ℕ)
        → q ≢ null
        → h q ≡ some (node before p u)
        → bypass_prev (node q stop v) h ≡ some (tt, write h q (some (node before stop u)))
    run h q stop v before p u ne e = ground arith

    other :
        (h : Heap) (a : Ptr) (ys : Cells) (q u : ℕ) (n : Option Node)
        → occurs a (ys ++ (q, u) ∷ []) ≡ false
        → write h q n a ≡ h a
    other h a ys q u n o = let ne : (q == a) ≡ false = (occurs-snoc a ys q u o).1 in ground arith

bypass_next_lem :
    (h : Heap) (p prev v : ℕ) (ys : Cells)
    → Chain h p ys null
    → Distinct ys
    → (g : Heap) × (bypass_next (node prev (head_or null ys) v) h ≡ some (tt, g))
      × Bypassed h ys prev null g
unfolding bypass_next set_prev load write
bypass_next_lem h p prev v [] c d = (h, refl, (tt, λ a o. refl))
bypass_next_lem h p prev v ((q, u) ∷ ys) c d = (
  write h q (some (node prev (head_or null ys) u)),
  ground arith,
  ((c.0, ground arith, Chain-write h q ys null q _ d.0 c.2), λ a o. ground arith),
)

last_or_ne : (p q u : ℕ) (ys : Cells) → occurs p ((q, u) ∷ ys) ≡ false → (p == last_or q ys) ≡ false
last_or_ne p q u [] o = ground arith
last_or_ne p q u ((r, w) ∷ ys) o = last_or_ne p r w ys (ground arith)

-- `list->head` and `list->tail` after the cell between `xs` and `ys` is gone.
head_or_removed :
    (p : Ptr) (xs ys : Cells)
    → occurs p xs ≡ false
    → (if p == head_or p xs then head_or null ys else head_or p xs) ≡ head_or null (xs ++ ys)
head_or_removed p [] ys o = ground arith
head_or_removed p (x ∷ xs) ys o = ground arith

last_or_removed :
    (p : Ptr) (before : Ptr) (ys : Cells)
    → occurs p ys ≡ false
    → (if p == last_or p ys then before else last_or p ys) ≡ last_or before ys
last_or_removed p before [] o = ground arith
last_or_removed p before ((q, u) ∷ ys) o = rw (last_or_ne p q u ys o)

free_lem :
    (h : Heap) (p : Ptr) {n : Node} → p ≢ null → h p ≡ some n → free p h ≡ some (tt, write h p none)
unfolding free
free_lem h p ne e = rw (load_lem h p ne e, free, ◌>>=◌)

freed : (h : Heap) (p : Ptr) → write h p none p ≡ none
unfolding write
freed h p = ground arith

write_other : (h : Heap) (p a : Ptr) → (p == a) ≡ false → write h p none a ≡ h a
unfolding write
write_other h p a ne = ground arith

module _ (h : Heap) (l : MList) (xs : Cells) (p v : ℕ) (ys : Cells)
    (is : IsMList h l (xs ++ (p, v) ∷ ys)) where
  -- `remove_node` of a node in the list returns its element, takes just this cell out, links its
  -- neighbours, and frees the node; no node outside the list changes.
  pub remove_node_lem :
      (l' : MList) × (h' : Heap) × (remove_node l p h ≡ some ((v, l'), h'))
      × IsMList h' l' (xs ++ ys)
      × (h' p ≡ none)
      × ((a : Ptr) → occurs a (xs ++ (p, v) ∷ ys) ≡ false → h' a ≡ h a)
  unfolding remove_node
  remove_node_lem =
      let (front, back) = Chain-split h null xs ((p, v) ∷ ys) null is.chain in
      let (dx, (p_ys, dy), apart) = Distinct-split xs ((p, v) ∷ ys) is.distinct in
      let p_xs : occurs p xs ≡ false = apart p (ground arith) in
      let (g, run1, (cg, same_g)) = bypass_prev_lem h xs p (head_or null ys) v front dx in
      let rest : Chain g p ys null =
        Chain-frame h g p ys null (λ a i. same_g a (apart a (ground arith))) back.2 in
      let (k, run2, (ck, same_k)) = bypass_next_lem g p (last_or null xs) v ys rest dy in
      let kp : k p ≡ some (node (last_or null xs) (head_or null ys) v) =
        same_k p p_ys ∙ (same_g p p_xs ∙ back.1) in
      let ck_xs : Chain k null xs (head_or null ys) =
        Chain-frame g k null xs (head_or null ys) (λ a i. same_k a (separate a (λ j. apart a j) i))
          cg in
      (
        mlist (if p == l.head then head_or null ys else l.head)
            (if p == l.tail then last_or null xs else l.tail) (l.length - 1),
        write k p none,
        rw (load_lem h p back.0 back.1, remove_node, ◌>>=◌)
            (rw (run1, ◌>>=◌) (rw (run2, ◌>>=◌) (rw (free_lem k p back.0 kp, ◌>>=◌)))),
        record {
          chain =
              Chain-join (write k p none) null xs ys null
                (Chain-write k null xs (head_or null ys) p none p_xs ck_xs)
                (Chain-write k (last_or null xs) ys null p none p_ys ck);
          head_lem =
              subst (λ t. (if p == t then head_or null ys else t) ≡ head_or null (xs ++ ys))
                (sym hd) (head_or_removed p xs ys p_xs);
          tail_lem =
              subst (λ t. (if p == t then last_or null xs else t) ≡ last_or null (xs ++ ys))
                (sym tl)
                (last_or_removed p (last_or null xs) ys p_ys ∙ sym (last_or-append null xs ys));
          length_lem =
              omega (arith, is.length_lem, length-append xs ((p, v) ∷ ys), length-append xs ys);
          distinct = Distinct-join xs ys dx dy (λ a i. apart a (ground arith));
        },
        freed k p,
        λ a o.
            let (a_xs, a_rest) = outside a o in
            write_other k p a (ground arith) ∙ (same_k a (ground arith) ∙ same_g a a_xs),
      )
    where
      hd : l.head ≡ head_or p xs
      hd = is.head_lem ∙ head_or-append null xs ((p, v) ∷ ys)

      tl : l.tail ≡ last_or p ys
      tl = is.tail_lem ∙ last_or-append null xs ((p, v) ∷ ys)

      separate :
          (a : Ptr)
          → (occurs a ((p, v) ∷ ys) ≡ true → occurs a xs ≡ false)
          → occurs a xs ≡ true
          → occurs a ys ≡ false
      separate a f i = ground (arith, f)

      outside :
          (a : Ptr)
          → occurs a (xs ++ (p, v) ∷ ys) ≡ false
          → (occurs a xs ≡ false) × (occurs a ((p, v) ∷ ys) ≡ false)
      outside a o = ground (arith, occurs-append a xs ((p, v) ∷ ys))
