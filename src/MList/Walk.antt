-- ===== src/MList/Walk.antt =====
-- Shared/mlist.c: `get_node` and the searches reach the node that the list of cells says.
use opsys_17b.Base.{
  ℕ, zero, suc, ◌+◌, ◌-◌, ◌/◌, ◌≡◌, refl, sym, subst, ap, ◌∙◌, inl, inr, true, false, some, [], ◌∷◌,
  ◌++◌, arith, ◌==◌, ltb, leb, length, length-append, ◌<◌, ◌≤◌, ℤ, pos, negsuc, Bool-cases,
}
use opsys_17b.MList.{
  Ptr, null, Heap, MList, ◌>>=◌, forward, backward, get_node, get_elem, mlist_get,
}
use opsys_17b.MList.Chain.{
  Cells, head_or, last_or, Chain, IsMList, Chain-split, snoc-cases, last_or-append,
}
use opsys_17b.MList.Insert.{load_lem}

-- The element at an index, NULL outside the list.
abbrev pub elem_at : Cells → ℕ → ℕ
elem_at [] i = null
elem_at ((p, v) ∷ xs) zero = v
elem_at ((p, v) ∷ xs) (suc i) = elem_at xs i

abbrev pub elem_at_int : Cells → ℤ → ℕ
elem_at_int xs (negsuc i) = null
elem_at_int xs (pos i) = elem_at xs i

forward_lem :
    (h : Heap) (prev : Ptr) (xs : Cells) (p v : ℕ) (ys : Cells)
    → Chain h prev (xs ++ (p, v) ∷ ys) null
    → forward (length xs) (head_or null (xs ++ (p, v) ∷ ys)) h ≡ some (p, h)
unfolding forward
forward_lem h prev [] p v ys c = refl
forward_lem h prev ((q, w) ∷ xs) p v ys c =
    rw (load_lem h q c.0 c.1, forward, ◌>>=◌) (forward_lem h q xs p v ys c.2)

backward_lem :
    (h : Heap) (prev : Ptr) (k : ℕ) (p v : ℕ) (ys : Cells) (stop : Ptr)
    → length ys ≡ k
    → Chain h prev ((p, v) ∷ ys) stop
    → backward k (last_or p ys) h ≡ some (p, h)
unfolding backward
backward_lem h prev zero p v [] stop e c = refl
backward_lem h prev zero p v (y ∷ ys) stop e c = absurd (omega arith)
backward_lem h prev (suc k) p v ys stop e c = elim (snoc-cases ys) [
  | inl n ↦ absurd (omega (arith, e, ap length n))
  | inr (zs, (q, w), s) ↦
      let c' : Chain h prev ((p, v) ∷ (zs ++ (q, w) ∷ [])) stop = rw s at c in
      let (front, back) = Chain-split h prev ((p, v) ∷ zs) ((q, w) ∷ []) stop c' in
      rw s (
        rw (last_or-append p zs ((q, w) ∷ [])) (
          rw (load_lem h q back.0 back.1, backward, ◌>>=◌)
            (backward_lem h prev k p v zs q
              (omega (arith, ap length s, length-append zs ((q, w) ∷ []))) front)))
]

-- A list cut at an index that it has.
cut :
    (cs : Cells) (i : ℕ)
    → i < length cs
    → (xs : Cells) × (p : Ptr) × (v : ℕ) × (ys : Cells) × (cs ≡ xs ++ (p, v) ∷ ys) × (length xs ≡ i)
cut [] i h = absurd (omega arith)
cut ((p, v) ∷ cs) zero h = ([], p, v, cs, refl, refl)
cut (c ∷ cs) (suc i) h =
    let (xs, p, v, ys, e, n) = cut cs i (omega arith) in (c ∷ xs, p, v, ys, rw e, ap suc n)

module _ (h : Heap) (l : MList) where
  pub get_node_mid :
      (xs : Cells) (p v : ℕ) (ys : Cells)
      → IsMList h l (xs ++ (p, v) ∷ ys)
      → get_node l (pos (length xs)) h ≡ some (p, h)
  unfolding get_node
  get_node_mid xs p v ys is = elim (Bool-cases (leb (length xs) (l.length / 2))) [
    | inl near ↦
        rw (inside, get_node)
          (rw (near, get_node)
            (subst (λ t. forward (length xs) t h ≡ some (p, h)) (sym is.head_lem)
              (forward_lem h null xs p v ys is.chain)))
    | inr far ↦
        rw (inside, get_node)
          (rw (far, get_node)
            (rw rest (
              subst (λ t. backward (length ys) t h ≡ some (p, h)) (sym tail)
                (backward_lem h (last_or null xs) (length ys) p v ys null refl
                  (Chain-split h null xs ((p, v) ∷ ys) null is.chain).1))))
  ]
    where
      total : l.length ≡ length xs + suc (length ys)
      total = is.length_lem ∙ length-append xs ((p, v) ∷ ys)

      inside : leb l.length (length xs) ≡ false
      inside = ground (arith, total)

      rest : l.length - 1 - length xs ≡ length ys
      rest = omega (arith, total)

      tail : l.tail ≡ last_or p ys
      tail = is.tail_lem ∙ last_or-append null xs ((p, v) ∷ ys)

  get_node_outside :
      (xs : Cells) (i : ℕ) → IsMList h l xs → length xs ≤ i → get_node l (pos i) h ≡ some (null, h)
  unfolding get_node
  get_node_outside xs i is le =
      let out : leb l.length i ≡ true = ground (arith, is.length_lem) in rw (out, get_node)

elem_at-append : (xs : Cells) (p v : ℕ) (ys : Cells) → elem_at (xs ++ (p, v) ∷ ys) (length xs) ≡ v
elem_at-append [] p v ys = refl
elem_at-append (x ∷ xs) p v ys = elem_at-append xs p v ys

elem_at_outside : (xs : Cells) (i : ℕ) → length xs ≤ i → elem_at xs i ≡ null
elem_at_outside [] i h = refl
elem_at_outside (x ∷ xs) zero h = absurd (omega arith)
elem_at_outside (x ∷ xs) (suc i) h = elem_at_outside xs i (omega arith)

module _ (h : Heap) (l : MList) where
  mlist_get_mid :
      (xs : Cells) (p v : ℕ) (ys : Cells)
      → IsMList h l (xs ++ (p, v) ∷ ys)
      → mlist_get l (pos (length xs)) h ≡ some (v, h)
  unfolding mlist_get get_elem
  mlist_get_mid xs p v ys is =
      let (front, back) = Chain-split h null xs ((p, v) ∷ ys) null is.chain in
      let ne : (p == null) ≡ false = ground (arith, back.0) in
      rw (get_node_mid h l xs p v ys is, mlist_get, ◌>>=◌)
        (rw (ne, get_elem) (rw (load_lem h p back.0 back.1, ◌>>=◌)))

  mlist_get_pos :
      (xs : Cells) (i : ℕ) → IsMList h l xs → mlist_get l (pos i) h ≡ some (elem_at xs i, h)
  unfolding mlist_get get_elem
  mlist_get_pos xs i is = elim (Bool-cases (ltb i (length xs))) [
    | inl lt ↦
        let (as', p, v, ys, e, n) = cut xs i (ground arith) in
        let is' : IsMList h l (as' ++ (p, v) ∷ ys) = rw e at is in
        rw e (rw (← n) (rw elem_at-append (mlist_get_mid as' p v ys is')))
    | inr ge ↦
        rw (get_node_outside h l xs i is (ground arith), mlist_get, ◌>>=◌)
          (rw (elem_at_outside xs i (ground arith)))
  ]

  -- `mlist_get` returns the element at an index of the list, whichever end it walks from, and NULL for
  -- any other index, a negative one too; the heap stays as it is.
  pub mlist_get_lem :
      (xs : Cells) (i : ℤ) → IsMList h l xs → mlist_get l i h ≡ some (elem_at_int xs i, h)
  unfolding mlist_get get_elem get_node
  mlist_get_lem xs (negsuc i) is = refl
  mlist_get_lem xs (pos i) is = mlist_get_pos xs i is
