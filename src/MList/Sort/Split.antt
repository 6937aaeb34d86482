-- ===== src/MList/Sort/Split.antt =====
-- Shared/mlist.c: `split_nodes` cuts a list of two nodes or more into two parts, neither empty.
use opsys_17b.Base.{
  ℕ, zero, suc, ◌≡◌, refl, sym, subst, ◌<◌, false, some, [], ◌∷◌, ◌++◌, append_assoc, arith, ◌==◌,
  length, length-append,
}
use opsys_17b.MList.{Ptr, null, node, Heap, write, ◌>>=◌}
use opsys_17b.MList.Chain.{
  Cells, occurs, occurs-append, head_or, head_or-append, Distinct, Distinct-split,
}
use opsys_17b.MList.Insert.{load_lem}
use opsys_17b.MList.Sort.{split_loop, split_nodes}
use opsys_17b.MList.Sort.Seg.{
  Seg, Seg-frame, Seg-split, Seg-relink, write_other, set_next_lem, not_null,
}

-- A place in the list behind which there is a node.
abbrev Cut : Heap → Cells → Ptr → Type 0
Cut h whole p =
    (front : Cells) × (v : ℕ) × (c : Ptr × ℕ) × (back : Cells) × (whole
      ≡ front ++ (p, v) ∷ c ∷ back)

list_inj : {c d : Ptr × ℕ} {xs ys : Cells} → c ∷ xs ≡ d ∷ ys → xs ≡ ys
list_inj e = cc

-- While two cells lie ahead of `fast`, one lies ahead of `slow`.
next_cell :
    (mid : Cells) (u w : Ptr × ℕ) (fast : Cells) (c : Ptr × ℕ) (rest : Cells)
    → c ∷ rest ≡ mid ++ u ∷ w ∷ fast
    → (c' : Ptr × ℕ) × (rest' : Cells) × (mid' : Cells) × (rest ≡ c' ∷ rest')
      × (c' ∷ rest' ≡ mid' ++ fast)
next_cell [] u w fast c rest e = (w, fast, w ∷ [], list_inj e, refl)
next_cell (m ∷ []) u w fast c rest e = (u, w ∷ fast, u ∷ w ∷ [], list_inj e, refl)
next_cell (m ∷ n ∷ ms) u w fast c rest e =
    (n, ms ++ u ∷ w ∷ fast, n ∷ (ms ++ u ∷ w ∷ []), list_inj e, rw append_assoc)

module _ (h : Heap) (whole : Cells) (seg : Seg h whole null) where
  Seg-behind :
      (front : Cells) (p v : ℕ) (rest mid fast : Cells)
      → whole ≡ front ++ (p, v) ∷ rest
      → rest ≡ mid ++ fast
      → Seg h fast null
  Seg-behind front p v rest mid fast e k =
      let s : Seg h (front ++ (p, v) ∷ rest) null = rw e at seg in
      let t : Seg h rest null = (Seg-split h front ((p, v) ∷ rest) null s).1.3 in
      let t' : Seg h (mid ++ fast) null = rw k at t in (Seg-split h mid fast null t').1

  Seg-at :
      (front : Cells) (p v : ℕ) (rest : Cells)
      → whole ≡ front ++ (p, v) ∷ rest
      → Seg h ((p, v) ∷ rest) null
  Seg-at front p v rest e =
      let s : Seg h (front ++ (p, v) ∷ rest) null = rw e at seg in
      (Seg-split h front ((p, v) ∷ rest) null s).1

  split_loop_lem :
      (fuel : ℕ) (front : Cells) (p v : ℕ) (c : Ptr × ℕ) (rest mid fast : Cells)
      → length fast < fuel
      → whole ≡ front ++ (p, v) ∷ c ∷ rest
      → c ∷ rest ≡ mid ++ fast
      → (s : Ptr) × (split_loop fuel p (head_or null fast) h ≡ some (s, h)) × Cut h whole s
  unfolding split_loop
  split_loop_lem zero front p v c rest mid fast f e k = absurd (omega arith)
  split_loop_lem (suc fuel) front p v c rest mid [] f e k = (p, refl, (front, v, c, rest, e))
  split_loop_lem (suc zero) front p v c rest mid (x ∷ fast) f e k = absurd (omega arith)
  split_loop_lem (suc (suc fuel)) front p v c rest mid ((a, x) ∷ []) f e k =
      let (ne, q, cell, end) = Seg-behind front p v (c ∷ rest) mid ((a, x) ∷ []) e k in
      let some_a : (a == null) ≡ false = not_null a ne in
      (p, rw (some_a, split_loop) (rw (load_lem h a ne cell, ◌>>=◌)), (front, v, c, rest, e))
  split_loop_lem (suc fuel) front p v c rest mid ((a, x) ∷ (b, y) ∷ fast) f e k =
      let (ne, q, cell, (ne', q', cell', s)) = Seg-behind front p v (c ∷ rest) mid _ e k in
      let (pn, pq, pcell, ps) = Seg-at front p v (c ∷ rest) e in
      let some_a : (a == null) ≡ false = not_null a ne in
      let some_b : (b == null) ≡ false = not_null b ne' in
      let (c', rest', mid', e', k') = next_cell mid (a, x) (b, y) fast c rest k in
      let (s, run, cut) =
        split_loop_lem fuel (front ++ (p, v) ∷ []) c.0 c.1 c' rest' mid' fast (omega arith)
          (rw append_assoc (rw e' at e)) k' in
      (
        s,
        rw (some_a, split_loop)
            (rw (load_lem h a ne cell, ◌>>=◌)
              (rw some_b
                (rw (load_lem h p pn pcell, ◌>>=◌) (rw (load_lem h b ne' cell', ◌>>=◌) run)))),
        cut,
      )

-- What `split_nodes` leaves: two lists in place of one, and the rest of the heap as it was.
pub record Halves (h g : Heap) (whole : Cells) (a b : Ptr) : Type 0 where
  pub front : Cells
  pub back : Cells
  pub parts : whole ≡ front ++ back
  pub front_less : length front < length whole
  pub back_less : length back < length whole
  pub front_head : a ≡ head_or null front
  pub back_head : b ≡ head_or null back
  pub front_seg : Seg g front null
  pub back_seg : Seg g back null
  pub outside : (x : Ptr) → occurs x whole ≡ false → g x ≡ h x

not_last : (a s w : ℕ) (front : Cells) → occurs a (front ++ (s, w) ∷ []) ≡ false → (a == s) ≡ false
not_last a s w front o = ground (arith, occurs-append a front ((s, w) ∷ []))

-- Behind the node `s` the list is cut.
module _ (h : Heap) (front : Cells) (s w : ℕ) (d : Ptr × ℕ) (back : Cells) where
  abbrev whole : Cells
  whole = (front ++ (s, w) ∷ []) ++ d ∷ back

  cut_lem :
      (q : Ptr)
      → h s ≡ some (node q d.0 w)
      → Seg h whole null
      → Distinct whole
      → Halves h (write h s (some (node q null w))) whole (head_or null whole) d.0
  cut_lem q cell seg distinct =
      let (fseg, bseg) = Seg-split h (front ++ (s, w) ∷ []) (d ∷ back) null seg in
      let (fd, bd, apart) = Distinct-split (front ++ (s, w) ∷ []) (d ∷ back) distinct in
      let (fd', sd, apart') = Distinct-split front ((s, w) ∷ []) fd in
      record {
        front = front ++ (s, w) ∷ [];
        back = d ∷ back;
        parts = refl;
        front_less = omega (arith, length-append (front ++ (s, w) ∷ []) (d ∷ back));
        back_less = omega (
          arith,
          length-append (front ++ (s, w) ∷ []) (d ∷ back),
          length-append front ((s, w) ∷ []),
        );
        front_head = rw (head_or-append, head_or-append) (rw head_or-append);
        back_head = refl;
        front_seg = Seg-relink h front s w q d.0 null (apart' s (ground arith)) cell fseg;
        back_seg =
            Seg-frame h _ (d ∷ back) null
              (λ a i. write_other h s a _ (not_last a s w front (apart a i))) bseg;
        outside = λ x o. write_other h s x _ (
            not_last x s w front
              (ground (arith, occurs-append x (front ++ (s, w) ∷ []) (d ∷ back))));
      }

-- `split_nodes` of two nodes or more ends with two lists that are both shorter.
pub split_nodes_lem :
    (h : Heap) (fuel : ℕ) (p v : ℕ) (c : Ptr × ℕ) (rest : Cells)
    → suc (length rest) < fuel
    → Seg h ((p, v) ∷ c ∷ rest) null
    → Distinct ((p, v) ∷ c ∷ rest)
    → (a : Ptr) × (b : Ptr) × (g : Heap) × (split_nodes fuel p h ≡ some ((a, b), g))
      × Halves h g ((p, v) ∷ c ∷ rest) a b
unfolding split_nodes
split_nodes_lem h fuel p v c rest f seg distinct =
    let (s, run, (front, w, d, back, e)) =
      split_loop_lem h ((p, v) ∷ c ∷ rest) seg fuel [] p v c rest [] (c ∷ rest) f refl refl in
    let (ne, q, cell, tail) = Seg-at h ((p, v) ∷ c ∷ rest) seg front s w (d ∷ back) e in
    let some_p : (p == null) ≡ false = not_null p seg.0 in
    let some_c : (c.0 == null) ≡ false = not_null c.0 seg.3.0 in
    let e' : (p, v) ∷ c ∷ rest ≡ (front ++ (s, w) ∷ []) ++ d ∷ back = rw append_assoc e in
    (
      p,
      d.0,
      write h s (some (node q null w)),
      rw (some_p, split_nodes)
          (rw (load_lem h p seg.0 seg.2, ◌>>=◌)
            (rw some_c (
              rw (run, ◌>>=◌)
                (rw (load_lem h s ne cell, ◌>>=◌)
                  (rw (set_next_lem h s q d.0 w null ne cell, ◌>>=◌)))))),
      subst (λ xs. Halves h (write h s (some (node q null w))) xs (head_or null xs) d.0) (sym e')
          (cut_lem h front s w d back q cell (subst (λ xs. Seg h xs null) e' seg)
            (subst Distinct e' distinct)),
    )
