-- ===== src/MList/Sort/Laws.antt =====
-- Shared/mlist.c: `sort_nodes`, `mlist_sort` and `mlist_rsort` order the nodes of a list.
use opsys_17b.Base.{
  ℕ, zero, suc, ◌+◌, ◌≡◌, refl, sym, subst, ap, ◌∙◌, ◌<◌, Bool, true, false, some, [], ◌∷◌, arith,
  ◌==◌, ◌||◌, length, length-append,
}
use mathlib.Core.List.{Perm}
use mathlib.Core.List.Perm
use opsys_17b.MList.{Ptr, null, Heap, MList, mlist, ◌>>=◌}
use opsys_17b.MList.Chain.{Cells, occurs, occurs-append, head_or, Distinct, Distinct-split, IsMList}
use opsys_17b.MList.Insert.{load_lem}
use opsys_17b.MList.Sort.{goes_first, split_nodes, merge_nodes, sort_nodes, mlist_sort, mlist_rsort}
use opsys_17b.MList.Sort.Ascending.{IsAscending, merged-IsAscending}
use opsys_17b.MList.Sort.Seg.{Seg, Seg-frame, Seg-of_Chain, not_null}
use opsys_17b.MList.Sort.Split.{Halves, split_nodes_lem}
use opsys_17b.MList.Sort.Merge.{
  Apart, merged, merged-perm, length-merged, occurs-merged, merged-Distinct, merge_nodes_lem,
}

-- The nodes `zs`, in order, are those of `xs`, and the rest of the heap `h` is as it was in `g`.
pub record Sorted (le : ℕ → ℕ → Bool) (h g : Heap) (xs zs : Cells) : Type 0 where
  pub seg : Seg g zs null
  pub perm : Perm zs xs
  pub same_length : length zs ≡ length xs
  pub ascending : IsAscending le zs
  pub same_nodes : (a : Ptr) → occurs a zs ≡ occurs a xs
  pub distinct : Distinct zs
  pub outside : (a : Ptr) → occurs a xs ≡ false → g a ≡ h a

module _ (le : ℕ → ℕ → Bool)
    (trans : (x y z : ℕ) → le x y ≡ true → le y z ≡ true → le x z ≡ true) where
  module _ (cmp : ℕ → ℕ → Bool) (fwd : Bool)
      (first : (x y : ℕ) → goes_first cmp fwd x y ≡ true → le x y ≡ true)
      (second : (x y : ℕ) → goes_first cmp fwd x y ≡ false → le y x ≡ true) where
    abbrev Sorts : ℕ → Heap → Cells → Type 0
    Sorts fuel h xs =
        (zs : Cells) × (g : Heap) × (sort_nodes cmp fwd fuel (head_or null xs) h
          ≡ some (head_or null zs, g))
        × Sorted le h g xs zs

    -- Both halves sorted, one after the other, and then merged.
    module _ (h g : Heap) (whole : Cells) (a b : Ptr) (half : Halves h g whole a b)
        (distinct : Distinct whole) where
      halves-Apart : Distinct half.front × Distinct half.back × Apart half.front half.back
      halves-Apart = Distinct-split half.front half.back (subst Distinct half.parts distinct)

      occurs-whole : (x : Ptr) → occurs x whole ≡ (occurs x half.front || occurs x half.back)
      occurs-whole x = ap (occurs x) half.parts ∙ occurs-append x half.front half.back

      module _ (g1 g2 : Heap) (zs ws : Cells) (sf : Sorted le g g1 half.front zs)
          (sb : Sorted le g1 g2 half.back ws) where
        sorted-Apart : Apart zs ws
        sorted-Apart x i = sf.same_nodes x ∙ halves-Apart.2 x (sym (sb.same_nodes x) ∙ i)

        front_kept : Seg g2 zs null
        front_kept =
            Seg-frame g1 g2 zs null
              (λ x i. sb.outside x (ground (arith, sorted-Apart x, sb.same_nodes x))) sf.seg

        combined :
            (g3 : Heap)
            → Seg g3 (merged cmp fwd zs ws) null
            → ((x : Ptr) → occurs x zs ≡ false → occurs x ws ≡ false → g3 x ≡ g2 x)
            → Sorted le h g3 whole (merged cmp fwd zs ws)
        combined g3 seg outside = record {
          seg = seg;
          perm =
              subst (Perm (merged cmp fwd zs ws)) (sym half.parts)
                (Perm.trans (merged-perm cmp fwd zs ws) (Perm.append sf.perm sb.perm));
          same_length = omega (
            arith,
            length-merged cmp fwd zs ws,
            sf.same_length,
            sb.same_length,
            ap length half.parts,
            length-append half.front half.back,
          );
          ascending =
              merged-IsAscending le trans cmp fwd first second zs ws sf.ascending sb.ascending;
          same_nodes = λ x. ground (
            arith,
            occurs-merged cmp fwd x zs ws,
            sf.same_nodes x,
            sb.same_nodes x,
            occurs-whole x,
          );
          distinct = merged-Distinct cmp fwd zs ws sf.distinct sb.distinct sorted-Apart;
          outside = λ x o.
              let of : occurs x half.front ≡ false = ground (arith, occurs-whole x) in
              let ob : occurs x half.back ≡ false = ground (arith, occurs-whole x) in
              outside x (sf.same_nodes x ∙ of) (sb.same_nodes x ∙ ob)
              ∙ sb.outside x ob
              ∙ sf.outside x of
              ∙ half.outside x o;
        }

        merged_halves :
            (fuel : ℕ)
            → length zs + length ws < fuel
            → (g3 : Heap) × (merge_nodes cmp fwd fuel (head_or null zs) (head_or null ws) g2
                ≡ some (head_or null (merged cmp fwd zs ws), g3))
              × Sorted le h g3 whole (merged cmp fwd zs ws)
        merged_halves fuel f =
            let (g3, run, seg, outside) =
              merge_nodes_lem cmp fwd fuel g2 zs ws f front_kept sb.seg sf.distinct sb.distinct
                sorted-Apart in
            (g3, run, combined g3 seg outside)

    two_or_more :
        (fuel : ℕ) (h : Heap) (p v : ℕ) (c : Ptr × ℕ) (rest : Cells) (a b : Ptr) (g : Heap)
        → Seg h ((p, v) ∷ c ∷ rest) null
        → Distinct ((p, v) ∷ c ∷ rest)
        → suc (length rest) < fuel
        → split_nodes (suc fuel) p h ≡ some ((a, b), g)
        → (half : Halves h g ((p, v) ∷ c ∷ rest) a b) → Sorts fuel g half.front
        → ((g1 : Heap) → Seg g1 half.back null → Sorts fuel g1 half.back)
        → Sorts (suc fuel) h ((p, v) ∷ c ∷ rest)
    unfolding sort_nodes
    two_or_more fuel h p v c rest a b g seg d f run half (zs, g1, run1, sf) sort_back =
        let apart = (halves-Apart h g _ a b half d).2 in
        let back : Seg g1 half.back null =
          Seg-frame g g1 half.back null (λ x i. sf.outside x (apart x i)) half.back_seg in
        let (ws, g2, run2, sb) = sort_back g1 back in
        let (g3, run3, sorted) = merged_halves h g _ a b half d g1 g2 zs ws sf sb (suc fuel) (
          omega (
            arith,
            sf.same_length,
            sb.same_length,
            ap length half.parts,
            length-append half.front half.back,
          )) in
        let halves : split_nodes (suc fuel) p h
            ≡ some ((head_or null half.front, head_or null half.back), g) =
          run ∙ (λ i. some ((half.front_head i, half.back_head i), g)) in
        (
          merged cmp fwd zs ws,
          g3,
          rw (not_null p seg.0, sort_nodes)
              (rw (load_lem h p seg.0 seg.2, ◌>>=◌)
                (rw (not_null c.0 seg.3.0)
                  (rw (halves, ◌>>=◌) (rw (run1, ◌>>=◌) (rw (run2, ◌>>=◌) run3))))),
          sorted,
        )

    Sorted-as_is :
        (h : Heap) (xs : Cells)
        → Seg h xs null
        → Distinct xs
        → IsAscending le xs
        → Sorted le h h xs xs
    Sorted-as_is h xs seg d asc = record {
      seg = seg;
      perm = Perm.rfl;
      same_length = refl;
      ascending = asc;
      same_nodes = λ a. refl;
      distinct = d;
      outside = λ a o. refl;
    }

    pub sort_nodes_lem :
        (fuel : ℕ) (h : Heap) (xs : Cells)
        → length xs < fuel
        → Seg h xs null
        → Distinct xs
        → Sorts fuel h xs
    unfolding sort_nodes
    sort_nodes_lem zero h xs f seg d = absurd (omega arith)
    sort_nodes_lem (suc fuel) h [] f seg d = ([], h, refl, Sorted-as_is h [] tt tt tt)
    sort_nodes_lem (suc fuel) h ((p, v) ∷ []) f seg d =
        let some_p : (p == null) ≡ false = ground (arith, seg.0) in
        (
          (p, v) ∷ [],
          h,
          rw (some_p, sort_nodes) (rw (load_lem h p seg.0 seg.2, ◌>>=◌)),
          Sorted-as_is h ((p, v) ∷ []) seg d (tt, tt),
        )
    sort_nodes_lem (suc fuel) h ((p, v) ∷ c ∷ rest) f seg d =
        let (a, b, g, run, half) = split_nodes_lem h (suc fuel) p v c rest (omega arith) seg d in
        let apart = halves-Apart h g _ a b half d in
        two_or_more fuel h p v c rest a b g seg d (omega arith) run half
          (sort_nodes_lem fuel g half.front (omega (arith, half.front_less)) half.front_seg apart.0)
          (λ g1 back. sort_nodes_lem fuel g1 half.back (omega (arith, half.back_less)) back apart.1)

module _ (cmp : ℕ → ℕ → Bool)
    (trans : (x y z : ℕ) → cmp x y ≡ true → cmp y z ≡ true → cmp x z ≡ true)
    (total : (x y : ℕ) → cmp x y ≡ false → cmp y x ≡ true) (h : Heap) (l : MList) (xs : Cells)
    (is : IsMList h l xs) where
  -- For a comparator that is total and transitive `mlist_sort` ends on every list: from the new
  -- head, by `next`, one comes to the nodes of the list, each once, in the comparator's order, and
  -- no other node of the heap has changed; the list's tail and length stay.
  pub mlist_sort_lem :
      (zs : Cells) × (g : Heap) × (mlist_sort cmp l h
        ≡ some (mlist (head_or null zs) l.tail l.length, g))
      × Sorted cmp h g xs zs
  unfolding mlist_sort goes_first
  mlist_sort_lem =
      let (zs, g, run, sorted) =
        sort_nodes_lem cmp trans cmp true (λ x y e. e) total (l.length + 1) h xs
          (omega (arith, is.length_lem)) (Seg-of_Chain h null xs null is.chain) is.distinct in
      (zs, g, rw is.head_lem (rw (run, mlist_sort, ◌>>=◌)), sorted)

  -- `mlist_rsort` does the same in the opposite order.
  pub mlist_rsort_lem :
      (zs : Cells) × (g : Heap) × (mlist_rsort cmp l h
        ≡ some (mlist (head_or null zs) l.tail l.length, g))
      × Sorted (λ x y. cmp y x) h g xs zs
  unfolding mlist_rsort goes_first
  mlist_rsort_lem =
      let (zs, g, run, sorted) =
        sort_nodes_lem (λ x y. cmp y x) (λ x y z p q. trans z y x q p) cmp false
          (λ x y e. total x y (ground arith)) (λ x y e. ground arith) (l.length + 1) h xs
          (omega (arith, is.length_lem)) (Seg-of_Chain h null xs null is.chain) is.distinct in
      (zs, g, rw is.head_lem (rw (run, mlist_rsort, ◌>>=◌)), sorted)
