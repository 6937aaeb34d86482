-- ===== src/Jobs/Primero.antt =====
-- YAMA/src/funcionesYAMA.c and YAMA/src/server.c: a list is sorted, and its first element is taken.
use opsys_17b.Base.{
  ℕ, suc, ◌+◌, ◌≡◌, refl, ap, ◌<◌, Bool, true, false, some, List, [], ◌∷◌, map, arith, ◌==◌, length,
  All,
}
use mathlib.Core.Path.{fun_ext}
use mathlib.Core.Logic.Or
use mathlib.Core.List.Perm
use mathlib.Core.List.{Perm, Mem, not-mem-nil, mem-cons, mem-cons_self}
use opsys_17b.MList.{Ptr, null, Heap, MList, mlist, M, ◌>>=◌, pure, mlist_first}
use opsys_17b.MList.Chain.{Cells, head_or, IsMList}
use opsys_17b.MList.Insert.{load_lem}
use opsys_17b.MList.Sort.{mlist_sort}
use opsys_17b.MList.Sort.Laws.{Sorted, mlist_sort_lem}
use opsys_17b.MList.Traverse.{mlist_clear}
use opsys_17b.MList.Traverse.Laws.{elems}
use opsys_17b.MList.Traverse.Ends.{clear_loop_lem}
use opsys_17b.Jobs.{le32}

-- `mlist_sort` and `mlist_first`: the element, and the list as it is now.
unfoldable pub first_sorted : (ℕ → ℕ → Bool) → MList → M (ℕ × MList)
first_sorted cmp l = do s ← mlist_sort cmp l; v ← mlist_first s; pure (v, s)

-- An element of the list that stands before all the others.
abbrev pub IsFirst : (ℕ → ℕ → Bool) → ℕ → Cells → Type 0
IsFirst cmp v xs = (p : Ptr) × (zs : Cells) × Perm ((p, v) ∷ zs) xs × All (λ c. cmp v c.1 ≡ true) zs

module _ (cmp : ℕ → ℕ → Bool)
    (trans : (x y z : ℕ) → cmp x y ≡ true → cmp y z ≡ true → cmp x z ≡ true)
    (total : (x y : ℕ) → cmp x y ≡ false → cmp y x ≡ true) where
  IsFirst-of_Sorted :
      (h g : Heap) (l : MList) (xs zs : Cells)
      → IsMList h l xs
      → 0 < length xs
      → Sorted cmp h g xs zs
      → (v : ℕ) × (mlist_first (mlist (head_or null zs) l.tail l.length) g ≡ some (v, g))
        × IsFirst cmp v xs
  unfolding mlist_first
  IsFirst-of_Sorted h g l xs [] is some_x s = absurd (omega (arith, s.same_length))
  IsFirst-of_Sorted h g l xs ((p, v) ∷ zs) is some_x s =
      let more : (l.length == 0) ≡ false = ground (arith, is.length_lem) in
      let (ne, q, cell, rest) = s.seg in
      (v, rw (more, mlist_first) (rw (load_lem g p ne cell, ◌>>=◌)), (p, zs, s.perm, s.ascending.0))

  pub first_sorted_lem :
      (h : Heap) (l : MList) (xs : Cells)
      → IsMList h l xs
      → 0 < length xs
      → (v : ℕ) × (zs : Cells) × (g : Heap) × (first_sorted cmp l h
          ≡ some ((v, mlist (head_or null zs) l.tail l.length), g))
        × IsFirst cmp v xs
        × Sorted cmp h g xs zs
  unfolding first_sorted
  first_sorted_lem h l xs is some_x =
      let (zs, g, run, sorted) = mlist_sort_lem cmp trans total h l xs is in
      let (v, first, holds) = IsFirst-of_Sorted h g l xs zs is some_x sorted in
      (v, zs, g, rw (run, ◌>>=◌) (rw (first, ◌>>=◌)), holds, sorted)

  -- Freeing what the sort has left.
  pub clear-Sorted :
      (h g : Heap) (l : MList) (xs zs : Cells)
      → IsMList h l xs
      → Sorted cmp h g xs zs
      → (g' : Heap) × (mlist_clear (mlist (head_or null zs) l.tail l.length) g
          ≡ some (mlist null null 0, g'))
  unfolding mlist_clear
  clear-Sorted h g l xs zs is s =
      let (g', run, frees) =
        clear_loop_lem (l.length + 1) g zs (omega (arith, is.length_lem, s.same_length)) s.seg
          s.distinct in
      (g', rw (run, ◌>>=◌))

pub elems-length : (xs ys : Cells) (f : ℕ → ℕ) → elems ys ≡ map f (elems xs) → length ys ≡ length xs
elems-length [] [] f e = refl
elems-length [] (y ∷ ys) f e = absurd (ground (arith, e))
elems-length (x ∷ xs) [] f e = absurd (ground (arith, e))
elems-length (x ∷ xs) (y ∷ ys) f e = ap suc (elems-length xs ys f (tails e))
  where
    tails : {a b : ℕ} {as' bs : List ℕ} → a ∷ as' ≡ b ∷ bs → as' ≡ bs
    tails t = cc

pub le32_trans :
    (f : ℕ → ℕ) (x y z : ℕ)
    → le32 (f x) (f y) ≡ true
    → le32 (f y) (f z) ≡ true
    → le32 (f x) (f z) ≡ true
le32_trans f x y z p q = ground arith

pub le32_total : (f : ℕ → ℕ) (x y : ℕ) → le32 (f x) (f y) ≡ false → le32 (f y) (f x) ≡ true
le32_total f x y p = ground arith

All-elems : (P : ℕ → Type 0) (xs : Cells) → All P (elems xs) → All (λ c. P c.1) xs
All-elems P [] a = tt
All-elems P (x ∷ xs) a = (a.0, All-elems P xs a.1)

All-mem : (Q : ℕ → Type 0) (xs : Cells) (c : Ptr × ℕ) → All (λ c. ¬ Q c.1) xs → Mem c xs → ¬ Q c.1
All-mem Q [] c a m = absurd (not-mem-nil m)
All-mem Q (x ∷ xs) c a m =
    Or.elim (λ p q. fun_ext (λ r. absurd (p r))) (mem-cons.0 m) (λ e. rw e a.0) (All-mem Q xs c a.1)

-- The first element is one of the list.
pub IsFirst-mem :
    (Q : ℕ → Type 0) (cmp : ℕ → ℕ → Bool) (v : ℕ) (xs : Cells)
    → IsFirst cmp v xs
    → All (λ w. ¬ Q w) (elems xs)
    → ¬ Q v
IsFirst-mem Q cmp v xs (p, zs, perm, least) a =
    All-mem Q xs (p, v) (All-elems (λ w. ¬ Q w) xs a) ((Perm.mem_iff perm).0 mem-cons_self)
