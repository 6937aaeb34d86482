-- ===== src/MList/Tests.antt =====
-- Shared/mlist.c: the theorems at a list of two nodes, and runs of the code.
use opsys_17b.Base.{
  ℕ, ◌≡◌, refl, Bool, false, none, some, [], ◌∷◌, arith, ◌==◌, leb, if◌then◌else◌, pos,
}
use opsys_17b.MList.{
  Ptr, null, node, Heap, MList, mlist, mlist_append, mlist_get, remove_node, mlist_remove,
}
use opsys_17b.MList.Chain.{Cells, IsMList, occurs, head_or}
use opsys_17b.MList.Append.{SameOutside, mlist_append_lem}
use opsys_17b.MList.Remove.{remove_node_lem}
use opsys_17b.MList.RemoveAll.{keep, last_removed, mlist_remove_lem}
use opsys_17b.MList.Walk.{mlist_get_lem}
use opsys_17b.MList.Sort.{mlist_sort}
use opsys_17b.MList.Sort.Laws.{Sorted, mlist_sort_lem}
use opsys_17b.MList.Traverse.{mlist_reverse, mlist_clear}
use opsys_17b.MList.Traverse.Laws.{Unused}
use opsys_17b.MList.Traverse.Copies.{Copies, mlist_reverse_lem}
use opsys_17b.MList.Traverse.Ends.{Frees, mlist_clear_lem}

abbrev two_heap : Heap
two_heap a = if a == 10 then some (node 0 20 7) else if a == 20 then some (node 10 0 8) else none

abbrev two_list : MList
two_list = mlist 10 20 2

abbrev two_cells : Cells
two_cells = (10, 7) ∷ (20, 8) ∷ []

abbrev is_eight : ℕ → Bool
is_eight v = v == 8

two_list-IsMList : IsMList two_heap two_list two_cells
two_list-IsMList = record {
  chain = (omega arith, refl, (omega arith, refl, tt));
  head_lem = refl;
  tail_lem = refl;
  length_lem = refl;
  distinct = (refl, (refl, tt));
}

mlist_append_lem_example :
    (l' : MList) × (h' : Heap) × (mlist_append 30 two_list 9 two_heap ≡ some (l', h'))
    × IsMList h' l' ((10, 7) ∷ (20, 8) ∷ (30, 9) ∷ [])
    × SameOutside two_heap h' (30, 9) two_cells
mlist_append_lem_example =
    mlist_append_lem two_heap two_list 30 9 (omega arith) refl two_cells two_list-IsMList

remove_node_lem_example :
    (l' : MList) × (h' : Heap) × (remove_node two_list 10 two_heap ≡ some ((7, l'), h'))
    × IsMList h' l' ((20, 8) ∷ [])
    × (h' 10 ≡ none)
    × ((a : Ptr) → occurs a two_cells ≡ false → h' a ≡ two_heap a)
remove_node_lem_example = remove_node_lem two_heap two_list [] 10 7 ((20, 8) ∷ []) two_list-IsMList

mlist_remove_lem_example :
    (l' : MList) × (h' : Heap) × (mlist_remove is_eight two_list two_heap ≡ some ((8, l'), h'))
    × IsMList h' l' ((10, 7) ∷ [])
unfolding keep last_removed
mlist_remove_lem_example = mlist_remove_lem is_eight two_heap two_list two_cells two_list-IsMList

mlist_get_lem_example : mlist_get two_list (pos 1) two_heap ≡ some (8, two_heap)
mlist_get_lem_example = mlist_get_lem two_heap two_list two_cells (pos 1) two_list-IsMList

-- The greater element stands first.
abbrev descending : ℕ → ℕ → Bool
descending x y = leb y x

mlist_sort_lem_example :
    (zs : Cells) × (g : Heap) × (mlist_sort descending two_list two_heap
      ≡ some (mlist (head_or null zs) 20 2, g))
    × Sorted descending two_heap g two_cells zs
mlist_sort_lem_example =
    mlist_sort_lem descending (λ x y z p q. ground arith) (λ x y p. ground arith) two_heap two_list
      two_cells two_list-IsMList

two_free : Unused two_heap (30 ∷ 40 ∷ [])
two_free = (omega arith, refl, (refl, tt), (omega arith, refl, tt, tt))

mlist_reverse_lem_example :
    Copies two_heap two_list two_cells
      (30 ∷ 40 ∷ [])
      two_list-IsMList
      two_free
      (omega arith)
      (8 ∷ 7 ∷ [])
      (mlist_reverse (30 ∷ 40 ∷ []) two_list two_heap)
mlist_reverse_lem_example =
    mlist_reverse_lem two_heap two_list two_cells (30 ∷ 40 ∷ []) two_list-IsMList two_free
      (omega arith)

mlist_clear_lem_example :
    (g : Heap) × (mlist_clear two_list two_heap ≡ some (mlist null null 0, g))
    × Frees two_heap two_cells g
mlist_clear_lem_example = mlist_clear_lem two_heap two_list two_cells two_list-IsMList
