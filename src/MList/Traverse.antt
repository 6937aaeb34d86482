-- ===== src/MList/Traverse.antt =====
-- Shared/mlist.c: `traverse_nodes`, and the operations that go over a list by it: `mlist_extend`,
-- `mlist_reverse`, `mlist_count`, `mlist_filter`, `mlist_map` and `mlist_clear`. What a routine
-- changes outside the heap is the state that the traversal hands on. For those that append, it is the
-- list that grows with the addresses that `malloc` will return; when none is left they fault. Each
-- traversal is on fuel.
pub mod Laws
pub mod Copies
pub mod Ends
use opsys_17b.Base.{
  ℕ, zero, suc, ◌+◌, Bool, true, false, Option, none, some, List, [], ◌∷◌, ◌==◌, if◌then◌else◌,
}
use opsys_17b.MList.{
  Ptr, null, MList, mlist, M, fault, ◌>>=◌, pure, load, free, mlist_create, mlist_append,
}

module _ {S : Type 0} (node_fn : S → Ptr → M S) (elem_fn : S → ℕ → M S) (cond : ℕ → Bool)
    (reversed : Bool) where
  unfoldable pub traverse_nodes : ℕ → Ptr → S → M S
  traverse_nodes zero p s = fault
  traverse_nodes (suc fuel) p s = if p == null then pure s else do
    n ← load p
    s' ← (if cond n.elem then elem_fn s n.elem >>= (λ t. node_fn t p) else pure s)
    traverse_nodes fuel (if reversed then n.prev else n.next) s'

-- The addresses that `malloc` will return, and the list under construction.
pub record Growing : Type 0 where
  pub unused : List Ptr
  pub list : MList

abbrev pub growing : List Ptr → MList → Growing
growing as' l = record { unused = as'; list = l }

-- `mlist_append` to the list under construction.
unfoldable pub append_to : Growing → ℕ → M Growing
append_to g e = elim g.unused [
  | [] ↦ fault
  | a ∷ as' ↦ mlist_append a g.list e >>= λ l. pure (growing as' l)
]

-- A node or an element for which there is no routine.
abbrev pub skip {κ} : {S : Type 0} {A : Type κ} → S → A → M S
skip s a = pure s

abbrev pub every : ℕ → Bool
every e = true

unfoldable pub mlist_traverse : {S : Type 0} → (S → ℕ → M S) → MList → S → M S
mlist_traverse routine l s = traverse_nodes skip routine every false (l.length + 1) l.head s

unfoldable pub mlist_extend : List Ptr → MList → (other : MList) → M Growing
mlist_extend mem l other = mlist_traverse append_to other (growing mem l)

unfoldable pub mlist_reverse : List Ptr → MList → M Growing
mlist_reverse mem l =
    traverse_nodes skip append_to every true (l.length + 1) l.tail (growing mem mlist_create)

unfoldable pub mlist_count : (ℕ → Bool) → MList → M ℕ
mlist_count condition l =
    traverse_nodes (λ count p. pure (if p == null then count else count + 1)) skip condition false
      (l.length + 1) l.head 0

unfoldable pub mlist_filter : (ℕ → Bool) → List Ptr → MList → M Growing
mlist_filter filter mem l =
    mlist_traverse (λ g e. if filter e then append_to g e else pure g) l (growing mem mlist_create)

unfoldable pub mlist_map : (ℕ → ℕ) → List Ptr → MList → M Growing
mlist_map mapper mem l = mlist_traverse (λ g e. append_to g (mapper e)) l (growing mem mlist_create)

-- `mlist_clear` with a destroyer that frees nothing of the list; the node goes after its element.
unfoldable pub mlist_clear : MList → M MList
mlist_clear l = do
  t ← traverse_nodes (λ s p. free p) skip every false (l.length + 1) l.head tt
  pure (mlist null null 0)
