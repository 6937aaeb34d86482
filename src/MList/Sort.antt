-- ===== src/MList/Sort.antt =====
-- Shared/mlist.c: `split_nodes`, `merge_nodes`, `sort_nodes`, `mlist_sort` and `mlist_rsort`. They
-- follow and write the field `next` alone; `prev` and the list's `tail` stay as they were. The loop
-- and the recursions are on fuel. The comparator is a parameter.
pub mod Seg
pub mod Split
pub mod Merge
pub mod Ascending
pub mod Laws
use opsys_17b.Base.{ℕ, zero, suc, ◌+◌, Bool, true, false, not, ◌==◌, if◌then◌else◌}
use opsys_17b.MList.{Ptr, null, MList, mlist, M, fault, ◌>>=◌, ◌>>◌, pure, load, set_next}

-- `slow` makes one step for two of `fast`.
unfoldable pub split_loop : ℕ → (slow fast : Ptr) → M Ptr
split_loop zero slow fast = fault
split_loop (suc fuel) slow fast = if fast == null then pure slow else do
  f ← load fast
  if f.next == null
      then split_loop fuel slow f.next
      else do s ← load slow; g ← load f.next; split_loop fuel s.next g.next

-- `split_nodes`: the front and the back.
unfoldable pub split_nodes : ℕ → Ptr → M (Ptr × Ptr)
split_nodes fuel source = if source == null then pure (source, null) else do
  n ← load source
  if n.next == null then pure (source, null) else do
    slow ← split_loop fuel source n.next
    s ← load slow
    set_next slow null
    pure (source, s.next)

module _ (cmp : ℕ → ℕ → Bool) (fwd : Bool) where
  -- `(fwd && cmp(a, b)) || (!fwd && !cmp(a, b))`
  unfoldable pub goes_first : ℕ → ℕ → Bool
  goes_first x y = if fwd then cmp x y else not (cmp x y)

  unfoldable pub merge_nodes : ℕ → (a b : Ptr) → M Ptr
  merge_nodes zero a b = fault
  merge_nodes (suc fuel) a b = if a == null then pure b else if b == null then pure a else do
    m ← load a
    n ← load b
    if goes_first m.elem n.elem
        then (do r ← merge_nodes fuel m.next b; set_next a r; pure a)
        else (do r ← merge_nodes fuel a n.next; set_next b r; pure b)

  -- `sort_nodes`: what it leaves in `*nodes`.
  unfoldable pub sort_nodes : ℕ → Ptr → M Ptr
  sort_nodes zero head = fault
  sort_nodes (suc fuel) head = if head == null then pure head else do
    n ← load head
    if n.next == null then pure head else do
      (a, b) ← split_nodes (suc fuel) head
      a' ← sort_nodes fuel a
      b' ← sort_nodes fuel b
      merge_nodes (suc fuel) a' b'

unfoldable pub mlist_sort : (ℕ → ℕ → Bool) → MList → M MList
mlist_sort cmp l = sort_nodes cmp true (l.length + 1) l.head >>= λ p. pure (mlist p l.tail l.length)

unfoldable pub mlist_rsort : (ℕ → ℕ → Bool) → MList → M MList
mlist_rsort cmp l =
    sort_nodes cmp false (l.length + 1) l.head >>= λ p. pure (mlist p l.tail l.length)
