-- ===== src/MList/Insert.antt =====
-- Shared/mlist.c: `insert_after`, `insert_before`, `mlist_append` and `mlist_insert`.
use opsys_17b.Base.{ℕ, ◌+◌, ◌≡◌, ◌≢◌, false, some, [], ◌∷◌, ◌++◌, arith, ◌==◌}
use opsys_17b.MList.{
  Ptr, null, Node, node, Heap, write, MList, mlist, insert_after, load, set_next, set_prev,
}
use opsys_17b.MList.Chain.{Cells, occurs, head_or, last_or, Chain, Chain-join, Chain-write}

pub load_lem : (h : Heap) (p : Ptr) {n : Node} → p ≢ null → h p ≡ some n → load p h ≡ some (n, h)
unfolding load
load_lem h p ne e = ground arith

-- The heap once the node `new` follows `b`, which was the last node behind `xs`.
abbrev pub last_heap : Heap → Cells → (b w new v : ℕ) → Heap
last_heap h xs b w new v =
    write (write (write h new (some (node null null v))) new (some (node b null v))) b
      (some (node (last_or null xs) new w))

-- The same with the node `c` behind `b`, and `zs` behind `c`.
abbrev pub mid_heap : Heap → Cells → (b w new v c u : ℕ) → Cells → Heap
mid_heap h xs b w new v c u zs =
    write
      (write (write (write h new (some (node null c v))) new (some (node b c v))) b
        (some (node (last_or null xs) new w)))
      c (some (node new (head_or null zs) u))

-- `insert_after` behind the last node.
module _ (h : Heap) (xs : Cells) (b w new v : ℕ) (b_ne : b ≢ null) (new_ne : new ≢ null)
    (front : Chain h null xs b) (new_cell : h new ≡ some (node null null v))
    (b_out : occurs b xs ≡ false) (new_out : occurs new xs ≡ false)
    (apart : (b == new) ≡ false) where
  pub insert_after_last :
      (l : MList)
      → h b ≡ some (node (last_or null xs) null w)
      → (l.length == 0) ≡ false
      → insert_after l b new h ≡ some (mlist l.head new (l.length + 1), last_heap h xs b w new v)
  unfolding insert_after set_next set_prev load write
  insert_after_last l eb more = ground arith

  pub last_heap-Chain : Chain (last_heap h xs b w new v) null (xs ++ (b, w) ∷ (new, v) ∷ []) null
  unfolding write
  last_heap-Chain =
      Chain-join (last_heap h xs b w new v) null xs _ null
        (Chain-write _ _ xs b b _ b_out
          (Chain-write _ _ xs b new _ new_out (Chain-write _ _ xs b new _ new_out front)))
        (b_ne, ground arith, (new_ne, ground arith, tt))

  -- `insert_after` with a node `c` behind the base.
  module _ (c u : ℕ) (zs : Cells) (c_ne : c ≢ null) (rest : Chain h c zs null)
      (c_out : occurs c xs ≡ false) (bc : (b == c) ≡ false) (cn : (c == new) ≡ false)
      (b_rest : occurs b zs ≡ false) (c_rest : occurs c zs ≡ false)
      (new_rest : occurs new zs ≡ false) where
    pub insert_after_mid :
        (l : MList)
        → h b ≡ some (node (last_or null xs) c w)
        → h c ≡ some (node b (head_or null zs) u)
        → (l.length == 0) ≡ false
        → insert_after l b new h
          ≡ some (mlist l.head l.tail (l.length + 1), mid_heap h xs b w new v c u zs)
    unfolding insert_after set_next set_prev load write
    insert_after_mid l eb ec more = ground arith

    pub mid_heap-Chain :
        Chain (mid_heap h xs b w new v c u zs) null (xs ++ (b, w) ∷ (new, v) ∷ (c, u) ∷ zs) null
    unfolding write
    mid_heap-Chain =
        Chain-join (mid_heap h xs b w new v c u zs) null xs _ null
          (Chain-write _ _ xs b c _ c_out (
            Chain-write _ _ xs b b _ b_out
              (Chain-write _ _ xs b new _ new_out (Chain-write _ _ xs b new _ new_out front))))
          (
            b_ne,
            ground arith,
            (
              new_ne,
              ground arith,
              (
                c_ne,
                ground arith,
                Chain-write _ _ zs null c _ c_rest (
                    Chain-write _ _ zs null b _ b_rest (
                      Chain-write _ _ zs null new _ new_rest
                        (Chain-write _ _ zs null new _ new_rest rest))),
              ),
            ),
          )
