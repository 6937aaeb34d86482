-- ===== src/MList/Sort/Seg.antt =====
-- Shared/mlist.c: nodes that lead to one another by `next`, whatever their `prev` holds.
use opsys_17b.Base.{◌≡◌, ◌≢◌, ◌∙◌, false, true, Option, some, [], ◌∷◌, ◌++◌, arith, ◌==◌}
use opsys_17b.MList.{Ptr, null, Node, node, Heap, write, set_next, ◌>>=◌}
use opsys_17b.MList.Chain.{Cells, occurs, head_or, Chain, head_or-append}
use opsys_17b.MList.Insert.{load_lem}

abbrev pub Seg : Heap → Cells → Ptr → Type 0
Seg h [] stop = Unit {0}
Seg h ((p, v) ∷ xs) stop =
    (p ≢ null) × (q : Ptr) × (h p ≡ some (node q (head_or stop xs) v)) × Seg h xs stop

pub Seg-of_Chain :
    (h : Heap) (prev : Ptr) (xs : Cells) (stop : Ptr) → Chain h prev xs stop → Seg h xs stop
Seg-of_Chain h prev [] stop c = tt
Seg-of_Chain h prev ((p, v) ∷ xs) stop (ne, e, c) = (ne, prev, e, Seg-of_Chain h p xs stop c)

-- A segment survives a change that spares its nodes.
pub Seg-frame :
    (h g : Heap) (xs : Cells) (stop : Ptr)
    → ((a : Ptr) → occurs a xs ≡ true → g a ≡ h a)
    → Seg h xs stop
    → Seg g xs stop
Seg-frame h g [] stop same s = tt
Seg-frame h g ((p, v) ∷ xs) stop same (ne, q, e, s) =
    (ne, q, same p (ground arith) ∙ e, Seg-frame h g xs stop (λ a i. same a (ground arith)) s)

pub Seg-split :
    (h : Heap) (xs ys : Cells) (stop : Ptr)
    → Seg h (xs ++ ys) stop
    → Seg h xs (head_or stop ys) × Seg h ys stop
Seg-split h [] ys stop s = (tt, s)
Seg-split h ((p, v) ∷ xs) ys stop (ne, q, e, s) =
    let (front, back) = Seg-split h xs ys stop s in ((ne, q, rw head_or-append at e, front), back)

-- `p->next = q` at a node.
pub set_next_lem :
    (h : Heap) (p q next v new : Ptr)
    → p ≢ null
    → h p ≡ some (node q next v)
    → set_next p new h ≡ some (tt, write h p (some (node q new v)))
unfolding set_next
set_next_lem h p q next v new ne e = rw (load_lem h p ne e, ◌>>=◌)

pub write_self : (h : Heap) (p : Ptr) (c : Option Node) → write h p c p ≡ c
unfolding write
write_self h p c = ground arith

pub write_other : (h : Heap) (p a : Ptr) (c : Option Node) → (a == p) ≡ false → write h p c a ≡ h a
unfolding write
write_other h p a c e = rw e

-- An address that occurs in a list is not one that does not.
pub apart_of_occurs :
    (a b : Ptr) (xs : Cells) → occurs a xs ≡ true → occurs b xs ≡ false → (a == b) ≡ false
apart_of_occurs a b [] i o = cc
apart_of_occurs a b ((p, v) ∷ xs) i o = ground (arith, apart_of_occurs a b xs)

-- The node before a chain's end is linked to another end.
pub Seg-relink :
    (h : Heap) (xs : Cells) (p v q old stop : Ptr)
    → occurs p xs ≡ false
    → h p ≡ some (node q old v)
    → Seg h (xs ++ (p, v) ∷ []) old
    → Seg (write h p (some (node q stop v))) (xs ++ (p, v) ∷ []) stop
Seg-relink h [] p v q old stop out e s = (s.0, q, write_self h p _, tt)
Seg-relink h ((r, w) ∷ xs) p v q old stop out e (ne, q', e', s) = (
  ne,
  q',
  rw head_or-append (write_other h p r _ (ground arith) ∙ rw head_or-append at e'),
  Seg-relink h xs p v q old stop (ground arith) e s,
)

pub not_null : (p : Ptr) → p ≢ null → (p == null) ≡ false
not_null p ne = ground arith
