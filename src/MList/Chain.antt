-- ===== src/MList/Chain.antt =====
-- Shared/mlist.c: what it is for the nodes of a heap to form a list, and how a list changes when a
-- node elsewhere or one of its own nodes is written.
use opsys_17b.Base.{
  ℕ, ◌≡◌, refl, ◌∙◌, ◌≢◌, ◌⊎◌, inl, inr, Bool, true, false, ◌||◌, Option, none, some, List, [], ◌∷◌,
  ◌++◌, arith, ◌==◌, length,
}
use mathlib.Core.Bool.{or_assoc}
use opsys_17b.MList.{Ptr, null, Node, node, Heap, write, MList}

-- The address and the element of each node, in order.
abbrev pub Cells : Type 0
Cells = List (Ptr × ℕ)

abbrev pub occurs : Ptr → Cells → Bool
occurs a [] = false
occurs a ((p, _) ∷ xs) = (a == p) || occurs a xs

abbrev pub head_or : Ptr → Cells → Ptr
head_or q [] = q
head_or q ((p, _) ∷ xs) = p

abbrev pub last_or : Ptr → Cells → Ptr
last_or q [] = q
last_or q ((p, _) ∷ xs) = last_or p xs

-- The nodes `xs` hold their elements and lead to one another both ways; the first comes behind
-- `prev` and the last comes before `stop`.
abbrev pub Chain : Heap → Ptr → Cells → Ptr → Type 0
Chain h prev [] stop = Unit {0}
Chain h prev ((p, v) ∷ xs) stop =
    (p ≢ null) × (h p ≡ some (node prev (head_or stop xs) v)) × Chain h p xs stop

abbrev pub Distinct : Cells → Type 0
Distinct [] = Unit {0}
Distinct ((p, _) ∷ xs) = (occurs p xs ≡ false) × Distinct xs

-- A list in the heap that holds the cells `xs`.
pub record IsMList (h : Heap) (l : MList) (xs : Cells) : Type 0 where
  pub chain : Chain h null xs null
  pub head_lem : l.head ≡ head_or null xs
  pub tail_lem : l.tail ≡ last_or null xs
  pub length_lem : l.length ≡ length xs
  pub distinct : Distinct xs

pub occurs-append : (a : Ptr) (xs ys : Cells) → occurs a (xs ++ ys) ≡ (occurs a xs || occurs a ys)
occurs-append a [] ys = refl
occurs-append a (x ∷ xs) ys = rw (occurs-append a xs ys, or_assoc)

pub head_or-append : (q : Ptr) (xs ys : Cells) → head_or q (xs ++ ys) ≡ head_or (head_or q ys) xs
head_or-append q [] ys = refl
head_or-append q (x ∷ xs) ys = refl

pub last_or-append : (q : Ptr) (xs ys : Cells) → last_or q (xs ++ ys) ≡ last_or (last_or q xs) ys
last_or-append q [] ys = refl
last_or-append q (x ∷ xs) ys = last_or-append x.0 xs ys

pub Chain-split :
    (h : Heap) (prev : Ptr) (xs ys : Cells) (stop : Ptr)
    → Chain h prev (xs ++ ys) stop
    → Chain h prev xs (head_or stop ys) × Chain h (last_or prev xs) ys stop
Chain-split h prev [] ys stop c = (tt, c)
Chain-split h prev ((p, v) ∷ xs) ys stop (ne, e, c) =
    let (front, back) = Chain-split h p xs ys stop c in ((ne, rw head_or-append at e, front), back)

pub Chain-join :
    (h : Heap) (prev : Ptr) (xs ys : Cells) (stop : Ptr)
    → Chain h prev xs (head_or stop ys)
    → Chain h (last_or prev xs) ys stop
    → Chain h prev (xs ++ ys) stop
Chain-join h prev [] ys stop front back = back
Chain-join h prev ((p, v) ∷ xs) ys stop (ne, e, c) back =
    (ne, rw head_or-append e, Chain-join h p xs ys stop c back)

-- A chain survives a write elsewhere.
pub Chain-write :
    (h : Heap) (prev : Ptr) (xs : Cells) (stop a : Ptr) (c : Option Node)
    → occurs a xs ≡ false
    → Chain h prev xs stop
    → Chain (write h a c) prev xs stop
unfolding write
Chain-write h prev [] stop a c out t = tt
Chain-write h prev ((p, v) ∷ xs) stop a c out (ne, e, t) =
    (ne, ground arith, Chain-write h p xs stop a c (ground arith) t)

-- A chain survives any change that spares its own nodes.
pub Chain-frame :
    (h g : Heap) (prev : Ptr) (xs : Cells) (stop : Ptr)
    → ((a : Ptr) → occurs a xs ≡ true → g a ≡ h a)
    → Chain h prev xs stop
    → Chain g prev xs stop
Chain-frame h g prev [] stop same t = tt
Chain-frame h g prev ((p, v) ∷ xs) stop same (ne, e, t) =
    (ne, same p (ground arith) ∙ e, Chain-frame h g p xs stop (λ a i. same a (ground arith)) t)

-- A fresh address is not in a chain.
pub occurs_of_none :
    (h : Heap) (a prev : Ptr) (xs : Cells) (stop : Ptr)
    → h a ≡ none
    → Chain h prev xs stop
    → occurs a xs ≡ false
occurs_of_none h a prev [] stop u c = refl
occurs_of_none h a prev ((p, v) ∷ xs) stop u (ne, e, c) =
    ground (arith, occurs_of_none h a p xs stop u c)

pub Distinct-split :
    (xs ys : Cells)
    → Distinct (xs ++ ys)
    → Distinct xs × Distinct ys × ((a : Ptr) → occurs a ys ≡ true → occurs a xs ≡ false)
Distinct-split [] ys d = (tt, d, λ a i. refl)
Distinct-split ((p, v) ∷ xs) ys (out, d) =
    let (dx, dy, apart) = Distinct-split xs ys d in
    (
      (ground (arith, occurs-append p xs ys), dx),
      dy,
      λ a i. ground (arith, apart a, occurs-append p xs ys),
    )

pub Distinct-join :
    (xs ys : Cells)
    → Distinct xs
    → Distinct ys
    → ((a : Ptr) → occurs a ys ≡ true → occurs a xs ≡ false)
    → Distinct (xs ++ ys)
Distinct-join [] ys dx dy apart = dy
Distinct-join ((p, v) ∷ xs) ys (out, dx) dy apart = (
  ground (arith, occurs-append p xs ys, apart p),
  Distinct-join xs ys dx dy (λ a i. ground (arith, apart a)),
)

-- A list is empty, or has a last cell.
pub snoc-cases : (xs : Cells) → (xs ≡ []) ⊎ ((ys : Cells) × (c : Ptr × ℕ) × (xs ≡ ys ++ c ∷ []))
snoc-cases [] = inl refl
snoc-cases (x ∷ xs) = elim (snoc-cases xs) [
  | inl e ↦ inr ([], x, rw e)
  | inr (ys, c, e) ↦ inr (x ∷ ys, c, rw e)
]
