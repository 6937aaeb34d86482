-- ===== src/MList/Append.antt =====
-- Shared/mlist.c: `mlist_append` adds one cell at the end.
use opsys_17b.Base.{
  ℕ, ◌+◌, ◌≡◌, refl, sym, subst, ◌∙◌, ap, ◌≢◌, inl, inr, false, none, some, [], ◌∷◌, ◌++◌, arith,
  ◌==◌, length, length-append, append_assoc,
}
use opsys_17b.MList.{
  Ptr, null, node, Heap, write, MList, mlist, insert_after, create_node, mlist_append,
}
use opsys_17b.MList.Insert.{insert_after_last, last_heap, last_heap-Chain}
use opsys_17b.MList.Chain.{
  Cells, occurs, head_or, last_or, Chain, Distinct, IsMList, Chain-split, Chain-write,
  occurs_of_none, Distinct-split, Distinct-join, snoc-cases, last_or-append,
}

-- What a call that adds the cell `c` outside the cells `xs` leaves as it was.
abbrev pub SameOutside : Heap → Heap → Ptr × ℕ → Cells → Type 0
SameOutside h g (p, v) xs = (a : Ptr) → occurs a xs ≡ false → (a == p) ≡ false → g a ≡ h a

length_snoc : (ys : Cells) (c : Ptr × ℕ) → (length (ys ++ c ∷ []) == 0) ≡ false
length_snoc ys c = ground (arith, length-append ys (c ∷ []))

Distinct-snoc :
    (xs : Cells) (p v : ℕ) → Distinct xs → occurs p xs ≡ false → Distinct (xs ++ (p, v) ∷ [])
Distinct-snoc xs p v d out = Distinct-join xs ((p, v) ∷ []) d (refl, tt) (λ a i. ground arith)

pub occurs-snoc :
    (a : Ptr) (ys : Cells) (b w : ℕ)
    → occurs a (ys ++ (b, w) ∷ []) ≡ false
    → (occurs a ys ≡ false) × ((b == a) ≡ false)
occurs-snoc a [] b w h = ground arith
occurs-snoc a (y ∷ ys) b w h = ground (arith, occurs-snoc a ys b w)

head_or_same :
    (q : Ptr) (ys : Cells) (c : Ptr × ℕ) (zs : Cells)
    → head_or q (ys ++ c ∷ []) ≡ head_or q ((ys ++ c ∷ []) ++ zs)
head_or_same q [] c zs = refl
head_or_same q (y ∷ ys) c zs = refl

module _ (h : Heap) (l : MList) (new v : ℕ) (new_ne : new ≢ null) (unused : h new ≡ none) where
  append-nil_case :
      (xs : Cells)
      → xs ≡ []
      → IsMList h l xs
      → (l' : MList) × (h' : Heap) × (mlist_append new l v h ≡ some (l', h'))
        × IsMList h' l' ((new, v) ∷ [])
        × SameOutside h h' (new, v) []
  unfolding mlist_append create_node insert_after write
  append-nil_case xs e is = (
    mlist new new (l.length + 1),
    write h new (some (node null null v)),
    ground (arith, empty),
    record {
      chain = (new_ne, ground arith, tt);
      head_lem = refl;
      tail_lem = refl;
      length_lem = omega (arith, empty);
      distinct = (refl, tt);
    },
    λ a o ne. ground arith,
  )
    where
      empty : l.length ≡ 0
      empty = is.length_lem ∙ ap length e

  append-snoc_case :
      (ys : Cells) (b w : ℕ)
      → IsMList h l (ys ++ (b, w) ∷ [])
      → (l' : MList) × (h' : Heap) × (mlist_append new l v h ≡ some (l', h'))
        × IsMList h' l' ((ys ++ (b, w) ∷ []) ++ (new, v) ∷ [])
        × SameOutside h h' (new, v) (ys ++ (b, w) ∷ [])
  unfolding mlist_append create_node write
  append-snoc_case ys b w is = (
    mlist l.head new (l.length + 1),
    last_heap h0 ys b w new v,
    subst
        (λ t.
          insert_after l t new h0
          ≡ some (mlist l.head new (l.length + 1), last_heap h0 ys b w new v))
        (sym tail)
        (insert_after_last h0 ys b w new v b_ne new_ne parts.0 cell b_out n_out bn l eb
          (rw is.length_lem (length_snoc ys (b, w)))),
    record {
      chain =
          rw append_assoc (last_heap-Chain h0 ys b w new v b_ne new_ne parts.0 cell b_out n_out bn);
      head_lem = is.head_lem ∙ head_or_same null ys (b, w) ((new, v) ∷ []);
      tail_lem = sym (last_or-append null (ys ++ (b, w) ∷ []) ((new, v) ∷ []));
      length_lem = omega (arith, is.length_lem, length-append (ys ++ (b, w) ∷ []) ((new, v) ∷ []));
      distinct = Distinct-snoc (ys ++ (b, w) ∷ []) new v is.distinct out;
    },
    same,
  )
    where
      h0 : Heap
      h0 = write h new (some (node null null v))

      out : occurs new (ys ++ (b, w) ∷ []) ≡ false
      out = occurs_of_none h new null (ys ++ (b, w) ∷ []) null unused is.chain

      parts : Chain h0 null ys b × Chain h0 (last_or null ys) ((b, w) ∷ []) null
      parts =
          Chain-split h0 null ys ((b, w) ∷ []) null
            (Chain-write h null (ys ++ (b, w) ∷ []) null new _ out is.chain)

      b_out : occurs b ys ≡ false
      b_out = (Distinct-split ys ((b, w) ∷ []) is.distinct).2 b (ground arith)

      cell : h0 new ≡ some (node null null v)
      cell = ground arith

      b_ne : b ≢ null
      b_ne = parts.1.0

      eb : h0 b ≡ some (node (last_or null ys) null w)
      eb = parts.1.1

      bn : (b == new) ≡ false
      bn = (occurs-snoc new ys b w out).1

      n_out : occurs new ys ≡ false
      n_out = (occurs-snoc new ys b w out).0

      same : SameOutside h (last_heap h0 ys b w new v) (new, v) (ys ++ (b, w) ∷ [])
      same a o ne = let ne_b : (b == a) ≡ false = (occurs-snoc a ys b w o).1 in ground arith

      tail : l.tail ≡ b
      tail = is.tail_lem ∙ last_or-append null ys ((b, w) ∷ [])

  -- Appending to a list of distinct nodes, with a fresh node: the call succeeds, the list holds the
  -- old cells followed by the new one, linked both ways, and no other node changes.
  pub mlist_append_lem :
      (xs : Cells)
      → IsMList h l xs
      → (l' : MList) × (h' : Heap) × (mlist_append new l v h ≡ some (l', h'))
        × IsMList h' l' (xs ++ (new, v) ∷ [])
        × SameOutside h h' (new, v) xs
  mlist_append_lem xs is = elim (snoc-cases xs) [
    | inl e ↦ let is' : IsMList h l [] = rw e at is in rw e (append-nil_case [] refl is')
    | inr (ys, (b, w), e) ↦
        let is' : IsMList h l (ys ++ (b, w) ∷ []) = rw e at is in rw e (append-snoc_case ys b w is')
  ]
