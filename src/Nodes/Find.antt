-- ===== src/Nodes/Find.antt =====
-- FileSystem/src/nodelist.c: `nodelist_find` and `nodelist_add`.
use opsys_17b.Text.{mstring_isempty}
use opsys_17b.Base.{
  ℕ, zero, suc, ◌+◌, ◌≡◌, refl, sym, ap, ◌∙◌, inl, inr, Option, none, some, List, [], ◌∷◌,
  if◌then◌else◌, length, ◌⊎◌, get_elem?, set, Option-cases,
}
use opsys_17b.Nodes.{BitOps, TNode, find_from, nodelist_find}

module _ {B : Type 0} (ops : BitOps B) where
  -- Writing a node under its name leaves the search as it was.
  pub find_from-set :
      (i : ℕ) (ns : List (TNode ops)) (j : ℕ) (n n' : TNode ops) (name : List ℕ)
      → get_elem? ns j ≡ some n
      → n'.name ≡ n.name
      → find_from ops i (set ns j n') name ≡ find_from ops i ns name
  unfolding find_from
  find_from-set i [] j n n' name e same = refl
  find_from-set i (x ∷ ns) zero n n' name e same =
      let same' : n'.name ≡ x.name = same ∙ ap (λ (t : TNode ops). t.name) (some_same (sym e)) in
      rw same'
    where
      some_same : {x y : TNode ops} → some x ≡ some y → x ≡ y
      some_same e = cc
  find_from-set i (x ∷ ns) (suc j) n n' name e same =
      rw (find_from-set (i + 1) ns j n n' name e same)

  -- The table as it was, if the name was found, or with one new node at its end: all its blocks are
  -- free, and it has the name and the number of blocks.
  abbrev pub OneMore : List (TNode ops) → List ℕ → ℕ → ℕ → List (TNode ops) → Type 0
  OneMore nodes name blocks i nodes' =
      ((nodelist_find ops nodes (some name) ≡ some (some i)) × (nodes' ≡ nodes))
      ⊎ ((nodelist_find ops nodes (some name) ≡ some none)
          × (i ≡ length nodes)
          × (length nodes' ≡ suc (length nodes))
          × ((n : TNode ops) × (get_elem? nodes' i ≡ some n)
              × (n.name ≡ name)
              × (n.total_blocks ≡ blocks)
              × (n.free_blocks ≡ blocks)))

  -- Whether a search finds a node stands on the names alone.
  pub nodelist_find-set :
      (ns : List (TNode ops)) (j : ℕ) (n n' : TNode ops) (name : Option (List ℕ))
      → get_elem? ns j ≡ some n
      → n'.name ≡ n.name
      → nodelist_find ops (set ns j n') name ≡ nodelist_find ops ns name
  unfolding nodelist_find
  nodelist_find-set ns j n n' name e same = elim (Option-cases (mstring_isempty name)) [
    | inl x ↦ rw (x, nodelist_find)
    | inr (empty, x) ↦
        rw (x, nodelist_find) (ap (λ r. some (if empty then none else r)) (look name))
  ]
    where
      look :
          (m : Option (List ℕ))
          → elim m [ none ↦ none | some s ↦ find_from ops 0 (set ns j n') s ]
            ≡ elim m [ none ↦ none | some s ↦ find_from ops 0 ns s ]
      look none = refl
      look (some s) = find_from-set 0 ns j n n' s e same
