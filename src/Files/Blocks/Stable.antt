-- ===== src/Files/Blocks/Stable.antt =====
-- FileSystem/src/filetable.c: a stable file system has, for each block, a copy that can be read.
use opsys_17b.Base.{
  ℕ, ◌+◌, ◌≡◌, refl, ap, ◌∙◌, inl, inr, Bool, true, false, Option, none, some, List, [], ◌∷◌, arith,
  if◌then◌else◌, get_elem?, All, Option-cases, Bool-cases, suc, some_inj,
}
use opsys_17b.Serial.{same_bytes}
use opsys_17b.Text.{mstring_isempty}
use opsys_17b.YFile.{Block, YFile}
use opsys_17b.Nodes.{BitOps, TNode, nodelist_find, find_from, node_active}
use opsys_17b.Files.{◌>>=◌}
use opsys_17b.Files.Blocks.{
  copy_of, recv, active_at, available_copy, available_blocks, available_files, filetable_stable,
  first_available_copy, receive_block,
}

module _ {B : Type 0} (ops : BitOps B) (ping : List ℕ → Bool) (nodes : List (TNode ops)) where
  -- The copy is on the node at `i`, which answers.
  abbrev pub IsReadable : Block → Bool → ℕ → Type 0
  IsReadable b second i =
      (n : TNode ops) × (nodelist_find ops nodes (copy_of b second).node ≡ some (some i))
      × (get_elem? nodes i ≡ some n)
      × (node_active ops ping n ≡ true)

  -- The first round finds a copy, and the node of that copy is asked for its number.
  abbrev pub IsReceived : List (List ℕ → Bool) → Block → Type 0
  IsReceived pings b =
      (second : Bool) × (i : ℕ) × (receive_block ops (ping ∷ pings) nodes b
        ≡ some (i, recv (copy_of b second).blockno))
      × IsReadable b second i

  active_inv :
      (found : Option ℕ)
      → active_at ops ping nodes found ≡ some true
      → (i : ℕ) × (n : TNode ops) × (found ≡ some i)
        × (get_elem? nodes i ≡ some n)
        × (node_active ops ping n ≡ true)
  unfolding active_at
  active_inv none e = absurd (ground (arith, e))
  active_inv (some i) e = elim (Option-cases (get_elem? nodes i)) [
    | inl out ↦ absurd (ground (arith, e, out))
    | inr (n, at_i) ↦
        let s : some (node_active ops ping n) ≡ some true = rw at_i at e in (i, n, refl, at_i, cc)
  ]

  find_from_inside :
      (k i : ℕ) (ns : List (TNode ops)) (name : List ℕ)
      → find_from ops k ns name ≡ some i
      → (j : ℕ) × (n : TNode ops) × (i ≡ k + j) × (get_elem? ns j ≡ some n)
  unfolding find_from
  find_from_inside k i [] name e = absurd (ground (arith, e))
  find_from_inside k i (n ∷ ns) name e = elim (Bool-cases (same_bytes n.name name)) [
    | inl here ↦
        let s : some k ≡ some i = rw (here, find_from) at e in
        let same : k ≡ i = some_inj s in (0, n, omega (arith, same), refl)
    | inr below ↦
        let rest : find_from ops (k + 1) ns name ≡ some i = rw (below, find_from) at e in
        let (j, m, at_j, cell) = find_from_inside (k + 1) i ns name rest in
        (suc j, m, omega (arith, at_j), cell)
  ]

  -- A node that is found can be asked.
  find_inside :
      (name : Option (List ℕ)) (i : ℕ)
      → nodelist_find ops nodes name ≡ some (some i)
      → (n : TNode ops) × (get_elem? nodes i ≡ some n)
  unfolding nodelist_find
  find_inside none i e = absurd (ground (arith, e))
  find_inside (some s) i e = elim (Option-cases (mstring_isempty (some s))) [
    | inl out ↦ absurd (ground (arith, e, out))
    | inr (empty, named) ↦ found empty (rw (named, nodelist_find) at e)
  ]
    where
      found :
          (empty : Bool)
          → some (if empty then none else find_from ops 0 nodes s) ≡ some (some i)
          → (n : TNode ops) × (get_elem? nodes i ≡ some n)
      found true q = let r : none ≡ some i = some_inj q in absurd (ground (arith, r))
      found false q =
          let (j, n, at_j, cell) = find_from_inside 0 i nodes s (some_inj q) in
          let same : j ≡ i = omega (arith, at_j) in (n, rw same at cell)

  active_total :
      (name : Option (List ℕ)) (found : Option ℕ)
      → nodelist_find ops nodes name ≡ some found
      → (a : Bool) × (active_at ops ping nodes found ≡ some a)
  unfolding active_at
  active_total name none e = (false, refl)
  active_total name (some i) e =
      let (n, cell) = find_inside name i e in (node_active ops ping n, rw cell)

  -- The node of a copy that answers is the one that is asked.
  asked :
      (pings : List (List ℕ → Bool)) (b : Block) (second : Bool) (found : Option ℕ)
      → first_available_copy ops (ping ∷ pings) nodes b ≡ some second
      → nodelist_find ops nodes (copy_of b second).node ≡ some found
      → active_at ops ping nodes found ≡ some true
      → IsReceived pings b
  unfolding receive_block
  asked pings b second found run e act =
      let (i, n, same, cell, active) = active_inv found act in
      let e' : nodelist_find ops nodes (copy_of b second).node ≡ some (some i) =
        e ∙ ap (λ t. some t) same in
      (second, i, rw (run, receive_block) (rw e'), (n, e', cell, active))

  received :
      (pings : List (List ℕ → Bool)) (b : Block)
      → available_copy ops ping nodes b ≡ some true
      → IsReceived pings b
  unfolding available_copy first_available_copy
  received pings b e = elim (Option-cases (nodelist_find ops nodes b.copy0.node)) [
    | inl out ↦ absurd (ground (arith, e, out))
    | inr (m0, e0) ↦ elim (Option-cases (nodelist_find ops nodes b.copy1.node)) [
      | inl out ↦ absurd (ground (arith, e, e0, out))
      | inr (m1, e1) ↦
          let (a0, t0) = active_total b.copy0.node m0 e0 in
          let (a1, t1) = active_total b.copy1.node m1 e1 in
          let last : (if a0 then some true else some a1) ≡ some true =
            rw t1 at (rw t0 at (rw e1 at (rw e0 at e))) in
          elim (Bool-cases a1) [
            | inl yes1 ↦
                let s1 : active_at ops ping nodes m1 ≡ some true = t1 ∙ ap (λ t. some t) yes1 in
                asked pings b true m1
                  (rw (e0, first_available_copy) (rw (e1, ◌>>=◌) (rw (s1, ◌>>=◌)))) e1 s1
            | inr no1 ↦
                let s1 : active_at ops ping nodes m1 ≡ some false = t1 ∙ ap (λ t. some t) no1 in
                let yes0 : a0 ≡ true = ground (arith, last, no1) in
                let s0 : active_at ops ping nodes m0 ≡ some true = t0 ∙ ap (λ t. some t) yes0 in
                asked pings b false m0
                  (rw (e0, first_available_copy) (rw (e1, ◌>>=◌) (rw (s1, ◌>>=◌) (rw (s0, ◌>>=◌)))))
                  e0 s0
          ]
    ]
  ]

  IsReceived-blocks :
      (pings : List (List ℕ → Bool)) (bs : List Block)
      → available_blocks ops ping nodes bs ≡ some true
      → All (IsReceived pings) bs
  unfolding available_blocks
  IsReceived-blocks pings [] e = tt
  IsReceived-blocks pings (b ∷ bs) e = elim (Option-cases (available_copy ops ping nodes b)) [
    | inl out ↦ absurd (ground (arith, e, out))
    | inr (true, here) ↦
        (received pings b here, IsReceived-blocks pings bs (rw (here, available_blocks) at e))
    | inr (false, not_here) ↦ absurd (ground (arith, e, not_here))
  ]

  IsReceived-files :
      (pings : List (List ℕ → Bool)) (fs : List YFile)
      → available_files ops ping nodes fs ≡ some true
      → All (λ (f : YFile). All (IsReceived pings) f.blocks) fs
  unfolding available_files
  IsReceived-files pings [] e = tt
  IsReceived-files pings (f ∷ fs) e =
      elim (Option-cases (available_blocks ops ping nodes f.blocks)) [
        | inl out ↦ absurd (ground (arith, e, out))
        | inr (true, here) ↦ (
          IsReceived-blocks pings f.blocks here,
          IsReceived-files pings fs (rw (here, available_files) at e),
        )
        | inr (false, not_here) ↦ absurd (ground (arith, e, not_here))
      ]

  -- When filetable_stable says so, and the nodes reply as they did, every block of every file can be
  -- received: the first round of
  -- `first_available_copy` ends its loop, with a copy on a node that answers, and that node is asked
  -- for the copy's number.
  pub filetable_stable_lem :
      (formatted : Bool) (pings : List (List ℕ → Bool)) (fs : List YFile)
      → filetable_stable ops formatted ping nodes fs ≡ some true
      → All (λ (f : YFile). All (IsReceived pings) f.blocks) fs
  unfolding filetable_stable
  filetable_stable_lem true pings fs e = IsReceived-files pings fs e
  filetable_stable_lem false pings fs e = absurd (ground (arith, e))
