-- ===== src/Nodes/Choice.antt =====
-- FileSystem/src/nodelist.c: the node that `balance_node` picks, whatever the rates are and however
-- the choice among the best falls.
use opsys_17b.Text.{mstring_equal}
use opsys_17b.Base.{
  ℕ, suc, ◌+◌, ◌%◌, ◌≡◌, sym, inl, inr, Bool, true, false, not, ◌||◌, Option, some, List, [], ◌∷◌,
  ◌++◌, arith, length, get_elem?, All, All-append, All-get_elem?, Bool-cases,
}
use opsys_17b.Nodes.{BitOps, RateOps, TNode, node_active, balance_loop, balance_node, mlist_random}

-- `mlist_random` returns an element of the list, and NULL of the empty list only.
pub mlist_random_lem {κ} :
    (P : ℕ → Type κ) (rand : ℕ) (cs : List ℕ) (i : ℕ)
    → All P cs
    → mlist_random rand cs ≡ some i
    → P i
unfolding mlist_random
mlist_random_lem P rand [] i all e = absurd (ground arith)
mlist_random_lem P rand (c ∷ cs) i all e = All-get_elem? P (c ∷ cs) (rand % length (c ∷ cs)) i all e

module _ {B : Type 0} (ops : BitOps B) {R : Type 0} (rates : RateOps R) (ping : List ℕ → Bool)
    (nodes : List (TNode ops)) (original : Option (List ℕ)) where
  -- A node of the list that answers and is not the one that has the first copy.
  abbrev pub IsChoice : ℕ → Type 0
  IsChoice i =
      (n : TNode ops) × (get_elem? nodes i ≡ some n)
      × (mstring_equal (some n.name) original ≡ false)
      × (node_active ops ping n ≡ true)

  balance_loop_lem :
      (i : ℕ) (ns : List (TNode ops)) (rate : R) (cs : List ℕ)
      → ((j : ℕ) → get_elem? ns j ≡ get_elem? nodes (i + j))
      → All IsChoice cs
      → All IsChoice (balance_loop ops rates ping original i ns rate cs)
  unfolding balance_loop
  balance_loop_lem i [] rate cs suffix all = all
  balance_loop_lem i (n ∷ ns) rate cs suffix all =
      let cur = rates.empty_rate n.free_blocks n.total_blocks in
      let later : (j : ℕ) → get_elem? ns j ≡ get_elem? nodes (i + 1 + j) =
        λ j. (let e : i + 1 + j ≡ i + suc j = omega arith in rw e (suffix (suc j))) in
      let here : get_elem? nodes i ≡ some n =
        (let e : i + 0 ≡ i = omega arith in sym (rw e at (suffix 0))) in
      elim (Bool-cases (
        rates.below cur rate
        || mstring_equal (some n.name) original
        || not (node_active ops ping n))) [
          | inl e ↦ rw e (balance_loop_lem (i + 1) ns rate cs later all)
          | inr e ↦
              let choice : IsChoice i = (n, here, ground arith, ground arith) in
              rw e (elim (Bool-cases (rates.number_equals cur rate)) [
                | inl e' ↦ rw e' (
                    balance_loop_lem (i + 1) ns cur (cs ++ i ∷ []) later
                      (All-append IsChoice cs (i ∷ []) all (choice, tt)))
                | inr e' ↦ rw e' (balance_loop_lem (i + 1) ns cur (i ∷ []) later (choice, tt))
              ])
        ]

  pub balance_node_lem :
      (rand i : ℕ) → balance_node ops rates ping rand nodes original ≡ some i → IsChoice i
  unfolding balance_node
  balance_node_lem rand i e =
      mlist_random_lem IsChoice rand
        (balance_loop ops rates ping original 0 nodes rates.zero_rate []) i
        (balance_loop_lem 0 nodes rates.zero_rate []
          (λ j. (let z : 0 + j ≡ j = omega arith in rw z)) tt)
        e
