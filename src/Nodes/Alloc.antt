-- ===== src/Nodes/Alloc.antt =====
-- FileSystem/src/nodelist.c: giving blocks out and taking them back keeps, on every node, the number
-- of free blocks equal to the number of free bits.
use opsys_17b.Text.{mstring_equal, mstring_isempty}
use opsys_17b.Base.{
  ℕ, ◌+◌, ◌-◌, ◌≡◌, refl, sym, ◌∙◌, ◌⊎◌, inl, inr, Bool, true, false, some, List, arith, ◌==◌,
  get_elem?, set, All, All-set, All-get_elem?, ◌<◌, Bool-cases, Option-cases, pos, negsuc, ℤ,
}
use opsys_17b.YFile.{Block}
use opsys_17b.Nodes.{
  BitOps, IsBitOps, RateOps, TNode, node_active, bitmap_set, bitmap_unset, bitmap_test,
  bitmap_firstzero, balance_node, take_bit, put_copy, Added, nodelist_addblock,
}
use opsys_17b.Nodes.FirstZero.{
  zeros, FirstFrom, bitmap_firstzero_lem, zeros-bitmap_set, zeros-bitmap_unset,
}
use opsys_17b.Nodes.Choice.{IsChoice, balance_node_lem}

module _ {B : Type 0} (ops : BitOps B) where
  -- The bitmap has a bit for each block, and a node counts its free bits.
  pub record IsNode (n : TNode ops) : Type 0 where
    pub size_lem : n.bitmap.size ≡ n.total_blocks
    pub free_lem : zeros ops n.bitmap.size 0 n.bitmap ≡ n.free_blocks

  abbrev pub with_bit : TNode ops → ℕ → TNode ops
  with_bit n k = record n { bitmap = bitmap_set ops n.bitmap k; free_blocks = n.free_blocks - 1 }

  abbrev pub without_bit : TNode ops → ℕ → TNode ops
  without_bit n k = record n {
    bitmap = bitmap_unset ops n.bitmap k;
    free_blocks = n.free_blocks + 1;
  }

  module _ (laws : IsBitOps ops) (n : TNode ops) (is : IsNode n) (k : ℕ)
      (lt : k < n.bitmap.size) where
    pub IsNode-with_bit : bitmap_test ops n.bitmap k ≡ false → IsNode (with_bit n k)
    unfolding bitmap_set
    IsNode-with_bit free =
        let a = zeros-bitmap_set ops laws n.bitmap k lt free in
        let b = is.free_lem in record { size_lem = is.size_lem; free_lem = omega (arith, a, b) }

    pub IsNode-without_bit : bitmap_test ops n.bitmap k ≡ true → IsNode (without_bit n k)
    unfolding bitmap_unset
    IsNode-without_bit taken =
        let a = zeros-bitmap_unset ops laws n.bitmap k lt taken in
        let b = is.free_lem in record { size_lem = is.size_lem; free_lem = omega (arith, a, b) }

  module _ {R : Type 0} (rates : RateOps R) (ping : List ℕ → Bool) (laws : IsBitOps ops) (rand : ℕ)
      (nodes : List (TNode ops)) (block : Block) where
    -- Nothing changed, and the call says so; or a node other than that of the first copy, which
    -- answers, gave its first free bit, and the block has its number.
    abbrev pub Outcome : Bool → Added ops → Type 0
    Outcome empty r =
        ((r.done ≡ false) × (r.nodes ≡ nodes) × (r.block ≡ block))
        ⊎ ((i k : ℕ) × (n : TNode ops) × (r.done ≡ true)
            × (get_elem? nodes i ≡ some n)
            × (mstring_equal (some n.name) block.copy0.node ≡ false)
            × (node_active ops ping n ≡ true)
            × (k < n.total_blocks)
            × (bitmap_test ops n.bitmap k ≡ false)
            × ((j : ℕ) → j < k → bitmap_test ops n.bitmap j ≡ true)
            × (r.nodes ≡ set nodes i (with_bit n k))
            × (r.block ≡ put_copy block empty (record { blockno = pos k; node = some n.name })))

    take_bit_lem :
        (i : ℕ) (n : TNode ops) (empty : Bool)
        → All IsNode nodes
        → mstring_isempty block.copy0.node ≡ some empty
        → IsChoice ops rates ping nodes block.copy0.node i
        → get_elem? nodes i ≡ some n
        → (n.free_blocks == 0) ≡ false
        → (r : Added ops) × (take_bit ops nodes block i n ≡ some r)
          × All IsNode r.nodes
          × Outcome empty r
    unfolding take_bit
    take_bit_lem i n empty all named (n', at_i', other, active) at_i some_free =
        let same : n' ≡ n = some_same (sym at_i' ∙ at_i) in
        let is : IsNode n = All-get_elem? IsNode nodes i n all at_i in
        found is (bitmap_firstzero ops n.bitmap) refl (bitmap_firstzero_lem ops n.bitmap) same
      where
        some_same : {x y : TNode ops} → some x ≡ some y → x ≡ y
        some_same e = cc

        found :
            IsNode n
            → (z : ℤ) → bitmap_firstzero ops n.bitmap ≡ z
            → FirstFrom ops n.bitmap.size 0 n.bitmap z
            → n' ≡ n
            → (r : Added ops) × (take_bit ops nodes block i n ≡ some r)
              × All IsNode r.nodes
              × Outcome empty r
        found is (negsuc m) e (_, none_free) same =
            let a = is.free_lem in absurd (ground (arith, a, none_free))
        found is (pos k) e (_, lt, free, before) same =
            let lt' : k < n.bitmap.size = omega arith in
            let size = is.size_lem in
            (
              record {
                nodes = set nodes i (with_bit n k);
                block = put_copy block empty (record { blockno = pos k; node = some n.name });
                done = true;
              },
              rw (e, take_bit) (rw (named, take_bit)),
              All-set IsNode nodes i (with_bit n k) all (IsNode-with_bit laws n is k lt' free),
              inr (
                i,
                k,
                n,
                refl,
                at_i,
                rw same at other,
                rw same at active,
                omega arith,
                free,
                λ j q. before j (omega arith) q,
                refl,
                refl,
              ),
            )

    -- When the counts of all nodes are right, `nodelist_addblock` does not fault and keeps them so. It
    -- leaves all as it was and returns false, or it gives out the first free bit of a node that
    -- answers and does not have the first copy, and the block's empty copy gets its number and name.
    pub nodelist_addblock_lem :
        (empty : Bool)
        → All IsNode nodes
        → mstring_isempty block.copy0.node ≡ some empty
        → (r : Added ops) × (nodelist_addblock ops rates ping rand nodes block ≡ some r)
          × All IsNode r.nodes
          × Outcome empty r
    unfolding nodelist_addblock
    nodelist_addblock_lem empty all named =
        elim (Option-cases (balance_node ops rates ping rand nodes block.copy0.node)) [
          | inl e ↦ (
            record { nodes = nodes; block = block; done = false },
            rw (e, nodelist_addblock),
            all,
            inl (refl, refl, refl),
          )
          | inr (i, e) ↦
              let choice = balance_node_lem ops rates ping nodes block.copy0.node rand i e in
              let (n, at_i, _, _) = choice in
              elim (Bool-cases (n.free_blocks == 0)) [
                | inl z ↦ (
                  record { nodes = nodes; block = block; done = false },
                  rw (e, nodelist_addblock) (rw (at_i, nodelist_addblock) (rw z)),
                  all,
                  inl (refl, refl, refl),
                )
                | inr nz ↦
                    let (r, run, all', out) = take_bit_lem i n empty all named choice at_i nz in
                    (
                      r,
                      rw (e, nodelist_addblock) (rw (at_i, nodelist_addblock) (rw nz run)),
                      all',
                      out,
                    )
              ]
        ]
