-- ===== src/Nodes/Release.antt =====
-- FileSystem/src/nodelist.c: `nodelist_rmblock` frees the bits of both copies.
use opsys_17b.Base.{
  ℕ, ◌≡◌, refl, ◌∙◌, false, true, some, List, ◌==◌, get_elem?, set, All, All-set, All-get_elem?,
  get_elem?-set_other, ◌<◌, pos,
}
use opsys_17b.YFile.{Block, BlockCopy}
use opsys_17b.Nodes.{BitOps, IsBitOps, TNode, bitmap_test, nodelist_find, release, nodelist_rmblock}
use opsys_17b.Nodes.Alloc.{IsNode, without_bit, IsNode-without_bit}
use opsys_17b.Nodes.Find.{nodelist_find-set}

module _ {B : Type 0} (ops : BitOps B) (laws : IsBitOps ops) where
  -- The copy's number is a taken bit of the node `n` at `i`, which has the copy's name.
  pub record IsHeld (nodes : List (TNode ops)) (copy : BlockCopy) (i k : ℕ) (n : TNode ops)
      : Type 0 where
    pub found : nodelist_find ops nodes copy.node ≡ some (some i)
    pub at_i : get_elem? nodes i ≡ some n
    pub number : copy.blockno ≡ pos k
    pub inside : k < n.bitmap.size
    pub taken : bitmap_test ops n.bitmap k ≡ true

  module _ (nodes : List (TNode ops)) (all : All (IsNode ops) nodes) (copy : BlockCopy) (i k : ℕ)
      (n : TNode ops) (held : IsHeld nodes copy i k n) where
    pub release_run : release ops nodes copy ≡ some (set nodes i (without_bit ops n k))
    unfolding release
    release_run = rw (held.found, release) (rw (held.at_i, release) (rw (held.number, release)))

    pub release-IsNode : All (IsNode ops) (set nodes i (without_bit ops n k))
    release-IsNode = All-set (IsNode ops) nodes i (without_bit ops n k) all (
        IsNode-without_bit ops laws n (All-get_elem? (IsNode ops) nodes i n all held.at_i) k
          held.inside held.taken)

  -- For a block with both copies held, on two nodes, `nodelist_rmblock` takes just these two bits
  -- back, and the counts of all nodes stay right.
  pub nodelist_rmblock_lem :
      (nodes : List (TNode ops)) (block : Block) (i0 k0 i1 k1 : ℕ) (n0 n1 : TNode ops)
      → All (IsNode ops) nodes
      → IsHeld nodes block.copy0 i0 k0 n0
      → IsHeld nodes block.copy1 i1 k1 n1
      → (i0 == i1) ≡ false
      → (nodelist_rmblock ops nodes block
          ≡ some (set (set nodes i0 (without_bit ops n0 k0)) i1 (without_bit ops n1 k1)))
        × All (IsNode ops) (set (set nodes i0 (without_bit ops n0 k0)) i1 (without_bit ops n1 k1))
  unfolding nodelist_rmblock
  nodelist_rmblock_lem nodes block i0 k0 i1 k1 n0 n1 all held0 held1 other =
      let all' = release-IsNode nodes all block.copy0 i0 k0 n0 held0 in
      let held1' : IsHeld (set nodes i0 (without_bit ops n0 k0)) block.copy1 i1 k1 n1 = record {
        found =
            nodelist_find-set ops nodes i0 n0 (without_bit ops n0 k0) block.copy1.node held0.at_i
              refl
            ∙ held1.found;
        at_i = get_elem?-set_other nodes i0 i1 (without_bit ops n0 k0) other ∙ held1.at_i;
        number = held1.number;
        inside = held1.inside;
        taken = held1.taken;
      } in
      (
        rw (release_run nodes all block.copy0 i0 k0 n0 held0, nodelist_rmblock)
            (release_run (set nodes i0 (without_bit ops n0 k0)) all' block.copy1 i1 k1 n1 held1'),
        release-IsNode (set nodes i0 (without_bit ops n0 k0)) all' block.copy1 i1 k1 n1 held1',
      )
