-- ===== src/Files/Blocks/Counts.antt =====
-- FileSystem/src/filetable.c: copying and removing one copy of a block keep the counts of the nodes
-- right.
use opsys_17b.Base.{
  ℕ, ◌≡◌, refl, ◌<◌, Bool, true, false, not, none, some, List, [], ◌∷◌, get_elem?, set, All,
  All-set, All-get_elem?, pos, negsuc,
}
use opsys_17b.YFile.{Block}
use opsys_17b.Nodes.{BitOps, IsBitOps, TNode, nodelist_find, bitmap_test}
use opsys_17b.Nodes.Alloc.{IsNode, with_bit, without_bit, IsNode-with_bit, IsNode-without_bit}
use opsys_17b.Nodes.Release.{IsHeld}
use opsys_17b.Files.Blocks.{
  copy_of, set_copy, recv_block, send, Copied, reads_second, filetable_cpblock, filetable_rm_block,
}

module _ {B : Type 0} (ops : BitOps B) (laws : IsBitOps ops) (nodes : List (TNode ops))
    (all : All (IsNode ops) nodes) (b : Block) where
  -- Taking one copy of a block away frees just its bit, and empties the copy; the counts of all nodes
  -- stay right.
  pub filetable_rm_block_lem :
      (copy : Bool) (i k : ℕ) (n : TNode ops)
      → IsHeld ops laws nodes (copy_of b copy) i k n
      → (filetable_rm_block ops nodes b copy
          ≡ some (
            set nodes i (without_bit ops n k),
            set_copy b copy (record { blockno = negsuc 0; node = none }),
          ))
        × All (IsNode ops) (set nodes i (without_bit ops n k))
  unfolding filetable_rm_block
  filetable_rm_block_lem copy i k n held = (
    rw (held.found, filetable_rm_block) (rw held.at_i (rw held.number)),
    All-set (IsNode ops) nodes i (without_bit ops n k) all (
        IsNode-without_bit ops laws n (All-get_elem? (IsNode ops) nodes i n all held.at_i) k
          held.inside held.taken),
  )

  -- Copying a block to a free bit of a node, from the copy that there is: the bit is taken, the other
  -- copy has its number and the node's name, and the counts of all nodes stay right. But the node
  -- that has the block is asked for the block's place in the file, and not for the copy's number.
  pub filetable_cpblock_lem :
      (second : Bool) (original i k : ℕ) (n : TNode ops)
      → reads_second b ≡ second
      → nodelist_find ops nodes (copy_of b second).node ≡ some (some original)
      → get_elem? nodes i ≡ some n
      → k < n.bitmap.size
      → bitmap_test ops n.bitmap k ≡ false
      → (r : Copied ops) × (filetable_cpblock ops nodes b i k ≡ some r)
        × (r.nodes ≡ set nodes i (with_bit ops n k))
        × All (IsNode ops) r.nodes
        × (copy_of r.block (not second) ≡ record { blockno = pos k; node = some n.name })
        × (copy_of r.block second ≡ copy_of b second)
        × (r.messages ≡ (original, recv_block b.index) ∷ (i, send (pos k)) ∷ [])
  unfolding filetable_cpblock
  filetable_cpblock_lem second original i k n e found at_i lt free = (
    record {
      nodes = set nodes i (with_bit ops n k);
      block = set_copy b (not second) (record { blockno = pos k; node = some n.name });
      messages = (original, recv_block b.index) ∷ (i, send (pos k)) ∷ [];
    },
    rw (e, filetable_cpblock) (rw found (rw at_i)),
    refl,
    All-set (IsNode ops) nodes i (with_bit ops n k) all
        (IsNode-with_bit ops laws n (All-get_elem? (IsNode ops) nodes i n all at_i) k lt free),
    filled second,
    kept second,
    refl,
  )
    where
      filled :
          (s : Bool)
          → copy_of (set_copy b (not s) (record { blockno = pos k; node = some n.name })) (not s)
            ≡ record { blockno = pos k; node = some n.name }
      filled true = refl
      filled false = refl

      kept :
          (s : Bool)
          → copy_of (set_copy b (not s) (record { blockno = pos k; node = some n.name })) s
            ≡ copy_of b s
      kept true = refl
      kept false = refl
