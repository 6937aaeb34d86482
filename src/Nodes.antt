-- ===== src/Nodes.antt =====
-- FileSystem/src/nodelist.c over Shared/bitmap.c: the data nodes, the blocks they have free, and the
-- choice of a node for a block. The bit array is of a library outside the repository, and so are the
-- replies of the nodes to a ping, `rand` and the arithmetic of `double`: they are parameters. The
-- copies of the bitmaps and of the counts in files are left out, and so is the message to the node.
-- `none` is a fault, and the place of a node in the list stands for its address.
pub mod FirstZero
pub mod Choice
pub mod Alloc
pub mod Release
pub mod Find
mod Tests
use opsys_17b.Text.{mstring_equal, mstring_isempty}
use opsys_17b.Base.{
  ℕ, zero, suc, ◌+◌, ◌-◌, ◌%◌, ◌≡◌, Bool, true, false, not, ◌||◌, ◌&&◌, Option, none, some, List,
  [], ◌∷◌, ◌++◌, ◌==◌, leb, ltb, if◌then◌else◌, length, get_elem?, set, ℤ, pos, negsuc,
}
use opsys_17b.Serial.{same_bytes}
use opsys_17b.YFile.{Block, BlockCopy}

-- The library's bit array.
pub record BitOps (B : Type 0) : Type 0 where
  pub create : ℕ → B
  pub test_bit : B → ℕ → Bool
  pub set_bit : B → ℕ → B
  pub clean_bit : B → ℕ → B

-- What its documentation says: a bit reads as it was last written, and others do not change.
pub record IsBitOps {B : Type 0} (ops : BitOps B) : Type 0 where
  pub test-create : (n i : ℕ) → ops.test_bit (ops.create n) i ≡ false
  pub test-set :
      (b : B) (i j : ℕ)
      → ops.test_bit (ops.set_bit b i) j ≡ (if i == j then true else ops.test_bit b j)
  pub test-clean :
      (b : B) (i j : ℕ)
      → ops.test_bit (ops.clean_bit b i) j ≡ (if i == j then false else ops.test_bit b j)

-- `node_empty_rate` and the comparisons of rates.
pub record RateOps (R : Type 0) : Type 0 where
  pub zero_rate : R
  pub empty_rate : ℕ → ℕ → R
  pub below : R → R → Bool
  pub number_equals : R → R → Bool

-- `mlist_random`
unfoldable pub mlist_random : ℕ → List ℕ → Option ℕ
mlist_random rand [] = none
mlist_random rand (c ∷ cs) = get_elem? (c ∷ cs) (rand % length (c ∷ cs))

-- The copy that `nodelist_addblock` fills.
abbrev pub put_copy : Block → Bool → BlockCopy → Block
put_copy b true c = record b { copy0 = c }
put_copy b false c = record b { copy1 = c }

module _ {B : Type 0} (ops : BitOps B) where
  -- `t_bitmap`
  pub record Bitmap : Type 0 where
    pub bitarray : B
    pub size : ℕ

  unfoldable pub bitmap_create : ℕ → Bitmap
  bitmap_create size = record { bitarray = ops.create size; size = size }

  unfoldable pub bitmap_set : Bitmap → ℕ → Bitmap
  bitmap_set m i = record m { bitarray = ops.set_bit m.bitarray i }

  unfoldable pub bitmap_unset : Bitmap → ℕ → Bitmap
  bitmap_unset m i = record m { bitarray = ops.clean_bit m.bitarray i }

  unfoldable pub bitmap_test : Bitmap → ℕ → Bool
  bitmap_test m i = ops.test_bit m.bitarray i

  -- The loop of `bitmap_firstzero` (`bitmap_firstone`) with `left` bits to go from `i`.
  unfoldable pub first_bit : Bool → ℕ → ℕ → Bitmap → ℤ
  first_bit wanted zero i m = negsuc 0
  first_bit wanted (suc left) i m =
      let rest = first_bit wanted left (i + 1) m in
      if (if wanted then bitmap_test m i else not (bitmap_test m i)) then pos i else rest

  unfoldable pub bitmap_firstzero : Bitmap → ℤ
  bitmap_firstzero m = first_bit false m.size 0 m

  unfoldable pub bitmap_firstone : Bitmap → ℤ
  bitmap_firstone m = first_bit true m.size 0 m

  unfoldable pub bitmap_clear : Bitmap → Bitmap
  bitmap_clear m = record m { bitarray = ops.create m.size }

  -- `t_node`; `handler` is whether it has one, so that it can be asked.
  pub record TNode : Type 0 where
    pub name : List ℕ
    pub total_blocks : ℕ
    pub free_blocks : ℕ
    pub handler : Bool
    pub bitmap : Bitmap

  -- `create_node` of a node that has no bitmap on file.
  unfoldable pub create_node : List ℕ → ℕ → TNode
  create_node name blocks = record {
    name = name;
    total_blocks = blocks;
    free_blocks = blocks;
    handler = false;
    bitmap = bitmap_create blocks;
  }

  -- `nodelist_find`, with the place of the node for its address.
  unfoldable pub find_from : ℕ → List TNode → List ℕ → Option ℕ
  find_from i [] name = none
  find_from i (n ∷ ns) name =
      let rest = find_from (i + 1) ns name in if same_bytes n.name name then some i else rest

  unfoldable pub nodelist_find : List TNode → Option (List ℕ) → Option (Option ℕ)
  nodelist_find nodes name = elim (mstring_isempty name) [
    | none ↦ none
    | some empty ↦
        some (if empty then none else elim name [ none ↦ none | some s ↦ find_from 0 nodes s ])
  ]

  unfoldable pub nodelist_add : List TNode → List ℕ → ℕ → Option (List TNode)
  nodelist_add nodes name blocks = elim (nodelist_find nodes (some name)) [
    | none ↦ none
    | some none ↦ some (nodes ++ create_node name blocks ∷ [])
    | some (some i) ↦ some nodes
  ]

  unfoldable pub nodelist_blocks : List TNode → ℕ
  nodelist_blocks [] = 0
  nodelist_blocks (n ∷ ns) = n.total_blocks + nodelist_blocks ns

  -- `node_active`, where `ping` is the reply of the node of that name.
  unfoldable pub node_active : (List ℕ → Bool) → TNode → Bool
  node_active ping n = if n.handler then ping n.name else false

  unfoldable pub nodelist_freeblocks : (List ℕ → Bool) → List TNode → ℕ
  nodelist_freeblocks ping [] = 0
  nodelist_freeblocks ping (n ∷ ns) =
      (if node_active ping n then n.free_blocks else 0) + nodelist_freeblocks ping ns

  unfoldable pub nodelist_nactive : (List ℕ → Bool) → List TNode → ℕ
  nodelist_nactive ping [] = 0
  nodelist_nactive ping (n ∷ ns) = (if node_active ping n then 1 else 0) + nodelist_nactive ping ns

  -- The walk of `nodelist_freestnode`: the most blocks free so far, and the nodes that have as many.
  unfoldable pub freest_loop : (List ℕ → Bool) → ℕ → List TNode → ℕ → List ℕ → List ℕ
  freest_loop ping i [] free candidates = candidates
  freest_loop ping i (n ∷ ns) free candidates =
      let skip = freest_loop ping (i + 1) ns free candidates in
      let more = freest_loop ping (i + 1) ns n.free_blocks (candidates ++ i ∷ []) in
      let anew = freest_loop ping (i + 1) ns n.free_blocks (i ∷ []) in
      if ltb n.free_blocks free || not (node_active ping n)
      then skip
      else if n.free_blocks == free
      then more
      else anew

  unfoldable pub nodelist_freestnode : (List ℕ → Bool) → ℕ → List TNode → Option ℕ
  nodelist_freestnode ping rand nodes = mlist_random rand (freest_loop ping 0 nodes 0 [])

  -- The state after a call, and what it returned.
  pub record Added : Type 0 where
    pub nodes : List TNode
    pub block : Block
    pub done : Bool

  -- The node at `i` takes the bit `k`. With no bit left (`bitmap_firstzero` is -1) it writes outside
  -- the array.
  unfoldable pub take_bit : List TNode → Block → ℕ → TNode → Option Added
  take_bit nodes block i n = elim (bitmap_firstzero n.bitmap) [
    | negsuc _ ↦ none
    | pos k ↦ elim (mstring_isempty block.copy0.node) [
      | none ↦ none
      | some empty ↦ some (record {
        nodes =
            set nodes i
              (record n { bitmap = bitmap_set n.bitmap k; free_blocks = n.free_blocks - 1 });
        block = put_copy block empty (record { blockno = pos k; node = some n.name });
        done = true;
      })
    ]
  ]

  module _ {R : Type 0} (rates : RateOps R) (ping : List ℕ → Bool) where
    -- The walk of `balance_node`.
    unfoldable pub balance_loop : Option (List ℕ) → ℕ → List TNode → R → List ℕ → List ℕ
    balance_loop original i [] rate candidates = candidates
    balance_loop original i (n ∷ ns) rate candidates =
        let cur = rates.empty_rate n.free_blocks n.total_blocks in
        let skip = balance_loop original (i + 1) ns rate candidates in
        let more = balance_loop original (i + 1) ns cur (candidates ++ i ∷ []) in
        let anew = balance_loop original (i + 1) ns cur (i ∷ []) in
        if rates.below cur rate || mstring_equal (some n.name) original || not (node_active ping n)
        then skip
        else if rates.number_equals cur rate
        then more
        else anew

    unfoldable pub balance_node : ℕ → List TNode → Option (List ℕ) → Option ℕ
    balance_node rand nodes original =
        mlist_random rand (balance_loop original 0 nodes rates.zero_rate [])

    unfoldable pub nodelist_addblock : ℕ → List TNode → Block → Option Added
    nodelist_addblock rand nodes block = elim (balance_node rand nodes block.copy0.node) [
      | none ↦ some (record { nodes = nodes; block = block; done = false })
      | some i ↦ elim (get_elem? nodes i) [
        | none ↦ none
        | some n ↦
            if n.free_blocks == 0
            then some (record { nodes = nodes; block = block; done = false })
            else take_bit nodes block i n
      ]
    ]

  -- One round of `nodelist_rmblock`. A number of a block that is negative is outside the array.
  unfoldable pub release : List TNode → BlockCopy → Option (List TNode)
  release nodes copy = elim (nodelist_find nodes copy.node) [
    | none ↦ none
    | some none ↦ some nodes
    | some (some i) ↦ elim (get_elem? nodes i) [
      | none ↦ none
      | some n ↦ elim copy.blockno [
        | negsuc _ ↦ none
        | pos k ↦ some (
            set nodes i
              (record n { bitmap = bitmap_unset n.bitmap k; free_blocks = n.free_blocks + 1 }))
      ]
    ]
  ]

  unfoldable pub nodelist_rmblock : List TNode → Block → Option (List TNode)
  nodelist_rmblock nodes block = elim (release nodes block.copy0) [
    | none ↦ none
    | some nodes' ↦ release nodes' block.copy1
  ]
