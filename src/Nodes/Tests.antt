-- ===== src/Nodes/Tests.antt =====
-- FileSystem/src/nodelist.c: two nodes of two blocks each, with a function as the bit array, and the
-- number of free blocks as the rate.
use opsys_17b.Text.{mstring_equal, mstring_isempty}
use opsys_17b.Base.{
  ℕ, ◌≡◌, refl, Bool, true, false, none, some, List, [], ◌∷◌, arith, ◌==◌, ltb, if◌then◌else◌, All,
  pos, negsuc,
}
use opsys_17b.YFile.{Block}
use opsys_17b.Nodes.{
  BitOps, IsBitOps, RateOps, TNode, Added, nodelist_find, nodelist_addblock, nodelist_rmblock,
  find_from, bitmap_firstzero, bitmap_firstone, first_bit, bitmap_test, bitmap_set, bitmap_clear,
  balance_node, balance_loop, mlist_random, node_active, take_bit, nodelist_blocks,
  nodelist_freeblocks, nodelist_nactive, nodelist_freestnode, freest_loop,
}
use opsys_17b.Nodes.FirstZero.{zeros, FirstFrom, bitmap_firstzero_lem}
use opsys_17b.Nodes.Alloc.{IsNode, without_bit, Outcome, nodelist_addblock_lem}
use opsys_17b.Nodes.Release.{IsHeld, nodelist_rmblock_lem}

abbrev bits : BitOps (ℕ → Bool)
bits = record {
  create = λ n i. false;
  test_bit = λ b i. b i;
  set_bit = λ b i j. if i == j then true else b j;
  clean_bit = λ b i j. if i == j then false else b j;
}

bits-IsBitOps : IsBitOps bits
bits-IsBitOps = record {
  test-create = λ n i. refl;
  test-set = λ b i j. refl;
  test-clean = λ b i j. refl;
}

abbrev free_rates : RateOps ℕ
free_rates = record {
  zero_rate = 0;
  empty_rate = λ free total. free;
  below = ltb;
  number_equals = λ a b. a == b;
}

abbrev all_reply : List ℕ → Bool
all_reply name = true

-- Bit 0 of the node A is taken.
abbrev node_a : TNode bits
node_a = record {
  name = 65 ∷ [];
  total_blocks = 2;
  free_blocks = 1;
  handler = true;
  bitmap = record { bitarray = λ i. i == 0; size = 2 };
}

-- Bit 1 of the node B is taken.
abbrev node_b : TNode bits
node_b = record {
  name = 66 ∷ [];
  total_blocks = 2;
  free_blocks = 1;
  handler = true;
  bitmap = record { bitarray = λ i. i == 1; size = 2 };
}

abbrev two_nodes : List (TNode bits)
two_nodes = node_a ∷ node_b ∷ []

two_nodes-IsNode : All (IsNode bits) two_nodes
unfolding zeros bitmap_test
two_nodes-IsNode =
    (record { size_lem = refl; free_lem = refl }, (record { size_lem = refl; free_lem = refl }, tt))

-- A block that has its first copy on A.
abbrev half_block : Block
half_block = record {
  index = pos 0;
  size = 10;
  copy0 = record { blockno = pos 0; node = some (65 ∷ []) };
  copy1 = record { blockno = negsuc 0; node = none };
}

abbrev full_block : Block
full_block = record half_block { copy1 = record { blockno = pos 1; node = some (66 ∷ []) } }

-- The second copy goes to the first free bit of B.
addblock_run :
    nodelist_addblock bits free_rates all_reply 0 two_nodes half_block
    ≡ some (record {
      nodes =
          node_a ∷ record node_b { free_blocks = 0; bitmap = bitmap_set bits node_b.bitmap 0 } ∷ [];
      block = record half_block { copy1 = record { blockno = pos 0; node = some (66 ∷ []) } };
      done = true;
    })
unfolding nodelist_addblock balance_node balance_loop mlist_random node_active mstring_equal
    take_bit bitmap_firstzero first_bit bitmap_test mstring_isempty
addblock_run = refl

counts_run :
    (nodelist_blocks bits two_nodes ≡ 4)
    × (nodelist_freeblocks bits all_reply two_nodes ≡ 2)
    × (nodelist_nactive bits all_reply two_nodes ≡ 2)
    × (nodelist_freestnode bits all_reply 3 two_nodes ≡ some 1)
    × (bitmap_firstone bits node_b.bitmap ≡ pos 1)
    × (bitmap_firstone bits (bitmap_clear bits node_b.bitmap) ≡ negsuc 0)
unfolding nodelist_blocks nodelist_freeblocks nodelist_nactive nodelist_freestnode freest_loop
    mlist_random node_active bitmap_firstone first_bit bitmap_test bitmap_clear
counts_run = (refl, refl, refl, refl, refl, refl)

blank_half : mstring_isempty half_block.copy0.node ≡ some false
unfolding mstring_isempty
blank_half = refl

nodelist_addblock_lem_example :
    (r : Added bits) × (nodelist_addblock bits free_rates all_reply 0 two_nodes half_block ≡ some r)
    × All (IsNode bits) r.nodes
    × Outcome bits free_rates all_reply bits-IsBitOps 0 two_nodes half_block false r
nodelist_addblock_lem_example =
    nodelist_addblock_lem bits free_rates all_reply bits-IsBitOps 0 two_nodes half_block false
      two_nodes-IsNode blank_half

IsHeld-a : IsHeld bits bits-IsBitOps two_nodes full_block.copy0 0 0 node_a
unfolding nodelist_find find_from mstring_isempty bitmap_test
IsHeld-a = record { found = refl; at_i = refl; number = refl; inside = omega arith; taken = refl }

IsHeld-b : IsHeld bits bits-IsBitOps two_nodes full_block.copy1 1 1 node_b
unfolding nodelist_find find_from mstring_isempty bitmap_test
IsHeld-b = record { found = refl; at_i = refl; number = refl; inside = omega arith; taken = refl }

nodelist_rmblock_lem_example :
    (nodelist_rmblock bits two_nodes full_block
      ≡ some (without_bit bits node_a 0 ∷ without_bit bits node_b 1 ∷ []))
    × All (IsNode bits) (without_bit bits node_a 0 ∷ without_bit bits node_b 1 ∷ [])
nodelist_rmblock_lem_example =
    nodelist_rmblock_lem bits bits-IsBitOps two_nodes full_block 0 0 1 1 node_a node_b
      two_nodes-IsNode IsHeld-a IsHeld-b refl

bitmap_firstzero_lem_example :
    FirstFrom bits 2 0 node_a.bitmap (bitmap_firstzero bits node_a.bitmap)
bitmap_firstzero_lem_example = bitmap_firstzero_lem bits node_a.bitmap
