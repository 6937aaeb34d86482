-- ===== src/Files/Blocks.antt =====
-- FileSystem/src/filetable.c: the copies of the blocks of the files on the data nodes, and the counts
-- of the blocks under way. Messages to a node are values. `ping` is what the nodes reply.
pub mod Counts
pub mod Freed
pub mod Remove
pub mod Stable
use opsys_17b.Base.{
  ℕ, zero, suc, ◌+◌, ◌-◌, ◌*◌, Bool, true, false, not, ◌&&◌, Option, none, some, List, [], ◌∷◌,
  ◌++◌, ◌==◌, if◌then◌else◌, get_elem?, set, ℤ, pos, negsuc,
}
use opsys_17b.Text.{mstring_equal, mstring_equali, mstring_isempty}
use opsys_17b.Blocks.{block_size, copy_to}
use opsys_17b.Dirtree.{Table, eqz}
use opsys_17b.YFile.{Block, BlockCopy, YFile}
use opsys_17b.Nodes.{
  BitOps, TNode, nodelist_find, node_active, nodelist_rmblock, bitmap_set, bitmap_unset, put_copy,
  bitmap_firstzero,
}
use opsys_17b.Files.{◌>>=◌, filetable_find, remove_file}

-- `copies[0]` and `copies[1]`
abbrev pub copy_of : Block → Bool → BlockCopy
copy_of b false = b.copy0
copy_of b true = b.copy1

abbrev pub set_copy : Block → Bool → BlockCopy → Block
set_copy b false c = record b { copy0 = c }
set_copy b true c = record b { copy1 = c }

-- `filetable_cpblock` reads the second copy if there is no first, and fills the other.
unfoldable pub reads_second : Block → Bool
reads_second b = elim b.copy0.node [ none ↦ true | some _ ↦ false ]

-- The blocks of a file that are on their way to the nodes.
pub record Sending : Type 0 where
  pub current : ℕ
  pub total : ℕ

-- Whether the thread that waits is woken.
unfoldable pub filetable_sentblock : Sending → Sending × Bool
filetable_sentblock s = (record s { current = s.current + 1 }, s.current + 1 == s.total)

-- `bfile`: the blocks of a file that come from the nodes, and the map that they are put in.
pub record Receiving : Type 0 where
  pub blocks : List Block
  pub current : ℕ
  pub total : ℕ
  pub map : List ℕ

unfoldable pub copy_matches : List ℕ → ℤ → BlockCopy → Option Bool
copy_matches node blockno c = mstring_isempty c.node >>= λ empty.
    some (if empty then false else mstring_equal c.node (some node) && eqz c.blockno blockno)

unfoldable pub block_finder : List ℕ → ℤ → Block → Option Bool
block_finder node blockno b = do
  first ← copy_matches node blockno b.copy0
  if first then some true else copy_matches node blockno b.copy1

-- `mlist_index`, `none` inside for -1.
unfoldable pub block_index : List ℕ → ℤ → List Block → Option (Option ℕ)
block_index node blockno [] = some none
block_index node blockno (b ∷ bs) = elim (block_finder node blockno b) [
  | none ↦ none
  | some true ↦ some (some 0)
  | some false ↦ block_index node blockno bs >>= λ rest.
      some (elim rest [ none ↦ none | some i ↦ some (suc i) ])
]

-- A block that is not of the file is written in front of the map, which is a fault.
unfoldable pub filetable_writeblock : Receiving → List ℕ → ℤ → List ℕ → Option (Receiving × Bool)
filetable_writeblock r node blockno bytes = do
  found ← block_index node blockno r.blocks
  index ← found
  map' ← copy_to r.map (index * block_size) bytes
  some (record r { current = r.current + 1; map = map' }, r.current + 1 == r.total)

-- What is asked of the thread of a node: a block for the file that is put together, a block that it
-- hands back to the thread that asks, or to take a block.
pub data NodeOp : Type 0 where
  recv : ℤ → NodeOp
  recv_block : ℤ → NodeOp
  send : ℤ → NodeOp

module _ {B : Type 0} (ops : BitOps B) where
  -- `nodelist_active` of what `nodelist_find` returned; NULL is not active.
  unfoldable pub active_at : (List ℕ → Bool) → List (TNode ops) → Option ℕ → Option Bool
  active_at ping nodes none = some false
  active_at ping nodes (some i) = get_elem? nodes i >>= λ n. some (node_active ops ping n)

  unfoldable pub available_copy : (List ℕ → Bool) → List (TNode ops) → Block → Option Bool
  available_copy ping nodes b = do
    node0 ← nodelist_find ops nodes b.copy0.node
    node1 ← nodelist_find ops nodes b.copy1.node
    active0 ← active_at ping nodes node0
    if active0 then some true else active_at ping nodes node1

  -- `mlist_all` of the blocks of a file, and of the files.
  unfoldable pub available_blocks : (List ℕ → Bool) → List (TNode ops) → List Block → Option Bool
  available_blocks ping nodes [] = some true
  available_blocks ping nodes (b ∷ bs) = elim (available_copy ping nodes b) [
    | none ↦ none
    | some true ↦ available_blocks ping nodes bs
    | some false ↦ some false
  ]

  unfoldable pub available_files : (List ℕ → Bool) → List (TNode ops) → List YFile → Option Bool
  available_files ping nodes [] = some true
  available_files ping nodes (f ∷ fs) = elim (available_blocks ping nodes f.blocks) [
    | none ↦ none
    | some true ↦ available_files ping nodes fs
    | some false ↦ some false
  ]

  unfoldable pub filetable_stable :
      Bool → (List ℕ → Bool) → List (TNode ops) → List YFile → Option Bool
  filetable_stable formatted ping nodes files =
      if formatted then available_files ping nodes files else some false

  -- `first_available_copy`: which of the copies. A round of its loop for each element of `pings`, which
  -- has the replies in that round; `none` also means that the rounds ran out.
  unfoldable pub first_available_copy :
      List (List ℕ → Bool) → List (TNode ops) → Block → Option Bool
  first_available_copy [] nodes b = none
  first_available_copy (ping ∷ pings) nodes b = nodelist_find ops nodes b.copy0.node >>= λ node0.
      nodelist_find ops nodes b.copy1.node >>= λ node1. elim (active_at ping nodes node1) [
        | none ↦ none
        | some true ↦ some true
        | some false ↦ elim (active_at ping nodes node0) [
          | none ↦ none
          | some true ↦ some false
          | some false ↦ first_available_copy pings nodes b
        ]
      ]

  -- `receive_block`: the place of the node, and what is asked of it.
  unfoldable pub receive_block :
      List (List ℕ → Bool) → List (TNode ops) → Block → Option (ℕ × NodeOp)
  receive_block pings nodes b = do
    second ← first_available_copy pings nodes b
    found ← nodelist_find ops nodes (copy_of b second).node
    i ← found
    some (i, recv (copy_of b second).blockno)

  unfoldable pub filetable_rm_block :
      List (TNode ops) → Block → Bool → Option (List (TNode ops) × Block)
  filetable_rm_block nodes b copy = do
    found ← nodelist_find ops nodes (copy_of b copy).node
    i ← found
    n ← get_elem? nodes i
    elim (copy_of b copy).blockno [
      | negsuc _ ↦ none
      | pos k ↦ some (
        set nodes i
            (record n { bitmap = bitmap_unset ops n.bitmap k; free_blocks = n.free_blocks + 1 }),
        set_copy b copy (record { blockno = negsuc 0; node = none }),
      )
    ]

  -- The state after `filetable_cpblock`, and the messages in their order.
  pub record Copied : Type 0 where
    pub nodes : List (TNode ops)
    pub block : Block
    pub messages : List (ℕ × NodeOp)

  -- `filetable_cpblock`: the copy goes to the bit `k` of the node at `i`.
  unfoldable pub filetable_cpblock : List (TNode ops) → Block → ℕ → ℕ → Option Copied
  filetable_cpblock nodes b i k = do
    found ← nodelist_find ops nodes (copy_of b (reads_second b)).node
    original ← found
    n ← get_elem? nodes i
    some (record {
      nodes =
          set nodes i
            (record n { bitmap = bitmap_set ops n.bitmap k; free_blocks = n.free_blocks - 1 });
      block = set_copy b (not (reads_second b)) (record { blockno = pos k; node = some n.name });
      messages = (original, recv_block b.index) ∷ (i, send (pos k)) ∷ [];
    })

  -- `mlist_traverse(file->blocks, nodelist_rmblock)`
  unfoldable pub rm_blocks : List (TNode ops) → List Block → Option (List (TNode ops))
  rm_blocks nodes [] = some nodes
  rm_blocks nodes (b ∷ bs) = nodelist_rmblock ops nodes b >>= λ nodes'. rm_blocks nodes' bs

  unfoldable pub filetable_remove :
      List ℕ
      → Table
      → List YFile
      → List (TNode ops)
      → List ℕ
      → Option (List YFile × List (TNode ops))
  filetable_remove userdir dirs files nodes path = do
    found ← filetable_find userdir dirs files path
    elim found [
      | none ↦ some (files, nodes)
      | some i ↦ do
        f ← get_elem? files i
        nodes' ← rm_blocks nodes f.blocks
        files' ← remove_file f.path false files
        some (files', nodes')
    ]
