-- ===== src/Files/Tests.antt =====
-- FileSystem/src/filetable.c: a table of two files, over a table of directories, and the blocks of a
-- file on two nodes.
use opsys_17b.Base.{
  ℕ, ◌≡◌, refl, Bool, true, false, none, some, List, [], ◌∷◌, arith, ◌==◌, if◌then◌else◌, All, ◌++◌,
  pos, negsuc, set,
}
use opsys_17b.Text.{
  mstring_equal, mstring_isempty, mstring_hasprefix, path_dir, cut_dir, last_slash, system_upath,
  formatted, mstring_count, count_loop, mstring_find,
}
use opsys_17b.YFile.{Block, YFile, FType}
use opsys_17b.Nodes.{BitOps, IsBitOps, TNode, nodelist_find, find_from, bitmap_test, node_active}
use opsys_17b.Nodes.FirstZero.{zeros}
use opsys_17b.Nodes.Alloc.{IsNode, with_bit}
use opsys_17b.Files.{
  digits, print_int, find_path, real_file_path, filetable_find, filetable_add, filetable_rename,
  filetable_size, filetable_totalsize, sizes_from,
}
use opsys_17b.Files.Names.{Unique}
use opsys_17b.Files.Find.{IsReal, IsFiles, AddedFile, filetable_add_lem}
use opsys_17b.Files.Rename.{Outcome, filetable_rename_lem}
use opsys_17b.Files.Blocks.{
  copy_of, recv_block, send, Copied, reads_second, rm_blocks, filetable_cpblock, filetable_remove,
  filetable_stable, available_files, available_blocks, available_copy, active_at,
}
use opsys_17b.Files.Blocks.Counts.{filetable_cpblock_lem}
use opsys_17b.Files.Blocks.Freed.{copies_of, Freed, Held}
use opsys_17b.Files.Blocks.Remove.{filetable_remove_lem}
use opsys_17b.Files.Blocks.Stable.{IsReceived, filetable_stable_lem}

-- "/u"
abbrev home : List ℕ
home = b'/' ∷ b'u' ∷ []

-- "/u/a", "/u/b" and "/u/c"
abbrev path_a : List ℕ
path_a = b'/' ∷ b'u' ∷ b'/' ∷ b'a' ∷ []

abbrev path_b : List ℕ
path_b = b'/' ∷ b'u' ∷ b'/' ∷ b'b' ∷ []

abbrev path_c : List ℕ
path_c = b'/' ∷ b'u' ∷ b'/' ∷ b'c' ∷ []

-- A block with its one copy on the node A.
abbrev one_copy : Block
one_copy = record {
  index = pos 3;
  size = 10;
  copy0 = record { blockno = pos 0; node = some (65 ∷ []) };
  copy1 = record { blockno = negsuc 0; node = none };
}

abbrev file_at : List ℕ → YFile
file_at path = record { path = some path; size = 10; ftype = FType.txt; blocks = one_copy ∷ [] }

abbrev two_files : List YFile
two_files = file_at path_a ∷ file_at path_b ∷ []

sizes_run : (filetable_size two_files ≡ 2) × (filetable_totalsize two_files ≡ 20)
unfolding filetable_size filetable_totalsize sizes_from
sizes_run = (refl, refl)

number_run : print_int 407 ≡ b'4' ∷ b'0' ∷ b'7' ∷ []
unfolding print_int digits
number_run = refl

real_a : IsReal home path_a
unfolding mstring_hasprefix mstring_isempty
real_a = (refl, refl)

real_b : IsReal home path_b
unfolding mstring_hasprefix mstring_isempty
real_b = (refl, refl)

real_c : IsReal home path_c
unfolding mstring_hasprefix mstring_isempty
real_c = (refl, refl)

two_files-IsFiles : IsFiles home two_files
unfolding mstring_equal
two_files-IsFiles = record {
  unique = ((refl, tt), (tt, tt));
  real = ((path_a, refl, real_a), ((path_b, refl, real_b), tt));
}

filetable_add_lem_example :
    (files' : List YFile) × (filetable_add home [] two_files (file_at path_c) ≡ some files')
    × AddedFile home [] two_files files' (file_at path_c) path_c
filetable_add_lem_example =
    filetable_add_lem home [] two_files (file_at path_c) path_c two_files-IsFiles refl real_c

found_a : filetable_find home [] two_files path_a ≡ some (some 0)
unfolding filetable_find real_file_path mstring_hasprefix mstring_isempty find_path mstring_equal
found_a = refl

dir_a : path_dir home path_a ≡ some home
unfolding path_dir cut_dir last_slash system_upath mstring_count count_loop mstring_find
    mstring_hasprefix
dir_a = refl

whole_c : formatted (home ++ b'/' ∷ b'c' ∷ []) ≡ path_c
unfolding formatted
whole_c = refl

filetable_rename_lem_example :
    (files' : List YFile) × (filetable_rename home [] two_files path_a (b'c' ∷ []) ≡ some files')
    × IsFiles home files'
    × Outcome home [] two_files path_a
        (b'c' ∷ [])
        path_a
        home
        path_c
        0
        (file_at path_a)
        two_files-IsFiles
        found_a
        refl
        refl
        dir_a
        whole_c
        real_c
        files'
filetable_rename_lem_example =
    filetable_rename_lem home [] two_files path_a (b'c' ∷ []) path_a home path_c 0 (file_at path_a)
      two_files-IsFiles found_a refl refl dir_a whole_c real_c

abbrev bits : BitOps (ℕ → Bool)
bits = record {
  create = λ n i. false;
  test_bit = λ b i. b i;
  set_bit = λ b i j. if i == j then true else b j;
  clean_bit = λ b i j. if i == j then false else b j;
}

bits-IsBitOps : IsBitOps bits
bits-IsBitOps = record {
  test-create = λ n i. refl;
  test-set = λ b i j. refl;
  test-clean = λ b i j. refl;
}

-- A node of two blocks, with its first one taken.
abbrev node_of : List ℕ → TNode bits
node_of name = record {
  name = name;
  total_blocks = 2;
  free_blocks = 1;
  handler = true;
  bitmap = record { bitarray = λ i. i == 0; size = 2 };
}

abbrev two_nodes : List (TNode bits)
two_nodes = node_of (65 ∷ []) ∷ node_of (66 ∷ []) ∷ []

two_nodes-IsNode : All (IsNode bits) two_nodes
unfolding zeros bitmap_test
two_nodes-IsNode =
    (record { size_lem = refl; free_lem = refl }, (record { size_lem = refl; free_lem = refl }, tt))

reads_first : reads_second one_copy ≡ false
unfolding reads_second
reads_first = refl

copy_found : nodelist_find bits two_nodes (copy_of one_copy false).node ≡ some (some 0)
unfolding nodelist_find find_from mstring_isempty mstring_equal
copy_found = refl

bit_free : bitmap_test bits (node_of (66 ∷ [])).bitmap 1 ≡ false
unfolding bitmap_test
bit_free = refl

filetable_cpblock_lem_example :
    (r : Copied bits) × (filetable_cpblock bits two_nodes one_copy 1 1 ≡ some r)
    × (r.nodes ≡ set two_nodes 1 (with_bit bits (node_of (66 ∷ [])) 1))
    × All (IsNode bits) r.nodes
    × (copy_of r.block true ≡ record { blockno = pos 1; node = some (66 ∷ []) })
    × (copy_of r.block false ≡ copy_of one_copy false)
    × (r.messages ≡ (0, recv_block (pos 3)) ∷ (1, send (pos 1)) ∷ [])
filetable_cpblock_lem_example =
    filetable_cpblock_lem bits bits-IsBitOps two_nodes two_nodes-IsNode one_copy false 0 1 1
      (node_of (66 ∷ [])) reads_first copy_found refl (omega arith) bit_free

abbrev all_reply : List ℕ → Bool
all_reply name = true

stable_run : filetable_stable bits true all_reply two_nodes two_files ≡ some true
unfolding filetable_stable available_files available_blocks available_copy active_at nodelist_find
    find_from mstring_isempty mstring_equal node_active
stable_run = refl

filetable_stable_lem_example :
    All (λ (f : YFile). All (IsReceived bits all_reply two_nodes []) f.blocks) two_files
filetable_stable_lem_example =
    filetable_stable_lem bits all_reply two_nodes true [] two_files stable_run

-- The last file of a table has a block with a copy on each node.
abbrev full_block : Block
full_block = record one_copy { copy1 = record { blockno = pos 0; node = some (66 ∷ []) } }

abbrev last_file : YFile
last_file = record (file_at path_b) { blocks = full_block ∷ [] }

found_b : filetable_find home [] (file_at path_a ∷ last_file ∷ []) path_b ≡ some (some 1)
unfolding filetable_find real_file_path mstring_hasprefix mstring_isempty find_path mstring_equal
found_b = refl

same_b : mstring_equal (some path_b) (some path_b) ≡ true
unfolding mstring_equal
same_b = refl

apart_files : Unique (file_at path_a ∷ last_file ∷ [])
unfolding mstring_equal
apart_files = ((refl, tt), (tt, tt))

last_blocks : Held bits bits-IsBitOps two_nodes (copies_of last_file.blocks) ((0, 0) ∷ (1, 0) ∷ [])
unfolding nodelist_find find_from mstring_isempty mstring_equal bitmap_test
last_blocks = (
  (
    node_of (65 ∷ []),
    record { found = refl; at_i = refl; number = refl; inside = omega arith; taken = refl },
  ),
  refl,
  (
    (
      node_of (66 ∷ []),
      record { found = refl; at_i = refl; number = refl; inside = omega arith; taken = refl },
    ),
    refl,
    tt,
  ),
)

filetable_remove_lem_example :
    (nodes' : List (TNode bits)) × (filetable_remove bits home []
        (file_at path_a ∷ last_file ∷ [])
        two_nodes
        path_b
      ≡ some (file_at path_a ∷ [], nodes'))
    × (rm_blocks bits two_nodes (full_block ∷ []) ≡ some nodes')
    × All (IsNode bits) nodes'
    × Freed bits two_nodes nodes' ((0, 0) ∷ (1, 0) ∷ [])
filetable_remove_lem_example =
    filetable_remove_lem bits bits-IsBitOps home [] (file_at path_a ∷ []) last_file [] two_nodes
      path_b ((0, 0) ∷ (1, 0) ∷ []) apart_files same_b found_b two_nodes-IsNode last_blocks
