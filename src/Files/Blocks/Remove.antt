-- ===== src/Files/Blocks/Remove.antt =====
-- FileSystem/src/filetable.c: `filetable_remove`, which reads the path of the file behind its end.
use opsys_17b.Base.{
  ℕ, ◌≡◌, refl, ◌∙◌, true, false, Option, none, some, List, All, [], ◌∷◌, ◌++◌, length, get_elem?,
}
use opsys_17b.Text.{mstring_equal}
use opsys_17b.Dirtree.{Table}
use opsys_17b.YFile.{YFile}
use opsys_17b.Nodes.{BitOps, IsBitOps, TNode}
use opsys_17b.Nodes.Alloc.{IsNode}
use opsys_17b.Files.Blocks.Freed.{copies_of, Freed, Held, rm_blocks_lem}
use opsys_17b.Files.{◌>>=◌, remove_file, filetable_find}
use opsys_17b.Files.Names.{Lacks, Unique, mstring_equal_comm}
use opsys_17b.Files.Blocks.{rm_blocks, filetable_remove}

-- The table without a file behind which the files `after` stand.
abbrev pub removed_if_last : List YFile → List YFile → Option (List YFile)
removed_if_last before [] = some before
removed_if_last before (g ∷ after) = none

Lacks-middle :
    (before : List YFile) (f g : YFile) (after : List YFile)
    → Lacks g.path (before ++ f ∷ after)
    → mstring_equal f.path g.path ≡ false
Lacks-middle [] f g after out = out.0
Lacks-middle (h ∷ before) f g after out = Lacks-middle before f g after out.1

get_elem?-middle :
    (before : List YFile) (f : YFile) (after : List YFile)
    → get_elem? (before ++ f ∷ after) (length before) ≡ some f
get_elem?-middle [] f after = refl
get_elem?-middle (g ∷ before) f after = get_elem?-middle before f after

remove_file_lem :
    (before : List YFile) (f : YFile) (after : List YFile)
    → Unique (before ++ f ∷ after)
    → mstring_equal f.path f.path ≡ true
    → remove_file f.path false (before ++ f ∷ after) ≡ removed_if_last before after
unfolding remove_file
remove_file_lem [] f [] u same = rw (same, remove_file)
remove_file_lem [] f (g ∷ after) u same = rw (same, remove_file)
remove_file_lem (g ∷ before) f after u same =
    let other : mstring_equal g.path f.path ≡ false =
      mstring_equal_comm g.path f.path ∙ Lacks-middle before f g after u.0 in
    rw (other, remove_file) (rw (remove_file_lem before f after u.1 same) (last after))
  where
    last :
        (gs : List YFile)
        → (removed_if_last before gs >>= λ fs. some (g ∷ fs)) ≡ removed_if_last (g ∷ before) gs
    last [] = refl
    last (h ∷ gs) = refl

-- Removing a file of the table whose copies are held, each on a taken bit of its own: just these bits are
-- taken back, and the counts of all nodes stay right. If the file is the last of the table, those
-- in front of it are left. If another file stands behind it, the call reads the path of the file
-- after it was freed.
pub filetable_remove_lem :
    {B : Type 0} (ops : BitOps B) (laws : IsBitOps ops) (userdir : List ℕ) (dirs : Table)
    (before : List YFile) (f : YFile) (after : List YFile) (nodes : List (TNode ops))
    (path : List ℕ) (places : List (ℕ × ℕ))
    → Unique (before ++ f ∷ after)
    → mstring_equal f.path f.path ≡ true
    → filetable_find userdir dirs (before ++ f ∷ after) path ≡ some (some (length before))
    → All (IsNode ops) nodes
    → Held ops laws nodes (copies_of f.blocks) places
    → (nodes' : List (TNode ops)) × (filetable_remove ops userdir dirs
          (before ++ f ∷ after)
          nodes
          path
        ≡ (removed_if_last before after >>= λ files. some (files, nodes')))
      × (rm_blocks ops nodes f.blocks ≡ some nodes')
      × All (IsNode ops) nodes'
      × Freed ops nodes nodes' places
unfolding filetable_remove
filetable_remove_lem ops laws userdir dirs before f after nodes path places u same found all held =
    let (nodes', freed, all', bits) = rm_blocks_lem ops laws nodes f.blocks places all held in
    (
      nodes',
      rw (found, filetable_remove)
          (rw (get_elem?-middle before f after, ◌>>=◌)
            (rw (freed, ◌>>=◌) (rw (remove_file_lem before f after u same, ◌>>=◌)))),
      freed,
      all',
      bits,
    )
