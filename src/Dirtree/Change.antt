-- ===== src/Dirtree/Change.antt =====
-- FileSystem/src/dirtree.c: making the first table, removing, moving and renaming directories, and the
-- path of a directory.
use opsys_17b.Base.{
  ℕ, zero, suc, ◌+◌, Option, none, some, List, [], ◌∷◌, ◌++◌, map, ◌&&◌, ◌==◌, ltb, if◌then◌else◌,
  length, take, get_elem?, set, pos, negsuc,
}
use opsys_17b.Text.{formatted, mstring_hassuffix, cut_end, last_slash, path_dir, yamafs}
use opsys_17b.Dirtree.{
  Directory, Table, dir_exists, eqz, find_dir_by_index, add_directory, create_normal_path, max_size,
  dirtree_add, dirtree_find, dirtree_contains,
}

abbrev pub removed_entry : Directory → Directory
removed_entry d = if d.index == 0 then d else record d { parent = negsuc 1 }

unfoldable pub remove_directory : ℕ → Table → Table
remove_directory i dirs = elim (get_elem? dirs i) [
  | none ↦ dirs
  | some d ↦ set dirs i (removed_entry d)
]

-- The loop of `remove_children` over the entries from `i` on; `below` is its own call for a child.
unfoldable pub remove_below : (ℕ → Table → Option Table) → ℕ → ℕ → ℕ → Table → Option Table
remove_below below index zero i dirs = some dirs
remove_below below index (suc left) i dirs = elim (get_elem? dirs i) [
  | none ↦ none
  | some cur ↦
      if dir_exists cur && eqz cur.parent (pos index)
      then elim (below cur.index dirs) [
        | none ↦ none
        | some dirs' ↦ remove_below below index left (i + 1) (remove_directory i dirs')
      ]
      else remove_below below index left (i + 1) dirs
]

-- One level of the tree takes one unit of fuel.
unfoldable pub remove_children : ℕ → ℕ → Table → Option Table
remove_children zero index dirs = none
remove_children (suc fuel) index dirs =
    remove_below (λ i ds. remove_children fuel i ds) index (length dirs) 0 dirs

unfoldable pub dirtree_remove : Table → List ℕ → Option Table
dirtree_remove dirs path = elim (dirtree_find dirs path) [
  | none ↦ none
  | some none ↦ some dirs
  | some (some i) ↦ elim (get_elem? dirs i) [
    | none ↦ none
    | some d ↦ elim (remove_children (length dirs + 1) d.index dirs) [
      | none ↦ none
      | some dirs' ↦ some (remove_directory i dirs')
    ]
  ]
]

unfoldable pub dirtree_clear : Table → Table
dirtree_clear dirs = map removed_entry dirs

abbrev pub root_name : List ℕ
root_name = b'/' ∷ []

-- The entries from `i` on, none in use; a static name is empty.
unfoldable pub unused_entries : ℕ → ℕ → Table
unused_entries zero i = []
unused_entries (suc left) i =
    record { index = i; name = []; parent = negsuc 1 } ∷ unused_entries left (i + 1)

-- `saved` is the table in the file, if there is one.
unfoldable pub dirtree_init : Option Table → Option Table
dirtree_init (some saved) = some saved
dirtree_init none = elim (add_directory root_name (negsuc 0) (unused_entries max_size 0)) [
  | none ↦ none
  | some (dirs, i) ↦ some dirs
]

-- The directory at a place other than the root's goes below the one that `dirtree_add` returns.
unfoldable pub put_below : Table → ℕ → Option (Table × Option ℕ) → Option Table
put_below dirs i none = none
put_below dirs i (some (dirs', none)) = none
put_below dirs i (some (dirs', some j)) = elim (get_elem? dirs' j) [
  | none ↦ none
  | some parent ↦ elim (get_elem? dirs' i) [
    | none ↦ none
    | some dir ↦ some (set dirs' i (record dir { parent = pos parent.index }))
  ]
]

-- The new path of a directory: its name is added unless the path ends in it.
unfoldable pub target : List ℕ → List ℕ → Option (List ℕ)
target name new_path = elim (create_normal_path new_path) [
  | none ↦ none
  | some npath ↦ elim (mstring_hassuffix (cut_end npath) name) [
    | none ↦ none
    | some ends ↦ some (if ends then cut_end npath else formatted (cut_end npath ++ (b'/' ∷ name)))
  ]
]

unfoldable pub move_entry : List ℕ → Table → ℕ → List ℕ → Option Table
move_entry userdir dirs i npath = elim (dirtree_contains dirs npath) [
  | none ↦ none
  | some there ↦ if there then some dirs else elim (path_dir userdir npath) [
    | none ↦ none
    | some dpath ↦ put_below dirs i (dirtree_add dirs dpath)
  ]
]

-- The root does not move.
unfoldable pub move_found : List ℕ → Table → List ℕ → ℕ → Option Table
move_found userdir dirs new_path zero = some dirs
move_found userdir dirs new_path (suc i) = elim (get_elem? dirs (suc i)) [
  | none ↦ none
  | some dir ↦ elim (target dir.name new_path) [
    | none ↦ none
    | some npath ↦ move_entry userdir dirs (suc i) npath
  ]
]

unfoldable pub dirtree_move : List ℕ → Table → List ℕ → List ℕ → Option Table
dirtree_move userdir dirs path new_path = elim (dirtree_find dirs path) [
  | none ↦ none
  | some none ↦ some dirs
  | some (some i) ↦ move_found userdir dirs new_path i
]

-- The path with another last name.
unfoldable pub sibling : List ℕ → List ℕ → Option (List ℕ)
sibling path new_name = elim (create_normal_path path) [
  | none ↦ none
  | some npath ↦ elim (last_slash (cut_end npath)) [
    | none ↦ none
    | some n ↦ some (formatted (take n (cut_end npath) ++ (b'/' ∷ new_name)))
  ]
]

unfoldable pub rename_entry : Table → ℕ → List ℕ → List ℕ → Option Table
rename_entry dirs i npath new_name = elim (dirtree_contains dirs npath) [
  | none ↦ none
  | some there ↦ if there then some dirs else elim (get_elem? dirs i) [
    | none ↦ none
    | some dir ↦
        if ltb 254 (length new_name)
        then none
        else some (set dirs i (record dir { name = new_name }))
  ]
]

-- Nor does it get another name.
unfoldable pub rename_found : Table → List ℕ → List ℕ → ℕ → Option Table
rename_found dirs path new_name zero = some dirs
rename_found dirs path new_name (suc i) = elim (sibling path new_name) [
  | none ↦ none
  | some npath ↦ rename_entry dirs (suc i) npath new_name
]

unfoldable pub dirtree_rename : Table → List ℕ → List ℕ → Option Table
dirtree_rename dirs path new_name = elim (dirtree_find dirs path) [
  | none ↦ none
  | some none ↦ some dirs
  | some (some i) ↦ rename_found dirs path new_name i
]

-- The loop of `dirtree_path` from a directory on to the root. A parent that is not in the table is a
-- fault, and so is a loop that does not reach the root: on fuel, `none` as well.
unfoldable pub path_loop : ℕ → Table → Directory → List ℕ → Option (List ℕ)
path_loop zero dirs dir path = none
path_loop (suc fuel) dirs dir path = elim (find_dir_by_index dir.parent dirs) [
  | none ↦ none
  | some zero ↦ some path
  | some (suc i) ↦ elim (get_elem? dirs (suc i)) [
    | none ↦ none
    | some parent ↦ path_loop fuel dirs parent (formatted (parent.name ++ (b'/' ∷ path)))
  ]
]

unfoldable pub dirtree_path : Table → Option ℕ → Option (Option (List ℕ))
dirtree_path dirs none = some none
dirtree_path dirs (some zero) = some (some (yamafs ++ (b'/' ∷ [])))
dirtree_path dirs (some (suc i)) = elim (get_elem? dirs (suc i)) [
  | none ↦ none
  | some dir ↦ elim (path_loop (length dirs) dirs dir dir.name) [
    | none ↦ none
    | some path ↦ some (some (formatted (yamafs ++ (b'/' ∷ path))))
  ]
]
