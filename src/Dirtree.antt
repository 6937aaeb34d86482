-- ===== src/Dirtree.antt =====
-- FileSystem/src/dirtree.c: the table of directories. A place in the table stands for the address of
-- an entry, and `none` for it is NULL. Where a function returns an option around its result, `none` is a
-- fault. The directories that mirror the table on disk and its copy in a file are left out.
pub mod Change
pub mod Entries
pub mod Valid
pub mod Add
pub mod Remove
pub mod Reach
mod Tests
use opsys_17b.Base.{
  ℕ, zero, suc, ◌+◌, ◌-◌, Bool, true, false, not, ◌||◌, ◌&&◌, Option, none, some, List, [], ◌∷◌,
  ◌++◌, map, ◌==◌, leb, ltb, if◌then◌else◌, length, take, drop, get_elem?, set, ℤ, pos, negsuc,
}
use opsys_17b.Serial.{same_bytes}
use opsys_17b.Text.{
  formatted, mstring_hasprefix, mstring_hassuffix, end_byte, cut_end, last_slash, path_dir,
  path_create_yama, yamafs,
}

abbrev pub eqz : ℤ → ℤ → Bool
eqz (pos a) (pos b) = a == b
eqz (negsuc a) (negsuc b) = a == b
eqz _ _ = false

-- `t_directory`
pub record Directory : Type 0 where
  pub index : ℕ
  pub name : List ℕ
  pub parent : ℤ

-- The parent is -1 for the root, and -2 where no directory is.
abbrev pub dir_exists : Directory → Bool
dir_exists d = elim d.parent [ pos n ↦ true | negsuc n ↦ n == 0 ]

abbrev pub Table : Type 0
Table = List Directory

-- The loops over the table that end at the first entry that fits.
unfoldable pub find_where : (Directory → Bool) → Table → Option ℕ
find_where fits [] = none
find_where fits (d ∷ dirs) =
    let rest = find_where fits dirs in
    if fits d then some 0 else elim rest [ none ↦ none | some i ↦ some (suc i) ]

abbrev pub is_named : List ℕ → ℤ → Directory → Bool
is_named name parent d = dir_exists d && (same_bytes d.name name && eqz d.parent parent)

abbrev pub find_dir_by_name : List ℕ → ℤ → Table → Option ℕ
find_dir_by_name name parent dirs = find_where (is_named name parent) dirs

abbrev pub find_dir_by_index : ℤ → Table → Option ℕ
find_dir_by_index index dirs = find_where (λ d. dir_exists d && eqz (pos d.index) index) dirs

-- The name goes into an array of 255 bytes. With no free entry NULL is written through.
unfoldable pub fill_entry : List ℕ → ℤ → Table → Option (Table × ℕ)
fill_entry name parent dirs = elim (find_where (λ d. not (dir_exists d)) dirs) [
  | none ↦ none
  | some i ↦ elim (get_elem? dirs i) [
    | none ↦ none
    | some d ↦
        if ltb 254 (length name)
        then none
        else some (set dirs i (record d { name = name; parent = parent }), i)
  ]
]

unfoldable pub add_directory : List ℕ → ℤ → Table → Option (Table × ℕ)
add_directory name parent dirs = elim (find_dir_by_name name parent dirs) [
  | some i ↦ some (dirs, i)
  | none ↦ fill_entry name parent dirs
]

-- Of an empty path it reads the byte in front.
unfoldable pub create_normal_path : List ℕ → Option (List ℕ)
create_normal_path path =
    let p = if mstring_hasprefix path yamafs then drop 7 path else path in
    if length p == 0
    then none
    else some (
        formatted (
          (if mstring_hasprefix p (b'/' ∷ []) then [] else b'/' ∷ [])
          ++ (p ++ (if end_byte p == b'/' then [] else b'/' ∷ []))))

-- The names that a slash ends.
unfoldable pub names_loop : List ℕ → List ℕ → List (List ℕ)
names_loop name [] = []
names_loop name (c ∷ s) =
    let rest = names_loop (if c == b'/' then [] else name ++ (c ∷ [])) s in
    if c == b'/' then name ∷ rest else rest

abbrev pub names : List ℕ → List (List ℕ)
names s = names_loop [] s

-- The loop of `dirtree_add`.
unfoldable pub add_loop : Table → List ℕ → ℤ → Option ℕ → List (List ℕ) → Option (Table × Option ℕ)
add_loop dirs par_name par_parent dir [] = some (dirs, dir)
add_loop dirs par_name par_parent dir (name ∷ rest) =
    elim (find_dir_by_name par_name par_parent dirs) [
      | none ↦ none
      | some i ↦ elim (get_elem? dirs i) [
        | none ↦ none
        | some parent ↦ elim (add_directory name (pos parent.index) dirs) [
          | none ↦ none
          | some (dirs', j) ↦ add_loop dirs' name (pos parent.index) (some j) rest
        ]
      ]
    ]

abbrev pub max_size : ℕ
max_size = 100

unfoldable pub dirtree_add : Table → List ℕ → Option (Table × Option ℕ)
dirtree_add dirs path = elim (get_elem? dirs (max_size - 1)) [
  | none ↦ none
  | some last ↦ if dir_exists last then some (dirs, none) else elim (get_elem? dirs 0) [
    | none ↦ none
    | some root ↦
        if same_bytes path root.name then some (dirs, some 0) else elim (create_normal_path path) [
          | none ↦ none
          | some npath ↦ add_loop dirs root.name root.parent none (names (drop 1 npath))
        ]
  ]
]

-- The loop of `dirtree_find`.
unfoldable pub find_names : Table → ℤ → Option ℕ → List (List ℕ) → Option ℕ
find_names dirs par found [] = found
find_names dirs par found (name ∷ rest) = elim (find_dir_by_name name par dirs) [
  | none ↦ none
  | some i ↦ elim (get_elem? dirs i) [
    | none ↦ none
    | some dir ↦ find_names dirs (pos dir.index) (some i) rest
  ]
]

-- The first name of the path, which is empty, stands for the root.
unfoldable pub dirtree_find : Table → List ℕ → Option (Option ℕ)
dirtree_find dirs path = elim (get_elem? dirs 0) [
  | none ↦ none
  | some root ↦ elim (create_normal_path (path_create_yama path [])) [
    | none ↦ none
    | some npath ↦ some (elim (names npath) [
      | [] ↦ none
      | first ∷ rest ↦ find_names dirs root.parent none (root.name ∷ rest)
    ])
  ]
]

unfoldable pub dirtree_contains : Table → List ℕ → Option Bool
dirtree_contains dirs path = elim (dirtree_find dirs path) [
  | none ↦ none
  | some found ↦ some (elim found [ none ↦ false | some i ↦ true ])
]

unfoldable pub dirtree_size : Table → ℕ
dirtree_size [] = 0
dirtree_size (d ∷ dirs) = (if dir_exists d then 1 else 0) + dirtree_size dirs

-- `children_of_dir`: the places of the children.
unfoldable pub children_of_dir : ℕ → Table → ℕ → List ℕ
children_of_dir i [] index = []
children_of_dir i (d ∷ dirs) index =
    let rest = children_of_dir (i + 1) dirs index in
    if dir_exists d && eqz d.parent (pos index) then i ∷ rest else rest

unfoldable pub dirtree_count : Table → List ℕ → Option ℕ
dirtree_count dirs path = elim (dirtree_find dirs path) [
  | none ↦ none
  | some none ↦ some 0
  | some (some i) ↦ elim (get_elem? dirs i) [
    | none ↦ none
    | some d ↦ some (length (children_of_dir 0 dirs d.index))
  ]
]
