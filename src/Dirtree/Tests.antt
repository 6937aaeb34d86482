-- ===== src/Dirtree/Tests.antt =====
-- FileSystem/src/dirtree.c on a table with few directories.
use opsys_17b.Base.{
  suc, zero, length, ◌<◌, ◌≤◌, arith, ◌+◌, false, ◌==◌, ℕ, ◌≡◌, refl, Option, none, some, List, [],
  ◌∷◌, ◌++◌, drop, get_elem?, negsuc, pos,
}
use opsys_17b.Text.{
  path_create_yama, path_parts, path_part, mstring_replace, mstring_find, mstring_hasprefix,
  mstring_hassuffix, formatted, last_slash, path_dir, cut_dir, system_upath, yamafs,
}
use opsys_17b.Dirtree.{
  dir_exists, Directory, Table, find_where, fill_entry, add_directory, create_normal_path, names,
  names_loop, add_loop, dirtree_add, find_names, dirtree_find, dirtree_contains, dirtree_size,
  children_of_dir, dirtree_count,
}
use opsys_17b.Dirtree.Change.{
  remove_directory, remove_below, remove_children, dirtree_remove, root_name, unused_entries,
  dirtree_init, put_below, target, move_entry, move_found, dirtree_move, sibling, rename_entry,
  rename_found, dirtree_rename, path_loop, dirtree_path,
}
use opsys_17b.Dirtree.Entries.{free, IsKept}
use opsys_17b.Dirtree.Valid.{IsTable}
use opsys_17b.Dirtree.Reach.{Reached, Reached-IsTable}
use opsys_17b.Dirtree.Remove.{IsDeeper, IsRanked, dirtree_remove_lem}
use opsys_17b.Dirtree.Add.{dirtree_find-dirtree_add}

abbrev root_entry : Directory
root_entry = record { index = 0; name = root_name; parent = negsuc 0 }

abbrev table : Table
table = root_entry ∷ unused_entries 99 1

table_first : dirtree_init none ≡ some table
unfolding dirtree_init add_directory fill_entry find_where unused_entries
table_first = refl

table-Reached : Reached table
table-Reached = Reached.first table table_first

-- "a/bc"
abbrev path_abc : List ℕ
path_abc = b'a' ∷ b'/' ∷ b'b' ∷ b'c' ∷ []

abbrev npath_abc : List ℕ
npath_abc = b'/' ∷ b'a' ∷ b'/' ∷ b'b' ∷ b'c' ∷ b'/' ∷ []

npath_abc_run : create_normal_path (path_create_yama path_abc []) ≡ some npath_abc
unfolding create_normal_path path_create_yama path_parts mstring_replace mstring_find
    mstring_hasprefix formatted
npath_abc_run = refl

abbrev entry : ℕ → List ℕ → ℕ → Directory
entry index name parent = record { index = index; name = name; parent = pos parent }

-- The directories "/a" and "/a/bc".
abbrev table_abc : Table
table_abc = root_entry ∷ entry 1 (b'a' ∷ []) 0 ∷ entry 2 (b'b' ∷ b'c' ∷ []) 1 ∷ unused_entries 97 3

added : dirtree_add table path_abc ≡ some (table_abc, some 2)
unfolding dirtree_add create_normal_path mstring_hasprefix formatted names_loop add_loop
    add_directory fill_entry find_where unused_entries
added = refl

table_abc-Reached : Reached table_abc
table_abc-Reached = Reached.add table table_abc path_abc (some 2) table-Reached added

moved : Option Table
moved = dirtree_move [] table_abc path_abc (b'd' ∷ [])

moved_run :
    moved
    ≡ some (
        root_entry
        ∷ entry 1 (b'a' ∷ []) 0
        ∷ entry 2 (b'b' ∷ b'c' ∷ []) 3
        ∷ entry 3 (b'd' ∷ []) 0
        ∷ unused_entries 96 4)
unfolding moved dirtree_move dirtree_find path_create_yama path_parts path_part mstring_replace
    mstring_find mstring_hasprefix mstring_hassuffix formatted create_normal_path names_loop
    find_names find_where move_found target move_entry dirtree_contains path_dir cut_dir
    system_upath last_slash put_below dirtree_add add_loop add_directory fill_entry unused_entries
moved_run = refl

find_run :
    (dirtree_find table_abc path_abc ≡ some (some 2))
    × (dirtree_find table_abc (b'x' ∷ []) ≡ some none)
    × (dirtree_size table_abc ≡ 3)
    × (dirtree_count table_abc (b'/' ∷ []) ≡ some 1)
    × (dirtree_path table_abc (some 2) ≡ some (some (yamafs ++ (b'/' ∷ path_abc))))
unfolding dirtree_find path_create_yama path_parts path_part mstring_replace mstring_find
    mstring_hasprefix formatted create_normal_path names_loop find_names find_where dirtree_size
    dirtree_count children_of_dir dirtree_path path_loop unused_entries
find_run = (refl, refl, refl, refl, refl)

remove_run :
    dirtree_remove table_abc (b'a' ∷ [])
    ≡ some (
        root_entry
        ∷ record { index = 1; name = b'a' ∷ []; parent = negsuc 1 }
        ∷ record { index = 2; name = b'b' ∷ b'c' ∷ []; parent = negsuc 1 }
        ∷ unused_entries 97 3)
unfolding dirtree_remove remove_children remove_below remove_directory dirtree_find path_create_yama
    path_parts path_part mstring_replace mstring_find mstring_hasprefix formatted create_normal_path
    names_loop find_names find_where unused_entries
remove_run = refl

rename_run :
    dirtree_rename table_abc (b'a' ∷ []) (b'e' ∷ [])
    ≡ some (root_entry ∷ entry 1 (b'e' ∷ []) 0 ∷ entry 2 (b'b' ∷ b'c' ∷ []) 1 ∷ unused_entries 97 3)
unfolding dirtree_rename rename_found sibling rename_entry dirtree_contains last_slash dirtree_find
    path_create_yama path_parts path_part mstring_replace mstring_find mstring_hasprefix formatted
    create_normal_path names_loop find_names find_where unused_entries
rename_run = refl

Reached-IsTable_example : IsTable table_abc
Reached-IsTable_example = Reached-IsTable table_abc table_abc-Reached

last_entry : get_elem? table 99 ≡ some (record { index = 99; name = []; parent = negsuc 1 })
unfolding unused_entries
last_entry = refl

names_abc : (names (drop 1 npath_abc) ≡ (b'a' ∷ []) ∷ (b'b' ∷ b'c' ∷ []) ∷ [])
unfolding names_loop
names_abc = refl

room : free table ≡ 99
unfolding free unused_entries
room = refl

dirtree_find-dirtree_add_example :
    (dirs' : Table) × (r : ℕ) × (dirtree_add table (path_create_yama path_abc [])
      ≡ some (dirs', some r))
    × (dirtree_find dirs' (path_create_yama path_abc []) ≡ some (some r))
    × IsKept table dirs'
dirtree_find-dirtree_add_example =
    dirtree_find-dirtree_add table path_abc npath_abc
      (record { index = 99; name = []; parent = negsuc 1 }) (Reached-IsTable table table-Reached)
      last_entry refl npath_abc_run (rw names_abc (omega arith))
      (rw names_abc (omega arith, (omega arith, tt))) (rw names_abc (rw room (omega arith)))

-- The root, "/a" and "/a/bc" are one below the other.
abbrev levels : ℕ → ℕ
levels i = i

unused_entries-IsRanked : (n k : ℕ) → IsRanked levels 100 (unused_entries n k)
unfolding unused_entries
unused_entries-IsRanked zero k = tt
unused_entries-IsRanked (suc n) k =
    ((λ alive p up. absurd (ground (arith, alive))), unused_entries-IsRanked n (k + 1))

deeper : (i p : ℕ) (name : List ℕ) → p < i → i ≤ 100 → IsDeeper levels 100 (entry i name p)
deeper i p name h h' alive q up = (omega (arith, h, pos_eq up), h')
  where
    pos_eq : pos p ≡ pos q → p ≡ q
    pos_eq e = cc

table_abc-IsRanked : IsRanked levels 100 table_abc
table_abc-IsRanked = (
  (λ alive p up. absurd (neg_pos up)),
  (
    deeper 1 0 (b'a' ∷ []) (omega arith) (omega arith),
    (deeper 2 1 (b'b' ∷ b'c' ∷ []) (omega arith) (omega arith), unused_entries-IsRanked 97 3),
  ),
)
  where
    neg_pos : {p : ℕ} → negsuc 0 ≡ pos p → ⊥
    neg_pos e = ground (arith, e)

table_abc_size : length table_abc ≡ 100
unfolding unused_entries
table_abc_size = refl

dirtree_remove_lem_example :
    (dirs' : Table) × (dirtree_remove table_abc path_abc ≡ some dirs')
    × IsTable dirs'
    × IsRanked levels (length table_abc) dirs'
    × ((e : Directory) → get_elem? dirs' 2 ≡ some e → (2 == 0) ≡ false → dir_exists e ≡ false)
unfolding unused_entries
dirtree_remove_lem_example =
    dirtree_remove_lem levels table_abc path_abc 2 (entry 2 (b'b' ∷ b'c' ∷ []) 1)
      (Reached-IsTable table_abc table_abc-Reached) (rw table_abc_size table_abc-IsRanked)
      find_run.0 refl (rw table_abc_size (omega arith))
