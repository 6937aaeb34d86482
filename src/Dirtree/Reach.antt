-- ===== src/Dirtree/Reach.antt =====
-- FileSystem/src/dirtree.c: the tables that the operations reach from the first one.
use opsys_17b.Base.{
  ℕ, zero, suc, ◌+◌, ◌≡◌, refl, sym, ap, ◌∙◌, true, false, Option, none, some, List, ◌∷◌, map,
  arith, ◌==◌, length, length-map, get_elem?-map, get_elem?, get_elem?_inside, ◌<◌, inl, inr, pos,
  negsuc, ltb, some_inj, Holds, cases, test, held, inside_of_get_elem?, Bool-cases,
}
use opsys_17b.Text.{path_dir}
use opsys_17b.Dirtree.{
  Directory, Table, dirtree_find, dirtree_add, dirtree_contains, add_directory, fill_entry,
  find_where,
}
use opsys_17b.Dirtree.Change.{
  removed_entry, dirtree_remove, dirtree_clear, root_name, unused_entries, dirtree_init, put_below,
  target, dirtree_move, move_entry, move_found, dirtree_rename, rename_entry, rename_found, sibling,
}
use opsys_17b.Dirtree.Valid.{
  IsTable, IsTable-set, OfTable, dirtree_add-IsTable, dirtree_remove-IsTable,
}

dirtree_clear-IsTable : (dirs : Table) → IsTable dirs → IsTable (dirtree_clear dirs)
unfolding dirtree_clear
dirtree_clear-IsTable dirs valid = record {
  size = length-map removed_entry dirs ∙ valid.size;
  indices = λ i d e.
      let (x, at) = get_elem?_inside dirs i (inside i d e) in
      let one : removed_entry x ≡ d =
        some_inj (sym (get_elem?-map removed_entry dirs i x at) ∙ e) in
      sym (ap (λ (t : Directory). t.index) one) ∙ same_index x ∙ valid.indices i x at;
  root =
      let (d, at, named, top) = valid.root in
      let first : (d.index == 0) ≡ true = ground (arith, valid.indices 0 d at) in
      let stays : removed_entry d ≡ d = rw first in
      (d, get_elem?-map removed_entry dirs 0 d at ∙ ap (λ t. some t) stays, named, top);
}
  where
    inside :
        (i : ℕ) (d : Directory) → get_elem? (map removed_entry dirs) i ≡ some d → i < length dirs
    inside i d e =
        omega
          (arith, inside_of_get_elem? (map removed_entry dirs) i d e, length-map removed_entry dirs)

    same_index : (x : Directory) → (removed_entry x).index ≡ x.index
    same_index x = elim (Bool-cases (x.index == 0)) [ inl e ↦ rw e | inr e ↦ rw e ]

get_elem?-unused_entries :
    (left k i : ℕ) (d : Directory) → get_elem? (unused_entries left k) i ≡ some d → d.index ≡ k + i
unfolding unused_entries
get_elem?-unused_entries zero k i d e = absurd (ground (arith, e))
get_elem?-unused_entries (suc left) k zero d e =
    omega (arith, ap (λ (t : Directory). t.index) (some_inj e))
get_elem?-unused_entries (suc left) k (suc i) d e =
    omega (arith, get_elem?-unused_entries left (k + 1) i d e)

dirtree_init-IsTable : Holds IsTable (dirtree_init none)
unfolding dirtree_init add_directory fill_entry find_where unused_entries
dirtree_init-IsTable = record { size = refl; indices = first_indices; root = (_, refl, refl, refl) }
  where
    first_indices :
        (i : ℕ) (d : Directory)
        → get_elem?
            (record { index = 0; name = root_name; parent = negsuc 0 } ∷ unused_entries 99 1)
            i
          ≡ some d
        → d.index ≡ i
    first_indices zero d e = sym (ap (λ (t : Directory). t.index) (some_inj e))
    first_indices (suc i) d e = omega (arith, get_elem?-unused_entries 99 1 i d e)

put_below-IsTable :
    (dirs : Table) (i : ℕ) (o : Option (Table × Option ℕ))
    → (i == 0) ≡ false
    → Holds OfTable o
    → Holds IsTable (put_below dirs i o)
unfolding put_below
put_below-IsTable dirs i none other valid = tt
put_below-IsTable dirs i (some (dirs', none)) other valid = tt
put_below-IsTable dirs i (some (dirs', some j)) other valid =
    cases IsTable (get_elem? dirs' j) _ _ tt (λ parent e'.
      cases IsTable (get_elem? dirs' i) _ _ tt (λ dir e.
        IsTable-set dirs' i dir (record dir { parent = pos parent.index }) valid e refl other))

move_entry-IsTable :
    (userdir : List ℕ) (dirs : Table) (i : ℕ) (npath : List ℕ)
    → (i == 0) ≡ false
    → IsTable dirs
    → Holds IsTable (move_entry userdir dirs i npath)
unfolding move_entry
move_entry-IsTable userdir dirs i npath other valid =
    cases IsTable (dirtree_contains dirs npath) _ _ tt (λ there c.
      test IsTable there _ _ (λ yes. valid)
        (λ no. cases IsTable (path_dir userdir npath) _ _ tt (λ dpath d.
          put_below-IsTable dirs i (dirtree_add dirs dpath) other
            (dirtree_add-IsTable dirs dpath valid))))

move_found-IsTable :
    (userdir : List ℕ) (dirs : Table) (new_path : List ℕ) (i : ℕ)
    → IsTable dirs
    → Holds IsTable (move_found userdir dirs new_path i)
unfolding move_found
move_found-IsTable userdir dirs new_path zero valid = valid
move_found-IsTable userdir dirs new_path (suc i) valid =
    cases IsTable (get_elem? dirs (suc i)) _ _ tt (λ dir e.
      cases IsTable (target dir.name new_path) _ _ tt
        (λ npath n. move_entry-IsTable userdir dirs (suc i) npath (ground arith) valid))

dirtree_move-IsTable :
    (userdir : List ℕ) (dirs : Table) (path new_path : List ℕ)
    → IsTable dirs
    → Holds IsTable (dirtree_move userdir dirs path new_path)
unfolding dirtree_move
dirtree_move-IsTable userdir dirs path new_path valid =
    cases IsTable (dirtree_find dirs path) _ _ tt (λ found f.
      cases IsTable found _ _ valid (λ i e. move_found-IsTable userdir dirs new_path i valid))

rename_entry-IsTable :
    (dirs : Table) (i : ℕ) (npath new_name : List ℕ)
    → (i == 0) ≡ false
    → IsTable dirs
    → Holds IsTable (rename_entry dirs i npath new_name)
unfolding rename_entry
rename_entry-IsTable dirs i npath new_name other valid =
    cases IsTable (dirtree_contains dirs npath) _ _ tt (λ there c.
      test IsTable there _ _ (λ yes. valid)
        (λ no. cases IsTable (get_elem? dirs i) _ _ tt (λ dir e.
          test IsTable (ltb 254 (length new_name)) _ _ (λ long. tt)
            (λ short. IsTable-set dirs i dir (record dir { name = new_name }) valid e refl other))))

rename_found-IsTable :
    (dirs : Table) (path new_name : List ℕ) (i : ℕ)
    → IsTable dirs
    → Holds IsTable (rename_found dirs path new_name i)
unfolding rename_found
rename_found-IsTable dirs path new_name zero valid = valid
rename_found-IsTable dirs path new_name (suc i) valid =
    cases IsTable (sibling path new_name) _ _ tt
      (λ npath n. rename_entry-IsTable dirs (suc i) npath new_name (ground arith) valid)

dirtree_rename-IsTable :
    (dirs : Table) (path new_name : List ℕ)
    → IsTable dirs
    → Holds IsTable (dirtree_rename dirs path new_name)
unfolding dirtree_rename
dirtree_rename-IsTable dirs path new_name valid =
    cases IsTable (dirtree_find dirs path) _ _ tt (λ found f.
      cases IsTable found _ _ valid (λ i e. rename_found-IsTable dirs path new_name i valid))

-- The tables that come up from the first one by calls that end without a fault.
pub data Reached : Table → Type 0 where
  first : (dirs : Table) → dirtree_init none ≡ some dirs → Reached dirs
  add :
      (dirs dirs' : Table) (path : List ℕ) (r : Option ℕ)
      → Reached dirs
      → dirtree_add dirs path ≡ some (dirs', r)
      → Reached dirs'
  remove :
      (dirs dirs' : Table) (path : List ℕ)
      → Reached dirs
      → dirtree_remove dirs path ≡ some dirs'
      → Reached dirs'
  clear : (dirs : Table) → Reached dirs → Reached (dirtree_clear dirs)
  move :
      (userdir : List ℕ) (dirs dirs' : Table) (path new_path : List ℕ)
      → Reached dirs
      → dirtree_move userdir dirs path new_path ≡ some dirs'
      → Reached dirs'
  rename :
      (dirs dirs' : Table) (path new_name : List ℕ)
      → Reached dirs
      → dirtree_rename dirs path new_name ≡ some dirs'
      → Reached dirs'

-- However the directories were added, removed, cleared, moved and renamed since the first table, the
-- table has 100 entries, each with its place as index, and begins with the root "/".
pub Reached-IsTable : (dirs : Table) → Reached dirs → IsTable dirs
Reached-IsTable _ (first dirs e) = held IsTable (dirtree_init none) dirs dirtree_init-IsTable e
Reached-IsTable _ (add dirs dirs' path r h e) =
    held OfTable (dirtree_add dirs path) (dirs', r)
      (dirtree_add-IsTable dirs path (Reached-IsTable dirs h)) e
Reached-IsTable _ (remove dirs dirs' path h e) =
    held IsTable (dirtree_remove dirs path) dirs'
      (dirtree_remove-IsTable dirs path (Reached-IsTable dirs h)) e
Reached-IsTable _ (clear dirs h) = dirtree_clear-IsTable dirs (Reached-IsTable dirs h)
Reached-IsTable _ (move userdir dirs dirs' path new_path h e) =
    held IsTable (dirtree_move userdir dirs path new_path) dirs'
      (dirtree_move-IsTable userdir dirs path new_path (Reached-IsTable dirs h)) e
Reached-IsTable _ (rename dirs dirs' path new_name h e) =
    held IsTable (dirtree_rename dirs path new_name) dirs'
      (dirtree_rename-IsTable dirs path new_name (Reached-IsTable dirs h)) e
