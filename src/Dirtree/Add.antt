-- ===== src/Dirtree/Add.antt =====
-- FileSystem/src/dirtree.c: `dirtree_find` after `dirtree_add`.
use opsys_17b.Base.{
  ℕ, suc, ◌≡◌, refl, sym, ap, ◌∙◌, Bool, true, false, Option, none, some, List, [], ◌∷◌, ◌++◌,
  arith, ◌==◌, All, length, take, drop, get_elem?, ◌≤◌, ◌<◌, ℤ, pos, negsuc, some_inj, held,
  if◌then◌else◌,
}
use opsys_17b.Serial.{same_bytes}
use opsys_17b.Text.{formatted, yamafs, path_create_yama, mstring_hasprefix, end_byte}
use opsys_17b.Text.Path.{path_create_yama_lem}
use opsys_17b.Dirtree.{
  Directory, Table, dir_exists, find_where, find_dir_by_name, is_named, add_directory, add_loop,
  find_names, names, names_loop, create_normal_path, dirtree_add, dirtree_find,
}
use opsys_17b.Dirtree.Change.{root_name}
use opsys_17b.Dirtree.Valid.{IsTable, OfTable, dirtree_add-IsTable}
use opsys_17b.Dirtree.Entries.{
  find_where-some, free, IsKept, IsKept-refl, IsKept-trans, add_directory_lem,
}

-- A name that fits in the array of an entry.
abbrev pub IsShort : List ℕ → Type 0
IsShort name = length name ≤ 254

-- The walk goes on below a directory that it finds.
find_names_step :
    (dirs : Table) (name : List ℕ) (par : ℤ) (i : ℕ) (d : Directory) (found : Option ℕ)
    (rest : List (List ℕ))
    → find_dir_by_name name par dirs ≡ some i
    → get_elem? dirs i ≡ some d
    → find_names dirs par found (name ∷ rest) ≡ find_names dirs (pos d.index) (some i) rest
unfolding find_names
find_names_step dirs name par i d found rest f e = rw (f, find_names) (rw (e, find_names))

add_loop_step :
    (dirs dirs' : Table) (par_name name : List ℕ) (par : ℤ) (i j : ℕ) (d : Directory)
    (dir : Option ℕ) (rest : List (List ℕ))
    → find_dir_by_name par_name par dirs ≡ some i
    → get_elem? dirs i ≡ some d
    → add_directory name (pos d.index) dirs ≡ some (dirs', j)
    → add_loop dirs par_name par dir (name ∷ rest) ≡ add_loop dirs' name (pos d.index) (some j) rest
unfolding add_loop
add_loop_step dirs dirs' par_name name par i j d dir rest f e a =
    rw (f, add_loop) (rw (e, add_loop) (rw (a, add_loop)))

-- What the loop of `dirtree_add` made is what the loop of `dirtree_find` finds.
find_names-add_loop :
    (rest : List (List ℕ)) (dirs : Table) (name : List ℕ) (par : ℤ) (i : ℕ) (d : Directory)
    → find_dir_by_name name par dirs ≡ some i
    → get_elem? dirs i ≡ some d
    → All IsShort rest
    → length rest ≤ free dirs
    → (dirs' : Table) × (r : ℕ) × (add_loop dirs name par (some i) rest ≡ some (dirs', some r))
      × ((found : Option ℕ) → find_names dirs' par found (name ∷ rest) ≡ some r)
      × IsKept dirs dirs'
find_names-add_loop [] dirs name par i d f e short room = (
  dirs,
  i,
  unfold add_loop in refl,
  λ found. find_names_step dirs name par i d found [] f e ∙ (unfold find_names in refl),
  IsKept-refl dirs,
)
find_names-add_loop (next ∷ rest) dirs name par i d f e short room =
    let (dirs1, j, added, f1, kept, left) =
      add_directory_lem next (pos d.index) short.0 refl dirs (omega arith) in
    let (d1, e1) = entry_at dirs1 j f1 in
    let (dirs', r, adds, finds, kept') =
      find_names-add_loop rest dirs1 next (pos d.index) j d1 f1 e1 short.1 (omega arith) in
    let all = IsKept-trans dirs dirs1 dirs' kept kept' in
    let (d', at_i, same) = all.indices i d e in
    (
      dirs',
      r,
      add_loop_step dirs dirs1 name next par i j d (some i) rest f e added ∙ adds,
      λ found.
          find_names_step dirs' name par i d' found (next ∷ rest) (all.finds name par i f) at_i
          ∙ (rw same (finds (some i))),
      all,
    )
  where
    entry_at :
        (t : Table) (k : ℕ)
        → find_dir_by_name next (pos d.index) t ≡ some k
        → (x : Directory) × (get_elem? t k ≡ some x)
    entry_at t k h =
        let (x, at_k, fits) = find_where-some (is_named next (pos d.index)) t k h in (x, at_k)

normal_lem :
    (t : List ℕ) → (u : List ℕ) × (create_normal_path (yamafs ++ (b'/' ∷ t)) ≡ some (b'/' ∷ u))
unfolding create_normal_path formatted mstring_hasprefix
normal_lem t =
    let filled : (suc (length t) == 0) ≡ false = ground arith in
    (take 1022 (t ++ (if end_byte (b'/' ∷ t) == b'/' then [] else b'/' ∷ [])), rw filled)

find_where_first :
    (fits : Directory → Bool) (dirs : Table) (d : Directory)
    → get_elem? dirs 0 ≡ some d
    → fits d ≡ true
    → find_where fits dirs ≡ some 0
unfolding find_where
find_where_first fits [] d e h = absurd (ground (arith, e))
find_where_first fits (x ∷ dirs) d e h = let one : x ≡ d = some_inj e in rw one (rw h)

-- With a name to add, the loop does not return what it began with.
add_loop_start :
    (rest : List (List ℕ)) (dirs : Table) (name : List ℕ) (par : ℤ) (dir dir' : Option ℕ)
    → 0 < length rest
    → add_loop dirs name par dir rest ≡ add_loop dirs name par dir' rest
unfolding add_loop
add_loop_start [] dirs name par dir dir' some_name = absurd (omega arith)
add_loop_start (next ∷ rest) dirs name par dir dir' some_name = refl

-- The walks for a path that `path_create` made, in a table with its root.
module _ (dirs : Table) (valid : IsTable dirs) (path t : List ℕ)
    (form : path ≡ yamafs ++ (b'/' ∷ t)) where
  root_found : find_dir_by_name root_name (negsuc 0) dirs ≡ some 0
  root_found =
      let (d, at, named, top) = valid.root in
      find_where_first (is_named root_name (negsuc 0)) dirs d at (rw top (rw named refl))

  dirtree_add_run :
      (npath : List ℕ) (last : Directory)
      → create_normal_path path ≡ some npath
      → get_elem? dirs 99 ≡ some last
      → dir_exists last ≡ false
      → dirtree_add dirs path ≡ add_loop dirs root_name (negsuc 0) none (names (drop 1 npath))
  unfolding dirtree_add
  dirtree_add_run npath last n e unused =
      let (d, at, named, top) = valid.root in
      let other : same_bytes path root_name ≡ false = rw form refl in
      rw (e, dirtree_add)
        (rw unused (
          rw (at, dirtree_add)
            (rw named (rw other (rw (n, dirtree_add) (rw top (rw named refl)))))))

  dirtree_find_run :
      (u : List ℕ)
      → path_create_yama path [] ≡ path
      → create_normal_path path ≡ some (b'/' ∷ u)
      → dirtree_find dirs path ≡ some (find_names dirs (negsuc 0) none (root_name ∷ names u))
  unfolding dirtree_find names_loop
  dirtree_find_run u same n =
      let (d, at, named, top) = valid.root in
      rw (at, dirtree_find) (rw same (rw (n, dirtree_find) (rw named (rw top refl))))

-- In a table whose last entry is free, a path that `path_create` made, with one name at least, names that
-- fit in an entry and no more of them than entries are free, is added; then `dirtree_find` returns the
-- directory that `dirtree_add` returned, and every directory that was found by its name and parent before
-- is found at the same place.
pub dirtree_find-dirtree_add :
    (dirs : Table) (root npath : List ℕ) (last : Directory)
    → IsTable dirs
    → get_elem? dirs 99 ≡ some last
    → dir_exists last ≡ false
    → create_normal_path (path_create_yama root []) ≡ some npath
    → 0 < length (names (drop 1 npath))
    → All IsShort (names (drop 1 npath))
    → length (names (drop 1 npath)) ≤ free dirs
    → (dirs' : Table) × (r : ℕ) × (dirtree_add dirs (path_create_yama root [])
        ≡ some (dirs', some r))
      × (dirtree_find dirs' (path_create_yama root []) ≡ some (some r))
      × IsKept dirs dirs'
dirtree_find-dirtree_add dirs root npath last valid at_last unused n some_name short room =
    let path = path_create_yama root [] in
    let (t, form, same) = path_create_yama_lem root in
    let (d, at, named, top) = valid.root in
    let (dirs', r, adds, finds, kept) =
      find_names-add_loop (names (drop 1 npath)) dirs root_name (negsuc 0) 0 d
        (root_found dirs valid path t form) at short room in
    let added =
      dirtree_add_run dirs valid path t form npath last n at_last unused
      ∙ add_loop_start (names (drop 1 npath)) dirs root_name (negsuc 0) none (some 0) some_name
      ∙ adds in
    let valid' : IsTable dirs' =
      held OfTable (dirtree_add dirs path) (dirs', some r) (dirtree_add-IsTable dirs path valid)
        added in
    let (u, norm) = normal_lem t in
    let norm' : create_normal_path path ≡ some (b'/' ∷ u) =
      ap (λ p. create_normal_path p) form ∙ norm in
    let rest : u ≡ drop 1 npath = ap (λ p. drop 1 p) (some_inj (sym norm' ∙ n)) in
    (
      dirs',
      r,
      added,
      dirtree_find_run dirs' valid' path t form u same norm'
          ∙ ap (λ o. some o) (rw rest (finds none)),
      kept,
    )
