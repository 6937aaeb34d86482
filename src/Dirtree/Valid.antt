-- ===== src/Dirtree/Valid.antt =====
-- FileSystem/src/dirtree.c: what holds of every table that the operations make.
use opsys_17b.Base.{
  ℕ, zero, suc, ◌+◌, ◌≡◌, refl, sym, ap, ◌∙◌, true, false, Option, none, some, List, [], ◌∷◌, arith,
  ◌==◌, ◌&&◌, length, length-set, get_elem?, get_elem?-set, get_elem?-set_other,
  inside_of_get_elem?, set, set_same, Bool-cases, Option-cases, inl, inr, ℤ, pos, negsuc, not, ltb,
  drop, some_inj, Holds, cases, test, held,
}
use opsys_17b.Serial.{same_bytes}
use opsys_17b.Dirtree.{
  Directory, Table, eqz, dirtree_find, dir_exists, find_where, find_dir_by_name, fill_entry,
  add_directory, add_loop, dirtree_add, max_size, create_normal_path, names,
}
use opsys_17b.Dirtree.Change.{
  remove_directory, remove_below, remove_children, dirtree_remove, root_name,
}
use opsys_17b.Dirtree.Entries.{find_where-some}

-- The table has all its entries, each with its place as index, and begins with the root.
pub record IsTable (dirs : Table) : Type 0 where
  pub size : length dirs ≡ max_size
  pub indices : (i : ℕ) (d : Directory) → get_elem? dirs i ≡ some d → d.index ≡ i
  pub root :
      (d : Directory) × (get_elem? dirs 0 ≡ some d) × (d.name ≡ root_name) × (d.parent ≡ negsuc 0)

-- Entries other than the root change, but for the index.
pub IsTable-set :
    (dirs : Table) (j : ℕ) (old new : Directory)
    → IsTable dirs
    → get_elem? dirs j ≡ some old
    → new.index ≡ old.index
    → (j == 0) ≡ false
    → IsTable (set dirs j new)
IsTable-set dirs j old new valid at_j same other = record {
  size = length-set dirs j new ∙ valid.size;
  indices = λ i d e. elim (Bool-cases (j == i)) [
    | inl hit ↦
        let z : j ≡ i = ground (arith, hit) in
        let here : get_elem? (set dirs j new) i ≡ some new =
          rw⁻¹ z (get_elem?-set dirs j new (inside_of_get_elem? dirs j old at_j)) in
        let one : new ≡ d = some_inj (sym here ∙ e) in
        sym (ap (λ (t : Directory). t.index) one) ∙ same ∙ valid.indices j old at_j ∙ z
    | inr miss ↦ valid.indices i d (sym (get_elem?-set_other dirs j i new miss) ∙ e)
  ];
  root =
      let (d, at, named, top) = valid.root in
      (d, get_elem?-set_other dirs j 0 new other ∙ at, named, top);
}

not_root :
    (dirs : Table) (j : ℕ) (d : Directory)
    → IsTable dirs
    → get_elem? dirs j ≡ some d
    → dir_exists d ≡ false
    → (j == 0) ≡ false
not_root dirs (suc j) d valid e unused = ground arith
not_root dirs zero d valid e unused =
    let (r, at, named, top) = valid.root in
    let one : r ≡ d = some_inj (sym at ∙ e) in
    let alive : dir_exists r ≡ true = rw top in
    absurd (ground (arith, sym alive ∙ ap (λ t. dir_exists t) one ∙ unused))

abbrev pub OfTable {ℓ} : {A : Type ℓ} → Table × A → Type 0
OfTable t = IsTable t.0

fill_entry-IsTable :
    (name : List ℕ) (parent : ℤ) (dirs : Table)
    → IsTable dirs
    → Holds OfTable (fill_entry name parent dirs)
unfolding fill_entry
fill_entry-IsTable name parent dirs valid =
    cases OfTable (find_where (λ d. not (dir_exists d)) dirs) _ _ tt (λ i f.
      cases OfTable (get_elem? dirs i) _ _ tt (λ d e.
        test OfTable (ltb 254 (length name)) _ _ (λ long. tt)
          (λ short.
            IsTable-set dirs i d (record d { name = name; parent = parent }) valid e refl
              (not_root dirs i d valid e (unused i d f e)))))
  where
    unused :
        (i : ℕ) (d : Directory)
        → find_where (λ x. not (dir_exists x)) dirs ≡ some i
        → get_elem? dirs i ≡ some d
        → dir_exists d ≡ false
    unused i d f e =
        let (x, at, fits) = find_where-some (λ t. not (dir_exists t)) dirs i f in
        let one : x ≡ d = some_inj (sym at ∙ e) in
        let off : not (dir_exists d) ≡ true = ap (λ t. not (dir_exists t)) (sym one) ∙ fits in
        ground (arith, off)

pub add_directory-IsTable :
    (name : List ℕ) (parent : ℤ) (dirs : Table)
    → IsTable dirs
    → Holds OfTable (add_directory name parent dirs)
unfolding add_directory
add_directory-IsTable name parent dirs valid =
    cases OfTable (find_dir_by_name name parent dirs) _ _
      (fill_entry-IsTable name parent dirs valid) (λ i f. valid)

add_loop-IsTable :
    (names : List (List ℕ)) (dirs : Table) (par_name : List ℕ) (par : ℤ) (dir : Option ℕ)
    → IsTable dirs
    → Holds OfTable (add_loop dirs par_name par dir names)
unfolding add_loop
add_loop-IsTable [] dirs par_name par dir valid = valid
add_loop-IsTable (name ∷ rest) dirs par_name par dir valid =
    cases OfTable (find_dir_by_name par_name par dirs) _ _ tt (λ i f.
      cases OfTable (get_elem? dirs i) _ _ tt (λ parent e.
        cases OfTable (add_directory name (pos parent.index) dirs) _ _ tt (λ t a.
          add_loop-IsTable rest t.0 name (pos parent.index) (some t.1) (
            held OfTable (add_directory name (pos parent.index) dirs) t
              (add_directory-IsTable name (pos parent.index) dirs valid) a))))

pub dirtree_add-IsTable :
    (dirs : Table) (path : List ℕ) → IsTable dirs → Holds OfTable (dirtree_add dirs path)
unfolding dirtree_add
dirtree_add-IsTable dirs path valid = cases OfTable (get_elem? dirs 99) _ _ tt (λ last e.
    test OfTable (dir_exists last) _ _ (λ full. valid)
      (λ left. cases OfTable (get_elem? dirs 0) _ _ tt (λ root e'.
        test OfTable (same_bytes path root.name) _ _ (λ same. valid)
          (λ other. cases OfTable (create_normal_path path) _ _ tt (λ npath n.
            add_loop-IsTable (names (drop 1 npath)) dirs root.name root.parent none valid)))))

remove_directory-IsTable : (i : ℕ) (dirs : Table) → IsTable dirs → IsTable (remove_directory i dirs)
unfolding remove_directory
remove_directory-IsTable i dirs valid = elim (Option-cases (get_elem? dirs i)) [
  | inl e ↦ rw (e, remove_directory) valid
  | inr (d, e) ↦ elim (Bool-cases (i == 0)) [
    | inl first ↦
        let at : (d.index == 0) ≡ true = ground (arith, valid.indices i d e, first) in
        rw (e, remove_directory) (rw at (rw (set_same dirs i d e) valid))
    | inr other ↦
        let not_first : (d.index == 0) ≡ false = ground (arith, valid.indices i d e, other) in
        rw (e, remove_directory)
          (rw not_first (IsTable-set dirs i d (record d { parent = negsuc 1 }) valid e refl other))
  ]
]

remove_below-IsTable :
    (below : ℕ → Table → Option Table) (index left i : ℕ) (dirs : Table)
    → ((k : ℕ) (t : Table) → IsTable t → Holds IsTable (below k t))
    → IsTable dirs
    → Holds IsTable (remove_below below index left i dirs)
unfolding remove_below
remove_below-IsTable below index zero i dirs keeps valid = valid
remove_below-IsTable below index (suc left) i dirs keeps valid =
    cases IsTable (get_elem? dirs i) _ _ tt (λ cur e.
      test IsTable (dir_exists cur && eqz cur.parent (pos index)) _ _
        (λ child. cases IsTable (below cur.index dirs) _ _ tt (λ dirs' b.
          remove_below-IsTable below index left (i + 1) (remove_directory i dirs') keeps (
            remove_directory-IsTable i dirs'
              (held IsTable (below cur.index dirs) dirs' (keeps cur.index dirs valid) b))))
        (λ other. remove_below-IsTable below index left (i + 1) dirs keeps valid))

pub remove_children-IsTable :
    (fuel index : ℕ) (dirs : Table) → IsTable dirs → Holds IsTable (remove_children fuel index dirs)
unfolding remove_children
remove_children-IsTable zero index dirs valid = tt
remove_children-IsTable (suc fuel) index dirs valid =
    remove_below-IsTable (λ i ds. remove_children fuel i ds) index (length dirs) 0 dirs
      (λ k t. remove_children-IsTable fuel k t) valid

pub dirtree_remove-IsTable :
    (dirs : Table) (path : List ℕ) → IsTable dirs → Holds IsTable (dirtree_remove dirs path)
unfolding dirtree_remove
dirtree_remove-IsTable dirs path valid = cases IsTable (dirtree_find dirs path) _ _ tt (λ found f.
    cases IsTable found _ _ valid (λ i e. cases IsTable (get_elem? dirs i) _ _ tt (λ d at.
      cases IsTable (remove_children (length dirs + 1) d.index dirs) _ _ tt (λ dirs' run.
        remove_directory-IsTable i dirs' (
          held IsTable (remove_children (length dirs + 1) d.index dirs) dirs'
            (remove_children-IsTable (length dirs + 1) d.index dirs valid) run)))))
