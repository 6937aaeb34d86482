-- ===== src/Dirtree/Remove.antt =====
-- FileSystem/src/dirtree.c: `dirtree_remove` ends on a table without loops.
use opsys_17b.Base.{
  ℕ, zero, suc, ◌+◌, ◌≡◌, refl, sym, ap, ◌∙◌, true, false, ◌&&◌, Option, some, List, set,
  length-set, All, All-set, All-get_elem?, arith, ◌==◌, length, get_elem?, get_elem?_inside, ◌≤◌,
  ◌<◌, Bool-cases, Option-cases, inl, inr, pos, negsuc, some_inj, held, get_elem?-set,
  inside_of_get_elem?,
}
use opsys_17b.Dirtree.{Directory, Table, dir_exists, eqz, dirtree_find}
use opsys_17b.Dirtree.Change.{
  removed_entry, remove_directory, remove_below, remove_children, dirtree_remove,
}
use opsys_17b.Dirtree.Entries.{eqz_eq}
use opsys_17b.Dirtree.Valid.{IsTable, remove_children-IsTable, dirtree_remove-IsTable}

module _ (depth : ℕ → ℕ) (bound : ℕ) where
  -- A directory is deeper than the one above it, and none is deeper than the bound.
  abbrev pub IsDeeper : Directory → Type 0
  IsDeeper d =
      dir_exists d ≡ true
      → (p : ℕ) → d.parent ≡ pos p
      → (depth p < depth d.index) × (depth d.index ≤ bound)

  abbrev pub IsRanked : Table → Type 0
  IsRanked dirs = All IsDeeper dirs

  removed_entry-IsDeeper : (d : Directory) → IsDeeper d → IsDeeper (removed_entry d)
  removed_entry-IsDeeper d h = elim (Bool-cases (d.index == 0)) [
    | inl e ↦ rw e h
    | inr e ↦ rw e (λ alive p up. absurd (ground (arith, alive)))
  ]

  -- The same table, but that entries may be gone.
  abbrev Ends : Table → Option Table → Type 0
  Ends dirs o = (dirs' : Table) × (o ≡ some dirs') × IsRanked dirs' × (length dirs' ≡ length dirs)

  remove_directory-IsRanked :
      (i : ℕ) (dirs : Table)
      → IsRanked dirs
      → IsRanked (remove_directory i dirs) × (length (remove_directory i dirs) ≡ length dirs)
  unfolding remove_directory
  remove_directory-IsRanked i dirs h = elim (Option-cases (get_elem? dirs i)) [
    | inl e ↦ (rw (e, remove_directory) h, rw (e, remove_directory) refl)
    | inr (d, e) ↦ (
      rw (e, remove_directory)
          (All-set IsDeeper dirs i (removed_entry d) h
            (removed_entry-IsDeeper d (All-get_elem? IsDeeper dirs i d h e))),
      rw (e, remove_directory) (length-set dirs i (removed_entry d)),
    )
  ]

  remove_below_child :
      (below : ℕ → Table → Option Table) (index left i : ℕ) (dirs dirs' : Table) (cur : Directory)
      → get_elem? dirs i ≡ some cur
      → (dir_exists cur && eqz cur.parent (pos index)) ≡ true
      → below cur.index dirs ≡ some dirs'
      → remove_below below index (suc left) i dirs
        ≡ remove_below below index left (i + 1) (remove_directory i dirs')
  unfolding remove_below
  remove_below_child below index left i dirs dirs' cur e child run =
      rw (e, remove_below) (rw (child, remove_below) (rw (run, remove_below) refl))

  remove_below_other :
      (below : ℕ → Table → Option Table) (index left i : ℕ) (dirs : Table) (cur : Directory)
      → get_elem? dirs i ≡ some cur
      → (dir_exists cur && eqz cur.parent (pos index)) ≡ false
      → remove_below below index (suc left) i dirs ≡ remove_below below index left (i + 1) dirs
  unfolding remove_below
  remove_below_other below index left i dirs cur e other =
      rw (e, remove_below) (rw (other, remove_below) refl)

  Ends-trans :
      (dirs dirs2 : Table) (o o' : Option Table)
      → o ≡ o'
      → length dirs2 ≡ length dirs
      → Ends dirs2 o'
      → Ends dirs o
  Ends-trans dirs dirs2 o o' same len (dirs', run, h, len') = (dirs', same ∙ run, h, len' ∙ len)

  remove_below-Ends :
      (below : ℕ → Table → Option Table) (index : ℕ)
      → ((k : ℕ) (t : Table)
          → depth index < depth k
          → depth k ≤ bound
          → IsRanked t
          → Ends t (below k t))
      → (left i : ℕ) (dirs : Table) → i + left ≡ length dirs
      → IsRanked dirs
      → Ends dirs (remove_below below index left i dirs)
  remove_below-Ends below index ends zero i dirs whole h =
      (dirs, unfold remove_below in refl, h, refl)
  remove_below-Ends below index ends (suc left) i dirs whole h =
      let (cur, e) = get_elem?_inside dirs i (omega (arith, whole)) in
      elim (Bool-cases (dir_exists cur && eqz cur.parent (pos index))) [
        | inl child ↦
            let alive : dir_exists cur ≡ true = ground (arith, child) in
            let up : eqz cur.parent (pos index) ≡ true = ground (arith, child) in
            let (above, most) =
              All-get_elem? IsDeeper dirs i cur h e alive index
                (eqz_eq cur.parent (pos index) up) in
            let (dirs1, run1, h1, len1) = ends cur.index dirs above most h in
            let (h2, len2) = remove_directory-IsRanked i dirs1 h1 in
            Ends-trans dirs (remove_directory i dirs1) (remove_below below index (suc left) i dirs)
              (remove_below below index left (i + 1) (remove_directory i dirs1))
              (remove_below_child below index left i dirs dirs1 cur e child run1)
              (omega (arith, len1, len2))
              (remove_below-Ends below index ends left (i + 1) (remove_directory i dirs1)
                (omega (arith, whole, len1, len2)) h2)
        | inr other ↦
            let (dirs', run, h', len) =
              remove_below-Ends below index ends left (i + 1) dirs (omega (arith, whole)) h in
            (dirs', remove_below_other below index left i dirs cur e other ∙ run, h', len)
      ]

  remove_children-Ends :
      (fuel index : ℕ) (dirs : Table)
      → depth index ≤ bound
      → bound < depth index + fuel
      → IsRanked dirs
      → Ends dirs (remove_children fuel index dirs)
  unfolding remove_children
  remove_children-Ends zero index dirs low enough h = absurd (omega (arith, low, enough))
  remove_children-Ends (suc fuel) index dirs low enough h =
      remove_below-Ends (λ i ds. remove_children fuel i ds) index
        (λ k t above most ranked.
          remove_children-Ends fuel k t most (omega (arith, above, enough)) ranked)
        (length dirs) 0 dirs (omega arith) h

removed_gone :
    (i : ℕ) (dirs : Table) (e : Directory)
    → IsTable dirs
    → (i == 0) ≡ false
    → get_elem? (remove_directory i dirs) i ≡ some e
    → dir_exists e ≡ false
unfolding remove_directory
removed_gone i dirs e valid other at = elim (Option-cases (get_elem? dirs i)) [
  | inl n ↦
      let same : remove_directory i dirs ≡ dirs = rw (n, remove_directory) refl in
      absurd (ground (arith, sym (ap (λ t. get_elem? t i) same) ∙ at, n))
  | inr (d, n) ↦
      let not_root : (d.index == 0) ≡ false = ground (arith, valid.indices i d n, other) in
      let run : remove_directory i dirs ≡ set dirs i (record d { parent = negsuc 1 }) =
        rw (n, remove_directory) (rw not_root refl) in
      let there =
        get_elem?-set dirs i (record d { parent = negsuc 1 }) (inside_of_get_elem? dirs i d n) in
      let one : record d { parent = negsuc 1 } ≡ e =
        some_inj (sym there ∙ sym (ap (λ t. get_elem? t i) run) ∙ at) in
      sym (ap (λ t. dir_exists t) one)
]

-- In a table where every directory is deeper than the one above it, no deeper than there are entries,
-- `dirtree_remove` ends for a path that is found; the table is again such a table, and the entry of the
-- path is not in use, unless it is the root's.
pub dirtree_remove_lem :
    (depth : ℕ → ℕ) (dirs : Table) (path : List ℕ) (i : ℕ) (d : Directory)
    → IsTable dirs
    → IsRanked depth (length dirs) dirs
    → dirtree_find dirs path ≡ some (some i)
    → get_elem? dirs i ≡ some d
    → depth d.index ≤ length dirs
    → (dirs' : Table) × (dirtree_remove dirs path ≡ some dirs')
      × IsTable dirs'
      × IsRanked depth (length dirs) dirs'
      × ((e : Directory) → get_elem? dirs' i ≡ some e → (i == 0) ≡ false → dir_exists e ≡ false)
unfolding dirtree_remove
dirtree_remove_lem depth dirs path i d valid ranked found at low =
    let (dirs1, run, ranked1, len) =
      remove_children-Ends depth (length dirs) (length dirs + 1) d.index dirs low (omega arith)
        ranked in
    let valid1 =
      held IsTable (remove_children (length dirs + 1) d.index dirs) dirs1
        (remove_children-IsTable (length dirs + 1) d.index dirs valid) run in
    let (ranked2, len2) = remove_directory-IsRanked depth (length dirs) i dirs1 ranked1 in
    let ends : dirtree_remove dirs path ≡ some (remove_directory i dirs1) =
      rw (found, dirtree_remove) (rw (at, dirtree_remove) (rw (run, dirtree_remove) refl)) in
    (
      remove_directory i dirs1,
      ends,
      held IsTable (dirtree_remove dirs path) (remove_directory i dirs1)
          (dirtree_remove-IsTable dirs path valid) ends,
      ranked2,
      λ e here other. removed_gone i dirs1 e valid1 other here,
    )
