-- ===== src/Dirtree/Entries.antt =====
-- FileSystem/src/dirtree.c: searches of the table, and what a new entry leaves of them.
use opsys_17b.Base.{
  ℕ, zero, suc, ◌+◌, ◌≡◌, refl, sym, ap, ◌∙◌, inl, inr, Bool, true, false, not, none, some, List,
  [], ◌∷◌, arith, ◌==◌, ltb, if◌then◌else◌, length, get_elem?, set, get_elem?-set,
  get_elem?-set_other, inside_of_get_elem?, ◌≤◌, ◌<◌, Bool-cases, Option-cases, ℤ, pos, negsuc,
}
use opsys_17b.Text.Same.{same_bytes_eq, same_bytes_refl}
use opsys_17b.Dirtree.{
  Directory, Table, dir_exists, eqz, find_where, is_named, find_dir_by_name, fill_entry,
  add_directory,
}

module _ (fits : Directory → Bool) where
  -- A search that finds an entry.
  pub find_where-some :
      (dirs : Table) (i : ℕ)
      → find_where fits dirs ≡ some i
      → (d : Directory) × (get_elem? dirs i ≡ some d) × (fits d ≡ true)
  unfolding find_where
  find_where-some [] i h = absurd (ground (arith, h))
  find_where-some (x ∷ dirs) i h = elim (Bool-cases (fits x)) [
    | inl e ↦ let z : i ≡ 0 = ground (arith, e, h) in (x, rw z, e)
    | inr e ↦ elim (Option-cases (find_where fits dirs)) [
      | inl n ↦ absurd (ground (arith, e, h, n))
      | inr (j, s) ↦
          let (d, at_d, ok) = find_where-some dirs j s in
          let z : i ≡ suc j = ground (arith, e, h, s) in (d, rw z at_d, ok)
    ]
  ]

  -- Writing an entry that the search passes, before and after.
  pub find_where-set :
      (dirs : Table) (j : ℕ) (old new : Directory)
      → get_elem? dirs j ≡ some old
      → fits old ≡ false
      → fits new ≡ false
      → find_where fits (set dirs j new) ≡ find_where fits dirs
  unfolding find_where
  find_where-set [] j old new e a b = refl
  find_where-set (x ∷ dirs) zero old new e a b = let same : x ≡ old = cc in rw same (rw a (rw b))
  find_where-set (x ∷ dirs) (suc j) old new e a b = rw (find_where-set dirs j old new e a b)

  -- Writing the only entry that the search finds.
  pub find_where-set_found :
      (dirs : Table) (j : ℕ) (old new : Directory)
      → get_elem? dirs j ≡ some old
      → find_where fits dirs ≡ none
      → fits new ≡ true
      → find_where fits (set dirs j new) ≡ some j
  unfolding find_where
  find_where-set_found [] j old new e n b = absurd (ground (arith, e))
  find_where-set_found (x ∷ dirs) zero old new e n b = rw b
  find_where-set_found (x ∷ dirs) (suc j) old new e n b = elim (Bool-cases (fits x)) [
    | inl f ↦ absurd (ground (arith, n, f))
    | inr f ↦ elim (Option-cases (find_where fits dirs)) [
      | inl n' ↦ rw f (rw (find_where-set_found dirs j old new e n' b))
      | inr (k, s) ↦ absurd (ground (arith, n, f, s))
    ]
  ]

pub eqz_eq : (a b : ℤ) → eqz a b ≡ true → a ≡ b
eqz_eq (pos a) (pos b) h = ground (arith, h)
eqz_eq (pos a) (negsuc b) h = absurd (ground (arith, h))
eqz_eq (negsuc a) (pos b) h = absurd (ground (arith, h))
eqz_eq (negsuc a) (negsuc b) h = ground (arith, h)

eqz_refl : (a : ℤ) → eqz a a ≡ true
eqz_refl (pos a) = ground arith
eqz_refl (negsuc a) = ground arith

-- The entries that are not in use.
unfoldable pub free : Table → ℕ
free [] = 0
free (d ∷ dirs) = (if dir_exists d then 0 else 1) + free dirs

free-some :
    (dirs : Table) → 0 < free dirs → (i : ℕ) × (find_where (λ d. not (dir_exists d)) dirs ≡ some i)
unfolding free find_where
free-some [] h = absurd (omega arith)
free-some (x ∷ dirs) h = elim (Bool-cases (dir_exists x)) [
  | inl e ↦ let (i, f) = free-some dirs (ground (arith, e, h)) in (suc i, rw e (rw f))
  | inr e ↦ (0, rw e)
]

free-set : (dirs : Table) (j : ℕ) (new : Directory) → free dirs ≤ suc (free (set dirs j new))
unfolding free
free-set [] j new = omega arith
free-set (x ∷ dirs) zero new = ground arith
free-set (x ∷ dirs) (suc j) new = ground (arith, free-set dirs j new)

-- What holds of the table after an entry was added: every name that was found is found at the same
-- place, places keep their index, and one entry at most was taken.
pub record IsKept (dirs dirs' : Table) : Type 0 where
  pub finds :
      (name : List ℕ) (parent : ℤ) (i : ℕ)
      → find_dir_by_name name parent dirs ≡ some i
      → find_dir_by_name name parent dirs' ≡ some i
  pub indices :
      (i : ℕ) (d : Directory)
      → get_elem? dirs i ≡ some d
      → (d' : Directory) × (get_elem? dirs' i ≡ some d') × (d'.index ≡ d.index)

pub IsKept-refl : (dirs : Table) → IsKept dirs dirs
IsKept-refl dirs = record { finds = λ n p i e. e; indices = λ i d e. (d, e, refl) }

pub IsKept-trans : (a b c : Table) → IsKept a b → IsKept b c → IsKept a c
IsKept-trans a b c k l = record {
  finds = λ n p i e. l.finds n p i (k.finds n p i e);
  indices = λ i d e.
      let (d', e', s) = k.indices i d e in
      let (d'', e'', s') = l.indices i d' e' in (d'', e'', s' ∙ s);
}

module _ (name : List ℕ) (parent : ℤ) (short : length name ≤ 254)
    (live : dir_exists (record { index = 0; name = name; parent = parent }) ≡ true) where
  module _ (dirs : Table) (j : ℕ) (old : Directory) (at_j : get_elem? dirs j ≡ some old)
      (unused : dir_exists old ≡ false) (absent : find_dir_by_name name parent dirs ≡ none) where
    entry : Directory
    entry = record old { name = name; parent = parent }

    found_entry : find_dir_by_name name parent (set dirs j entry) ≡ some j
    unfolding entry
    found_entry =
        let a = same_bytes_refl name in
        let b = eqz_refl parent in
        find_where-set_found (is_named name parent) dirs j old entry at_j absent (rw live (rw a b))

    IsKept-entry : IsKept dirs (set dirs j entry)
    unfolding entry
    IsKept-entry = record {
      finds = λ n p i e. elim (Bool-cases (is_named n p entry)) [
        | inl hit ↦ absurd (clash n p i e (hit_name n p hit) (hit_parent n p hit))
        | inr miss ↦ find_where-set (is_named n p) dirs j old entry at_j (unused_miss n p) miss ∙ e
      ];
      indices = λ i d e. elim (Bool-cases (j == i)) [
        | inl same ↦
            let z : j ≡ i = ground (arith, same) in
            let at : get_elem? dirs j ≡ some d = rw z e in
            let one : old ≡ d = some_eq (sym at_j ∙ at) in
            (
              entry,
              rw⁻¹ z (get_elem?-set dirs j entry (inside_of_get_elem? dirs j old at_j)),
              ap (λ (t : Directory). t.index) one,
            )
        | inr other ↦ (d, get_elem?-set_other dirs j i entry other ∙ e, refl)
      ];
    }
      where
        unused_miss : (n : List ℕ) (p : ℤ) → is_named n p old ≡ false
        unused_miss n p = rw unused

        hit_name : (n : List ℕ) (p : ℤ) → is_named n p entry ≡ true → name ≡ n
        hit_name n p h = same_bytes_eq name n (ground (arith, h))

        hit_parent : (n : List ℕ) (p : ℤ) → is_named n p entry ≡ true → parent ≡ p
        hit_parent n p h = eqz_eq parent p (ground (arith, h))

        clash :
            (n : List ℕ) (p : ℤ) (i : ℕ)
            → find_dir_by_name n p dirs ≡ some i
            → name ≡ n
            → parent ≡ p
            → ⊥
        clash n p i e a b = ground (
          arith,
          e,
          absent,
          ap (λ t. find_dir_by_name t parent dirs) a,
          ap (λ t. find_dir_by_name n t dirs) b,
        )

        some_eq : {x y : Directory} → some x ≡ some y → x ≡ y
        some_eq e = cc

  -- With a free entry and a name that fits, `add_directory` finds or makes the directory, and then
  -- the search by its name finds it.
  pub add_directory_lem :
      (dirs : Table)
      → 0 < free dirs
      → (dirs' : Table) × (j : ℕ) × (add_directory name parent dirs ≡ some (dirs', j))
        × (find_dir_by_name name parent dirs' ≡ some j)
        × IsKept dirs dirs'
        × (free dirs ≤ suc (free dirs'))
  unfolding add_directory fill_entry
  add_directory_lem dirs some_free = elim (Option-cases (find_dir_by_name name parent dirs)) [
    | inr (i, e) ↦ (dirs, i, rw (e, add_directory), e, IsKept-refl dirs, omega arith)
    | inl e ↦
        let (j, f) = free-some dirs some_free in
        let (old, at_j, fit) = find_where-some (λ d. not (dir_exists d)) dirs j f in
        let unused : dir_exists old ≡ false = ground (arith, fit) in
        let fits : ltb 254 (length name) ≡ false = ground arith in
        (
          set dirs j (record old { name = name; parent = parent }),
          j,
          rw (e, add_directory) (rw (f, fill_entry) (rw (at_j, fill_entry) (rw fits))),
          found dirs j old at_j unused e,
          kept dirs j old at_j unused e,
          free-set dirs j (record old { name = name; parent = parent }),
        )
  ]
    where
      found :
          (dirs : Table) (j : ℕ) (old : Directory)
          → get_elem? dirs j ≡ some old
          → dir_exists old ≡ false
          → find_dir_by_name name parent dirs ≡ none
          → find_dir_by_name name parent (set dirs j (record old { name = name; parent = parent }))
            ≡ some j
      found dirs j old a b c = unfold entry in found_entry dirs j old a b c

      kept :
          (dirs : Table) (j : ℕ) (old : Directory)
          → get_elem? dirs j ≡ some old
          → dir_exists old ≡ false
          → find_dir_by_name name parent dirs ≡ none
          → IsKept dirs (set dirs j (record old { name = name; parent = parent }))
      kept dirs j old a b c = unfold entry in IsKept-entry dirs j old a b c
