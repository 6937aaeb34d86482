-- ===== src/Files/Rename.antt =====
-- FileSystem/src/filetable.c: `filetable_find` after `filetable_rename`.
use opsys_17b.Base.{
  ℕ, ◌+◌, ◌≡◌, refl, sym, subst, ap, ◌∙◌, ◌⊎◌, inl, inr, Bool, true, false, Option, none, some,
  List, ◌∷◌, ◌++◌, arith, if◌then◌else◌, get_elem?, set, All-set, All-get_elem?, Option-cases,
  some_inj,
}
use opsys_17b.Text.{formatted, mstring_equal, path_dir}
use opsys_17b.Dirtree.{Table}
use opsys_17b.YFile.{YFile}
use opsys_17b.Files.{
  ◌>>=◌, find_path, with_path, filetable_find, filetable_contains, filetable_rename,
}
use opsys_17b.Files.Names.{
  Lacks, Unique-set, find_path-none, find_path-set, find_path-Lacks, Lacks-set, mstring_equal_comm,
}
use opsys_17b.Files.Find.{equal_refl, IsReal, IsFiles, find_real}

module _ (userdir : List ℕ) (dirs : Table) where
  abbrev is_found : Option ℕ → Bool
  is_found found = elim found [ none ↦ false | some i ↦ true ]

  contains_lem :
      (files : List YFile) (path : List ℕ) (found : Option ℕ)
      → IsReal userdir path
      → find_path 0 files (some path) ≡ found
      → filetable_contains userdir dirs files path ≡ some (is_found found)
  unfolding filetable_contains
  contains_lem files path found real e = rw (find_real userdir dirs files path real) (rw e)

  -- The run of `filetable_rename` of the file `f` at `i`, up to the last test.
  abbrev renamed : List YFile → ℕ → YFile → List ℕ → Bool → List YFile
  renamed files i f npath there = if there then files else set files i (with_path npath f)

  rename_run :
      (files : List YFile) (path new_name fpath dir : List ℕ) (i : ℕ) (f : YFile) (there : Bool)
      → filetable_find userdir dirs files path ≡ some (some i)
      → get_elem? files i ≡ some f
      → f.path ≡ some fpath
      → path_dir userdir fpath ≡ some dir
      → filetable_contains userdir dirs files (formatted (dir ++ b'/' ∷ new_name)) ≡ some there
      → filetable_rename userdir dirs files path new_name
        ≡ some (renamed files i f (formatted (dir ++ b'/' ∷ new_name)) there)
  unfolding filetable_rename
  rename_run files path new_name fpath dir i f there found at_i named cut test =
      rw (found, filetable_rename)
        (rw at_i (
          (λ j. named j >>= λ p. path_dir userdir p >>= λ d.
          filetable_contains userdir dirs files (formatted (d ++ b'/' ∷ new_name)) >>= λ t.
          some (renamed files i f (formatted (d ++ b'/' ∷ new_name)) t))
          ∙ rw cut (rw test)))

  module _ (files : List YFile) (path new_name fpath dir npath : List ℕ) (i : ℕ) (f : YFile)
      (is : IsFiles userdir files) (found : filetable_find userdir dirs files path ≡ some (some i))
      (at_i : get_elem? files i ≡ some f) (named : f.path ≡ some fpath)
      (cut : path_dir userdir fpath ≡ some dir) (whole : formatted (dir ++ b'/' ∷ new_name) ≡ npath)
      (real : IsReal userdir npath) where
    -- The file has the new path and no longer the old one, or the new path was another file's.
    abbrev pub Outcome : List YFile → Type 0
    Outcome files' =
        ((filetable_contains userdir dirs files npath ≡ some true) × (files' ≡ files))
        ⊎ ((filetable_contains userdir dirs files npath ≡ some false)
            × (filetable_find userdir dirs files' npath ≡ some (some i))
            × (filetable_contains userdir dirs files' fpath ≡ some false))

    -- Renaming a file of the table, to a path that is real, succeeds: the table holds again each path
    -- once, and it is as it was if another file has the new path; else the file is found under
    -- the new path, at its place, and not under its old one.
    pub filetable_rename_lem :
        (files' : List YFile) × (filetable_rename userdir dirs files path new_name ≡ some files')
        × IsFiles userdir files'
        × Outcome files'
    filetable_rename_lem = elim (Option-cases (find_path 0 files (some npath))) [
      | inr (k, there) ↦
          let test : filetable_contains userdir dirs files npath ≡ some true =
            contains_lem files npath (some k) real there in
          (
            files,
            rename_run files path new_name fpath dir i f true found at_i named cut (rw whole test),
            is,
            inl (test, refl),
          )
      | inl nowhere ↦
          let test : filetable_contains userdir dirs files npath ≡ some false =
            contains_lem files npath none real nowhere in
          let out : Lacks (some npath) files = find_path-none 0 files (some npath) nowhere in
          (
            set files i (with_path npath f),
            subst
                (λ p.
                  filetable_rename userdir dirs files path new_name
                  ≡ some (set files i (with_path p f)))
                whole
                (rename_run files path new_name fpath dir i f false found at_i named cut
                  (rw whole test)),
            record {
              unique = Unique-set files i npath f is.unique out;
              real = All-set _ files i (with_path npath f) is.real ((npath, refl, real));
            },
            inr (
              test,
              find_real userdir dirs (set files i (with_path npath f)) npath real
                  ∙ ap (λ t. some t)
                      (find_path-set 0 i files npath f f out at_i (equal_refl npath) ∙ zero-add i),
              contains_lem (set files i (with_path npath f)) fpath none old_real
                  (find_path-Lacks 0 (set files i (with_path npath f)) (some fpath) (gone out)),
            ),
          )
    ]
      where
        zero-add : (k : ℕ) → some (0 + k) ≡ some k
        zero-add k = ap (λ (t : ℕ). some t) (omega arith)

        old_real : IsReal userdir fpath
        old_real =
            let (q, e, r) = All-get_elem? _ files i f is.real at_i in
            let same : q ≡ fpath = some_inj (sym e ∙ named) in subst (IsReal userdir) same r

        gone : Lacks (some npath) files → Lacks (some fpath) (set files i (with_path npath f))
        gone out =
            let other : mstring_equal f.path (some npath) ≡ false =
              All-get_elem? (λ g. mstring_equal g.path (some npath) ≡ false) files i f out at_i in
            subst (λ q. Lacks q (set files i (with_path npath f))) named
              (Lacks-set files i f npath is.unique at_i
                (mstring_equal_comm (some npath) f.path ∙ other))
