-- ===== src/Files/Find.antt =====
-- FileSystem/src/filetable.c: `filetable_find` after `filetable_add`.
use opsys_17b.Base.{
  ℕ, ◌+◌, ◌≡◌, sym, ap, ◌∙◌, inl, inr, true, false, Option, none, some, List, [], ◌∷◌, ◌++◌, length,
  All, All-append, Option-cases,
}
use opsys_17b.Text.{mstring_equal, mstring_isempty, mstring_hasprefix}
use opsys_17b.Text.Same.{same_bytes_refl}
use opsys_17b.Dirtree.{Table}
use opsys_17b.YFile.{YFile}
use opsys_17b.Files.{
  ◌>>=◌, find_path, real_file_path, filetable_find, filetable_contains, filetable_add,
}
use opsys_17b.Files.Names.{
  Lacks, Unique, Unique-append, find_path-none, find_path-append, find_path_kept,
}

pub equal_refl : (s : List ℕ) → mstring_equal (some s) (some s) ≡ true
unfolding mstring_equal
equal_refl s = same_bytes_refl s

module _ (userdir : List ℕ) where
  -- A path of the user's system, as the table holds them.
  abbrev pub IsReal : List ℕ → Type 0
  IsReal path = (mstring_hasprefix path userdir ≡ true) × (mstring_isempty (some path) ≡ some false)

  -- Each file has such a path, and no two have the same.
  pub record IsFiles (files : List YFile) : Type 0 where
    pub unique : Unique files
    pub real : All (λ f. (path : List ℕ) × (f.path ≡ some path) × IsReal path) files

  module _ (dirs : Table) where
    pub find_real :
        (files : List YFile) (path : List ℕ)
        → IsReal path
        → filetable_find userdir dirs files path ≡ some (find_path 0 files (some path))
    unfolding filetable_find real_file_path
    find_real files path (prefix, empty) = rw (prefix, filetable_find) (rw empty)

    find_some :
        (files : List YFile) (path : List ℕ) (k : ℕ)
        → IsReal path
        → filetable_find userdir dirs files path ≡ some (some k)
        → find_path 0 files (some path) ≡ some k
    find_some files path k real e =
        let s : some (find_path 0 files (some path)) ≡ some (some k) =
          sym (find_real files path real) ∙ e in
        cc

    -- What `filetable_add` does with the result of its search.
    abbrev add_found : List YFile → YFile → Option ℕ → Option (List YFile)
    add_found files file found = some (elim found [ none ↦ files ++ file ∷ [] | some i ↦ files ])

    add_run :
        (files : List YFile) (file : YFile) (path : List ℕ) (found : Option ℕ)
        → file.path ≡ some path
        → filetable_find userdir dirs files path ≡ some found
        → filetable_add userdir dirs files file ≡ add_found files file found
    unfolding filetable_add
    add_run files file path found named run =
        (λ j. named j >>= λ p. filetable_find userdir dirs files p >>= add_found files file)
        ∙ (λ j. run j >>= add_found files file)

    -- What holds of the table `files'` after `file` was added to `files` under its path.
    pub record AddedFile (files files' : List YFile) (file : YFile) (path : List ℕ) : Type 0 where
      pub is : IsFiles files'
      pub contained : filetable_contains userdir dirs files' path ≡ some true
      pub again : filetable_add userdir dirs files' file ≡ some files'
      pub kept :
          (q : List ℕ) (k : ℕ)
          → IsReal q
          → filetable_find userdir dirs files q ≡ some (some k)
          → filetable_find userdir dirs files' q ≡ some (some k)

    added_of_find :
        (files files' : List YFile) (file : YFile) (path : List ℕ) (k : ℕ)
        → file.path ≡ some path
        → IsReal path
        → IsFiles files'
        → find_path 0 files' (some path) ≡ some k
        → ((q : Option (List ℕ)) (j : ℕ)
            → find_path 0 files q ≡ some j
            → find_path 0 files' q ≡ some j)
        → AddedFile files files' file path
    unfolding filetable_contains
    added_of_find files files' file path k named real is found kept =
        let run : filetable_find userdir dirs files' path ≡ some (some k) =
          find_real files' path real ∙ ap (λ t. some t) found in
        record {
          is = is;
          contained = rw (run, filetable_contains);
          again = add_run files' file path (some k) named run;
          kept = λ q j r e.
              find_real files' q r ∙ ap (λ t. some t) (kept (some q) j (find_some files q j r e));
        }

    -- Adding a file under a real path succeeds: the table then has its path, holds again each path
    -- once, keeps the places of all files that it had, and adding the file again changes nothing.
    pub filetable_add_lem :
        (files : List YFile) (file : YFile) (path : List ℕ)
        → IsFiles files
        → file.path ≡ some path
        → IsReal path
        → (files' : List YFile) × (filetable_add userdir dirs files file ≡ some files')
          × AddedFile files files' file path
    filetable_add_lem files file path is named real =
        elim (Option-cases (find_path 0 files (some path))) [
          | inr (k, found) ↦
              let run : filetable_find userdir dirs files path ≡ some (some k) =
                find_real files path real ∙ ap (λ t. some t) found in
              (
                files,
                add_run files file path (some k) named run,
                added_of_find files files file path k named real is found (λ q j e. e),
              )
          | inl nowhere ↦
              let run : filetable_find userdir dirs files path ≡ some none =
                find_real files path real ∙ ap (λ t. some t) nowhere in
              let out : Lacks (some path) files = find_path-none 0 files (some path) nowhere in
              let same : mstring_equal file.path (some path) ≡ true = rw named (equal_refl path) in
              let is' : IsFiles (files ++ file ∷ []) = record {
                unique = Unique-append files file is.unique (rw named out);
                real = All-append _ files (file ∷ []) is.real (((path, named, real), tt));
              } in
              (
                files ++ file ∷ [],
                add_run files file path none named run,
                added_of_find files (files ++ file ∷ []) file path (0 + length files) named real is'
                    (find_path-append 0 files file (some path) out same)
                    (λ q j e. find_path_kept 0 j files (file ∷ []) q e),
              )
        ]
