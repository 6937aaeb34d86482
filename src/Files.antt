-- ===== src/Files.antt =====
-- FileSystem/src/filetable.c: the table of files, over the table of directories. The files under
-- `metadata/archivos` that mirror the entries, and moving them there, are left out. `none` is a fault
-- where a result is an option around another. The place of a file in the list stands for its address.
pub mod Blocks
pub mod Names
pub mod Find
pub mod Rename
mod Tests
use opsys_17b.Base.{
  ℕ, zero, suc, ◌+◌, ◌/◌, ◌%◌, ◌^◌, Bool, true, false, Option, none, some, List, [], ◌∷◌, ◌++◌, ltb,
  if◌then◌else◌, length, take, get_elem?, set,
}
use opsys_17b.Text.{
  formatted, mstring_equal, mstring_isempty, mstring_hasprefix, mstring_hassuffix, path_name,
  path_dir, path_equal, path_create_yama,
}
use opsys_17b.Dirtree.{Directory, Table, dirtree_find, dirtree_add}
use opsys_17b.YFile.{YFile}

-- The next step of code that may fault.
infixl 5 ◌>>=◌
abbrev pub ◌>>=◌ : {A B : Type 0} → Option A → (A → Option B) → Option B
o >>= k = elim o [ none ↦ none | some a ↦ k a ]

-- `%i` of a number that is not negative, a digit for each unit of fuel at most.
unfoldable pub digits : ℕ → ℕ → List ℕ
digits zero n = []
digits (suc fuel) n =
    let front = digits fuel (n / 10) in
    if ltb n 10 then (b'0' + n) ∷ [] else front ++ (b'0' + n % 10) ∷ []

unfoldable pub print_int : ℕ → List ℕ
print_int n = digits (n + 1) n

-- "/metadata/archivos"
abbrev pub archivos : List ℕ
archivos =
    b'/' ∷ b'm' ∷ b'e' ∷ b't' ∷ b'a' ∷ b'd' ∷ b'a' ∷ b't' ∷ b'a' ∷ b'/' ∷ b'a' ∷ b'r' ∷ b'c' ∷ b'h'
    ∷ b'i' ∷ b'v' ∷ b'o' ∷ b's' ∷ []

-- `files_dir`: `snprintf` into `PATH_MAX` bytes.
unfoldable pub files_dir : List ℕ → List ℕ
files_dir userdir = take 4095 (userdir ++ archivos)

unfoldable pub path_to_files : List ℕ → Directory → List ℕ
path_to_files userdir d = formatted (files_dir userdir ++ b'/' ∷ print_int d.index)

-- `mlist_find` of a path, from the place `i` on.
unfoldable pub find_path : ℕ → List YFile → Option (List ℕ) → Option ℕ
find_path i [] rpath = none
find_path i (f ∷ fs) rpath =
    let rest = find_path (i + 1) fs rpath in if mstring_equal f.path rpath then some i else rest

abbrev pub with_path : List ℕ → YFile → YFile
with_path path f = record f { path = some path }

-- Where `filetable_move` puts the file: the new path, or its name below it.
unfoldable pub move_path : List ℕ → List ℕ → Option (List ℕ)
move_path path new_path = do
  let npath = path_create_yama new_path []
  suffix ← mstring_hassuffix npath (path_name path)
  some (if suffix then npath else formatted (npath ++ b'/' ∷ path_name path))

-- `mlist_remove` with `yfile_destroy`, by a condition that reads the path of the file itself: behind
-- the file that is destroyed, the path that it reads is freed.
unfoldable pub remove_file : Option (List ℕ) → Bool → List YFile → Option (List YFile)
remove_file path freed [] = some []
remove_file path true (f ∷ fs) = none
remove_file path false (f ∷ fs) = elim (mstring_equal f.path path) [
  | true ↦ remove_file path true fs
  | false ↦ remove_file path false fs >>= λ fs'. some (f ∷ fs')
]

-- `userdir` is what `system_userdir` returns.
module _ (userdir : List ℕ) where
  unfoldable pub dirtree_rpath : Table → List ℕ → Option (Option (List ℕ))
  dirtree_rpath dirs ypath = do
    found ← dirtree_find dirs ypath
    elim found [
      | none ↦ some none
      | some i ↦ get_elem? dirs i >>= λ d. some (some (path_to_files userdir d))
    ]

  unfoldable pub real_file_path : Table → List ℕ → Option (Option (List ℕ))
  real_file_path dirs path = if mstring_hasprefix path userdir then some (some path) else do
    pdir ← path_dir userdir (path_create_yama path [])
    rpath ← dirtree_rpath dirs pdir
    some (elim rpath [ none ↦ none | some r ↦ some (formatted (r ++ b'/' ∷ path_name path)) ])

  unfoldable pub filetable_find : Table → List YFile → List ℕ → Option (Option ℕ)
  filetable_find dirs files path = do
    rpath ← real_file_path dirs path
    empty ← mstring_isempty rpath
    some (if empty then none else find_path 0 files rpath)

  unfoldable pub filetable_contains : Table → List YFile → List ℕ → Option Bool
  filetable_contains dirs files path =
      filetable_find dirs files path >>= λ found. some (elim found [ none ↦ false | some i ↦ true ])

  -- A file that has no path is a fault, as the prefix of NULL is tested.
  unfoldable pub filetable_add : Table → List YFile → YFile → Option (List YFile)
  filetable_add dirs files file = do
    path ← file.path
    found ← filetable_find dirs files path
    some (elim found [ none ↦ files ++ file ∷ [] | some i ↦ files ])

  -- The file `f` at `i` goes to `npath`. If no directory could be added, the real path is NULL, and
  -- `path_move` faults.
  unfoldable pub move_to : Table → List YFile → ℕ → YFile → List ℕ → Option (Table × List YFile)
  move_to dirs files i f npath = do
    dpath ← path_dir userdir npath
    (dirs', d) ← dirtree_add dirs dpath
    rpath ← real_file_path dirs' npath
    elim rpath [ none ↦ none | some r ↦ some (dirs', set files i (with_path r f)) ]

  unfoldable pub filetable_move : Table → List YFile → List ℕ → List ℕ → Option (Table × List YFile)
  filetable_move dirs files path new_path = do
    found ← filetable_find dirs files path
    elim found [
      | none ↦ some (dirs, files)
      | some i ↦ do
        f ← get_elem? files i
        fpath ← f.path
        npath ← move_path fpath new_path
        there ← filetable_contains dirs files npath
        if there then some (dirs, files) else move_to dirs files i f npath
    ]

  unfoldable pub filetable_rename : Table → List YFile → List ℕ → List ℕ → Option (List YFile)
  filetable_rename dirs files path new_name = do
    found ← filetable_find dirs files path
    elim found [
      | none ↦ some files
      | some i ↦ do
        f ← get_elem? files i
        fpath ← f.path
        dir ← path_dir userdir fpath
        let npath = formatted (dir ++ b'/' ∷ new_name)
        there ← filetable_contains dirs files npath
        some (if there then files else set files i (with_path npath f))
    ]

  -- `files_in_path`
  unfoldable pub files_in_dir : List ℕ → List YFile → Option (List YFile)
  files_in_dir rpath [] = some []
  files_in_dir rpath (f ∷ fs) = do
    path ← f.path
    dir ← path_dir userdir path
    equal ← path_equal dir rpath
    rest ← files_in_dir rpath fs
    some (if equal then f ∷ rest else rest)

  unfoldable pub files_in_path : Table → List YFile → List ℕ → Option (List YFile)
  files_in_path dirs files path = do
    rpath ← dirtree_rpath dirs path
    elim rpath [ none ↦ some [] | some r ↦ files_in_dir r files ]

  unfoldable pub filetable_count : Table → List YFile → List ℕ → Option ℕ
  filetable_count dirs files path = files_in_path dirs files path >>= λ fs. some (length fs)

unfoldable pub filetable_size : List YFile → ℕ
filetable_size files = length files

-- `mlist_reduce` adds in an `int`.
unfoldable pub sizes_from : ℕ → List YFile → ℕ
sizes_from sum [] = sum
sizes_from sum (f ∷ fs) = sizes_from ((sum + f.size) % 2 ^ 32) fs

unfoldable pub filetable_totalsize : List YFile → ℕ
filetable_totalsize files = sizes_from 0 files
