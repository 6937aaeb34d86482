-- ===== src/Text/Tests.antt =====
-- Shared/mstring.c and Shared/path.c on short texts.
use opsys_17b.Base.{
  ℕ, suc, ◌≡◌, refl, true, none, some, List, [], ◌∷◌, ◌++◌, arith, length, All, pos, negsuc,
}
use opsys_17b.Text.{
  formatted, mstring_equali, mstring_hasprefix, mstring_hassuffix, mstring_find, mstring_contains,
  mstring_index, count_loop, mstring_count, mstring_copy, mstring_crop, mstring_replace, last_slash,
  path_name, path_dir, path_equal, path_part, path_parts, path_create_yama, yamafs, system_upath,
  cut_dir,
}
use opsys_17b.Text.Find.{Replaced, mstring_replace_lem}
use opsys_17b.Text.Pieces.{join, Lacks, mstring_count_lem}
use opsys_17b.Text.Path.{path_dir-path_name, path_create_yama_lem}

-- "/a/bc"
abbrev path_abc : List ℕ
path_abc = b'/' ∷ b'a' ∷ b'/' ∷ b'b' ∷ b'c' ∷ []

-- "aa"
abbrev two_a : List ℕ
two_a = b'a' ∷ b'a' ∷ []

-- "aaaa"
abbrev four_a : List ℕ
four_a = b'a' ∷ b'a' ∷ b'a' ∷ b'a' ∷ []

search_run :
    (mstring_index path_abc (b'b' ∷ []) ≡ pos 3)
    × (mstring_index path_abc (b'x' ∷ []) ≡ negsuc 0)
    × (mstring_contains path_abc (b'b' ∷ b'c' ∷ []) ≡ true)
    × (mstring_count four_a two_a ≡ some 2)
    × (mstring_count two_a [] ≡ none)
    × (mstring_hassuffix path_abc (b'b' ∷ b'c' ∷ []) ≡ some true)
    × (mstring_hassuffix two_a path_abc ≡ none)
unfolding mstring_index mstring_find mstring_contains mstring_hasprefix mstring_hassuffix
    mstring_count count_loop
search_run = (refl, refl, refl, refl, refl, refl, refl)

copy_run :
    (mstring_copy path_abc 1 (pos 3) ≡ some (b'a' ∷ b'/' ∷ []))
    × (mstring_copy path_abc 1 (negsuc 0) ≡ some (b'a' ∷ b'/' ∷ b'b' ∷ []))
    × (mstring_copy path_abc 6 (pos 7) ≡ none)
    × (mstring_crop path_abc 2 ≡ b'/' ∷ b'a' ∷ [])
    × (mstring_replace four_a two_a (b'x' ∷ []) ≡ (true, b'x' ∷ b'a' ∷ b'a' ∷ []))
    × (mstring_equali (some (b'A' ∷ [])) (some (b'a' ∷ [])) ≡ true)
unfolding mstring_copy mstring_crop mstring_replace mstring_find mstring_hasprefix formatted
    mstring_equali
copy_run = (refl, refl, refl, refl, refl, refl)

path_run :
    (path_equal (path_abc ++ b'/' ∷ []) path_abc ≡ some true)
    × (path_create_yama (b'a' ∷ []) (path_abc ∷ []) ≡ yamafs ++ (b'/' ∷ b'a' ∷ path_abc))
    × (path_dir [] (b'/' ∷ b'a' ∷ b'/' ∷ []) ≡ some (b'/' ∷ []))
unfolding path_equal mstring_hassuffix mstring_equali path_create_yama path_parts path_part
    mstring_replace mstring_find mstring_hasprefix formatted path_dir system_upath cut_dir
    last_slash mstring_count count_loop
path_run = (refl, refl, refl)

mstring_replace_lem_example :
    Replaced four_a two_a (b'x' ∷ []) (mstring_replace four_a two_a (b'x' ∷ []))
mstring_replace_lem_example = mstring_replace_lem four_a two_a (b'x' ∷ []) (omega arith)

mstring_count_lem_example :
    (n : ℕ) × (ps : List (List ℕ)) × (mstring_count four_a two_a ≡ some n)
    × (length ps ≡ suc n)
    × (join two_a ps ≡ four_a)
    × All (Lacks two_a) ps
mstring_count_lem_example = mstring_count_lem four_a two_a (omega arith)

path_absolute : mstring_hasprefix path_abc (b'/' ∷ []) ≡ true
unfolding mstring_hasprefix
path_absolute = refl

path_dir-path_name_example :
    (path_dir [] path_abc ≡ some (b'/' ∷ b'a' ∷ [])) × (path_name path_abc ≡ b'b' ∷ b'c' ∷ [])
path_dir-path_name_example =
    path_dir-path_name [] (b'/' ∷ b'a' ∷ []) (b'b' ∷ b'c' ∷ []) path_absolute (omega arith)
      (refl, (refl, tt))

path_create_yama_lem_example :
    (t : List ℕ) × (path_create_yama two_a [] ≡ yamafs ++ (b'/' ∷ t))
    × (path_create_yama (path_create_yama two_a []) [] ≡ path_create_yama two_a [])
path_create_yama_lem_example = path_create_yama_lem two_a
