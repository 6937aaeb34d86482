-- ===== src/Text/Path.antt =====
-- Shared/path.c: `path_dir` and `path_name` take a path apart, and `path_create` of a `PTYPE_YAMA` path
-- gives one form.
use opsys_17b.Base.{
  ℕ, zero, suc, ◌≡◌, refl, sym, ap, ◌∙◌, true, false, none, some, List, [], ◌∷◌, ◌++◌, arith, ◌==◌,
  All, if◌then◌else◌, length, take, drop, take-append, ◌<◌, ◌≤◌, Bool-cases, inl, inr,
}
use opsys_17b.Text.{
  formatted, mstring_hasprefix, mstring_find, mstring_replace, end_byte, last_slash, path_name,
  path_dir, system_upath, cut_dir, yamafs, path_parts, path_create_yama,
}

abbrev pub NoSlash : List ℕ → Type 0
NoSlash = All (λ c. (c == b'/') ≡ false)

last_slash-none : (n : List ℕ) → NoSlash n → last_slash n ≡ none
unfolding last_slash
last_slash-none [] h = refl
last_slash-none (c ∷ n) h = rw (last_slash-none n h.1, last_slash) (rw h.0)

last_slash-append : (d n : List ℕ) → NoSlash n → last_slash (d ++ (b'/' ∷ n)) ≡ some (length d)
unfolding last_slash
last_slash-append [] n h = rw (last_slash-none n h, last_slash)
last_slash-append (c ∷ d) n h = rw (last_slash-append d n h, last_slash)

drop-append : (d n : List ℕ) (c : ℕ) → drop (suc (length d)) (d ++ (c ∷ n)) ≡ n
drop-append [] n c = refl
drop-append (x ∷ d) n c = drop-append d n c

end_byte-append : (d n : List ℕ) (c x : ℕ) → end_byte (d ++ (c ∷ x ∷ n)) ≡ end_byte (x ∷ n)
end_byte-append [] n c x = refl
end_byte-append (y ∷ []) n c x = refl
end_byte-append (y ∷ z ∷ d) n c x = end_byte-append (z ∷ d) n c x

end_byte-NoSlash : (x : ℕ) (n : List ℕ) → NoSlash (x ∷ n) → (end_byte (x ∷ n) == b'/') ≡ false
end_byte-NoSlash x [] h = h.0
end_byte-NoSlash x (y ∷ n) h = end_byte-NoSlash y n h.1

-- The directory in front of the last slash; the root keeps its slash.
abbrev pub dir_of : List ℕ → List ℕ
dir_of [] = b'/' ∷ []
dir_of (c ∷ d) = c ∷ d

upath_absolute :
    (userdir s : List ℕ) → mstring_hasprefix s (b'/' ∷ []) ≡ true → system_upath userdir s ≡ s
unfolding system_upath
upath_absolute userdir s h = rw (h, system_upath)

find_front : (s sub : List ℕ) → mstring_hasprefix s sub ≡ true → mstring_find s sub ≡ some 0
unfolding mstring_find
find_front [] sub h = rw (h, mstring_find)
find_front (c ∷ s) sub h = rw (h, mstring_find)

cut_dir_lem :
    (d n : List ℕ)
    → mstring_hasprefix (d ++ (b'/' ∷ n)) (b'/' ∷ []) ≡ true
    → last_slash (d ++ (b'/' ∷ n)) ≡ some (length d)
    → cut_dir (d ++ (b'/' ∷ n)) ≡ some (dir_of d)
unfolding cut_dir
cut_dir_lem [] n abs last = rw (last, cut_dir) (rw (find_front (b'/' ∷ n) (b'/' ∷ []) abs, cut_dir))
cut_dir_lem (c ∷ d) n abs last =
    rw (last, cut_dir)
      (rw (find_front (c ∷ d ++ (b'/' ∷ n)) (b'/' ∷ []) abs, cut_dir)
        (let ne : (0 == suc (length d)) ≡ false = ground arith in
          rw ne (ap (λ t. some t) (take-append (c ∷ d) (b'/' ∷ n)))))

-- An absolute path that does not end in a slash is taken apart at its last one.
pub path_dir-path_name :
    (userdir d n : List ℕ)
    → mstring_hasprefix (d ++ (b'/' ∷ n)) (b'/' ∷ []) ≡ true
    → 0 < length n
    → NoSlash n
    → (path_dir userdir (d ++ (b'/' ∷ n)) ≡ some (dir_of d)) × (path_name (d ++ (b'/' ∷ n)) ≡ n)
unfolding path_dir path_name
path_dir-path_name userdir d [] abs lt h = absurd (omega arith)
path_dir-path_name userdir d (x ∷ n) abs lt h =
    let last = last_slash-append d (x ∷ n) h in
    let open_end : (end_byte (d ++ (b'/' ∷ x ∷ n)) == b'/') ≡ false =
      ap (λ c. c == b'/') (end_byte-append d n b'/' x) ∙ end_byte-NoSlash x n h in
    (
      rw (upath_absolute userdir (d ++ (b'/' ∷ x ∷ n)) abs, path_dir)
          (rw open_end (cut_dir_lem d (x ∷ n) abs last)),
      rw (last, path_name) (drop-append d (x ∷ n) b'/'),
    )

take_twice : (n m : ℕ) (s : List ℕ) → n ≤ m → take m (take n s) ≡ take n s
take_twice zero zero s h = refl
take_twice zero (suc m) s h = refl
take_twice (suc n) zero s h = absurd (omega arith)
take_twice (suc n) (suc m) [] h = refl
take_twice (suc n) (suc m) (c ∷ s) h = ap (λ t. c ∷ t) (take_twice n m s (omega arith))

-- A rooted path behind the prefix.
yama_path :
    (t : List ℕ)
    → path_create_yama (formatted (yamafs ++ (b'/' ∷ t))) [] ≡ formatted (yamafs ++ (b'/' ∷ t))
unfolding path_create_yama mstring_replace path_parts formatted mstring_find mstring_hasprefix
yama_path t =
    ap (λ u. yamafs ++ (b'/' ∷ u))
      (ap (λ u. take 1015 u) (take_twice 1015 1022 t (omega arith))
        ∙ take_twice 1015 1015 t (omega arith))

-- The text with a slash in front, if it has none.
abbrev rooted : List ℕ → List ℕ
rooted below = if mstring_hasprefix below (b'/' ∷ []) then below else formatted (b'/' ∷ below)

rooted_lem : (below : List ℕ) → (t : List ℕ) × (rooted below ≡ b'/' ∷ t)
unfolding mstring_hasprefix formatted
rooted_lem [] = ([], refl)
rooted_lem (c ∷ s) = elim (Bool-cases (c == b'/')) [
  | inl e ↦ let same : c ≡ b'/' = ground arith in (s, rw e (rw same))
  | inr e ↦ (take 1022 (c ∷ s), rw e)
]

-- The root without the prefix, and without a dot and slash.
abbrev below_root : List ℕ → List ℕ
below_root root =
    let plain = (mstring_replace root yamafs []).1 in
    if mstring_hasprefix plain (b'.' ∷ b'/' ∷ []) then formatted (drop 2 plain) else plain

path_create_yama-rooted :
    (root : List ℕ) → path_create_yama root [] ≡ formatted (yamafs ++ rooted (below_root root))
unfolding path_create_yama path_parts
path_create_yama-rooted root = refl

-- `path_create` of a `PTYPE_YAMA` path of one part gives "yamafs:/" and a rest, whatever the part, an absolute
-- path too, and a path that it gave stays as it is.
pub path_create_yama_lem :
    (root : List ℕ)
    → (t : List ℕ) × (path_create_yama root [] ≡ yamafs ++ (b'/' ∷ t))
      × (path_create_yama (path_create_yama root []) [] ≡ path_create_yama root [])
unfolding formatted
path_create_yama_lem root =
    let (t, e) = rooted_lem (below_root root) in
    let form = path_create_yama-rooted root ∙ ap (λ u. formatted (yamafs ++ u)) e in
    (take 1015 t, form ∙ cut t, ap (λ u. path_create_yama u []) form ∙ yama_path t ∙ sym form)
  where
    cut : (t : List ℕ) → formatted (yamafs ++ (b'/' ∷ t)) ≡ yamafs ++ (b'/' ∷ take 1015 t)
    cut t = refl
