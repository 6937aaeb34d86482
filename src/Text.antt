-- ===== src/Text.antt =====
-- Shared/mstring.c, and of Shared/path.c what only computes with texts. A `char *` is the list of its
-- bytes, none of them NUL, and `none` for it is NULL. Where a function returns an option, `none` is a
-- fault: an access outside the text. `strstr`, `strrchr`, `strncmp`, `strcmp` and the formats `%s` are
-- those of the C library.
pub mod Same
pub mod Find
pub mod Pieces
pub mod Order
pub mod Path
mod Tests
use opsys_17b.Base.{
  drop, ℕ, zero, suc, ◌+◌, ◌-◌, Bool, true, false, not, ◌||◌, ◌&&◌, Option, none, some, List, [],
  ◌∷◌, ◌++◌, map, ◌==◌, leb, ltb, if◌then◌else◌, length, take, ℤ, pos, negsuc,
}
use opsys_17b.Serial.{same_bytes}

-- `create_format_template`: `vsnprintf` into a buffer of `MSTRING_MAXSIZE` bytes keeps one for NUL.
unfoldable pub formatted : List ℕ → List ℕ
formatted s = take 1023 s

-- `mstring_equal`
unfoldable pub mstring_equal : Option (List ℕ) → Option (List ℕ) → Bool
mstring_equal none none = true
mstring_equal none (some t) = false
mstring_equal (some s) none = false
mstring_equal (some s) (some t) = same_bytes s t

-- `isspace` in the C locale.
abbrev pub isspace : ℕ → Bool
isspace c = (c == 32) || (leb 9 c && leb c 13)

abbrev pub all_space : List ℕ → Bool
all_space [] = true
all_space (c ∷ cs) = isspace c && all_space cs

-- `mstring_isempty`: NULL, or nothing is left of the trimmed text. Trimming a text of spaces alone, the
-- walk back from its end does not meet the other walk, and leaves the text at its front.
unfoldable pub mstring_isempty : Option (List ℕ) → Option Bool
mstring_isempty none = some true
mstring_isempty (some []) = some true
mstring_isempty (some (c ∷ cs)) = if all_space (c ∷ cs) then none else some false

-- `mstring_equali`, by `strcasecmp`.
abbrev pub tolower : ℕ → ℕ
tolower c = if leb b'A' c && leb c b'Z' then c + 32 else c

unfoldable pub mstring_equali : Option (List ℕ) → Option (List ℕ) → Bool
mstring_equali none none = true
mstring_equali none (some t) = false
mstring_equali (some s) none = false
mstring_equali (some s) (some t) = same_bytes (map tolower s) (map tolower t)

unfoldable pub mstring_hasprefix : List ℕ → List ℕ → Bool
mstring_hasprefix s [] = true
mstring_hasprefix [] (p ∷ ps) = false
mstring_hasprefix (c ∷ s) (p ∷ ps) = if c == p then mstring_hasprefix s ps else false

-- With a suffix longer than the text, the comparison starts in front of it.
unfoldable pub mstring_hassuffix : List ℕ → List ℕ → Option Bool
mstring_hassuffix s suffix =
    if ltb (length s) (length suffix)
    then none
    else some (same_bytes (drop (length s - length suffix) s) suffix)

-- `mstring_find`: where the substring begins, `none` for NULL.
unfoldable pub mstring_find : List ℕ → List ℕ → Option ℕ
mstring_find [] sub = if mstring_hasprefix [] sub then some 0 else none
mstring_find (c ∷ s) sub =
    let rest = mstring_find s sub in
    if mstring_hasprefix (c ∷ s) sub
    then some 0
    else elim rest [ none ↦ none | some i ↦ some (suc i) ]

unfoldable pub mstring_contains : List ℕ → List ℕ → Bool
mstring_contains s sub = elim (mstring_find s sub) [ none ↦ false | some i ↦ true ]

unfoldable pub mstring_index : List ℕ → List ℕ → ℤ
mstring_index s sub = elim (mstring_find s sub) [ none ↦ negsuc 0 | some i ↦ pos i ]

-- The loop of `mstring_count` on fuel. It does not end for an empty substring.
unfoldable pub count_loop : ℕ → List ℕ → List ℕ → Option ℕ
count_loop zero s sub = none
count_loop (suc fuel) s sub = elim (mstring_find s sub) [
  | none ↦ some 0
  | some i ↦ elim (count_loop fuel (drop (i + length sub) s) sub) [
    | none ↦ none
    | some n ↦ some (suc n)
  ]
]

-- A round takes a byte of the text at least.
unfoldable pub mstring_count : List ℕ → List ℕ → Option ℕ
mstring_count s sub = count_loop (length s + 1) s sub

-- `mstring_copy`: the precision of `%.*s` counts only if it is not negative.
unfoldable pub mstring_copy : List ℕ → ℕ → ℤ → Option (List ℕ)
mstring_copy s start end =
    if ltb (length s) start
    then none
    else some (
        formatted (elim end [
          | pos n ↦ if ltb n start then drop start s else take (n - start) (drop start s)
          | negsuc n ↦
              if ltb (length s) (suc n + start)
              then drop start s
              else take (length s - suc n - start) (drop start s)
        ]))

unfoldable pub mstring_crop : List ℕ → ℕ → List ℕ
mstring_crop s n = if leb (length s) n then s else formatted (take n s)

-- `mstring_replace`: whether it did, and the text.
unfoldable pub mstring_replace : List ℕ → List ℕ → List ℕ → Bool × List ℕ
mstring_replace s sub replacement = elim (mstring_find s sub) [
  | none ↦ (false, s)
  | some i ↦ (true, formatted (formatted (take i s) ++ (replacement ++ drop (i + length sub) s)))
]

-- `strcmp` of the two is at most 0.
unfoldable pub mstring_asc : List ℕ → List ℕ → Bool
mstring_asc [] t = true
mstring_asc (c ∷ s) [] = false
mstring_asc (c ∷ s) (d ∷ t) = if ltb c d then true else if c == d then mstring_asc s t else false

unfoldable pub mstring_desc : List ℕ → List ℕ → Bool
mstring_desc s t = mstring_asc t s

-- The byte at `mstring_end`, and the text with NUL written there.
abbrev pub end_byte : List ℕ → ℕ
end_byte [] = 0
end_byte (c ∷ []) = c
end_byte (c ∷ d ∷ s) = end_byte (d ∷ s)

abbrev pub cut_end : List ℕ → List ℕ
cut_end s = take (length s - 1) s

-- `strrchr` of a slash.
unfoldable pub last_slash : List ℕ → Option ℕ
last_slash [] = none
last_slash (c ∷ s) = elim (last_slash s) [
  | none ↦ if c == b'/' then some 0 else none
  | some i ↦ some (suc i)
]

unfoldable pub path_name : List ℕ → List ℕ
path_name s = elim (last_slash s) [ none ↦ s | some i ↦ drop (suc i) s ]

-- "yamafs:"
abbrev pub yamafs : List ℕ
yamafs = b'y' ∷ b'a' ∷ b'm' ∷ b'a' ∷ b'f' ∷ b's' ∷ b':' ∷ []

-- `system_upath`, with what `system_userdir` returns.
unfoldable pub system_upath : List ℕ → List ℕ → List ℕ
system_upath userdir s =
    if mstring_hasprefix s (b'/' ∷ []) || mstring_hasprefix s yamafs
    then s
    else formatted (userdir ++ (b'/' ∷ s))

-- `path_dir` from the slash search on. A text without a slash faults: the address after NULL.
unfoldable pub cut_dir : List ℕ → Option (List ℕ)
cut_dir s = elim (last_slash s) [
  | none ↦ none
  | some i ↦ elim (mstring_find s (b'/' ∷ [])) [
    | none ↦ none
    | some j ↦ some (take (if j == i then suc i else i) s)
  ]
]

unfoldable pub path_dir : List ℕ → List ℕ → Option (List ℕ)
path_dir userdir s =
    let u = system_upath userdir s in
    if end_byte u == b'/'
    then elim (mstring_count u (b'/' ∷ [])) [
      | none ↦ none
      | some n ↦ if n == 1 then some u else cut_dir (cut_end u)
    ]
    else cut_dir u

abbrev pub without_slash : List ℕ → Option (List ℕ)
without_slash s = elim (mstring_hassuffix s (b'/' ∷ [])) [
  | none ↦ none
  | some slash ↦ some (if slash then cut_end s else s)
]

-- The case of the letters makes no difference.
unfoldable pub path_equal : List ℕ → List ℕ → Option Bool
path_equal p q = elim (without_slash p) [
  | none ↦ none
  | some p' ↦ elim (without_slash q) [
    | none ↦ none
    | some q' ↦ some (mstring_equali (some p') (some q'))
  ]
]

-- One more part of a path in `_path_create`.
unfoldable pub path_part : List ℕ → List ℕ → List ℕ
path_part path part =
    let head = if end_byte path == b'/' then cut_end path else path in
    let tail = if mstring_hasprefix part (b'/' ∷ []) then drop 1 part else part in
    formatted (head ++ (b'/' ∷ tail))

unfoldable pub path_parts : List ℕ → List (List ℕ) → List ℕ
path_parts path [] = path
path_parts path (part ∷ parts) = path_parts (path_part path part) parts

-- `_path_create` of a `PTYPE_YAMA` path of one part or more.
unfoldable pub path_create_yama : List ℕ → List (List ℕ) → List ℕ
path_create_yama root parts =
    let (_, plain) = mstring_replace root yamafs [] in
    let below =
      if mstring_hasprefix plain (b'.' ∷ b'/' ∷ []) then formatted (drop 2 plain) else plain in
    let rooted = if mstring_hasprefix below (b'/' ∷ []) then below else formatted (b'/' ∷ below) in
    path_parts (formatted (yamafs ++ rooted)) parts
