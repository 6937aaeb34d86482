-- ===== src/Files/Names.antt =====
-- FileSystem/src/filetable.c: no two files of the table have one path, and each is under the user's
-- directory.
use opsys_17b.Base.{
  ℕ, zero, suc, ◌+◌, ◌≡◌, refl, ◌∙◌, inl, inr, true, false, Option, none, some, List, [], ◌∷◌, ◌++◌,
  arith, length, get_elem?, set, All, All-append, All-set, All-get_elem?, Bool-cases, some_inj,
  subst,
}
use opsys_17b.Serial.{same_bytes}
use opsys_17b.Text.{mstring_equal}
use opsys_17b.YFile.{YFile}
use opsys_17b.Files.{find_path, with_path}

pub same_bytes_comm : (s t : List ℕ) → same_bytes s t ≡ same_bytes t s
same_bytes_comm [] [] = refl
same_bytes_comm [] (d ∷ t) = refl
same_bytes_comm (c ∷ s) [] = refl
same_bytes_comm (c ∷ s) (d ∷ t) = ground (arith, same_bytes_comm s t)

pub mstring_equal_comm : (s t : Option (List ℕ)) → mstring_equal s t ≡ mstring_equal t s
unfolding mstring_equal
mstring_equal_comm none none = refl
mstring_equal_comm none (some t) = refl
mstring_equal_comm (some s) none = refl
mstring_equal_comm (some s) (some t) = same_bytes_comm s t

-- No file of the table has the path.
abbrev pub Lacks : Option (List ℕ) → List YFile → Type 0
Lacks path = All (λ g. mstring_equal g.path path ≡ false)

abbrev pub Unique : List YFile → Type 0
Unique [] = Unit {0}
Unique (f ∷ fs) = Lacks f.path fs × Unique fs

pub Unique-append :
    (fs : List YFile) (f : YFile) → Unique fs → Lacks f.path fs → Unique (fs ++ f ∷ [])
Unique-append [] f u out = (tt, tt)
Unique-append (g ∷ fs) f u out = (
  All-append (λ k. mstring_equal k.path g.path ≡ false) fs (f ∷ []) u.0
      ((mstring_equal_comm f.path g.path ∙ out.0, tt)),
  Unique-append fs f u.1 out.1,
)

pub Unique-set :
    (fs : List YFile) (i : ℕ) (path : List ℕ) (f : YFile)
    → Unique fs
    → Lacks (some path) fs
    → Unique (set fs i (with_path path f))
Unique-set [] i path f u out = u
Unique-set (g ∷ fs) zero path f u out = (out.1, u.1)
Unique-set (g ∷ fs) (suc i) path f u out = (
  All-set (λ k. mstring_equal k.path g.path ≡ false) fs i (with_path path f) u.0
      (mstring_equal_comm (some path) g.path ∙ out.0),
  Unique-set fs i path f u.1 out.1,
)

-- `mlist_find` of a path that no file has, and of one that a file has.
pub find_path-none :
    (i : ℕ) (fs : List YFile) (path : Option (List ℕ)) → find_path i fs path ≡ none → Lacks path fs
unfolding find_path
find_path-none i [] path e = tt
find_path-none i (f ∷ fs) path e = elim (Bool-cases (mstring_equal f.path path)) [
  | inl same ↦ absurd (ground (arith, same, e))
  | inr other ↦
      let rest : find_path (i + 1) fs path ≡ none = rw (other, find_path) at e in
      (other, find_path-none (i + 1) fs path rest)
]

pub find_path-append :
    (i : ℕ) (fs : List YFile) (f : YFile) (path : Option (List ℕ))
    → Lacks path fs
    → mstring_equal f.path path ≡ true
    → find_path i (fs ++ f ∷ []) path ≡ some (i + length fs)
unfolding find_path
find_path-append i [] f path out here =
    let e : i + 0 ≡ i = omega arith in rw (here, find_path) (rw e)
find_path-append i (g ∷ fs) f path out here =
    let e : i + suc (length fs) ≡ i + 1 + length fs = omega arith in
    rw (out.0, find_path) (rw e (find_path-append (i + 1) fs f path out.1 here))

pub find_path_kept :
    (i k : ℕ) (fs gs : List YFile) (path : Option (List ℕ))
    → find_path i fs path ≡ some k
    → find_path i (fs ++ gs) path ≡ some k
unfolding find_path
find_path_kept i k [] gs path e = absurd (ground (arith, e))
find_path_kept i k (f ∷ fs) gs path e = elim (Bool-cases (mstring_equal f.path path)) [
  | inl same ↦ rw (same, find_path) (rw (same, find_path) at e)
  | inr other ↦
      rw (other, find_path) (find_path_kept (i + 1) k fs gs path (rw (other, find_path) at e))
]

pub find_path-set :
    (i k : ℕ) (fs : List YFile) (path : List ℕ) (f g : YFile)
    → Lacks (some path) fs
    → get_elem? fs k ≡ some g
    → mstring_equal (some path) (some path) ≡ true
    → find_path i (set fs k (with_path path f)) (some path) ≡ some (i + k)
unfolding find_path
find_path-set i k [] path f g out at_k same = absurd (ground (arith, at_k))
find_path-set i zero (h ∷ fs) path f g out at_k same =
    let e : i + 0 ≡ i = omega arith in rw (same, find_path) (rw e)
find_path-set i (suc k) (h ∷ fs) path f g out at_k same =
    let e : i + suc k ≡ i + 1 + k = omega arith in
    rw (out.0, find_path) (rw e (find_path-set (i + 1) k fs path f g out.1 at_k same))

pub find_path-Lacks :
    (i : ℕ) (fs : List YFile) (path : Option (List ℕ)) → Lacks path fs → find_path i fs path ≡ none
unfolding find_path
find_path-Lacks i [] path out = refl
find_path-Lacks i (f ∷ fs) path out = rw (out.0, find_path) (find_path-Lacks (i + 1) fs path out.1)

Lacks-at :
    (fs : List YFile) (i : ℕ) (f : YFile) (path : Option (List ℕ))
    → Lacks path fs
    → get_elem? fs i ≡ some f
    → mstring_equal f.path path ≡ false
Lacks-at fs i f path out at_i =
    All-get_elem? (λ g. mstring_equal g.path path ≡ false) fs i f out at_i

-- The old path of a file that is renamed is gone.
pub Lacks-set :
    (fs : List YFile) (i : ℕ) (f : YFile) (path : List ℕ)
    → Unique fs
    → get_elem? fs i ≡ some f
    → mstring_equal (some path) f.path ≡ false
    → Lacks f.path (set fs i (with_path path f))
Lacks-set [] i f path u at_i other = tt
Lacks-set (g ∷ fs) zero f path u at_i other =
    let same : g ≡ f = some_inj at_i in (other, subst (λ (h : YFile). Lacks h.path fs) same u.0)
Lacks-set (g ∷ fs) (suc i) f path u at_i other = (
  mstring_equal_comm g.path f.path ∙ Lacks-at fs i f g.path u.0 at_i,
  Lacks-set fs i f path u.1 at_i other,
)
