-- ===== src/MList/Traverse/Copies.antt =====
-- Shared/mlist.c: `mlist_map`, `mlist_filter`, `mlist_reverse` and `mlist_extend`.
use opsys_17b.Base.{
  ℕ, ◌+◌, ◌≡◌, refl, subst, ap, ◌∙◌, ◌≤◌, inl, inr, Bool, true, false, Option, none, some, List, [],
  ◌∷◌, map, arith, length, All, if◌then◌else◌, Bool-cases,
}
use mathlib.Core.List.{reverse_aux, reverse}
use opsys_17b.MList.{Ptr, null, Heap, MList, mlist_create}
use opsys_17b.MList.Chain.{Cells, occurs, Chain, IsMList}
use opsys_17b.MList.Traverse.{
  Growing, growing, append_to, mlist_traverse, mlist_extend, mlist_reverse, mlist_filter, mlist_map,
}
use opsys_17b.MList.Traverse.Laws.{
  elems, Visits, Visits_of_Chain, Visits_back, Unused, Keeps, collect, Builds, Building, builds_lem,
}

collect-map : (f : ℕ → ℕ) (vs : List ℕ) → collect (λ v. some (f v)) vs ≡ map f vs
unfolding collect
collect-map f [] = refl
collect-map f (v ∷ vs) = ap (λ ws. f v ∷ ws) (collect-map f vs)

-- The elements that meet a condition.
unfoldable pub chosen : (ℕ → Bool) → List ℕ → List ℕ
chosen f [] = []
chosen f (v ∷ vs) = let rest = chosen f vs in if f v then v ∷ rest else rest

abbrev wanted : (ℕ → Bool) → ℕ → Option ℕ
wanted f v = if f v then some v else none

collect-wanted : (f : ℕ → Bool) (vs : List ℕ) → collect (wanted f) vs ≡ chosen f vs
unfolding collect chosen
collect-wanted f [] = refl
collect-wanted f (v ∷ vs) = ground (arith, collect-wanted f vs)

collect_all : (vs : List ℕ) → collect (λ v. some v) vs ≡ vs
unfolding collect
collect_all [] = refl
collect_all (v ∷ vs) = ap (λ ws. v ∷ ws) (collect_all vs)

elems-reverse_aux :
    (xs acc : Cells) → elems (reverse_aux xs acc) ≡ reverse_aux (elems xs) (elems acc)
elems-reverse_aux [] acc = refl
elems-reverse_aux (x ∷ xs) acc = elems-reverse_aux xs (x ∷ acc)

length-reverse_aux : (xs acc : Cells) → length (reverse_aux xs acc) ≡ length xs + length acc
length-reverse_aux [] acc = omega arith
length-reverse_aux (x ∷ xs) acc = omega (arith, length-reverse_aux xs (x ∷ acc))

Chain-Keeps :
    (h g : Heap) (prev : Ptr) (xs : Cells) (stop : Ptr)
    → Keeps h g []
    → Chain h prev xs stop
    → Chain g prev xs stop
Chain-Keeps h g prev [] stop same c = tt
Chain-Keeps h g prev ((p, v) ∷ xs) stop same (ne, e, c) =
    (ne, same p _ e refl, Chain-Keeps h g p xs stop same c)

empty_list : (h : Heap) → IsMList h mlist_create []
unfolding mlist_create
empty_list h = record {
  chain = tt;
  head_lem = refl;
  tail_lem = refl;
  length_lem = refl;
  distinct = tt;
}

free_of_Unused : (h : Heap) (mem : List Ptr) → Unused h mem → All (λ a. h a ≡ none) mem
free_of_Unused h [] u = tt
free_of_Unused h (a ∷ mem) (ne, free, once, u) = (free, free_of_Unused h mem u)

empty-Building :
    (h : Heap) (own : Cells) (l : MList) (mem : List Ptr)
    → IsMList h l own
    → Unused h mem
    → Building h own h l own mem
empty-Building h own l mem is u = record {
  is = is;
  keeps = λ a n e o. e;
  fresh = λ a n e o. o;
  unused = u;
  free = free_of_Unused h mem u;
}

module _ (h : Heap) (l : MList) (xs : Cells) (mem : List Ptr) (is : IsMList h l xs)
    (unused : Unused h mem) (enough : length xs ≤ length mem) where
  -- A new list with these elements, and the old one as it was.
  abbrev pub Copies : List ℕ → Option (Growing × Heap) → Type 0
  Copies es run =
      (l' : MList) × (h' : Heap) × (new : Cells) × (mem' : List Ptr) × (run
        ≡ some (growing mem' l', h'))
      × IsMList h' l' new
      × (elems new ≡ es)
      × IsMList h' l xs

  Copies-of_Builds :
      (es : List ℕ) (run : Option (Growing × Heap)) → Builds h [] [] es run → Copies es run
  Copies-of_Builds es run (l', h', new, mem', e, made, same, keeps) = (
    l',
    h',
    new,
    mem',
    e,
    made,
    same,
    record {
      chain = Chain-Keeps h h' null xs null keeps is.chain;
      head_lem = is.head_lem;
      tail_lem = is.tail_lem;
      length_lem = is.length_lem;
      distinct = is.distinct;
    },
  )

  path : Visits h false l.head xs
  path = rw is.head_lem (Visits_of_Chain h null xs is.chain)

  -- `mlist_map` ends on every list, with a new list of the mapped elements in their order.
  pub mlist_map_lem : (f : ℕ → ℕ) → Copies (map f (elems xs)) (mlist_map f mem l h)
  unfolding mlist_map mlist_traverse
  mlist_map_lem f = Copies-of_Builds (map f (elems xs)) _ (
      rw (← collect-map f (elems xs)) (
        builds_lem h [] false (λ g e. append_to g (f e)) (λ v. some (f v)) (λ g e h. refl)
          (l.length + 1) xs l.head h mlist_create [] mem (omega (arith, is.length_lem)) enough path
          (λ a i. refl) (empty-Building h [] mlist_create mem (empty_list h) unused)))

  step_filter :
      (f : ℕ → Bool) (g : Growing) (e : ℕ) (k : Heap)
      → (if f e then append_to g e else (λ m. some (g, m))) k
        ≡ elim (wanted f e) [ none ↦ some (g, k) | some w ↦ append_to g w k ]
  step_filter f g e k = elim (Bool-cases (f e)) [ inl t ↦ rw t | inr t ↦ rw t ]

  -- `mlist_filter` keeps in order the elements that meet the condition.
  pub mlist_filter_lem : (f : ℕ → Bool) → Copies (chosen f (elems xs)) (mlist_filter f mem l h)
  unfolding mlist_filter mlist_traverse
  mlist_filter_lem f = Copies-of_Builds (chosen f (elems xs)) _ (
      rw (← collect-wanted f (elems xs)) (
        builds_lem h [] false _ (wanted f) (step_filter f) (l.length + 1) xs l.head h mlist_create
          [] mem (omega (arith, is.length_lem)) enough path (λ a i. refl)
          (empty-Building h [] mlist_create mem (empty_list h) unused)))

  -- `mlist_reverse`, which walks from the tail, gives the elements from the last to the first.
  pub mlist_reverse_lem : Copies (reverse (elems xs)) (mlist_reverse mem l h)
  unfolding mlist_reverse
  mlist_reverse_lem =
      let back : Visits h true l.tail (reverse_aux xs []) =
        rw is.tail_lem (Visits_back h null xs [] null is.chain refl) in
      let size : length (reverse_aux xs []) ≡ length xs = omega (arith, length-reverse_aux xs []) in
      let all : collect (λ v. some v) (elems (reverse_aux xs [])) ≡ reverse (elems xs) =
        collect_all (elems (reverse_aux xs [])) ∙ elems-reverse_aux xs [] in
      Copies-of_Builds (reverse (elems xs)) _ (
        subst (λ es. Builds h [] [] es (mlist_reverse mem l h)) all
          (builds_lem h [] true append_to (λ v. some v) (λ g e h. refl) (l.length + 1)
            (reverse_aux xs []) l.tail h mlist_create [] mem (omega (arith, is.length_lem, size))
            (omega (arith, size)) back (λ a i. refl)
            (empty-Building h [] mlist_create mem (empty_list h) unused)))

  -- `mlist_extend` of a list that shares no node with the other puts its elements behind its own.
  pub mlist_extend_lem :
      (m : MList) (ys : Cells)
      → IsMList h m ys
      → ((a : Ptr) → occurs a xs ≡ true → occurs a ys ≡ false)
      → Builds h ys ys (elems xs) (mlist_extend mem m l h)
  unfolding mlist_extend mlist_traverse
  mlist_extend_lem m ys im apart = rw (← collect_all (elems xs)) (
      builds_lem h ys false append_to (λ v. some v) (λ g e h. refl) (l.length + 1) xs l.head h m ys
        mem (omega (arith, is.length_lem)) enough path apart (empty-Building h ys m mem im unused))
