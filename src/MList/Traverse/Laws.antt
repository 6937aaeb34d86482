-- ===== src/MList/Traverse/Laws.antt =====
-- Shared/mlist.c: what the traversals that append build, and what they leave alone.
use opsys_17b.Base.{
  ℕ, zero, suc, ◌≡◌, ◌≢◌, refl, ap, ◌∙◌, ◌<◌, ◌≤◌, inl, inr, Bool, true, false, Option, none, some,
  List, [], ◌∷◌, ◌++◌, append_assoc, append-nil, map, arith, ◌==◌, length, All, if◌then◌else◌,
  Bool-cases, Option-cases,
}
use mathlib.Core.List.{reverse_aux}
use opsys_17b.MList.{Ptr, null, Node, node, Heap, MList, ◌>>=◌, M}
use opsys_17b.MList.Chain.{
  Cells, occurs, occurs-append, head_or, last_or, Chain, IsMList, occurs_of_none,
}
use opsys_17b.MList.Insert.{load_lem}
use opsys_17b.MList.Append.{mlist_append_lem}
use opsys_17b.MList.Sort.Seg.{not_null}
use opsys_17b.MList.Traverse.{traverse_nodes, Growing, growing, append_to, skip, every}

abbrev pub elems : Cells → List ℕ
elems = map (λ c. c.1)

-- The nodes that a traversal meets from `p`, forwards or backwards, up to NULL.
abbrev pub Visits : Heap → Bool → Ptr → Cells → Type 0
Visits h reversed p [] = p ≡ null
Visits h reversed p ((q, v) ∷ vs) =
    (p ≡ q)
    × (q ≢ null)
    × (before : Ptr) × (after : Ptr) × (h q ≡ some (node before after v))
    × Visits h reversed (if reversed then before else after) vs

pub Visits_of_Chain :
    (h : Heap) (prev : Ptr) (xs : Cells)
    → Chain h prev xs null
    → Visits h false (head_or null xs) xs
Visits_of_Chain h prev [] c = refl
Visits_of_Chain h prev ((p, v) ∷ xs) (ne, e, c) =
    (refl, ne, prev, head_or null xs, e, Visits_of_Chain h p xs c)

pub Visits_back :
    (h : Heap) (prev : Ptr) (xs acc : Cells) (stop : Ptr)
    → Chain h prev xs stop
    → Visits h true prev acc
    → Visits h true (last_or prev xs) (reverse_aux xs acc)
Visits_back h prev [] acc stop c vs = vs
Visits_back h prev ((p, v) ∷ xs) acc stop (ne, e, c) vs =
    Visits_back h p xs ((p, v) ∷ acc) stop c (refl, ne, prev, head_or stop xs, e, vs)

-- Addresses that are free in the heap, each listed once.
abbrev pub Unused : Heap → List Ptr → Type 0
Unused h [] = Unit {0}
Unused h (a ∷ as') = (a ≢ null) × (h a ≡ none) × All (λ b. (b == a) ≡ false) as' × Unused h as'

-- What `h0` holds outside the cells `own` is still there.
abbrev pub Keeps : Heap → Heap → Cells → Type 0
Keeps h0 h own = (a : Ptr) (n : Node) → h0 a ≡ some n → occurs a own ≡ false → h a ≡ some n

-- The cells `cs` are those of `own`, and others that were free in `h0`.
abbrev pub Fresh : Heap → Cells → Cells → Type 0
Fresh h0 own cs = (a : Ptr) (n : Node) → h0 a ≡ some n → occurs a own ≡ false → occurs a cs ≡ false

Unused-append :
    (h h' : Heap) (as' : List Ptr) (a v : ℕ) (cs : Cells)
    → ((b : Ptr) → occurs b cs ≡ false → (b == a) ≡ false → h' b ≡ h b)
    → ((b : Ptr) → h b ≡ none → occurs b cs ≡ false)
    → All (λ b. (b == a) ≡ false) as'
    → Unused h as'
    → Unused h' as'
Unused-append h h' [] a v cs same out apart u = tt
Unused-append h h' (b ∷ as') a v cs same out apart (ne, free, once, u) =
    (ne, same b (out b free) apart.0 ∙ free, once, Unused-append h h' as' a v cs same out apart.1 u)

-- What the routine appends at each node.
unfoldable pub collect : (ℕ → Option ℕ) → List ℕ → List ℕ
collect f [] = []
collect f (v ∷ vs) = elim (f v) [ none ↦ collect f vs | some w ↦ w ∷ collect f vs ]

module _ (h0 : Heap) (own : Cells) where
  -- A run that leaves a list with the elements `es` behind the cells `cs`.
  abbrev pub Builds : Cells → List ℕ → Option (Growing × Heap) → Type 0
  Builds cs es run =
      (l' : MList) × (h' : Heap) × (new : Cells) × (mem' : List Ptr) × (run
        ≡ some (growing mem' l', h'))
      × IsMList h' l' (cs ++ new)
      × (elems new ≡ es)
      × Keeps h0 h' own

  -- The list under construction, between two steps.
  pub record Building (h : Heap) (l : MList) (cs : Cells) (mem : List Ptr) : Type 0 where
    pub is : IsMList h l cs
    pub keeps : Keeps h0 h own
    pub fresh : Fresh h0 own cs
    pub unused : Unused h mem
    pub free : All (λ a. h0 a ≡ none) mem

  append_one :
      (h : Heap) (l : MList) (cs : Cells) (a : Ptr) (mem : List Ptr) (w : ℕ)
      → Building h l cs (a ∷ mem)
      → (l' : MList) × (h' : Heap) × (append_to (growing (a ∷ mem) l) w h
          ≡ some (growing mem l', h'))
        × Building h' l' (cs ++ (a, w) ∷ []) mem
  unfolding append_to
  append_one h l cs a mem w b =
      let (a_ne, a_free, once, rest) = b.unused in
      let (l', h', run, is', same) = mlist_append_lem h l a w a_ne a_free cs b.is in
      (
        l',
        h',
        rw (run, ◌>>=◌),
        record {
          is = is';
          keeps = λ c n e o. same c (b.fresh c n e o) (other c n e b.free.0) ∙ b.keeps c n e o;
          fresh = λ c n e o.
              ground
                (arith, occurs-append c cs ((a, w) ∷ []), b.fresh c n e o, other c n e b.free.0);
          unused =
              Unused-append h h' mem a w cs same
                (λ c free. occurs_of_none h c null cs null free b.is.chain) once rest;
          free = b.free.1;
        },
      )
    where
      other : (c : Ptr) (n : Node) → h0 c ≡ some n → h0 a ≡ none → (c == a) ≡ false
      other c n e f = elim (Bool-cases (c == a)) [
        | inl same ↦ let s : c ≡ a = ground arith in absurd (ground (arith, ap h0 s))
        | inr apart ↦ apart
      ]

  module _ (reversed : Bool) (step : Growing → ℕ → M Growing) (f : ℕ → Option ℕ)
      (step_lem : (g : Growing) (e : ℕ) (h : Heap)
        → step g e h ≡ elim (f e) [ none ↦ some (g, h) | some w ↦ append_to g w h ]) where
    one_turn :
        (fuel : ℕ) (p q v before after : ℕ) (g t : Growing) (h h' : Heap)
        → p ≡ q
        → q ≢ null
        → h q ≡ some (node before after v)
        → step g v h ≡ some (t, h')
        → traverse_nodes skip step every reversed (suc fuel) p g h
          ≡ traverse_nodes skip step every reversed fuel (if reversed then before else after) t h'
    unfolding traverse_nodes
    one_turn fuel p q v before after g t h h' e ne cell run =
        rw e
          (rw (not_null q ne, traverse_nodes) (rw (load_lem h q ne cell, ◌>>=◌) (rw (run, ◌>>=◌))))

    pub builds_lem :
        (fuel : ℕ) (vs : Cells) (p : Ptr) (h : Heap) (l : MList) (cs : Cells) (mem : List Ptr)
        → length vs < fuel
        → length vs ≤ length mem
        → Visits h0 reversed p vs
        → ((a : Ptr) → occurs a vs ≡ true → occurs a own ≡ false)
        → Building h l cs mem
        → Builds cs
            (collect f (elems vs))
            (traverse_nodes skip step every reversed fuel p (growing mem l) h)
    unfolding traverse_nodes collect
    builds_lem zero vs p h l cs mem k m path apart b = absurd (omega arith)
    builds_lem (suc fuel) [] p h l cs mem k m path apart b =
        (l, h, [], mem, rw path, rw (append-nil cs) b.is, refl, b.keeps)
    builds_lem (suc fuel) ((q, v) ∷ vs) p h l cs [] k m path apart b = absurd (omega arith)
    builds_lem (suc fuel) ((q, v) ∷ vs) p h l cs (a ∷ mem) k m (e, ne, before, after, cell, path)
          apart b =
        let here : h q ≡ some (node before after v) = b.keeps q _ cell (apart q (ground arith)) in
        let away : (c : Ptr) → occurs c vs ≡ true → occurs c own ≡ false =
          λ c i. apart c (ground arith) in
        elim (Option-cases (f v)) [
          | inl nothing ↦
              let run : step (growing (a ∷ mem) l) v h ≡ some (growing (a ∷ mem) l, h) =
                rw nothing at (step_lem (growing (a ∷ mem) l) v h) in
              rw (one_turn fuel p q v before after (growing (a ∷ mem) l) _ h h e ne here run) (
                rw nothing
                  (builds_lem fuel vs _ h l cs (a ∷ mem) (omega arith) (omega arith) path away b))
          | inr (w, one) ↦
              let (l1, h1, append, b1) = append_one h l cs a mem w b in
              let run : step (growing (a ∷ mem) l) v h ≡ some (growing mem l1, h1) =
                rw one at (step_lem (growing (a ∷ mem) l) v h) ∙ append in
              let (l', h', new, mem', rest, is, es, keeps) =
                builds_lem fuel vs _ h1 l1 (cs ++ (a, w) ∷ []) mem (omega arith) (omega arith) path
                  away b1 in
              (
                l',
                h',
                (a, w) ∷ new,
                mem',
                one_turn fuel p q v before after (growing (a ∷ mem) l) _ h h1 e ne here run ∙ rest,
                rw append_assoc at is,
                rw one (ap (λ xs. w ∷ xs) es),
                keeps,
              )
        ]
