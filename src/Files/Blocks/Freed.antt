-- ===== src/Files/Blocks/Freed.antt =====
-- FileSystem/src/filetable.c and FileSystem/src/nodelist.c: the blocks of a file that is removed are
-- taken back, each copy's bit on its node.
use opsys_17b.Base.{
  ℕ, zero, suc, ◌<◌, ◌≡◌, refl, sym, ◌∙◌, inl, inr, Bool, true, false, none, some, Option, List, [],
  ◌∷◌, arith, ◌==◌, ◌&&◌, if◌then◌else◌, length, get_elem?, set, All, Bool-cases,
  get_elem?-set_other, length-set, subst, some_inj,
}
use opsys_17b.YFile.{Block, BlockCopy}
use opsys_17b.Nodes.{BitOps, IsBitOps, TNode, bitmap_test, bitmap_unset, release, nodelist_rmblock}
use opsys_17b.Nodes.Alloc.{IsNode, without_bit}
use opsys_17b.Nodes.Find.{nodelist_find-set}
use opsys_17b.Nodes.Release.{IsHeld, release_run, release-IsNode}
use opsys_17b.Files.{◌>>=◌}
use opsys_17b.Files.Blocks.{rm_blocks}

abbrev pub copies_of : List Block → List BlockCopy
copies_of [] = []
copies_of (b ∷ bs) = b.copy0 ∷ b.copy1 ∷ copies_of bs

-- Whether the bit `k` of the node at `i` is one of these.
abbrev pub listed : ℕ → ℕ → List (ℕ × ℕ) → Bool
listed i k [] = false
listed i k ((j, m) ∷ ps) = if (i == j) && (k == m) then true else listed i k ps

module _ {B : Type 0} (ops : BitOps B) where
  -- These bits, and no others, were taken back.
  abbrev pub Freed : List (TNode ops) → List (TNode ops) → List (ℕ × ℕ) → Type 0
  Freed nodes nodes' places =
      (length nodes' ≡ length nodes)
      × ((j : ℕ) (n : TNode ops)
          → get_elem? nodes j ≡ some n
          → (n' : TNode ops) × (get_elem? nodes' j ≡ some n')
            × (n'.name ≡ n.name)
            × (n'.bitmap.size ≡ n.bitmap.size)
            × ((m : ℕ)
                → bitmap_test ops n'.bitmap m
                  ≡ (if listed j m places then false else bitmap_test ops n.bitmap m)))

  release_all : List (TNode ops) → List BlockCopy → Option (List (TNode ops))
  release_all nodes [] = some nodes
  release_all nodes (c ∷ cs) = release ops nodes c >>= λ nodes'. release_all nodes' cs

  -- Both rounds of one block, before what comes next.
  release_block :
      {C : Type 0} (nodes : List (TNode ops)) (b : Block) (k : List (TNode ops) → Option C)
      → (nodelist_rmblock ops nodes b >>= k)
        ≡ (release ops nodes b.copy0 >>= λ ns. release ops ns b.copy1 >>= k)
  unfolding nodelist_rmblock
  release_block nodes b k = one (release ops nodes b.copy0)
    where
      one :
          (o : Option (List (TNode ops)))
          → (elim o [ none ↦ none | some ns ↦ release ops ns b.copy1 ] >>= k)
            ≡ (o >>= λ ns. release ops ns b.copy1 >>= k)
      one none = refl
      one (some ns) = refl

  rm_blocks-release_all :
      (nodes : List (TNode ops)) (bs : List Block)
      → rm_blocks ops nodes bs ≡ release_all nodes (copies_of bs)
  unfolding rm_blocks release_all
  rm_blocks-release_all nodes [] = refl
  rm_blocks-release_all nodes (b ∷ bs) =
      (λ t. nodelist_rmblock ops nodes b >>= λ ns. rm_blocks-release_all ns bs t)
      ∙ release_block nodes b (λ ns. release_all ns (copies_of bs))

  module _ (laws : IsBitOps ops) where
    -- Each copy's number is a taken bit of the node that it names, at these places, each of them once.
    abbrev pub Held : List (TNode ops) → List BlockCopy → List (ℕ × ℕ) → Type 0
    Held nodes [] [] = Unit {0}
    Held nodes [] (p ∷ ps) = ⊥
    Held nodes (c ∷ cs) [] = ⊥
    Held nodes (c ∷ cs) ((i, k) ∷ ps) =
        ((n : TNode ops) × IsHeld ops laws nodes c i k n)
        × (listed i k ps ≡ false)
        × Held nodes cs ps

    test_without :
        (n : TNode ops) (k m : ℕ)
        → bitmap_test ops (without_bit ops n k).bitmap m
          ≡ (if k == m then false else bitmap_test ops n.bitmap m)
    unfolding bitmap_test bitmap_unset
    test_without n k m = laws.test-clean n.bitmap.bitarray k m

    set_at :
        (ns : List (TNode ops)) (i : ℕ) (n x : TNode ops)
        → get_elem? ns i ≡ some n
        → get_elem? (set ns i x) i ≡ some x
    set_at [] i n x e = absurd (ground (arith, e))
    set_at (y ∷ ns) zero n x e = refl
    set_at (y ∷ ns) (suc i) n x e = set_at ns i n x e

    size_without : (n : TNode ops) (k : ℕ) → (without_bit ops n k).bitmap.size ≡ n.bitmap.size
    unfolding bitmap_unset
    size_without n k = refl

    module _ (nodes : List (TNode ops)) (i k : ℕ) (n : TNode ops)
        (at_i : get_elem? nodes i ≡ some n) where
      IsHeld-set :
          (c : BlockCopy) (j m : ℕ) (x : TNode ops)
          → IsHeld ops laws nodes c j m x
          → ((i == j) && (k == m)) ≡ false
          → (y : TNode ops) × IsHeld ops laws (set nodes i (without_bit ops n k)) c j m y
      IsHeld-set c j m x held apart = elim (Bool-cases (i == j)) [
        | inr other ↦ (
          x,
          record {
            found =
                nodelist_find-set ops nodes i n (without_bit ops n k) c.node at_i refl ∙ held.found;
            at_i = get_elem?-set_other nodes i j (without_bit ops n k) other ∙ held.at_i;
            number = held.number;
            inside = held.inside;
            taken = held.taken;
          },
        )
        | inl same ↦
            let ij : i ≡ j = ground (arith, same) in
            let nx : n ≡ x = some_inj (sym at_i ∙ (λ t. get_elem? nodes (ij t)) ∙ held.at_i) in
            let km : (k == m) ≡ false = ground (arith, apart, same) in
            let taken' : bitmap_test ops n.bitmap m ≡ true =
              (λ t. bitmap_test ops (nx t).bitmap m) ∙ held.taken in
            (
              without_bit ops n k,
              record {
                found =
                    nodelist_find-set ops nodes i n (without_bit ops n k) c.node at_i refl
                    ∙ held.found;
                at_i =
                    (λ t. get_elem? (set nodes i (without_bit ops n k)) (sym ij t))
                    ∙ set_at nodes i n (without_bit ops n k) at_i;
                number = held.number;
                inside =
                    subst (λ (z : ℕ). m < z)
                      ((λ t. (sym nx t).bitmap.size) ∙ sym (size_without n k)) held.inside;
                taken = test_without n k m ∙ rw km taken';
              },
            )
      ]

      Held-set :
          (cs : List BlockCopy) (ps : List (ℕ × ℕ))
          → Held nodes cs ps
          → listed i k ps ≡ false
          → Held (set nodes i (without_bit ops n k)) cs ps
      Held-set [] [] h out = tt
      Held-set [] (p ∷ ps) h out = h
      Held-set (c ∷ cs) [] h out = h
      Held-set (c ∷ cs) ((j, m) ∷ ps) h out =
          let (x, held) = h.0 in
          (
            IsHeld-set c j m x held (ground (arith, out)),
            h.1,
            Held-set cs ps h.2 (ground (arith, out)),
          )

      elsewhere :
          (m : ℕ) (y x : Bool) (j : ℕ) (ps : List (ℕ × ℕ))
          → (i == j) ≡ false
          → y ≡ (if listed j m ps then false else x)
          → y ≡ (if listed j m ((i, k) ∷ ps) then false else x)
      elsewhere m y x j ps other e = ground (arith, e, other)

      here :
          (m : ℕ) (y x : Bool) (j : ℕ) (ps : List (ℕ × ℕ))
          → (i == j) ≡ true
          → y ≡ (if listed j m ps then false else (if k == m then false else x))
          → y ≡ (if listed j m ((i, k) ∷ ps) then false else x)
      here m y x j ps same e = ground (arith, e, same)

      Freed-cons :
          (nodes' : List (TNode ops)) (ps : List (ℕ × ℕ))
          → Freed (set nodes i (without_bit ops n k)) nodes' ps
          → Freed nodes nodes' ((i, k) ∷ ps)
      Freed-cons nodes' ps (len, freed) = (
        len ∙ length-set nodes i (without_bit ops n k),
        λ j x e. elim (Bool-cases (i == j)) [
          | inr other ↦
              let (y, at_j, name, size, bits) =
                freed j x (get_elem?-set_other nodes i j (without_bit ops n k) other ∙ e) in
              (
                y,
                at_j,
                name,
                size,
                λ m.
                    elsewhere m (bitmap_test ops y.bitmap m) (bitmap_test ops x.bitmap m) j ps other
                      (bits m),
              )
          | inl same ↦
              let ij : i ≡ j = ground (arith, same) in
              let nx : n ≡ x = some_inj (sym at_i ∙ (λ t. get_elem? nodes (ij t)) ∙ e) in
              let (y, at_j, name, size, bits) = freed j (without_bit ops n k) (
                (λ t. get_elem? (set nodes i (without_bit ops n k)) (sym ij t))
                ∙ set_at nodes i n (without_bit ops n k) at_i) in
              (
                y,
                at_j,
                name ∙ (λ t. (nx t).name),
                size ∙ size_without n k ∙ (λ t. (nx t).bitmap.size),
                λ m. here m (bitmap_test ops y.bitmap m) (bitmap_test ops x.bitmap m) j ps same (
                    bits m ∙ (λ t. if listed j m ps then false else test_without n k m t) ∙ (λ t.
                      if listed j m ps
                      then false
                      else if k == m
                      then false
                      else bitmap_test ops (nx t).bitmap m)),
              )
        ],
      )

    release_all_lem :
        (nodes : List (TNode ops)) (cs : List BlockCopy) (ps : List (ℕ × ℕ))
        → All (IsNode ops) nodes
        → Held nodes cs ps
        → (nodes' : List (TNode ops)) × (release_all nodes cs ≡ some nodes')
          × All (IsNode ops) nodes'
          × Freed nodes nodes' ps
    unfolding release_all
    release_all_lem nodes [] [] all h =
        (nodes, refl, all, (refl, λ j n e. (n, e, refl, refl, λ m. refl)))
    release_all_lem nodes [] (p ∷ ps) all h = absurd h
    release_all_lem nodes (c ∷ cs) [] all h = absurd h
    release_all_lem nodes (c ∷ cs) ((i, k) ∷ ps) all h =
        let (n, held) = h.0 in
        let (nodes', run, all', freed) =
          release_all_lem (set nodes i (without_bit ops n k)) cs ps
            (release-IsNode ops laws nodes all c i k n held)
            (Held-set nodes i k n held.at_i cs ps h.2 h.1) in
        (
          nodes',
          rw (release_run ops laws nodes all c i k n held, ◌>>=◌) run,
          all',
          Freed-cons nodes i k n held.at_i nodes' ps freed,
        )

    -- Taking back the blocks of a file, whose copies are held at these places, succeeds.
    pub rm_blocks_lem :
        (nodes : List (TNode ops)) (bs : List Block) (ps : List (ℕ × ℕ))
        → All (IsNode ops) nodes
        → Held nodes (copies_of bs) ps
        → (nodes' : List (TNode ops)) × (rm_blocks ops nodes bs ≡ some nodes')
          × All (IsNode ops) nodes'
          × Freed nodes nodes' ps
    rm_blocks_lem nodes bs ps all h =
        let (nodes', run, all', freed) = release_all_lem nodes (copies_of bs) ps all h in
        (nodes', rm_blocks-release_all nodes bs ∙ run, all', freed)
