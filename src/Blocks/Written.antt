-- ===== src/Blocks/Written.antt =====
-- FileSystem/src/filetable.c: `reconstruct_file` on blocks that are written one behind the other.
use opsys_17b.Base.{
  ℕ, suc, ◌+◌, ◌*◌, ◌≡◌, refl, sym, ap, ◌∙◌, true, false, none, some, List, [], ◌∷◌, ◌++◌,
  append_assoc, append-nil, arith, ◌==◌, length, length-append, get_elem?, ◌<◌,
}
use opsys_17b.YFile.{Block}
use opsys_17b.Blocks.{
  block_size, Copy, next_block, traverser, traverse, pieces, pieces_loop, reconstruct_file,
}
use opsys_17b.Blocks.Fill.{concat, Full}
use opsys_17b.Blocks.Write.{IsWritten, no_blocks, one_more, blocks_of}
use opsys_17b.Blocks.Pieces.{concat-pieces}
use opsys_17b.Blocks.Reconstruct.{block_run}

-- The blocks have the sizes of these contents.
abbrev pub HasSizes : List Block → List (List ℕ) → Type 0
HasSizes [] [] = Unit
HasSizes (b ∷ bs) (d ∷ ds) = (b.size ≡ length d) × HasSizes bs ds
HasSizes _ _ = ⊥

block_size_pieces : block_size ≡ 256 * 4096
unfolding block_size
block_size_pieces = omega arith

next_block-some :
    (blocks : List Block) (i : ℕ) (b : Block)
    → get_elem? blocks i ≡ some b
    → (st : Copy) → st.index ≡ i
    → next_block blocks st
      ≡ (true, record { out = st.out; index = i + 1; block = some b; size = 0 })
unfolding next_block
next_block-some blocks i b e st at =
    rw (ap (λ k. get_elem? blocks k) at ∙ e, next_block) (rw at refl)

next_block-none :
    (blocks : List Block) (i n : ℕ)
    → get_elem? blocks i ≡ none
    → (st : Copy) → st.index ≡ i
    → next_block blocks (record st { size = n })
      ≡ (false, record { out = st.out; index = i + 1; block = none; size = n })
unfolding next_block
next_block-none blocks i n e st at =
    rw (ap (λ k. get_elem? blocks k) at ∙ e, next_block) (rw at refl)

module _ (blocks : List Block) where
  traverse_written :
      (ds : List (List ℕ)) (d : List ℕ) (b : Block) (bs : List Block) (i : ℕ) (w : List ℕ)
      (st : Copy)
      → ((j k : ℕ) → j ≡ i + k → get_elem? blocks j ≡ get_elem? bs k)
      → b.size ≡ length d
      → HasSizes bs ds
      → IsWritten (d ∷ ds) w
      → Full (d ∷ ds)
      → st.block ≡ some b
      → st.index ≡ i
      → st.size ≡ 0
      → (st' : Copy) × (traverse blocks (pieces w) st ≡ some st')
        × (st'.out ≡ st.out ++ concat (d ∷ ds))
  unfolding concat
  traverse_written [] d b [] i _ st rem size sizes (one_more _ pad _ _ len no_blocks) full
        open_block at begun =
      let next : List ℕ → Copy =
        λ out. record { out = out; index = i + 1; block = none; size = b.size } in
      (
        next (st.out ++ d),
        block_run blocks b (rw size full.1) [] i false next
            (next_block-none blocks i b.size (rem i 0 (omega arith))) 256 d pad st open_block at
            (omega (arith, begun, size)) full.0
            (omega (arith, len, block_size_pieces, length-append d pad))
            (omega (arith, len, size, length-append d pad)) (λ t. absurd (ground (arith, t))),
        ap (λ t. st.out ++ t) (sym (append-nil d)),
      )
  traverse_written (e ∷ ds) d b (b' ∷ bs) i _ st rem size sizes (one_more _ pad _ rest len w) full
        open_block at begun =
      let next : List ℕ → Copy =
        λ out. record { out = out; index = i + 1; block = some b'; size = 0 } in
      let (st', run, out) =
        traverse_written ds e b' bs (i + 1) rest (next (st.out ++ d))
          (λ j k h. rem j (suc k) (omega (arith, h))) sizes.0 sizes.1 w full.3 refl refl refl in
      (
        st',
        block_run blocks b (rw size full.1) rest i true next
              (λ s h.
                next_block-some blocks i b' (rem i 0 (omega arith)) (record s { size = b.size }) h)
              256 d pad st open_block at (omega (arith, begun, size)) full.0
              (omega (arith, len, block_size_pieces, length-append d pad))
              (omega (arith, len, size, length-append d pad))
              (λ t. omega (arith, full.2, len, length-append d pad))
            ∙ run,
        out ∙ append_assoc st.out d (concat (e ∷ ds)),
      )
  traverse_written [] d b (b' ∷ bs) i w st rem size sizes h full open_block at begun = absurd sizes
  traverse_written (e ∷ ds) d b [] i w st rem size sizes h full open_block at begun = absurd sizes

  abbrev first_copy : Copy
  first_copy = record { out = []; index = 0; block = none; size = block_size }

  -- The first piece opens the first block.
  traverser_start :
      (piece : List ℕ) (b : Block)
      → get_elem? blocks 0 ≡ some b
      → traverser blocks piece first_copy
        ≡ traverser blocks piece (record { out = []; index = 0 + 1; block = some b; size = 0 })
  unfolding traverser
  traverser_start piece b e =
      let full : (block_size == block_size) ≡ true = ground arith in
      let begun : (0 == block_size) ≡ false = ground (arith, block_size_pieces) in
      let nb =
        next_block-some blocks 0 b e
          (record { out = []; index = 0; block = none; size = block_size }) refl in
      rw full (rw nb (rw begun refl))

  traverse_start :
      (ps : List (List ℕ)) (b : Block)
      → get_elem? blocks 0 ≡ some b
      → 0 < length (concat ps)
      → traverse blocks ps first_copy
        ≡ traverse blocks ps (record { out = []; index = 0 + 1; block = some b; size = 0 })
  unfolding traverse concat
  traverse_start [] b e some_bytes = absurd (omega (arith, some_bytes))
  traverse_start (p ∷ ps) b e some_bytes = rw (traverser_start p b e, traverse) refl

pub reconstruct_written :
    (bs : List Block) (ds : List (List ℕ)) (w : List ℕ)
    → HasSizes bs ds
    → IsWritten ds w
    → Full ds
    → reconstruct_file bs w ≡ some (concat ds)
unfolding reconstruct_file concat
reconstruct_written [] [] _ sizes no_blocks full = unfold pieces_loop traverse in refl
reconstruct_written (b ∷ bs) (d ∷ ds) w sizes h full =
    let (st', run, out) =
      traverse_written (b ∷ bs) ds d b bs (0 + 1) w
        (record { out = []; index = 0 + 1; block = some b; size = 0 }) (shift b bs) sizes.0 sizes.1
        h full refl refl refl in
    let some_bytes : 0 < length (concat (pieces w)) = rw (concat-pieces w) (filled d ds w h full) in
    rw (traverse_start (b ∷ bs) (pieces w) b refl some_bytes ∙ run, reconstruct_file)
      (ap (λ t. some t) out)
  where
    shift :
        (b : Block) (bs : List Block) (j k : ℕ)
        → j ≡ 0 + 1 + k
        → get_elem? (b ∷ bs) j ≡ get_elem? bs k
    shift b bs j k h = let z : j ≡ suc k = omega (arith, h) in rw z refl

    filled :
        (d : List ℕ) (ds : List (List ℕ)) (w : List ℕ)
        → IsWritten (d ∷ ds) w
        → Full (d ∷ ds)
        → 0 < length w
    filled d [] _ (one_more _ pad _ rest len w) full =
        omega (arith, full.0, length-append (d ++ pad) rest, length-append d pad)
    filled d (e ∷ ds) _ (one_more _ pad _ rest len w) full =
        omega (arith, full.0, length-append (d ++ pad) rest, length-append d pad)
reconstruct_written [] (d ∷ ds) w sizes h full = absurd sizes
reconstruct_written (b ∷ bs) [] w sizes h full = absurd sizes

pub HasSizes-blocks_of : (i : ℕ) (ds : List (List ℕ)) → HasSizes (blocks_of i ds) ds
unfolding blocks_of
HasSizes-blocks_of i [] = tt
HasSizes-blocks_of i (d ∷ ds) = (refl, HasSizes-blocks_of (suc i) ds)

pub length-blocks_of : (i : ℕ) (ds : List (List ℕ)) → length (blocks_of i ds) ≡ length ds
unfolding blocks_of
length-blocks_of i [] = refl
length-blocks_of i (d ∷ ds) = ap suc (length-blocks_of (suc i) ds)
