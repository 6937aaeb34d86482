-- ===== src/Blocks/Reconstruct.antt =====
-- FileSystem/src/filetable.c: the turns of `reconstruct_file` over the pieces of a block.
use opsys_17b.Base.{
  ℕ, zero, suc, ◌+◌, ◌-◌, ◌*◌, ◌^◌, ◌≡◌, refl, sym, ap, ◌∙◌, Bool, true, false, some, List, [], ◌∷◌,
  ◌++◌, append_assoc, arith, ◌==◌, leb, ltb, if◌then◌else◌, length, length-append, take, drop,
  length-take, take-append, take-length, take-drop, ◌≤◌, ◌<◌, Bool-cases, inl, inr,
}
use opsys_17b.YFile.{Block}
use opsys_17b.Blocks.{
  block_size, Copy, size_sub, number_min, next_block, turn, traverser_loop, traverser, traverse,
  pieces, pieces_loop,
}
use opsys_17b.Blocks.Pieces.{pieces_loop-append}

pub block_size_word : block_size < 2 ^ 32
unfolding block_size
block_size_word = omega arith

size_sub_lem : (a b : ℕ) → b ≤ a → a < 2 ^ 32 → size_sub a b ≡ a - b
size_sub_lem a b h h' = omega (arith, h, h')

number_min_left : (a b : ℕ) → a ≤ b → number_min a b ≡ a
number_min_left a b h = ground (arith, h)

number_min_right : (a b : ℕ) → b ≤ a → number_min a b ≡ b
number_min_right a b h = ground (arith, h)

loop_done :
    (fuel : ℕ) (blocks : List Block) (piece : List ℕ) (offset cur : ℕ) (st : Copy)
    → length piece ≤ offset
    → traverser_loop (suc fuel) blocks piece offset cur st ≡ some (true, st)
unfolding traverser_loop
loop_done fuel blocks piece offset cur st h =
    let over : ltb offset (length piece) ≡ false = ground (arith, h) in rw over refl

loop_more :
    (fuel : ℕ) (blocks : List Block) (piece : List ℕ) (offset cur offset' cur' : ℕ) (block : Block)
    (st st' : Copy)
    → offset < length piece
    → st.block ≡ some block
    → turn blocks piece offset cur block st ≡ some (true, offset', cur', st')
    → traverser_loop (suc fuel) blocks piece offset cur st
      ≡ traverser_loop fuel blocks piece offset' cur' st'
unfolding traverser_loop
loop_more fuel blocks piece offset cur offset' cur' block st st' h e run =
    let within : ltb offset (length piece) ≡ true = ground (arith, h) in
    rw (within, traverser_loop) (rw (e, traverser_loop) (rw (run, traverser_loop) refl))

loop_stop :
    (fuel : ℕ) (blocks : List Block) (piece : List ℕ) (offset cur offset' cur' : ℕ) (block : Block)
    (st st' : Copy)
    → offset < length piece
    → st.block ≡ some block
    → turn blocks piece offset cur block st ≡ some (false, offset', cur', st')
    → traverser_loop (suc fuel) blocks piece offset cur st ≡ some (false, st')
unfolding traverser_loop
loop_stop fuel blocks piece offset cur offset' cur' block st st' h e run =
    let within : ltb offset (length piece) ≡ true = ground (arith, h) in
    rw (within, traverser_loop) (rw (e, traverser_loop) (rw (run, traverser_loop) refl))

module _ (blocks : List Block) (block : Block) (st : Copy) (small : block.size < 2 ^ 32) where
  -- A turn that takes the whole piece into the block.
  turn_full :
      (piece : List ℕ)
      → st.size + length piece < block.size
      → turn blocks piece 0 (length piece) block st
        ≡ some (
          true,
          0 + length piece,
          length piece - length piece,
          record st { out = st.out ++ piece; size = st.size + length piece },
        )
  unfolding turn
  turn_full piece h =
      let left = size_sub_lem block.size st.size (omega (arith, h)) small in
      let bytes : number_min (length piece) (size_sub block.size st.size) ≡ length piece =
        rw left (number_min_left (length piece) (block.size - st.size) (omega (arith, h))) in
      let inside : ltb (length piece) (0 + length piece) ≡ false = ground arith in
      let open_block : (st.size + length piece == block.size) ≡ false = ground (arith, h) in
      rw bytes (rw inside (rw open_block (rw (take-length piece) refl)))

  -- A turn that takes the rest of the block.
  turn_last :
      (piece d : List ℕ) (more : Bool) (st' : Copy)
      → st.size + length d ≡ block.size
      → length d ≤ length piece
      → take (length d) piece ≡ d
      → next_block blocks (record st { out = st.out ++ d; size = block.size }) ≡ (more, st')
      → turn blocks piece 0 (length piece) block st
        ≡ some (more, 0 + size_sub block_size block.size + length d, length piece - length d, st')
  unfolding turn
  turn_last piece d more st' h len front nb =
      let left = size_sub_lem block.size st.size (omega (arith, h)) small in
      let bytes : number_min (length piece) (size_sub block.size st.size) ≡ length d = rw left (
        number_min_right (length piece) (block.size - st.size) (omega (arith, h, len))
        ∙ omega (arith, h)) in
      let inside : ltb (length piece) (0 + length d) ≡ false = ground (arith, len) in
      let done : (block.size == block.size) ≡ true = ground arith in
      rw bytes (rw inside (rw front (rw h (rw done (rw nb refl)))))

  module _ (open_block : st.block ≡ some block) (within : st.size < block.size)
      (fits : block.size ≤ block_size) where
    in_block :
        (piece : List ℕ)
        → traverser blocks piece st
          ≡ traverser_loop (length piece + 1) blocks piece 0 (length piece) st
    unfolding traverser
    in_block piece =
        let inside : (st.size == block_size) ≡ false = ground (arith, within, fits) in
        rw inside refl

    traverser_full :
        (c : ℕ) (s : List ℕ)
        → st.size + length (c ∷ s) < block.size
        → traverser blocks (c ∷ s) st
          ≡ some (true, record st { out = st.out ++ (c ∷ s); size = st.size + length (c ∷ s) })
    traverser_full c s h =
        let piece = c ∷ s in
        let next = record st { out = st.out ++ piece; size = st.size + length piece } in
        let fuel : length piece + 1 ≡ suc (suc (length s)) = omega arith in
        in_block piece
        ∙ ap (λ n. traverser_loop n blocks piece 0 (length piece) st) fuel
        ∙ loop_more (suc (length s)) blocks piece 0 (length piece) (0 + length piece)
            (length piece - length piece) block st next (omega arith) open_block (turn_full piece h)
        ∙ loop_done (length s) blocks piece (0 + length piece) (length piece - length piece) next
            (omega arith)

    ending :
        (more : Bool) (piece : List ℕ) (offset cur n : ℕ) (st' : Copy)
        → 0 < length piece
        → length piece ≤ offset
        → turn blocks piece 0 (length piece) block st ≡ some (more, offset, cur, st')
        → traverser_loop (suc (suc n)) blocks piece 0 (length piece) st ≡ some (more, st')
    ending true piece offset cur n st' some_bytes past run =
        loop_more (suc n) blocks piece 0 (length piece) offset cur block st st' some_bytes
          open_block run
        ∙ loop_done n blocks piece offset cur st' past
    ending false piece offset cur n st' some_bytes past run =
        loop_stop (suc n) blocks piece 0 (length piece) offset cur block st st' some_bytes
          open_block run

    traverser_last :
        (c : ℕ) (s d : List ℕ) (more : Bool) (st' : Copy)
        → st.size + length d ≡ block.size
        → length d ≤ length (c ∷ s)
        → take (length d) (c ∷ s) ≡ d
        → length (c ∷ s) ≤ length d + (block_size - block.size)
        → next_block blocks (record st { out = st.out ++ d; size = block.size }) ≡ (more, st')
        → traverser blocks (c ∷ s) st ≡ some (more, st')
    traverser_last c s d more st' h len front beyond nb =
        let piece = c ∷ s in
        let fuel : length piece + 1 ≡ suc (suc (length s)) = omega arith in
        let past = turn_last piece d more st' h len front nb in
        let offset = 0 + size_sub block_size block.size + length d in
        in_block piece
        ∙ ap (λ n. traverser_loop n blocks piece 0 (length piece) st) fuel
        ∙ ending more piece offset (length piece - length d) (length s) st' (omega arith)
            (omega (arith, size_sub_lem block_size block.size fits block_size_word, beyond)) past

traverse_step :
    (blocks : List Block) (piece : List ℕ) (rest : List (List ℕ)) (st st' : Copy) (more : Bool)
    → traverser blocks piece st ≡ some (more, st')
    → traverse blocks (piece ∷ rest) st ≡ (if more then traverse blocks rest st' else some st')
unfolding traverse
traverse_step blocks piece rest st st' true run = rw (run, traverse) refl
traverse_step blocks piece rest st st' false run = rw (run, traverse) refl

pieces_split : (p r : List ℕ) → length p ≡ 4096 → pieces (p ++ r) ≡ p ∷ pieces r
pieces_split p r whole =
    ap (λ n. pieces_loop [] n (p ++ r)) (sym whole)
    ∙ pieces_loop-append [] p r (omega (arith, whole))

-- A list of `k` bytes and more, as the first `k` and the others.
split_at :
    (k : ℕ) (d : List ℕ)
    → k ≤ length d
    → (p : List ℕ) × (r : List ℕ) × (d ≡ p ++ r) × (length p ≡ k)
split_at k d h = (take k d, drop k d, sym (take-drop k d), length-take k d h)

take_front : (d r : List ℕ) → take (length d) (d ++ r) ≡ d
take_front d r = take-append d r

module _ (blocks : List Block) (block : Block) (fits : block.size ≤ block_size) where
  small_block : block.size < 2 ^ 32
  small_block = omega (arith, fits, block_size_word)

  -- What is left of the block, the bytes `d` and the filling `pad`, is read up to the last byte of `d`;
  -- then comes what `next_block` says.
  module _ (rest : List ℕ) (i : ℕ) (more : Bool) (next : List ℕ → Copy)
      (nb : (st : Copy)
        → st.index ≡ i
        → next_block blocks (record st { size = block.size }) ≡ (more, next st.out)) where
    -- The end of the block, in the piece `d ++ q`.
    block_end :
        (d q pad : List ℕ) (st : Copy)
        → st.block ≡ some block
        → st.index ≡ i
        → st.size + length d ≡ block.size
        → 0 < length d
        → length (d ++ q) ≡ 4096
        → length q ≤ block_size - block.size
        → traverse blocks (pieces ((d ++ (q ++ pad)) ++ rest)) st ≡ (
            if more
            then traverse blocks (pieces (pad ++ rest)) (next (st.out ++ d))
            else some (next (st.out ++ d)))
    block_end [] q pad st open_block at left some_bytes whole room =
        absurd (omega (arith, some_bytes))
    block_end (c ∷ d) q pad st open_block at left some_bytes whole room =
        let form : ((c ∷ d) ++ (q ++ pad)) ++ rest ≡ (c ∷ d ++ q) ++ (pad ++ rest) =
          ap (λ t. t ++ rest) (sym (append_assoc (c ∷ d) q pad))
          ∙ append_assoc (c ∷ d ++ q) pad rest in
        let out = st.out ++ (c ∷ d) in
        ap (λ t. traverse blocks (pieces t) st) form
        ∙ ap (λ t. traverse blocks t st) (pieces_split (c ∷ d ++ q) (pad ++ rest) whole)
        ∙ traverse_step blocks (c ∷ d ++ q) (pieces (pad ++ rest)) st (next out) more (
            traverser_last blocks block st small_block open_block (omega (arith, left, some_bytes))
              fits c (d ++ q) (c ∷ d) more (next out) left (omega (arith, length-append d q))
              (take_front (c ∷ d) q) (omega (arith, room, length-append d q))
              (nb (record st { out = out }) at))

    -- A whole piece of the block.
    block_more :
        (p d pad : List ℕ) (st : Copy)
        → st.block ≡ some block
        → st.size + length p < block.size
        → length p ≡ 4096
        → traverse blocks (pieces (((p ++ d) ++ pad) ++ rest)) st
          ≡ traverse blocks
              (pieces ((d ++ pad) ++ rest))
              (record st { out = st.out ++ p; size = st.size + length p })
    block_more [] d pad st open_block within whole = absurd (omega (arith, whole))
    block_more (c ∷ s) d pad st open_block within whole =
        let p = c ∷ s in
        let form : ((p ++ d) ++ pad) ++ rest ≡ p ++ ((d ++ pad) ++ rest) =
          ap (λ t. t ++ rest) (append_assoc p d pad) ∙ append_assoc p (d ++ pad) rest in
        ap (λ t. traverse blocks (pieces t) st) form
        ∙ ap (λ t. traverse blocks t st) (pieces_split p ((d ++ pad) ++ rest) whole)
        ∙ traverse_step blocks p (pieces ((d ++ pad) ++ rest)) st
            (record st { out = st.out ++ p; size = st.size + length p }) true
            (traverser_full blocks block st small_block open_block (omega (arith, within)) fits c s
              within)

    same_end :
        (more' : Bool) (pad : List ℕ) (out : List ℕ)
        → (more' ≡ true → length pad ≡ 0)
        → (if more' then traverse blocks (pieces (pad ++ rest)) (next out) else some (next out))
          ≡ (if more' then traverse blocks (pieces rest) (next out) else some (next out))
    same_end true [] out h = refl
    same_end true (c ∷ pad) out h = absurd (omega (arith, h refl))
    same_end false pad out h = refl

    pub block_run :
        (m : ℕ) (d pad : List ℕ) (st : Copy)
        → st.block ≡ some block
        → st.index ≡ i
        → st.size + length d ≡ block.size
        → 0 < length d
        → length d + length pad ≡ m * 4096
        → length pad ≤ block_size - block.size
        → (more ≡ true → length pad < 4096)
        → traverse blocks (pieces ((d ++ pad) ++ rest)) st ≡ (
            if more
            then traverse blocks (pieces rest) (next (st.out ++ d))
            else some (next (st.out ++ d)))
    block_run zero d pad st open_block at left some_bytes total room short =
        absurd (omega (arith, some_bytes, total))
    block_run (suc m) d pad st open_block at left some_bytes total room short =
        elim (Bool-cases (leb (length d) 4096)) [
          | inl e ↦
              let h : length d ≤ 4096 = ground (arith, e) in
              let (q, r, form, len) = split_at (4096 - length d) pad (omega (arith, h, total)) in
              let parts : length pad ≡ length q + length r =
                ap (λ t. length t) form ∙ length-append q r in
              ap (λ t. traverse blocks (pieces ((d ++ t) ++ rest)) st) form
              ∙ block_end d q r st open_block at left some_bytes
                  (omega (arith, h, len, length-append d q)) (omega (arith, parts, room))
              ∙ same_end more r (st.out ++ d) (λ t. omega (arith, short t, total, parts, len, h))
          | inr e ↦
              let h : 4096 < length d = ground (arith, e) in
              let (p, r, form, len) = split_at 4096 d (omega (arith, h)) in
              let parts : length d ≡ length p + length r =
                ap (λ t. length t) form ∙ length-append p r in
              let next_st = record st { out = st.out ++ p; size = st.size + length p } in
              let all : (st.out ++ p) ++ r ≡ st.out ++ d =
                append_assoc st.out p r ∙ ap (λ t. st.out ++ t) (sym form) in
              ap (λ t. traverse blocks (pieces ((t ++ pad) ++ rest)) st) form
              ∙ block_more p r pad st open_block (omega (arith, left, parts, h, len)) len
              ∙ block_run m r pad next_st open_block at (omega (arith, left, parts))
                  (omega (arith, parts, h, len)) (omega (arith, total, parts, len)) room short
              ∙ ap (λ o. if more then traverse blocks (pieces rest) (next o) else some (next o)) all
        ]
