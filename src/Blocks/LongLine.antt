-- ===== src/Blocks/LongLine.antt =====
-- FileSystem/src/filetable.c: a line that no block takes.
use opsys_17b.Base.{
  ℕ, ◌+◌, ◌≡◌, refl, ◌∙◌, true, none, some, List, [], ◌∷◌, ◌++◌, map, ◌⊎◌, inl, inr, arith, ltb,
  length, length-append, ◌≤◌, ◌<◌, Bool-cases,
}
use opsys_17b.YFile.{txt}
use opsys_17b.Blocks.{
  block_size, State, put_piece, handler, partition, copy_to, lines, c_string, start,
  partition_text_file, count_file_blocks,
}
use opsys_17b.Blocks.Write.{IsHeld, put_piece_lem}
use opsys_17b.Blocks.Partition.{flush_counted, handler_new, handler_same, partition_step}

-- One of the pieces is as long as a block, or longer.
abbrev pub HasLong : List (List ℕ) → Type 0
HasLong [] = ⊥
HasLong (p ∷ ps) = (block_size ≤ length p) ⊎ HasLong ps

put_piece_long :
    (c : ℕ) (piece cur : List ℕ) (st : State)
    → IsHeld cur st
    → block_size < length cur + length piece + 1
    → put_piece (c ∷ []) piece st ≡ none
unfolding put_piece copy_to
put_piece_long c piece cur st held over =
    let outside : ltb (length st.buffer) (st.size + length (piece ++ (c ∷ []))) ≡ true =
      ground (arith, held.full, held.size, over, length-append piece (c ∷ [])) in
    let full : copy_to st.buffer st.size (piece ++ (c ∷ [])) ≡ none = rw (outside, copy_to) refl in
    rw (full, put_piece) refl

module _ (c : ℕ) where
  handler_long :
      (piece cur : List ℕ) (st : State)
      → IsHeld cur st
      → st.sink ≡ none
      → block_size ≤ length piece
      → handler (c ∷ []) piece st ≡ none
  handler_long piece cur st held to long =
      let (st', run, held', to', total) = flush_counted (c ∷ []) cur st [] held to in
      let over : ltb block_size (st.size + length piece + 1) ≡ true = ground (arith, long) in
      handler_new (c ∷ []) piece st st' over run
      ∙ put_piece_long c piece [] st' held' (omega (arith, long))

  -- With no target a piece that fits in a block is taken.
  handler_fits :
      (piece cur : List ℕ) (st : State)
      → IsHeld cur st
      → st.sink ≡ none
      → length piece < block_size
      → (st' : State) × (cur' : List ℕ) × (handler (c ∷ []) piece st ≡ some st')
        × IsHeld cur' st'
        × (st'.sink ≡ none)
  handler_fits piece cur st held to fits =
      elim (Bool-cases (ltb block_size (st.size + length piece + 1))) [
        | inl e ↦
            let (st1, run1, held1, to1, total) = flush_counted (c ∷ []) cur st [] held to in
            let (st2, run2, held2, count2, to2) =
              put_piece_lem (c ∷ []) piece [] st1 held1 (omega (arith, fits)) in
            (st2, [] ++ piece, handler_new (c ∷ []) piece st st1 e run1 ∙ run2, held2, to2 ∙ to1)
        | inr e ↦
            let room : length cur + length piece + 1 ≤ block_size = ground (arith, e, held.size) in
            let (st2, run2, held2, count2, to2) = put_piece_lem (c ∷ []) piece cur st held room in
            (st2, cur ++ piece, handler_same (c ∷ []) piece st e ∙ run2, held2, to2 ∙ to)
      ]

  partition_fault :
      (piece : List ℕ) (ps : List (List ℕ)) (st : State)
      → handler (c ∷ []) piece st ≡ none
      → partition (c ∷ []) (piece ∷ ps) st ≡ none
  unfolding partition
  partition_fault piece ps st run = rw (run, partition) refl

  partition_long :
      (ps : List (List ℕ)) (cur : List ℕ) (st : State)
      → IsHeld cur st
      → st.sink ≡ none
      → HasLong ps
      → partition (c ∷ []) ps st ≡ none
  partition_long [] cur st held to long = absurd long
  partition_long (p ∷ ps) cur st held to (inl long) =
      partition_fault p ps st (handler_long p cur st held to long)
  partition_long (p ∷ ps) cur st held to (inr long) =
      elim (Bool-cases (ltb (length p) block_size)) [
        | inl e ↦
            let (st', cur', run, held', to') = handler_fits p cur st held to (ground (arith, e)) in
            partition_step (c ∷ []) p ps st st' run ∙ partition_long ps cur' st' held' to' long
        | inr e ↦ partition_fault p ps st (handler_long p cur st held to (ground (arith, e)))
      ]

-- Counting the blocks of a text writes outside the buffer when one of its lines is as long as a block.
pub count_file_blocks_long :
    (buffer source : List ℕ)
    → length buffer ≡ block_size
    → HasLong (map (λ line. c_string line) (lines source))
    → count_file_blocks txt buffer source ≡ none
unfolding count_file_blocks partition_text_file
count_file_blocks_long buffer source full long =
    let held : IsHeld [] (start buffer none) = record {
      pad = buffer;
      bytes = refl;
      full = full;
      size = refl;
    } in
    let run =
      partition_long 0 (map (λ line. c_string line) (lines source)) [] (start buffer none) held refl
        long in
    rw (run, count_file_blocks) refl
