-- ===== src/Blocks/Partition.antt =====
-- FileSystem/src/filetable.c: what the partition writes into the target and adds to the file, and that the
-- count of the blocks is right.
use opsys_17b.Base.{
  ℕ, ◌+◌, ◌*◌, ◌≡◌, refl, sym, ap, ◌∙◌, true, false, none, some, List, [], ◌∷◌, ◌++◌, append_assoc,
  append-nil, arith, ◌==◌, ltb, if◌then◌else◌, All, length, length-append, ◌≤◌, Bool-cases, inl,
  inr,
}
use opsys_17b.YFile.{YFile}
use opsys_17b.Blocks.{block_size, add_block, State, flush, put_piece, handler, partition}
use opsys_17b.Blocks.Fill.{fill, block_before, IsPiece}
use opsys_17b.Blocks.Write.{
  IsHeld, put_piece_lem, IsWritten, no_blocks, blocks_of, IsGrown, small, no_bytes, result_eq,
  IsReady, IsFlushed, flush_lem,
}

module _ (end : List ℕ) where
  IsHeld-length : (cur : List ℕ) (st : State) → IsHeld cur st → length cur ≤ block_size
  IsHeld-length cur st held =
      omega (arith, sym held.full, ap (λ b. length b) held.bytes, length-append cur held.pad)

  -- The handler writes the block begun when the piece does not fit, and keeps the piece.
  pub handler_new :
      (piece : List ℕ) (st st' : State)
      → ltb block_size (st.size + length piece + length end) ≡ true
      → flush st ≡ some st'
      → handler end piece st ≡ put_piece end piece st'
  unfolding handler
  handler_new piece st st' over run = rw over (rw (run, handler) refl)

  pub handler_same :
      (piece : List ℕ) (st : State)
      → ltb block_size (st.size + length piece + length end) ≡ false
      → handler end piece st ≡ put_piece end piece st
  unfolding handler
  handler_same piece st fits = rw fits refl

  pub partition_step :
      (piece : List ℕ) (rest : List (List ℕ)) (st st' : State)
      → handler end piece st ≡ some st'
      → partition end (piece ∷ rest) st ≡ partition end rest st'
  unfolding partition
  partition_step piece rest st st' run = rw (run, partition) refl

  partition_end :
      (st st' : State) → flush st ≡ some st' → partition end [] st ≡ some (st'.count, st'.sink)
  unfolding partition
  partition_end st st' run = rw (run, partition) refl

  -- The result of the traversal.
  pub record IsPartitioned (w : List ℕ) (file : YFile) (ps : List (List ℕ)) (st : State)
      (ds : List (List ℕ)) : Type 0 where
    pub bytes : List ℕ
    pub grown : YFile
    pub run : partition end ps st ≡ some (st.count + length ds, some (w ++ bytes, grown))
    pub written : IsWritten ds bytes
    pub grows : IsGrown file ds grown

  ready_put_piece :
      (piece cur w rest : List ℕ) (file : YFile) (st : State)
      → IsReady cur w rest file st
      → length cur + length piece + length end ≤ block_size
      → (st' : State) × (put_piece end piece st ≡ some st')
        × IsReady (cur ++ piece) w rest file st'
        × (st'.count ≡ st.count)
  ready_put_piece piece cur w rest file st ready fits =
      let (st', run, held, count, sink) = put_piece_lem end piece cur st ready.held fits in
      (st', run, record { held = held; to = sink ∙ ready.to; at = rw count ready.at }, count)

  -- A piece that begins a new block, and one that goes into the block begun, before the other pieces.
  new_before :
      (p : List ℕ) (ps : List (List ℕ)) (cur w : List ℕ) (file : YFile) (st st' : State)
      (ds : List (List ℕ))
      → (f : IsFlushed cur w file st ds) → handler end p st ≡ some st'
      → st'.count ≡ f.after.count
      → IsPartitioned (w ++ f.bytes) f.grown ps st' ds
      → IsPartitioned w file (p ∷ ps) st (block_before cur ds)
  new_before p ps cur w file st st' ds f run count rec = record {
    bytes = f.bytes ++ rec.bytes;
    grown = rec.grown;
    run =
        partition_step p ps st st' run
        ∙ rec.run
        ∙ result_eq (omega (arith, count, f.total))
            (ap (λ b. some (b, rec.grown)) (append_assoc w f.bytes rec.bytes));
    written = f.written rec.bytes rec.written;
    grows = f.grows rec.grown rec.grows;
  }

  same_before :
      (p : List ℕ) (ps : List (List ℕ)) (w : List ℕ) (file : YFile) (st st' : State)
      (ds : List (List ℕ))
      → handler end p st ≡ some st'
      → st'.count ≡ st.count
      → IsPartitioned w file ps st' ds
      → IsPartitioned w file (p ∷ ps) st ds
  same_before p ps w file st st' ds run count rec = record {
    bytes = rec.bytes;
    grown = rec.grown;
    run = partition_step p ps st st' run ∙ rec.run ∙ result_eq (omega (arith, count)) refl;
    written = rec.written;
    grows = rec.grows;
  }

  pub partition_lem :
      (ps : List (List ℕ)) (cur w rest : List ℕ) (file : YFile) (st : State)
      → IsReady cur w rest file st
      → All (IsPiece (length end)) ps
      → length rest ≡ length (fill (length end) cur ps) * block_size
      → st.count + length (fill (length end) cur ps) ≤ 2048
      → IsPartitioned w file ps st (fill (length end) cur ps)
  unfolding fill
  partition_lem [] cur w rest file st ready hs room few =
      let f = flush_lem cur w rest file st [] ready room few in
      let none_left : f.behind ≡ [] = no_bytes f.behind (omega (arith, f.room)) in
      record {
        bytes = f.bytes ++ [];
        grown = f.grown;
        run =
            partition_end st f.after f.run
            ∙ result_eq (omega (arith, f.total)) (
                f.ready.to
                ∙ (rw none_left (ap (λ b. some (b, f.grown)) (append_assoc w f.bytes []))));
        written = f.written [] no_blocks;
        grows = f.grows f.grown (unfold blocks_of in sym (append-nil f.grown.blocks));
      }
  partition_lem (p ∷ ps) cur w rest file st ready hs room few =
      elim (Bool-cases (ltb block_size (length cur + length p + length end))) [
        | inl e ↦
            let form : fill (length end) cur (p ∷ ps) ≡ block_before cur (fill (length end) p ps) =
              rw e refl in
            let few1 : st.count + length (block_before cur (fill (length end) p ps)) ≤ 2048 =
              omega (arith, few, ap (λ l. length l) form) in
            let f =
              flush_lem cur w rest file st (fill (length end) p ps) ready (room ∙ (rw e refl))
                few1 in
            let (st', run, ready', count) =
              ready_put_piece p [] (w ++ f.bytes) f.behind f.grown f.after f.ready
                (small (0 + length p + length end) (omega (arith, hs.0.1))) in
            let rec =
              partition_lem ps p (w ++ f.bytes) f.behind f.grown st' ready' hs.1 f.room
                (omega (arith, count, f.total, few1)) in
            rw e (
              new_before p ps cur w file st st' (fill (length end) p ps) f
                (handler_new p st f.after (rw ready.held.size e) f.run ∙ run) count rec)
        | inr e ↦
            let form : fill (length end) cur (p ∷ ps) ≡ fill (length end) (cur ++ p) ps =
              rw e refl in
            let few2 : st.count + length (fill (length end) (cur ++ p) ps) ≤ 2048 =
              omega (arith, few, ap (λ l. length l) form) in
            let (st', run, ready', count) =
              ready_put_piece p cur w rest file st ready (ground (arith, e)) in
            let rec =
              partition_lem ps (cur ++ p) w rest file st' ready' hs.1 (room ∙ (rw e refl))
                (omega (arith, count, few2)) in
            rw e (
              same_before p ps w file st st' (fill (length end) (cur ++ p) ps)
                (handler_same p st (rw ready.held.size e) ∙ run) count rec)
      ]

  pub flush_counted :
      (cur : List ℕ) (st : State) (ds : List (List ℕ))
      → IsHeld cur st
      → st.sink ≡ none
      → (st' : State) × (flush st ≡ some st')
        × IsHeld [] st'
        × (st'.sink ≡ none)
        × (st'.count + length ds ≡ st.count + length (block_before cur ds))
  unfolding flush add_block
  flush_counted cur st ds held to =
      let n = if st.size == 0 then 0 else 1 in
      (
        record st { size = 0; count = st.count + n; sink = none },
        rw (ap (λ s. add_block st.buffer st.count st.size s) to, flush) refl,
        record { pad = st.buffer; bytes = refl; full = held.full; size = refl },
        refl,
        rw held.size (elim (Bool-cases (length cur == 0)) [
          | inl e ↦ rw e (omega arith)
          | inr e ↦ rw e (omega arith)
        ]),
      )

  -- Without a target the same blocks are counted.
  pub partition_count :
      (ps : List (List ℕ)) (cur : List ℕ) (st : State)
      → IsHeld cur st
      → st.sink ≡ none
      → All (IsPiece (length end)) ps
      → partition end ps st ≡ some (st.count + length (fill (length end) cur ps), none)
  unfolding fill
  partition_count [] cur st held to hs =
      let (st', run, held', to', total) = flush_counted cur st [] held to in
      partition_end st st' run ∙ result_eq (omega (arith, total)) to'
  partition_count (p ∷ ps) cur st held to hs =
      elim (Bool-cases (ltb block_size (length cur + length p + length end))) [
        | inl e ↦
            let (st1, run1, held1, to1, total) =
              flush_counted cur st (fill (length end) p ps) held to in
            let (st2, run2, held2, count2, to2) =
              put_piece_lem end p [] st1 held1
                (small (0 + length p + length end) (omega (arith, hs.0.1))) in
            rw e (
              partition_step p ps st st2 (handler_new p st st1 (rw held.size e) run1 ∙ run2)
              ∙ partition_count ps p st2 held2 (to2 ∙ to1) hs.1
              ∙ result_eq (omega (arith, count2, total)) refl)
        | inr e ↦
            let (st2, run2, held2, count2, to2) =
              put_piece_lem end p cur st held (ground (arith, e)) in
            rw e (
              partition_step p ps st st2 (handler_same p st (rw held.size e) ∙ run2)
              ∙ partition_count ps (cur ++ p) st2 held2 (to2 ∙ to) hs.1
              ∙ result_eq (omega (arith, count2)) refl)
      ]
