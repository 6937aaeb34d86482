-- ===== src/Blocks/RoundTrip.antt =====
-- FileSystem/src/filetable.c: the file that `reconstruct_file` puts together is the file that was cut.
use opsys_17b.Base.{
  ℕ, ◌*◌, ◌≡◌, ◌≤◌, refl, sym, ap, ◌∙◌, Option, none, some, List, [], ◌∷◌, map, some_inj, arith,
  All, length, ◌<◌,
}
use opsys_17b.YFile.{YFile, FType, txt, bin, yfile_create}
use opsys_17b.Blocks.{
  block_size, pieces, lines, c_string, reconstruct_file, partition, start, Sink,
  partition_text_file, partition_bin_file, partition_file_into_blocks, count_file_blocks,
}
use opsys_17b.Blocks.Fill.{fill, concat, IsPiece, concat-fill, fill-Full}
use opsys_17b.Blocks.Write.{blocks_of, IsHeld, IsReady, result_eq}
use opsys_17b.Blocks.Partition.{partition_lem, partition_count}
use opsys_17b.Blocks.Pieces.{
  concat-pieces, concat-lines, pieces-IsPiece, lines-IsPiece, map-c_string, NoZero,
}
use opsys_17b.Blocks.Written.{reconstruct_written, HasSizes-blocks_of, length-blocks_of}
use opsys_17b.Blocks.Count.{length-fill-pieces}

-- A text has no zero byte, and lines of less than 4,096 bytes; a binary file is any.
abbrev pub IsSource : FType → List ℕ → Type 0
IsSource txt source = (NoZero source) × All (λ l. length l < 4096) (lines source)
IsSource bin source = Unit

-- What ends a piece, and the pieces, of a file of each type.
abbrev end_of : FType → List ℕ
end_of txt = 0 ∷ []
end_of bin = []

abbrev pieces_of : FType → List ℕ → List (List ℕ)
pieces_of txt source = map (λ line. c_string line) (lines source)
pieces_of bin source = pieces source

abbrev contents : FType → List ℕ → List (List ℕ)
contents ftype source = fill (length (end_of ftype)) [] (pieces_of ftype source)

whole_lines :
    (source : List ℕ) → NoZero source → map (λ line. c_string line) (lines source) ≡ lines source
whole_lines source h = map-c_string (lines source) (rw (concat-lines source) h)

pieces_of-IsPiece :
    (ftype : FType) (source : List ℕ)
    → IsSource ftype source
    → All (IsPiece (length (end_of ftype))) (pieces_of ftype source)
pieces_of-IsPiece txt source h = rw (whole_lines source h.0) (lines-IsPiece source h.1)
pieces_of-IsPiece bin source h = pieces-IsPiece source

concat-contents :
    (ftype : FType) (source : List ℕ)
    → IsSource ftype source
    → concat (contents ftype source) ≡ source
concat-contents txt source h =
    concat-fill 1 [] (pieces_of txt source) ∙ (rw (whole_lines source h.0) (concat-lines source))
concat-contents bin source h = concat-fill 0 [] (pieces source) ∙ concat-pieces source

partition_of :
    (ftype : FType) (buffer source : List ℕ) (sink : Sink)
    → partition_file_into_blocks ftype buffer source sink
      ≡ partition (end_of ftype) (pieces_of ftype source) (start buffer sink)
unfolding partition_file_into_blocks partition_text_file partition_bin_file
partition_of txt buffer source sink = refl
partition_of bin buffer source sink = refl

start-IsHeld :
    (buffer : List ℕ) (sink : Sink) → length buffer ≡ block_size → IsHeld [] (start buffer sink)
start-IsHeld buffer sink h = record { pad = buffer; bytes = refl; full = h; size = refl }

count_contents :
    (ftype : FType) (buffer source : List ℕ)
    → length buffer ≡ block_size
    → IsSource ftype source
    → count_file_blocks ftype buffer source ≡ some (length (contents ftype source))
unfolding count_file_blocks partition_text_file
count_contents txt buffer source h parts =
    let run =
      partition_count (0 ∷ []) (pieces_of txt source) [] (start buffer none)
        (start-IsHeld buffer none h) refl (pieces_of-IsPiece txt source parts) in
    rw (run, count_file_blocks) (ap (λ n. some n) (omega arith))
count_contents bin buffer source h parts = ap (λ n. some n) (sym (length-fill-pieces source))

-- A file of 2,048 blocks at most is cut into as many blocks as `count_file_blocks` says, into a target
-- of just that many blocks, without a fault; and from the file's blocks and the bytes of the target
-- `reconstruct_file` puts the file together again. The buffer holds any bytes. A text has no zero byte,
-- and lines of less than 4,096 bytes.
pub reconstruct_file-partition_file_into_blocks :
    (ftype : FType) (path : Option (List ℕ)) (buffer source target : List ℕ) (n : ℕ)
    → length buffer ≡ block_size
    → IsSource ftype source
    → count_file_blocks ftype buffer source ≡ some n
    → length target ≡ n * block_size
    → n ≤ 2048
    → (bytes : List ℕ) × (file : YFile) × ◌≡◌ {A = Option (ℕ × Sink)}
        (partition_file_into_blocks ftype buffer source (some (target, yfile_create path ftype)))
        (some (n, some (bytes, file)))
      × (reconstruct_file file.blocks bytes ≡ some source)
      × (length file.blocks ≡ n)
unfolding yfile_create
reconstruct_file-partition_file_into_blocks ftype path buffer source target n h parts counted len
      few =
    let file0 = yfile_create path ftype in
    let st = start buffer (some (target, file0)) in
    let ds = contents ftype source in
    let same : length ds ≡ n =
      some_inj (sym (count_contents ftype buffer source h parts) ∙ counted) in
    let ready : IsReady [] [] target file0 st = record {
      held = start-IsHeld buffer (some (target, file0)) h;
      to = refl;
      at = omega arith;
    } in
    let p =
      partition_lem (end_of ftype) (pieces_of ftype source) [] [] target file0 st ready
        (pieces_of-IsPiece ftype source parts) (len ∙ ap (λ k. k * block_size) (sym same))
        (omega (arith, few, same)) in
    let full =
      fill-Full (length (end_of ftype)) [] (pieces_of ftype source) (omega arith)
        (pieces_of-IsPiece ftype source parts) in
    let made : p.grown.blocks ≡ blocks_of 0 ds = p.grows in
    (
      p.bytes,
      p.grown,
      partition_of ftype buffer source (some (target, file0))
          ∙ p.run
          ∙ result_eq (omega (arith, same)) refl,
      ap (λ bs. reconstruct_file bs p.bytes) made
          ∙ reconstruct_written (blocks_of 0 ds) ds p.bytes (HasSizes-blocks_of 0 ds) p.written full
          ∙ ap (λ t. some t) (concat-contents ftype source parts),
      ap (λ bs. length bs) made ∙ length-blocks_of 0 ds ∙ same,
    )
