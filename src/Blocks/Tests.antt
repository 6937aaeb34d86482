-- ===== src/Blocks/Tests.antt =====
-- FileSystem/src/filetable.c on a short text and a short binary file.
use opsys_17b.Base.{
  ℕ, zero, suc, ◌+◌, ◌*◌, ◌≡◌, refl, sym, false, append-nil, append_assoc, ap, ◌∙◌, Option, none,
  some, List, [], ◌∷◌, ◌++◌, arith, length, length-append, map, ◌<◌, inl, ◌==◌,
}
use opsys_17b.YFile.{YFile, txt, bin, yfile_create}
use opsys_17b.Blocks.{
  block_size, pieces, pieces_loop, lines, lines_loop, c_string, copy_to, add_block, Sink,
  partition_file_into_blocks, count_file_blocks, reconstruct_file,
}
use opsys_17b.Blocks.LongLine.{HasLong, count_file_blocks_long}
use opsys_17b.Blocks.RoundTrip.{IsSource, reconstruct_file-partition_file_into_blocks}

-- Bytes with the value `c`, at first zero.
copies : ℕ → ℕ → List ℕ
copies c zero = []
copies c (suc n) = c ∷ copies c n

length-copies : (c n : ℕ) → length (copies c n) ≡ n
unfolding copies
length-copies c zero = refl
length-copies c (suc n) = ap suc (length-copies c n)

-- Two lines, the last without a line feed.
abbrev two_lines : List ℕ
two_lines = b'a' ∷ b'\n' ∷ b'b' ∷ b'c' ∷ []

abbrev three_bytes : List ℕ
three_bytes = 0 ∷ 7 ∷ 0 ∷ []

pieces_run :
    (lines two_lines ≡ (b'a' ∷ b'\n' ∷ []) ∷ (b'b' ∷ b'c' ∷ []) ∷ [])
    × (pieces three_bytes ≡ three_bytes ∷ [])
    × (pieces_loop [] 2 three_bytes ≡ (0 ∷ 7 ∷ []) ∷ (0 ∷ []) ∷ [])
    × (c_string (b'a' ∷ 0 ∷ b'b' ∷ []) ≡ b'a' ∷ [])
    × (copy_to two_lines 1 three_bytes ≡ some (b'a' ∷ three_bytes))
    × (copy_to two_lines 2 three_bytes ≡ none)
unfolding lines_loop pieces_loop c_string copy_to
pieces_run = (refl, refl, refl, refl, refl, refl)

add_block_run :
    ◌≡◌ {A = Option (ℕ × Sink)} (add_block two_lines 0 0 none) (some (0, none))
    × ◌≡◌ {A = Option (ℕ × Sink)} (add_block two_lines 0 3 none) (some (1, none))
unfolding add_block
add_block_run = (refl, refl)

two_lines_run : lines two_lines ≡ (b'a' ∷ b'\n' ∷ []) ∷ (b'b' ∷ b'c' ∷ []) ∷ []
unfolding lines_loop
two_lines_run = refl

two_lines-IsSource : IsSource txt two_lines
two_lines-IsSource =
    ((refl, (refl, (refl, (refl, tt)))), rw two_lines_run (omega arith, (omega arith, tt)))

three_bytes_run : count_file_blocks bin (copies 0 block_size) three_bytes ≡ some 1
unfolding count_file_blocks block_size
three_bytes_run = refl

reconstruct_file-partition_file_into_blocks_example :
    (bytes : List ℕ) × (file : YFile) × ◌≡◌ {A = Option (ℕ × Sink)}
      (partition_file_into_blocks bin
        (copies 0 block_size)
        three_bytes
        (some (copies 9 (1 * block_size), yfile_create none bin)))
      (some (1, some (bytes, file)))
    × (reconstruct_file file.blocks bytes ≡ some three_bytes)
    × (length file.blocks ≡ 1)
reconstruct_file-partition_file_into_blocks_example =
    reconstruct_file-partition_file_into_blocks bin none (copies 0 block_size) three_bytes
      (copies 9 (1 * block_size)) 1 (length-copies 0 block_size) tt three_bytes_run
      (length-copies 9 (1 * block_size)) (omega arith)

-- A line of as many letters as a block has bytes.
long_line : List ℕ
long_line = copies b'a' block_size

long_lines :
    (n : ℕ) (cur : List ℕ)
    → 0 < length cur + n
    → lines_loop cur (copies b'a' n) ≡ (cur ++ copies b'a' n) ∷ []
unfolding lines_loop copies
long_lines zero [] h = absurd (omega (arith, h))
long_lines zero (c ∷ cur) h =
    let filled : (length (c ∷ cur) == 0) ≡ false = ground arith in
    rw filled (ap (λ t. t ∷ []) (sym (append-nil (c ∷ cur))))
long_lines (suc n) cur h =
    long_lines n (cur ++ (b'a' ∷ [])) (omega (arith, length-append cur (b'a' ∷ [])))
    ∙ ap (λ t. t ∷ []) (append_assoc cur (b'a' ∷ []) (copies b'a' n))

c_string-copies : (n : ℕ) → c_string (copies b'a' n) ≡ copies b'a' n
unfolding c_string copies
c_string-copies zero = refl
c_string-copies (suc n) = ap (λ t. b'a' ∷ t) (c_string-copies n)

block_size_filled : 0 < block_size
unfolding block_size
block_size_filled = omega arith

long_line-HasLong : HasLong (map (λ line. c_string line) (lines long_line))
unfolding long_line
long_line-HasLong =
    rw (long_lines block_size [] (omega (arith, block_size_filled)))
      (rw (c_string-copies block_size) (inl (omega (arith, length-copies b'a' block_size))))

count_file_blocks_long_example : count_file_blocks txt (copies 0 block_size) long_line ≡ none
count_file_blocks_long_example =
    count_file_blocks_long (copies 0 block_size) long_line (length-copies 0 block_size)
      long_line-HasLong
