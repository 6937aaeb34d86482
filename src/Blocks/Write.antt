-- ===== src/Blocks/Write.antt =====
-- FileSystem/src/filetable.c: writing a block into the target, and adding it to the file.
use opsys_17b.Base.{
  ℕ, suc, ◌+◌, ◌*◌, ◌≡◌, refl, sym, ap, ◌∙◌, false, Option, some, List, [], ◌∷◌, ◌++◌, append_assoc,
  append-nil, arith, ◌==◌, ltb, length, length-append, take, drop, length-drop, length-take,
  take-append, take-length, ◌≤◌, ◌<◌, pos,
}
use opsys_17b.YFile.{Block, YFile, yfile_addblock}
use opsys_17b.Blocks.{block_size, new_block, copy_to, Sink, add_block, State, flush, put_piece}
use opsys_17b.Blocks.Fill.{block_before}

pub copy_to_run :
    (target : List ℕ) (at : ℕ) (bytes : List ℕ)
    → at + length bytes ≤ length target
    → copy_to target at bytes ≡ some (take at target ++ (bytes ++ drop (at + length bytes) target))
unfolding copy_to
copy_to_run target at bytes h =
    let fits : ltb (length target) (at + length bytes) ≡ false = ground (arith, h) in rw fits refl

pub copied_length :
    (target : List ℕ) (at : ℕ) (bytes : List ℕ)
    → at + length bytes ≤ length target
    → length (take at target ++ (bytes ++ drop (at + length bytes) target)) ≡ length target
copied_length target at bytes h = omega (
  arith,
  length-append (take at target) (bytes ++ drop (at + length bytes) target),
  length-append bytes (drop (at + length bytes) target),
  length-take at target (omega (arith, h)),
  length-drop (at + length bytes) target h,
)

pub drop_past : (w rest : List ℕ) (n : ℕ) → drop (length w + n) (w ++ rest) ≡ drop n rest
drop_past [] rest n = ap (λ k. drop k rest) (omega arith)
drop_past (c ∷ w) rest n =
    let more : length (c ∷ w) + n ≡ suc (length w + n) = omega arith in
    ap (λ k. drop k (c ∷ w ++ rest)) more ∙ drop_past w rest n

-- The buffer holds the bytes `cur` of the block begun.
pub record IsHeld (cur : List ℕ) (st : State) : Type 0 where
  pub pad : List ℕ
  pub bytes : st.buffer ≡ cur ++ pad
  pub full : length st.buffer ≡ block_size
  pub size : st.size ≡ length cur

pub put_piece_lem :
    (end piece cur : List ℕ) (st : State)
    → IsHeld cur st
    → length cur + length piece + length end ≤ block_size
    → (st' : State) × (put_piece end piece st ≡ some st')
      × IsHeld (cur ++ piece) st'
      × (st'.count ≡ st.count)
      × (st'.sink ≡ st.sink)
unfolding put_piece
put_piece_lem end piece cur st held room =
    let after = drop (st.size + length (piece ++ end)) st.buffer in
    let buffer = take st.size st.buffer ++ ((piece ++ end) ++ after) in
    let fits : st.size + length (piece ++ end) ≤ length st.buffer =
      omega (arith, held.full, held.size, room, length-append piece end) in
    let front : take st.size st.buffer ≡ cur =
      rw held.size (rw held.bytes (take-append cur held.pad)) in
    (
      record st { buffer = buffer; size = st.size + length piece },
      rw (copy_to_run st.buffer st.size (piece ++ end) fits, put_piece) refl,
      record {
        pad = end ++ after;
        bytes = rw front (
            ap (λ t. cur ++ t) (append_assoc piece end after)
            ∙ sym (append_assoc cur piece (end ++ after)));
        full = copied_length st.buffer st.size (piece ++ end) fits ∙ held.full;
        size = omega (arith, held.size, length-append cur piece);
      },
      refl,
      refl,
    )

-- The bytes of blocks with these contents, each filled up to `block_size` bytes.
pub data IsWritten : List (List ℕ) → List ℕ → Type 0 where
  no_blocks : IsWritten [] []
  one_more :
      (d pad : List ℕ) (ds : List (List ℕ)) (rest : List ℕ)
      → length (d ++ pad) ≡ block_size
      → IsWritten ds rest
      → IsWritten (d ∷ ds) ((d ++ pad) ++ rest)

-- The blocks with these contents, numbered from `i` on.
unfoldable pub blocks_of : ℕ → List (List ℕ) → List Block
blocks_of i [] = []
blocks_of i (d ∷ ds) = record (new_block (length d)) { index = pos i } ∷ blocks_of (suc i) ds

-- The file with blocks of these contents added.
abbrev pub IsGrown : YFile → List (List ℕ) → YFile → Type 0
IsGrown file ds file' = file'.blocks ≡ file.blocks ++ blocks_of (length file.blocks) ds

IsGrown-cons :
    (file file' : YFile) (d : List ℕ) (ds : List (List ℕ))
    → IsGrown (yfile_addblock file (new_block (length d))) ds file'
    → IsGrown file (d ∷ ds) file'
unfolding blocks_of yfile_addblock
IsGrown-cons file file' d ds h =
    let b = record (new_block (length d)) { index = pos (length file.blocks) } in
    let next : length (file.blocks ++ (b ∷ [])) ≡ suc (length file.blocks) =
      omega (arith, length-append file.blocks (b ∷ [])) in
    h ∙ rw next (append_assoc file.blocks (b ∷ []) (blocks_of (suc (length file.blocks)) ds))

times_suc : (n : ℕ) → suc n * block_size ≡ n * block_size + block_size
unfolding block_size
times_suc n = omega arith

next : (n : ℕ) → (n + 1) * block_size ≡ n * block_size + block_size
unfolding block_size
next n = omega arith

pub small : (n : ℕ) → n ≤ 4096 → n ≤ block_size
unfolding block_size
small n h = omega (arith, h)

pub no_bytes : (xs : List ℕ) → length xs ≡ 0 → xs ≡ []
no_bytes [] h = refl
no_bytes (x ∷ xs) h = absurd (omega (arith, h))

pub result_eq :
    {n n' : ℕ} {sink sink' : Sink}
    → n ≡ n'
    → sink ≡ sink'
    → ◌≡◌ {A = Option (ℕ × Sink)} (some (n, sink)) (some (n', sink'))
result_eq a b = rw a (rw b refl)

-- Writing the block begun, if it has bytes.
flush_full :
    (cur w rest : List ℕ) (file : YFile) (st : State)
    → IsHeld cur st
    → 0 < length cur
    → st.sink ≡ some (w ++ rest, file)
    → length w ≡ st.count * block_size
    → block_size ≤ length rest
    → st.count < 2048
    → (flush st
        ≡ some (record st {
          size = 0;
          count = st.count + 1;
          sink = some (
            (w ++ st.buffer) ++ drop block_size rest,
            yfile_addblock file (new_block (length cur)),
          );
        }))
unfolding flush add_block
flush_full cur w rest file st held some_bytes to at room few =
    let low : ltb 2047 st.count ≡ false = ground (arith, few) in
    let filled : (st.size == 0) ≡ false = ground (arith, held.size, some_bytes) in
    let whole : take block_size st.buffer ≡ st.buffer =
      ap (λ n. take n st.buffer) (sym held.full) ∙ take-length st.buffer in
    let fits : st.count * block_size + length st.buffer ≤ length (w ++ rest) =
      omega (arith, at, room, held.full, length-append w rest) in
    let front : take (st.count * block_size) (w ++ rest) ≡ w =
      ap (λ n. take n (w ++ rest)) (sym at) ∙ take-append w rest in
    let past : st.count * block_size + length st.buffer ≡ length w + block_size =
      omega (arith, at, held.full) in
    let behind : drop (st.count * block_size + length st.buffer) (w ++ rest)
        ≡ drop block_size rest =
      ap (λ n. drop n (w ++ rest)) past ∙ drop_past w rest block_size in
    let copied : copy_to (w ++ rest) (st.count * block_size) st.buffer
        ≡ some ((w ++ st.buffer) ++ drop block_size rest) =
      copy_to_run (w ++ rest) (st.count * block_size) st.buffer fits
      ∙ (rw front
          (rw behind (ap (λ t. some t) (sym (append_assoc w st.buffer (drop block_size rest)))))) in
    let run : add_block st.buffer st.count st.size (some (w ++ rest, file))
        ≡ some (
          1,
          some (
            (w ++ st.buffer) ++ drop block_size rest,
            yfile_addblock file (new_block (length cur)),
          ),
        ) =
      rw (filled, add_block)
        (rw (low, add_block)
          (rw whole (rw (copied, add_block) (rw (ap (λ n. new_block n) held.size) refl)))) in
    rw (ap (λ s. add_block st.buffer st.count st.size s) to ∙ run, flush) refl

flush_empty :
    (w rest : List ℕ) (file : YFile) (st : State)
    → st.size ≡ 0
    → st.sink ≡ some (w ++ rest, file)
    → flush st ≡ some (record st { size = 0; count = st.count + 0; sink = some (w ++ rest, file) })
unfolding flush add_block
flush_empty w rest file st none_held to =
    let run : add_block st.buffer st.count st.size (some (w ++ rest, file))
        ≡ some (0, some (w ++ rest, file)) =
      rw (none_held, add_block) refl in
    rw (ap (λ s. add_block st.buffer st.count st.size s) to ∙ run, flush) refl

-- Blocks with the bytes `w` are written, and `rest` is what the target has behind them.
pub record IsReady (cur w rest : List ℕ) (file : YFile) (st : State) : Type 0 where
  pub held : IsHeld cur st
  pub to : st.sink ≡ some (w ++ rest, file)
  pub at : length w ≡ st.count * block_size

-- What `flush` leaves, where blocks with the contents `ds` are still to come.
pub record IsFlushed (cur w : List ℕ) (file : YFile) (st : State) (ds : List (List ℕ))
    : Type 0 where
  pub after : State
  pub run : flush st ≡ some after
  pub bytes : List ℕ
  pub behind : List ℕ
  pub grown : YFile
  pub ready : IsReady [] (w ++ bytes) behind grown after
  pub room : length behind ≡ length ds * block_size
  pub total : after.count + length ds ≡ st.count + length (block_before cur ds)
  pub written : (v : List ℕ) → IsWritten ds v → IsWritten (block_before cur ds) (bytes ++ v)
  pub grows : (g : YFile) → IsGrown grown ds g → IsGrown file (block_before cur ds) g

pub flush_lem :
    (cur w rest : List ℕ) (file : YFile) (st : State) (ds : List (List ℕ))
    → IsReady cur w rest file st
    → length rest ≡ length (block_before cur ds) * block_size
    → st.count + length (block_before cur ds) ≤ 2048
    → IsFlushed cur w file st ds
flush_lem [] w rest file st ds ready room few = record {
  after = record st { size = 0; count = st.count + 0; sink = some (w ++ rest, file) };
  run = flush_empty w rest file st ready.held.size ready.to;
  bytes = [];
  behind = rest;
  grown = file;
  ready = record {
    held = record { pad = st.buffer; bytes = refl; full = ready.held.full; size = refl };
    to = rw (append-nil w) refl;
    at = rw (append-nil w) (omega (arith, ready.at));
  };
  room = room;
  total = omega arith;
  written = λ v h. h;
  grows = λ g h. h;
}
flush_lem (c ∷ cur) w rest file st ds ready room few =
    let filled : (length (c ∷ cur) == 0) ≡ false = ground arith in
    let list : block_before (c ∷ cur) ds ≡ (c ∷ cur) ∷ ds = rw filled refl in
    let space : length rest ≡ length ds * block_size + block_size =
      room ∙ ap (λ l. length l * block_size) list ∙ times_suc (length ds) in
    record {
      after = record st {
        size = 0;
        count = st.count + 1;
        sink = some (
          (w ++ st.buffer) ++ drop block_size rest,
          yfile_addblock file (new_block (length (c ∷ cur))),
        );
      };
      run =
          flush_full (c ∷ cur) w rest file st ready.held (omega arith) ready.to ready.at
            (omega (arith, space)) (omega (arith, few, ap (λ l. length l) list));
      bytes = st.buffer;
      behind = drop block_size rest;
      grown = yfile_addblock file (new_block (length (c ∷ cur)));
      ready = record {
        held = record { pad = st.buffer; bytes = refl; full = ready.held.full; size = refl };
        to = refl;
        at = omega (
          arith,
          times_suc st.count,
          next st.count,
          ready.at,
          ready.held.full,
          length-append w st.buffer,
        );
      };
      room = omega (arith, space, length-drop block_size rest (omega (arith, space)));
      total = rw list (omega arith);
      written = λ v h. rw list (
          rw ready.held.bytes (
            one_more (c ∷ cur) ready.held.pad ds v
              (sym (ap (λ b. length b) ready.held.bytes) ∙ ready.held.full) h));
      grows = λ g h. rw list (IsGrown-cons file g (c ∷ cur) ds h);
    }
