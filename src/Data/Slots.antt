-- ===== src/Data/Slots.antt =====
-- Shared/data.c: a block that was set is got, and the others stay.
use opsys_17b.Base.{
  ℕ, ◌+◌, ◌-◌, ◌*◌, ◌/◌, ◌≡◌, refl, sym, ap, ◌∙◌, false, some, List, ◌++◌, append_assoc, arith,
  ◌==◌, ltb, length, length-append, take, drop, take-append, take-append_short, drop-append_short,
  length-drop, length-take, take-drop, take-length, ◌≤◌, ◌<◌, Bool-cases, inl, inr,
}
use opsys_17b.Blocks.{block_size}
use opsys_17b.Blocks.Write.{copy_to_run, copied_length, drop_past}
use opsys_17b.Data.{Data, data_set, data_get, data_blocks}

-- The `n` bytes from a place on.
abbrev slot : ℕ → ℕ → List ℕ → List ℕ
slot n at xs = take n (drop at xs)

slot_front :
    (n at : ℕ) (a x y : List ℕ) → at + n ≤ length a → slot n at (a ++ x) ≡ slot n at (a ++ y)
slot_front n at a x y h = one x ∙ sym (one y)
  where
    one : (x : List ℕ) → slot n at (a ++ x) ≡ take n (drop at a)
    one x =
        ap (λ t. take n t) (drop-append_short at a x (omega (arith, h)))
        ∙ take-append_short n (drop at a) x (omega (arith, h, length-drop at a (omega (arith, h))))

slot_behind :
    (n at : ℕ) (a b c : List ℕ)
    → length a ≡ length b
    → length a ≤ at
    → slot n at (a ++ c) ≡ slot n at (b ++ c)
slot_behind n at a b c same h =
    one a h ∙ ap (λ k. take n (drop (at - k) c)) same ∙ sym (one b (omega (arith, h, same)))
  where
    one : (a : List ℕ) → length a ≤ at → slot n at (a ++ c) ≡ take n (drop (at - length a) c)
    one a h =
        let parts : at ≡ length a + (at - length a) = omega (arith, h) in
        ap (λ k. take n (drop k (a ++ c))) parts
        ∙ ap (λ t. take n t) (drop_past a c (at - length a))

slot_there : (a b c : List ℕ) → slot (length b) (length a) (a ++ (b ++ c)) ≡ b
slot_there a b c =
    let at : length a ≡ length a + 0 = omega arith in
    ap (λ k. take (length b) (drop k (a ++ (b ++ c)))) at
    ∙ ap (λ t. take (length b) t) (drop_past a (b ++ c) 0)
    ∙ take-append b c

before : (i j : ℕ) → j < i → j * block_size + block_size ≤ i * block_size
unfolding block_size
before i j h = omega (arith, h)

within : (n size : ℕ) → n < size / block_size → n * block_size + block_size ≤ size
unfolding block_size
within n size h = omega (arith, h)

-- The map has the size that was set down.
abbrev pub IsMapped : Data → Type 0
IsMapped d = length d.map ≡ d.size

data_get_run :
    (j : ℕ) (d : Data)
    → j < 2048
    → j * block_size + block_size ≤ length d.map
    → data_get j d ≡ some (slot block_size (j * block_size) d.map)
unfolding data_get
data_get_run j d few inside =
    let low : ltb 2047 j ≡ false = ground (arith, few) in
    let room : ltb (length d.map) (j * block_size + block_size) ≡ false = ground (arith, inside) in
    rw low (rw room refl)

-- The bytes that `data_set` leaves.
written : ℕ → List ℕ → Data → Data
written i block d = record d {
  map = take (i * block_size) d.map ++ (block ++ drop (i * block_size + length block) d.map);
}

data_set_run :
    (i : ℕ) (block : List ℕ) (d : Data)
    → i < 2048
    → length block ≡ block_size
    → i * block_size + block_size ≤ length d.map
    → data_set i block d ≡ some (written i block d)
unfolding data_set written
data_set_run i block d few whole inside =
    let low : ltb 2047 i ≡ false = ground (arith, few) in
    let full : ltb (length block) block_size ≡ false = ground (arith, whole) in
    let all : take block_size block ≡ block =
      ap (λ n. take n block) (sym whole) ∙ take-length block in
    let run = copy_to_run d.map (i * block_size) block (omega (arith, whole, inside)) in
    rw low (rw full (rw all (rw (run, data_set) refl)))

module _ (d : Data) (i : ℕ) (block : List ℕ) (whole : length block ≡ block_size)
    (inside : i * block_size + block_size ≤ length d.map) where
  front : length (take (i * block_size) d.map) ≡ i * block_size
  front = length-take (i * block_size) d.map (omega (arith, inside))

  new_slot : slot block_size (i * block_size) (written i block d).map ≡ block
  unfolding written
  new_slot =
      ap (λ n. slot n (i * block_size) (written i block d).map) (sym whole)
      ∙ ap (λ n. slot (length block) n (written i block d).map) (sym front)
      ∙ slot_there (take (i * block_size) d.map) block (drop (i * block_size + length block) d.map)

  old_slot :
      (j : ℕ)
      → (i == j) ≡ false
      → slot block_size (j * block_size) (written i block d).map
        ≡ slot block_size (j * block_size) d.map
  unfolding written
  old_slot j other = elim (Bool-cases (ltb j i)) [
    | inl e ↦
        let less : j < i = ground (arith, e) in
        slot_front block_size (j * block_size) (take (i * block_size) d.map)
          (block ++ drop (i * block_size + length block) d.map) (drop (i * block_size) d.map)
          (omega (arith, front, before i j less))
        ∙ ap (λ t. slot block_size (j * block_size) t) (take-drop (i * block_size) d.map)
    | inr e ↦
        let more : i < j = ground (arith, e, other) in
        let past = i * block_size + length block in
        let rest = drop past d.map in
        let cut : length (take past d.map) ≡ past =
          length-take past d.map (omega (arith, whole, inside)) in
        let ahead : length (take (i * block_size) d.map ++ block) ≡ past =
          length-append (take (i * block_size) d.map) block ∙ ap (λ n. n + length block) front in
        ap (λ t. slot block_size (j * block_size) t)
          (sym (append_assoc (take (i * block_size) d.map) block rest))
        ∙ slot_behind block_size (j * block_size) (take (i * block_size) d.map ++ block)
            (take past d.map) rest (ahead ∙ sym cut) (omega (arith, ahead, whole, before j i more))
        ∙ ap (λ t. slot block_size (j * block_size) t) (take-drop past d.map)
  ]

-- In a data space of 2 GiB at most, setting a block of `BLOCK_SIZE` bytes does not fault, `data_get`
-- then gives these bytes, every other block stays, and the size is the same.
pub data_get-data_set :
    (d : Data) (i : ℕ) (block : List ℕ)
    → IsMapped d
    → data_blocks d ≤ 2048
    → i < data_blocks d
    → length block ≡ block_size
    → (d' : Data) × (data_set i block d ≡ some d')
      × (data_get i d' ≡ some block)
      × ((j : ℕ) → j < data_blocks d → (i == j) ≡ false → data_get j d' ≡ data_get j d)
      × IsMapped d'
      × (data_blocks d' ≡ data_blocks d)
unfolding data_blocks
data_get-data_set d i block mapped few there whole =
    let inside : (j : ℕ) → j < d.size / block_size → j * block_size + block_size ≤ length d.map =
      λ j h. omega (arith, within j d.size h, mapped) in
    let same : length (written i block d).map ≡ length d.map =
      unfold written in
      copied_length d.map (i * block_size) block (omega (arith, whole, inside i there)) in
    (
      written i block d,
      data_set_run i block d (omega (arith, few, there)) whole (inside i there),
      data_get_run i (written i block d) (omega (arith, few, there))
            (omega (arith, inside i there, same))
          ∙ ap (λ t. some t) (new_slot d i block whole (inside i there)),
      λ j h other.
          data_get_run j (written i block d) (omega (arith, few, h))
            (omega (arith, inside j h, same))
          ∙ ap (λ t. some t) (old_slot d i block whole (inside i there) j other)
          ∙ sym (data_get_run j d (omega (arith, few, h)) (inside j h)),
      same ∙ mapped ∙ (unfold written in refl),
      (unfold written in refl),
    )
