-- ===== src/Serial/Types.antt =====
-- Shared/serial.c: the arguments that `serial_remove` returns are those that its format asks for.
use opsys_17b.Base.{
  ℕ, zero, suc, ◌-◌, ◌<◌, ◌≤◌, ◌≡◌, refl, ap, inl, inr, Option, none, some, List, [], ◌∷◌, arith,
  length, take, All, ℤ, pos, negsuc, IsSigned, Bool-cases, ◌==◌, ltb, Holds, cases, held,
  length-take,
}
use opsys_17b.Serial.{
  Serial, serial, Code, Arg, string, binary, null_string, same_bytes, of_string, code, split_string,
  split_bytes, read, read_all, Removed, untouched, fault, removed, shift_down, serial_remove, IsArg,
  IsValid,
}
use opsys_17b.Serial.Word.Laws.{unpacku16_value, unpacku32_value, unpacku64_value}
use opsys_17b.Serial.Laws.{codes}
use opsys_17b.Serial.Word.{
  IsByte, resign, unpacku16, unpacku32, unpacku64, unpacki8, unpacki16, unpacki32, unpacki64,
}

-- An argument of the letter and of its type, in front of bytes.
abbrev Reads : Code → Arg × List ℕ → Type 0
Reads c (a, rest) = (code a ≡ c) × IsArg a × All IsByte rest

split_string-IsByte :
    (bs : List ℕ)
    → All IsByte bs
    → Holds (λ r. All (λ b. 0 < b) r.0 × All IsByte r.1) (split_string bs)
unfolding split_string
split_string-IsByte [] h = tt
split_string-IsByte (zero ∷ bs) h = (tt, h.1)
split_string-IsByte (suc b ∷ bs) h = cases _ (split_string bs) none _ tt λ r e.
    let (front, back) = held _ (split_string bs) r (split_string-IsByte bs h.1) e in
    ((omega arith, front), back)

split_bytes-IsByte :
    (n : ℕ) (bs : List ℕ)
    → All IsByte bs
    → Holds (λ r. (length r.0 ≡ n) × All IsByte r.1) (split_bytes n bs)
unfolding split_bytes
split_bytes-IsByte zero bs h = (refl, h)
split_bytes-IsByte (suc n) [] h = tt
split_bytes-IsByte (suc n) (b ∷ bs) h = cases _ (split_bytes n bs) none _ tt λ r e.
    let (front, back) = held _ (split_bytes n bs) r (split_bytes-IsByte n bs h.1) e in
    (ap suc front, back)

of_string-IsArg : (s : List ℕ) → All (λ b. 0 < b) s → IsArg (string (of_string s))
of_string-IsArg s h = elim (Bool-cases (same_bytes s null_string)) [
  | inl e ↦ rw e tt
  | inr e ↦ rw e (h, e)
]

resign-IsSigned7 : (x : ℕ) → x < 256 → IsSigned 7 (resign 0x7f 0xff x)
resign-IsSigned7 x h = ground arith

resign-IsSigned15 : (x : ℕ) → x < 0x1_0000 → IsSigned 15 (resign 0x7fff 0xffff x)
resign-IsSigned15 x h = ground arith

resign-IsSigned31 : (x : ℕ) → x < 0x1_0000_0000 → IsSigned 31 (resign 0x7fff_ffff 0xffff_ffff x)
resign-IsSigned31 x h = ground arith

resign-IsSigned63 :
    (x : ℕ)
    → x < 0x1_0000_0000_0000_0000
    → IsSigned 63 (resign 0x7fff_ffff_ffff_ffff 0xffff_ffff_ffff_ffff x)
resign-IsSigned63 x h = ground arith

u32_bound :
    (a b c d : ℕ) → IsByte a → IsByte b → IsByte c → IsByte d → unpacku32 a b c d < 0x1_0000_0000
u32_bound a b c d ha hb hc hd = omega (arith, unpacku32_value a b c d hb hc hd)

u64_bound :
    (a b c d e f g h : ℕ)
    → IsByte a
    → All IsByte (b ∷ c ∷ d ∷ e ∷ f ∷ g ∷ h ∷ [])
    → unpacku64 a b c d e f g h < 0x1_0000_0000_0000_0000
u64_bound a b c d e f g h ha (hb, (hc, (hd, (he, (hf, (hg, (hh, t))))))) =
    omega (arith, unpacku64_value a b c d e f g h hb hc hd he hf hg hh)

binary-Reads :
    (z : ℤ) (r : List ℕ)
    → IsSigned 31 z
    → All IsByte r
    → Holds (Reads Code.binary) (elim z [
      | negsuc n ↦ none
      | pos n ↦ elim (split_bytes n r) [
        | none ↦ none
        | some (xs, r') ↦ some (binary (serial xs n), r')
      ]
    ])
binary-Reads (negsuc n) r hz h = tt
binary-Reads (pos n) r hz h = cases _ (split_bytes n r) none _ tt λ x e.
    let (full, back) = held _ (split_bytes n r) x (split_bytes-IsByte n r h) e in
    (refl, (full, hz), back)

read-Reads : (c : Code) (bs : List ℕ) → All IsByte bs → Holds (Reads c) (read c bs)
unfolding read unpacki8 unpacki16 unpacki32 unpacki64 unpacku16
read-Reads Code.int8 (b ∷ r) h = (refl, resign-IsSigned7 b h.0, h.1)
read-Reads Code.uint8 (b ∷ r) h = (refl, h.0, h.1)
read-Reads Code.int16 (a ∷ b ∷ r) (ha, (hb, h)) =
    (refl, resign-IsSigned15 _ (omega (arith, unpacku16_value a b hb)), h)
read-Reads Code.uint16 (a ∷ b ∷ r) (ha, (hb, h)) = (refl, omega (arith, unpacku16_value a b hb), h)
read-Reads Code.int32 (a ∷ b ∷ c ∷ d ∷ r) (ha, (hb, (hc, (hd, h)))) =
    (refl, resign-IsSigned31 _ (u32_bound a b c d ha hb hc hd), h)
read-Reads Code.uint32 (a ∷ b ∷ c ∷ d ∷ r) (ha, (hb, (hc, (hd, h)))) =
    (refl, u32_bound a b c d ha hb hc hd, h)
read-Reads Code.int64 (a ∷ b ∷ c ∷ d ∷ e ∷ f ∷ g ∷ i ∷ r)
      (ha, (hb, (hc, (hd, (he, (hf, (hg, (hi, h)))))))) =
    (
      refl,
      resign-IsSigned63 _
          (u64_bound a b c d e f g i ha (hb, (hc, (hd, (he, (hf, (hg, (hi, tt)))))))),
      h,
    )
read-Reads Code.uint64 (a ∷ b ∷ c ∷ d ∷ e ∷ f ∷ g ∷ i ∷ r)
      (ha, (hb, (hc, (hd, (he, (hf, (hg, (hi, h)))))))) =
    (refl, u64_bound a b c d e f g i ha (hb, (hc, (hd, (he, (hf, (hg, (hi, tt))))))), h)
read-Reads Code.string bs h = cases _ (split_string bs) none _ tt λ r e.
    let (front, back) = held _ (split_string bs) r (split_string-IsByte bs h) e in
    (refl, of_string-IsArg r.0 front, back)
read-Reads Code.binary (a ∷ b ∷ c ∷ d ∷ r) (ha, (hb, (hc, (hd, h)))) =
    binary-Reads (unpacki32 a b c d) r (resign-IsSigned31 _ (u32_bound a b c d ha hb hc hd)) h
read-Reads _ _ h = tt

read_all-Reads :
    (cs : List Code) (bs : List ℕ)
    → All IsByte bs
    → Holds (λ r. (codes r.0 ≡ cs) × All IsArg r.0 × All IsByte r.1) (read_all cs bs)
unfolding read_all
read_all-Reads [] bs h = (refl, tt, h)
read_all-Reads (c ∷ cs) bs h = cases _ (read c bs) none _ tt λ (a, r) e.
    let (letter, typed, back) = held (Reads c) (read c bs) (a, r) (read-Reads c bs h) e in
    cases _ (read_all cs r) none _ tt λ (args, r') e'.
      let (letters, all_typed, back') =
        held _ (read_all cs r) (args, r') (read_all-Reads cs r back) e' in
      ((λ i. letter i ∷ letters i), (typed, all_typed), back')

-- What is left in a container, and what was taken out of it.
abbrev pub Takes : List Code → Removed → Type 0
Takes cs untouched = Unit {0}
Takes cs fault = Unit {0}
Takes cs (removed args s) = (codes args ≡ cs) × All IsArg args × All IsByte s.bytes × IsValid s

All-take : (n : ℕ) (bs : List ℕ) → All IsByte bs → All IsByte (take n bs)
All-take zero bs h = tt
All-take (suc n) [] h = tt
All-take (suc n) (b ∷ bs) h = (h.0, All-take n bs h.1)

shift_down-Takes :
    (cs : List Code) (size consumed : ℕ) (args : List Arg) (rest : List ℕ)
    → size - consumed ≤ length rest
    → codes args ≡ cs
    → All IsArg args
    → All IsByte rest
    → Takes cs (shift_down size rest consumed args)
unfolding shift_down
shift_down-Takes cs size consumed args rest le e typed h = elim (Bool-cases (ltb size consumed)) [
  | inl out ↦ rw (out, shift_down) tt
  | inr inside ↦ elim (Bool-cases (size == consumed)) [
    | inl all ↦ rw (inside, shift_down) (rw all (e, typed, tt, refl))
    | inr part ↦
        rw (inside, shift_down)
          (rw part
            (e, typed, All-take (size - consumed) rest h, length-take (size - consumed) rest le))
  ]
]

all-Takes :
    (cs : List Code) (s : Serial) (o : Option (List Arg × List ℕ))
    → IsValid s
    → Holds (λ r. (codes r.0 ≡ cs) × All IsArg r.0 × All IsByte r.1) o
    → Takes cs (elim o [
      | none ↦ fault
      | some (args, rest) ↦ shift_down s.size rest (length s.bytes - length rest) args
    ])
all-Takes cs s none valid h = tt
all-Takes cs s (some (args, rest)) valid (e, typed, back) =
    shift_down-Takes cs s.size (length s.bytes - length rest) args rest (omega (arith, valid)) e
      typed back

-- Whatever bytes a valid container holds, `serial_remove` returns arguments of just the letters of
-- its format, each in the range of its C type, or it writes none of them or reads past the data;
-- what it leaves is again a valid container of bytes.
pub serial_remove-Takes :
    (cs : List Code) (s : Serial) → IsValid s → All IsByte s.bytes → Takes cs (serial_remove cs s)
unfolding serial_remove
serial_remove-Takes cs s valid h = elim (Bool-cases (s.size == 0)) [
  | inl none_left ↦ rw (none_left, serial_remove) tt
  | inr some_left ↦
      rw (some_left, serial_remove)
        (all-Takes cs s (read_all cs s.bytes) valid (read_all-Reads cs s.bytes h))
]
