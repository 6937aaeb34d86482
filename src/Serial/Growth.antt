-- ===== src/Serial/Growth.antt =====
-- Shared/serial.c, `add_variadic`: the buffer always has room for what is stored, so that adding
-- arguments succeeds and appends their encodings.
use opsys_17b.Base.{
  ℕ, zero, suc, ◌+◌, ◌*◌, ◌≤◌, ◌<◌, ◌≡◌, refl, ◌∙◌, ap, inl, inr, some, List, [], ◌∷◌, ◌++◌, arith,
  leb, leb→le, le→leb, true, Bool-cases, length, length-append, take, take-length, append_assoc,
  ltb, ◌%◌, ◌^◌, false, none, Holds, held, cases, test, Option-cases, some_inj, sym, subst,
  append-nil, All,
}
use opsys_17b.Serial.{
  Serial, serial, Arg, string, binary, or_null, size_of, encode, Buffer, buffer, grow,
  resize_buffer, store, put, put_all, append_buffer, serial_add, IsValid, IsArg,
}
use opsys_17b.Serial.Word.{packi16, packi32, packi64}

-- What a list of arguments stands for on the wire.
unfoldable pub encode_all : List Arg → List ℕ
encode_all [] = []
encode_all (a ∷ args) = encode a ++ encode_all args

-- Doubling reaches a need of 2 ^ 31 bytes at most, on fuel above the distance.
grow_total :
    (fuel need size : ℕ)
    → 0 < size
    → need ≤ 2 ^ 31
    → need < size + fuel
    → (c : ℕ) × (grow (suc fuel) need size ≡ some c) × (need ≤ c) × (0 < c)
unfolding grow
grow_total zero need size h small k =
    let fits : leb need size ≡ true = ground arith in (size, rw fits, omega arith, h)
grow_total (suc fuel) need size h small k = elim (Bool-cases (leb need size)) [
  | inl fits ↦ (size, rw fits, leb→le need size fits, h)
  | inr less ↦
      let under : size < need = ground arith in
      rw less (
        grow_total fuel need (size * 2 % 2 ^ 32) (omega (arith, under)) small
          (omega (arith, under)))
]

module _ (len : ℕ) (b : Buffer) (need : ℕ) (word : (length b.bytes + len) % 2 ^ 32 ≡ need) where
  resize_buffer_fits : leb need b.cap ≡ true → resize_buffer len b ≡ some b
  unfolding resize_buffer
  resize_buffer_fits fits = rw word (rw fits)

  resize_buffer_grown :
      (c : ℕ)
      → leb need b.cap ≡ false
      → grow (suc need) need b.cap ≡ some c
      → resize_buffer len b ≡ some (buffer b.bytes c)
  unfolding resize_buffer
  resize_buffer_grown c less e = rw word (rw less (rw e))

resize_buffer_total :
    (len : ℕ) (b : Buffer)
    → 0 < b.cap
    → length b.bytes + len ≤ 2 ^ 31
    → (c : ℕ) × (resize_buffer len b ≡ some (buffer b.bytes c))
      × (length b.bytes + len ≤ c)
      × (0 < c)
resize_buffer_total len b h small =
    let need = length b.bytes + len in
    let word : need % 2 ^ 32 ≡ need = omega (arith, small) in
    elim (Bool-cases (leb need b.cap)) [
      | inl fits ↦ (b.cap, resize_buffer_fits len b need word fits, leb→le need b.cap fits, h)
      | inr less ↦
          let (c, e, le, po) = grow_total need need b.cap h small (omega (arith, h)) in
          (c, resize_buffer_grown len b need word c less e, le, po)
    ]

length-take_exact {ℓ} : {A : Type ℓ} (n : ℕ) (xs : List A) → length xs ≡ n → length (take n xs) ≡ n
length-take_exact zero xs e = refl
length-take_exact (suc n) [] e = absurd (omega arith)
length-take_exact (suc n) (x ∷ xs) e = ap suc (length-take_exact n xs (omega arith))

-- Each case of `add_variadic` stores as many bytes as its `len` says.
pub length-encode : (a : Arg) → IsArg a → length (encode a) ≡ size_of a
unfolding encode size_of packi16 packi32 packi64
length-encode (string s) h = length-append (or_null s) (0 ∷ [])
length-encode (binary x) h =
    ap (λ (n : ℕ). suc (suc (suc (suc n)))) (length-take_exact x.size x.bytes h.0) ∙ omega arith
length-encode _ h = refl

put_lem :
    (a : Arg) (b : Buffer)
    → IsArg a
    → 0 < b.cap
    → length b.bytes + length (encode a) ≤ 2 ^ 31
    → (c : ℕ) × (put a b ≡ some (buffer (b.bytes ++ encode a) c)) × (0 < c)
unfolding put store
put_lem a b h k small =
    let (c, e, fits, po) =
      resize_buffer_total (size_of a) b k (omega (arith, length-encode a h, small)) in
    let room : leb (length b.bytes + length (encode a)) c ≡ true =
      le→leb _ _ (omega (arith, length-encode a h)) in
    (c, rw (e, put) (rw room), po)

pub put_all_lem :
    (args : List Arg) (b : Buffer)
    → All IsArg args
    → 0 < b.cap
    → length b.bytes + length (encode_all args) ≤ 2 ^ 31
    → (c : ℕ) × (put_all args b ≡ some (buffer (b.bytes ++ encode_all args) c))
unfolding put_all encode_all
put_all_lem [] b h k small = (b.cap, rw append-nil)
put_all_lem (a ∷ args) b h k small =
    let len : length (encode a ++ encode_all args) ≡ length (encode a) + length (encode_all args) =
      length-append (encode a) (encode_all args) in
    let (c, e, po) = put_lem a b h.0 k (omega (arith, small, len)) in
    let (c', e') =
      put_all_lem args (buffer (b.bytes ++ encode a) c) h.1 po
        (omega (arith, small, len, length-append b.bytes (encode a))) in
    (c', rw (e, put_all) (rw (e', append_assoc)))

pub append_buffer_lem :
    (s : Serial) (bs : List ℕ)
    → IsValid s
    → s.size + length bs < 2 ^ 32
    → append_buffer s bs ≡ some (serial (s.bytes ++ bs) (s.size + length bs))
unfolding append_buffer
append_buffer_lem s bs v fits =
    let under : ltb (s.size + length bs) (2 ^ 32) ≡ true = ground (arith, fits) in
    rw (under, append_buffer) (rw (rw v at (take-length s.bytes)))

-- `serial_add` of arguments of their types, which need 2 ^ 31 bytes at most and 2 ^ 32 at most with
-- those of the valid container, neither writes outside its buffer nor runs out of fuel, and appends
-- exactly the encodings of the arguments.
pub serial_add_lem :
    (args : List Arg) (s : Serial)
    → All IsArg args
    → IsValid s
    → length (encode_all args) ≤ 2 ^ 31
    → s.size + length (encode_all args) < 2 ^ 32
    → serial_add args s
      ≡ some (serial (s.bytes ++ encode_all args) (s.size + length (encode_all args)))
unfolding serial_add
serial_add_lem args s h v small fits =
    let (c, e) = put_all_lem args (buffer [] 256) h (omega arith) (omega (arith, small)) in
    rw (e, serial_add) (append_buffer_lem s (encode_all args) v fits)

-- Where nothing is said of the sizes: a buffer that the code has filled holds just the encodings.
resize_buffer_kept : (len : ℕ) (b : Buffer) → Holds (λ r. r.bytes ≡ b.bytes) (resize_buffer len b)
unfolding resize_buffer
resize_buffer_kept len b =
    let need = (length b.bytes + len) % 2 ^ 32 in
    test _ (leb need b.cap) _ _ (λ t. refl)
      (λ t. cases _ (grow (suc need) need b.cap) none _ tt λ c e. refl)

put_kept : (a : Arg) (b : Buffer) → Holds (λ r. r.bytes ≡ b.bytes ++ encode a) (put a b)
unfolding put store
put_kept a b = cases _ (resize_buffer (size_of a) b) none _ tt λ r e.
    let same : r.bytes ≡ b.bytes =
      held (λ t. t.bytes ≡ b.bytes) (resize_buffer (size_of a) b) r
        (resize_buffer_kept (size_of a) b) e in
    test _ (leb (length r.bytes + length (encode a)) r.cap) _ _ (λ t. rw same) (λ t. tt)

put_all_kept :
    (args : List Arg) (b : Buffer)
    → Holds (λ r. r.bytes ≡ b.bytes ++ encode_all args) (put_all args b)
unfolding put_all encode_all
put_all_kept [] b = rw append-nil
put_all_kept (a ∷ args) b = cases _ (put a b) none _ tt λ r e.
    let same : r.bytes ≡ b.bytes ++ encode a =
      held (λ t. t.bytes ≡ b.bytes ++ encode a) (put a b) r (put_kept a b) e in
    subst (λ bs. Holds (λ x. x.bytes ≡ bs) (put_all args r))
      (ap (λ t. t ++ encode_all args) same ∙ append_assoc b.bytes (encode a) (encode_all args))
      (put_all_kept args r)

append_buffer_fits :
    (s t : Serial) (bs : List ℕ) → append_buffer s bs ≡ some t → s.size + length bs < 2 ^ 32
unfolding append_buffer
append_buffer_fits s t bs e = elim (Bool-cases (ltb (s.size + length bs) (2 ^ 32))) [
  | inl under ↦ ground (arith, under)
  | inr over ↦ absurd (ground (arith, e, over))
]

-- What `serial_add` makes of a valid container, and its buffer was filled.
pub record Adds (args : List Arg) (s t : Serial) : Type 0 where
  pub cap : ℕ
  pub filled : put_all args (buffer [] 256) ≡ some (buffer (encode_all args) cap)
  pub fits : s.size + length (encode_all args) < 2 ^ 32
  pub result : t ≡ serial (s.bytes ++ encode_all args) (s.size + length (encode_all args))

pub serial_add_inv :
    (args : List Arg) (s t : Serial) → IsValid s → serial_add args s ≡ some t → Adds args s t
unfolding serial_add
serial_add_inv args s t v e = elim (Option-cases (put_all args (buffer [] 256))) [
  | inl out ↦ absurd (ground (arith, e, out))
  | inr (b, run) ↦
      let same : b.bytes ≡ encode_all args =
        held (λ r. r.bytes ≡ encode_all args) (put_all args (buffer [] 256)) b
          (put_all_kept args (buffer [] 256)) run in
      let made : append_buffer s (encode_all args) ≡ some t =
        rw same at (rw (run, serial_add) at e) in
      let fits = append_buffer_fits s t (encode_all args) made in
      record {
        cap = b.cap;
        filled = run ∙ (λ i. some (buffer (same i) b.cap));
        fits = fits;
        result = some_inj (sym made ∙ append_buffer_lem s (encode_all args) v fits);
      }
]
