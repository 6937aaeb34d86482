-- ===== src/Packet/Stream.antt =====
-- Shared/socket.c: `recvall` gets all bytes asked for, however `recv` divides them.
use opsys_17b.Base.{
  drop, take-append_short, drop-append_short, length-take, length-drop, take-drop, ℕ, zero, suc,
  ◌-◌, ◌≡◌, refl, ap, ◌∙◌, false, List, [], ◌∷◌, ◌++◌, arith, ◌==◌, length, take, ◌≤◌, ◌<◌,
}
use opsys_17b.Packet.{maxsize, ready, recvall_loop, recvall}

empty_of_length : (d : List ℕ) → length d ≡ 0 → d ≡ []
empty_of_length [] h = refl
empty_of_length (x ∷ d) h = absurd (omega arith)

abbrev put_front : List ℕ → List ℕ × List ℕ → List ℕ × List ℕ
put_front part (d, rest) = (part ++ d, rest)

module _ (chunk : ℕ → ℕ) where
  ready_lem : (left : ℕ) → 0 < left → (0 < ready chunk left) × (ready chunk left ≤ left)
  ready_lem left h = (ground arith, ground arith)

  -- A round that does not end the loop.
  recvall_round :
      (fuel len left : ℕ) (stream : List ℕ)
      → (left == 0) ≡ false
      → (length (take (ready chunk left) stream) == 0) ≡ false
      → (len == maxsize) ≡ false
      → recvall_loop chunk (suc fuel) len left stream
        ≡ put_front (take (ready chunk left) stream) (
            recvall_loop chunk fuel len
              (left - length (take (ready chunk left) stream))
              (drop (ready chunk left) stream))
  unfolding recvall_loop
  recvall_round fuel len left stream a b c =
      rw (a, recvall_loop) (rw (b, recvall_loop) (rw (c, recvall_loop)))

  recvall_loop_lem :
      (fuel len : ℕ) (d rest : List ℕ)
      → (len == maxsize) ≡ false
      → length d ≤ fuel
      → recvall_loop chunk fuel len (length d) (d ++ rest) ≡ (d, rest)
  unfolding recvall_loop
  recvall_loop_lem zero len [] rest ne h = refl
  recvall_loop_lem zero len (x ∷ d) rest ne h = absurd (omega arith)
  recvall_loop_lem (suc fuel) len [] rest ne h = refl
  recvall_loop_lem (suc fuel) len (x ∷ d) rest ne h =
      let k : ℕ = ready chunk (length (x ∷ d)) in
      let (pos, le) = ready_lem (length (x ∷ d)) (omega arith) in
      let part : take k (x ∷ d ++ rest) ≡ take k (x ∷ d) = take-append_short k (x ∷ d) rest le in
      let after : drop k (x ∷ d ++ rest) ≡ drop k (x ∷ d) ++ rest =
        drop-append_short k (x ∷ d) rest le in
      let got : length (take k (x ∷ d ++ rest)) ≡ k = ap length part ∙ length-take k (x ∷ d) le in
      let some_got : (length (take k (x ∷ d ++ rest)) == 0) ≡ false = ground (arith, got) in
      let left : length (x ∷ d) - length (take k (x ∷ d ++ rest)) ≡ length (drop k (x ∷ d)) =
        omega (arith, got, length-drop k (x ∷ d) le) in
      let again =
        recvall_loop_lem fuel len (drop k (x ∷ d)) rest ne
          (omega (arith, length-drop k (x ∷ d) le)) in
      recvall_round fuel len (length (x ∷ d)) (x ∷ d ++ rest) (ground arith) some_got ne
      ∙ ap
          (λ n.
            put_front (take k (x ∷ d ++ rest))
              (recvall_loop chunk fuel len n (drop k (x ∷ d ++ rest))))
          left
      ∙ ap
          (λ t.
            put_front (take k (x ∷ d ++ rest))
              (recvall_loop chunk fuel len (length (drop k (x ∷ d))) t))
          after
      ∙ ap (λ t. put_front (take k (x ∷ d ++ rest)) t) again
      ∙ ap (λ t. (t ++ drop k (x ∷ d), rest)) part
      ∙ ap (λ t. (t, rest)) (take-drop k (x ∷ d))

  -- When the connection has the bytes, `recvall` returns them all and leaves what follows, however
  -- `recv` divides them, but for a length of `MAXSIZE`, where a part that ends in NUL is the last.
  pub recvall_lem :
      (d rest : List ℕ)
      → (length d == maxsize) ≡ false
      → recvall chunk (length d) (d ++ rest) ≡ (d, rest)
  recvall_lem d rest ne = recvall_loop_lem (length d) (length d) d rest ne (omega arith)
