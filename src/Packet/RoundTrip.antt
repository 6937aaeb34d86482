-- ===== src/Packet/RoundTrip.antt =====
-- Shared/protocol.c: the receiver of a packet gets what was sent, and the next packet is next.
use opsys_17b.Base.{
  ℕ, ◌^◌, ◌≡◌, refl, sym, subst, ap, ◌∙◌, true, false, Option, none, some, List, [], ◌∷◌, ◌++◌,
  append_assoc, arith, ◌==◌, length, take, take-length, All, ◌<◌, pos,
}
use opsys_17b.Serial.{serial, Code, Arg, int32, serial_pack, serial_unpack, IsArg, encode}
use opsys_17b.Serial.Word.{packi32}
use opsys_17b.Serial.Growth.{encode_all}
use opsys_17b.Serial.Queue.{whole, serial_pack_lem, serial_unpack-serial_pack}
use opsys_17b.YFile.RoundTrip.{int_of_size_small, word_small}
use opsys_17b.Packet.{
  Packet, header_size, maxsize, protocol_send_packet, recvall, receive_content,
  protocol_receive_packet,
}
use opsys_17b.Packet.Stream.{recvall_lem}

-- The bytes of a content, none for NULL.
abbrev pub content_bytes : Option (List ℕ) → List ℕ
content_bytes none = []
content_bytes (some bs) = bs

abbrev pub packet : ℕ → ℕ → Option (List ℕ) → Packet
packet sender operation none = record { sender = sender; operation = operation; content = none }
packet sender operation (some bs) = record {
  sender = sender;
  operation = operation;
  content = some (whole bs);
}

abbrev header_args : ℕ → ℕ → ℕ → List Arg
header_args s o n = int32 (pos s) ∷ int32 (pos o) ∷ int32 (pos n) ∷ []

module _ (chunk : ℕ → ℕ) (process operation : ℕ) (fits_p : process < 2 ^ 31)
    (fits_o : operation < 2 ^ 31) (defined : (operation == 0) ≡ false) where
  header : ℕ → List ℕ
  header n = encode_all (header_args process operation n)

  module _ (n : ℕ) (h : n < 2 ^ 31) where
    length-header : length (header n) ≡ header_size
    unfolding header encode_all encode packi32
    length-header = refl

    header-IsArg : All IsArg (header_args process operation n)
    header-IsArg = (fits_p, (fits_o, (h, tt)))

    pack-header :
        serial_pack (header_args process operation n) ≡ some (serial (header n) header_size)
    unfolding header
    pack-header =
        serial_pack_lem (header_args process operation n) header-IsArg
          (omega (arith, length-header))
        ∙ ap (λ k. some (serial (header n) k)) length-header

    unpack-header :
        serial_unpack (Code.int32 ∷ Code.int32 ∷ Code.int32 ∷ []) (serial (header n) header_size)
        ≡ some (header_args process operation n)
    unpack-header =
        serial_unpack-serial_pack (int32 (pos process)) (int32 (pos operation) ∷ int32 (pos n) ∷ [])
          (serial (header n) header_size) header-IsArg pack-header

    take-header : take header_size (header n) ≡ header n
    take-header = subst (λ k. take k (header n) ≡ header n) length-header (take-length (header n))

    recvall-header :
        (rest : List ℕ) → recvall chunk header_size (header n ++ rest) ≡ (header n, rest)
    recvall-header rest =
        subst (λ k. recvall chunk k (header n ++ rest) ≡ (header n, rest)) length-header
          (recvall_lem chunk (header n) rest (ap (λ k. k == maxsize) length-header))

  content_lem :
      (bs rest : List ℕ)
      → (length bs == maxsize) ≡ false
      → receive_content chunk process operation (length bs) (bs ++ rest)
        ≡ some (record { sender = process; operation = operation; content = some (whole bs) }, rest)
  unfolding receive_content
  content_lem [] rest ne = rw (defined, receive_content)
  content_lem (x ∷ bs) rest ne =
      let some_size : (length (x ∷ bs) == 0) ≡ false = ground arith in
      let all : (length (x ∷ bs) == length (x ∷ bs)) ≡ true = ground arith in
      rw (defined, receive_content)
        (rw (some_size, receive_content)
          (rw (recvall_lem chunk (x ∷ bs) rest ne, receive_content) (rw all)))

  receive_lem :
      (bs rest : List ℕ)
      → length bs < 2 ^ 31
      → (length bs == maxsize) ≡ false
      → protocol_receive_packet chunk (header (length bs) ++ (bs ++ rest))
        ≡ some (record { sender = process; operation = operation; content = some (whole bs) }, rest)
  unfolding protocol_receive_packet
  receive_lem bs rest h ne =
      let got = recvall-header (length bs) h (bs ++ rest) in
      let size = length-header (length bs) h in
      rw (got, protocol_receive_packet)
        (rw size (
          rw (unpack-header (length bs) h, protocol_receive_packet)
            (rw (word_small process fits_p) (
              rw (word_small operation fits_o) (
                rw (word_small (length bs) h) (
                  subst
                    (λ t.
                      receive_content chunk process operation (length bs) t
                      ≡ some (
                        record {
                          sender = process;
                          operation = operation;
                          content = some (whole bs);
                        },
                        rest,
                      ))
                    (sym (ap (λ (t : List ℕ × List ℕ). t.1) got)) (content_lem bs rest ne)))))))

  -- A packet with a defined operation and a content that is not of `MAXSIZE` bytes is sent as bytes
  -- behind those under way, whatever they are. When these bytes are next, the receiver gets the sender,
  -- the operation and the content, an empty one for NULL, and what follows stays on the connection.
  pub protocol_receive_packet-protocol_send_packet :
      (sender : ℕ) (content : Option (List ℕ))
      → length (content_bytes content) < 2 ^ 31
      → (length (content_bytes content) == maxsize) ≡ false
      → (wire : List ℕ) × ((stream : List ℕ)
          → protocol_send_packet process (packet sender operation content) stream
            ≡ some (stream ++ wire))
        × ((rest : List ℕ)
            → protocol_receive_packet chunk (wire ++ rest)
              ≡ some (packet process operation (some (content_bytes content)), rest))
  unfolding protocol_send_packet
  protocol_receive_packet-protocol_send_packet sender none h ne = (
    header 0 ++ [],
    λ stream.
        rw (pack-header 0 h, protocol_send_packet)
          (rw (take-header 0 h) (ap (λ t. some t) (append_assoc stream (header 0) []))),
    λ rest. rw (append_assoc (header 0) [] rest) (receive_lem [] rest h ne),
  )
  protocol_receive_packet-protocol_send_packet sender (some bs) h ne = (
    header (length bs) ++ bs,
    λ stream.
        rw (int_of_size_small (length bs) h, protocol_send_packet)
          (rw (pack-header (length bs) h, protocol_send_packet)
            (rw (take-header (length bs) h) (
              rw (take-length bs)
                (ap (λ t. some t) (append_assoc stream (header (length bs)) bs))))),
    λ rest. rw (append_assoc (header (length bs)) bs rest) (receive_lem bs rest h ne),
  )
