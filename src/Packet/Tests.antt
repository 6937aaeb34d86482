-- ===== src/Packet/Tests.antt =====
-- Shared/protocol.c: a packet of two bytes from YAMA, which `recv` hands over byte by byte.
use opsys_17b.Base.{ℕ, ◌≡◌, refl, some, List, [], ◌∷◌, ◌++◌, arith}
use opsys_17b.Packet.{recvall, recvall_loop, protocol_send_packet, protocol_receive_packet}
use opsys_17b.Packet.RoundTrip.{packet, protocol_receive_packet-protocol_send_packet}

abbrev one_by_one : ℕ → ℕ
one_by_one left = 0

-- A text of `MAXSIZE` bytes ends early: here the length is that of the buffer, and the first byte is NUL.
recvall_early : recvall one_by_one 1024 (0 ∷ 7 ∷ 8 ∷ []) ≡ (0 ∷ [], 7 ∷ 8 ∷ [])
unfolding recvall_loop
recvall_early = refl

protocol_receive_packet-protocol_send_packet_example :
    (wire : List ℕ) × ((stream : List ℕ)
      → protocol_send_packet 1 (packet 0 5 (some (8 ∷ 9 ∷ []))) stream ≡ some (stream ++ wire))
    × ((rest : List ℕ)
        → protocol_receive_packet one_by_one (wire ++ rest)
          ≡ some (packet 1 5 (some (8 ∷ 9 ∷ [])), rest))
protocol_receive_packet-protocol_send_packet_example =
    protocol_receive_packet-protocol_send_packet one_by_one 1 5 (omega arith) (omega arith) refl 0
      (some (8 ∷ 9 ∷ [])) (omega arith) refl
