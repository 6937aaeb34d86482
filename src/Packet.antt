-- ===== src/Packet.antt =====
-- Shared/protocol.c over Shared/socket.c: a packet on a connection. A connection is the sequence of
-- bytes under way on it. `recv` hands over one byte at least, as many as are asked for at most; how
-- many, `chunk` says, a parameter. Interrupted and failed calls of `send` and `recv` are left out.
pub mod Stream
pub mod RoundTrip
pub mod Response
mod Tests
use opsys_17b.Base.{
  drop, ℕ, zero, suc, ◌+◌, ◌-◌, Bool, true, false, ◌&&◌, Option, none, some, List, [], ◌∷◌, ◌++◌,
  ◌==◌, ltb, if◌then◌else◌, length, take, ℤ, pos, negsuc, to_word,
}
use opsys_17b.Serial.{Serial, serial, serial_empty, Code, Arg, int32, serial_pack, serial_unpack}
use opsys_17b.YFile.{int_of_size}

-- `t_packet`, with the numbers of its `enum`s.
pub record Packet : Type 0 where
  pub sender : ℕ
  pub operation : ℕ
  pub content : Option Serial

-- `HEADER_SIZE`, where a `size_t` has four bytes.
abbrev pub header_size : ℕ
header_size = 12

abbrev pub ends_with_nul : List ℕ → Bool
ends_with_nul [] = false
ends_with_nul (b ∷ []) = b == 0
ends_with_nul (b ∷ c ∷ bs) = ends_with_nul (c ∷ bs)

abbrev pub packet_size : Option Serial → ℕ
packet_size none = 0
packet_size (some s) = s.size

-- What `protocol_send_packet` writes to the connection.
unfoldable pub protocol_send_packet : ℕ → Packet → List ℕ → Option (List ℕ)
protocol_send_packet process_current p stream =
    elim (serial_pack (
      int32 (pos process_current)
      ∷ int32 (pos p.operation)
      ∷ int32 (int_of_size (packet_size p.content))
      ∷ [])) [
        | none ↦ none
        | some header ↦ some (
            stream
            ++ take header.size header.bytes
            ++ elim p.content [ none ↦ [] | some s ↦ take s.size s.bytes ])
      ]

-- `MAXSIZE`, the size of the buffer for a text.
abbrev pub maxsize : ℕ
maxsize = 1024

module _ (chunk : ℕ → ℕ) where
  -- The number of bytes that `recv` is ready to hand over when `left` are asked for.
  abbrev pub ready : ℕ → ℕ
  ready left = if ltb (chunk left) left then suc (chunk left) else left

  -- `recvall`: what it got, and what is left on the connection. One round for each byte is enough.
  unfoldable pub recvall_loop : ℕ → ℕ → ℕ → List ℕ → List ℕ × List ℕ
  recvall_loop zero len left stream = ([], stream)
  recvall_loop (suc fuel) len left stream =
      let part = take (ready left) stream in
      let after = drop (ready left) stream in
      let rest = recvall_loop fuel len (left - length part) after in
      if left == 0
      then ([], stream)
      else if length part == 0
      then ([], stream)
      else if (len == maxsize) && ends_with_nul part
      then (part, after)
      else (part ++ rest.0, rest.1)

  abbrev pub recvall : ℕ → List ℕ → List ℕ × List ℕ
  recvall len stream = recvall_loop len len len stream

  -- The content of a packet whose header says `size`. With fewer bytes the rest is not set.
  unfoldable pub receive_content : ℕ → ℕ → ℕ → List ℕ → Option (Packet × List ℕ)
  receive_content sender operation size stream =
      let got = recvall size stream in
      if operation == 0
      then some (
        record { sender = sender; operation = operation; content = some (serial [] size) },
        stream,
      )
      else if size == 0
      then some
          (record { sender = sender; operation = operation; content = some serial_empty }, stream)
      else if length got.0 == size
      then some (
        record { sender = sender; operation = operation; content = some (serial got.0 size) },
        got.1,
      )
      else none

  -- `protocol_receive_packet`; a header of which a part came holds bytes that were never set.
  unfoldable pub protocol_receive_packet : List ℕ → Option (Packet × List ℕ)
  protocol_receive_packet stream =
      let got = recvall header_size stream in
      if length got.0 == 0
      then some (record { sender = 0; operation = 0; content = some serial_empty }, got.1)
      else if length got.0 == header_size
      then elim (serial_unpack (Code.int32 ∷ Code.int32 ∷ Code.int32 ∷ [])
          (serial got.0 header_size)) [
            | some (int32 s ∷ int32 o ∷ int32 n ∷ []) ↦
                receive_content (to_word 32 s) (to_word 32 o) (to_word 32 n) got.1
            | _ ↦ none
          ]
      else none
