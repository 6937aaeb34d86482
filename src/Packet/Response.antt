-- ===== src/Packet/Response.antt =====
-- Shared/protocol.c: responses, packets that hold one `int`.
use opsys_17b.Base.{
  ℕ, ◌≡◌, refl, ap, Option, none, some, List, [], ◌∷◌, ◌++◌, arith, ◌==◌, if◌then◌else◌, length,
  ◌<◌, ℤ, negsuc, IsSigned, ◌^◌, false,
}
use opsys_17b.Serial.{Serial, Code, int32, serial_pack, serial_unpack, encode}
use opsys_17b.Serial.Word.{packi32}
use opsys_17b.Serial.Growth.{encode_all}
use opsys_17b.Serial.Queue.{whole, serial_pack_lem, serial_unpack-serial_pack}
use opsys_17b.Packet.{protocol_send_packet, protocol_receive_packet}
use opsys_17b.Packet.RoundTrip.{protocol_receive_packet-protocol_send_packet}

abbrev pub op_response : ℕ
op_response = 3

unfoldable pub protocol_send_response : ℕ → ℤ → List ℕ → Option (List ℕ)
protocol_send_response process_current code stream = elim (serial_pack (int32 code ∷ [])) [
  | none ↦ none
  | some s ↦
      protocol_send_packet process_current
        (record { sender = process_current; operation = op_response; content = some s }) stream
]

-- The `int` of a content; with no bytes in it `code` keeps -1.
unfoldable pub response_code : Option Serial → Option ℤ
response_code none = none
response_code (some s) =
    if s.size == 0
    then some (negsuc 0)
    else elim (serial_unpack (Code.int32 ∷ []) s) [ some (int32 code ∷ []) ↦ some code | _ ↦ none ]

unfoldable pub protocol_receive_response : (ℕ → ℕ) → List ℕ → Option (ℤ × List ℕ)
protocol_receive_response chunk stream = elim (protocol_receive_packet chunk stream) [
  | none ↦ none
  | some (p, rest) ↦
      if p.operation == op_response
      then elim (response_code p.content) [ none ↦ none | some code ↦ some (code, rest) ]
      else some (negsuc 0, rest)
]

module _ (chunk : ℕ → ℕ) (process : ℕ) (fits : process < 2 ^ 31) (code : ℤ)
    (is : IsSigned 31 code) where
  body : List ℕ
  body = encode_all (int32 code ∷ [])

  length-body : length body ≡ 4
  unfolding body encode_all encode packi32
  length-body = refl

  pack-body : serial_pack (int32 code ∷ []) ≡ some (whole body)
  unfolding body
  pack-body = serial_pack_lem (int32 code ∷ []) (is, tt) (omega (arith, length-body))

  response_code-body : response_code (some (whole body)) ≡ some code
  unfolding response_code
  response_code-body =
      let some_size : (length body == 0) ≡ false = ap (λ k. k == 0) length-body in
      rw (some_size, response_code)
        (rw (
          serial_unpack-serial_pack (int32 code) [] (whole body) (is, tt) pack-body,
          response_code,
        ))

  -- The receiver of a response gets the `int` that was sent, and what follows stays on the
  -- connection.
  pub protocol_receive_response-protocol_send_response :
      (wire : List ℕ) × ((stream : List ℕ)
        → protocol_send_response process code stream ≡ some (stream ++ wire))
      × ((rest : List ℕ) → protocol_receive_response chunk (wire ++ rest) ≡ some (code, rest))
  unfolding protocol_send_response protocol_receive_response
  protocol_receive_response-protocol_send_response =
      let (wire, sent, got) =
        protocol_receive_packet-protocol_send_packet chunk process op_response fits (omega arith)
          refl process (some body) (omega (arith, length-body)) (ap (λ k. k == 1024) length-body) in
      (
        wire,
        λ stream. rw (pack-body, protocol_send_response) (sent stream),
        λ rest.
            rw (got rest, protocol_receive_response)
              (rw (response_code-body, protocol_receive_response)),
      )
