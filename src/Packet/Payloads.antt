-- ===== src/Packet/Payloads.antt =====
-- What `break_packet` leaves in a packet, whatever bytes it is given.
use amqpgram.Base.{
  ℕ, ◌+◌, ◌%◌, ◌≡◌, ◌≢◌, ◌⊎◌, inl, inr, arith, [], ◌∷◌, some, true, false, Bool-cases, Bool,
  if◌then◌else◌, Bytes, length, str_eq, ◌==◌, not,
}
use amqpgram.Base.Outcome.{Outcome, ◌>>=◌, ok, read, load, bind-eq-ok}
use amqpgram.Base.Memory.{load-length}
use amqpgram.Utils.{char_in_short, char_in_int}
use amqpgram.Packet.{
  MethodStruct, PacketStruct, type_method, empty_packet, break_method, break_frame, break_packet,
}

-- The argument bytes are as many as the length beside them says.
abbrev pub IsMeasured : MethodStruct → Type 0
IsMeasured method = length method.arguments_byte_array ≡ method.arguments_length

-- A packet that is a METHOD has its payload.
abbrev pub HasPayload : PacketStruct → Type 0
HasPayload packet =
    (packet.frame_type ≢ type_method)
    ⊎ ((method : MethodStruct) × (packet.method_payload ≡ some method) × IsMeasured method)

break_method-IsMeasured :
    (packet : Bytes) (size : ℕ) (method : MethodStruct)
    → break_method packet size ≡ ok method
    → IsMeasured method
unfolding break_method
break_method-IsMeasured packet size method e =
    let (class, c, e₁) = bind-eq-ok (char_in_short packet 7) _ e in
    let (id, i, e₂) = bind-eq-ok (char_in_short packet 9) _ e₁ in
    let (arguments, a, e₃) =
      bind-eq-ok (load packet (7 + 4) ((size + 4294967292) % 4294967296)) _ e₂ in
    ground (arith, load-length packet (7 + 4) ((size + 4294967292) % 4294967296) arguments a, e₃)

-- The packet that is made of what the header says.
framed-HasPayload :
    (bytes : Bytes) (kind channel size : ℕ) (packet : PacketStruct)
    → let result = record empty_packet { frame_type = kind; channel = channel; size = size } in
      (if kind == type_method
          then (break_method bytes size >>= λ method.
              ok (record result { method_payload = some method }))
          else ok result)
        ≡ ok packet
      → HasPayload packet
framed-HasPayload bytes kind channel size packet e = elim (Bool-cases (kind == type_method)) [
  | inl is_method ↦
      let (method, broken, same) = bind-eq-ok (break_method bytes size) _ (rw is_method at e) in
      let made : packet.method_payload ≡ some method = ground (arith, same) in
      inr (method, made, break_method-IsMeasured bytes size method broken)
  | inr other ↦ let same = rw other at e in inl (λ h. ground (arith, same))
]

ended-HasPayload :
    (ended : Bool) (rest : Outcome PacketStruct) (packet : PacketStruct)
    → (rest ≡ ok packet → HasPayload packet)
    → (if not ended then ok empty_packet else rest) ≡ ok packet
    → HasPayload packet
ended-HasPayload true rest packet h e = h e
ended-HasPayload false rest packet h e = inl (λ k. ground (arith, e))

break_frame-HasPayload :
    (bytes : Bytes) (packet : PacketStruct) → break_frame bytes ≡ ok packet → HasPayload packet
unfolding break_frame
break_frame-HasPayload bytes packet e =
    let (kind, k, e₁) = bind-eq-ok (read bytes 0) _ e in
    let (channel, c, e₂) = bind-eq-ok (char_in_short bytes 1) _ e₁ in
    let (size, s, e₃) = bind-eq-ok (char_in_int bytes 3) _ e₂ in
    let (last, l, e₄) = bind-eq-ok (read bytes ((7 + size) % 4294967296)) _ e₃ in
    ended-HasPayload (last == 0xce) _ packet (framed-HasPayload bytes kind channel size packet) e₄

-- Of every buffer that `break_packet` takes without a fault it makes a packet that, if it is a
-- METHOD, has a payload, with as many argument bytes as the length beside them says.
pub break_packet-HasPayload :
    (bytes : Bytes) (packet : PacketStruct) → break_packet bytes ≡ ok packet → HasPayload packet
unfolding break_packet
break_packet-HasPayload bytes packet e =
    let (magic, m, e₁) = bind-eq-ok (load bytes 0 4) _ e in
    elim (Bool-cases (str_eq magic (b'A' ∷ b'M' ∷ b'Q' ∷ b'P' ∷ []))) [
      | inl greets ↦
          let (header, h, same) = bind-eq-ok (load bytes 0 8) _ (rw greets at e₁) in
          inl (λ is_method. ground (arith, same))
      | inr frame ↦ break_frame-HasPayload bytes packet (rw frame at e₁)
    ]
