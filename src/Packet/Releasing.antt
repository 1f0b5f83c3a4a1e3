-- ===== src/Packet/Releasing.antt =====
-- fuzzer/Packet.c: `free_packet_struct`; fuzzer/AMQP.c: `debug_packet_struct`. The first is called
-- nowhere, and the second only by `wait_response`.
use amqpgram.Base.{
  ℕ, ◌≡◌, inl, inr, refl, arith, List, [], ◌∷◌, Option, none, some, ltb, ◌==◌, ◌||◌, ◌&&◌,
  Bool-cases, Option-cases, if◌then◌else◌, Bytes,
}
use amqpgram.Base.Outcome.{Outcome, ok, fault, load}
use amqpgram.Base.Memory.{load-all}
use amqpgram.Packet.{MethodStruct, PacketStruct, type_method, type_header, type_body, break_packet}
use amqpgram.Packet.Payloads.{IsMeasured, HasPayload, break_packet-HasPayload}

-- What `free` is called for, in the order of the calls.
pub data Freed : Type 0 where
  arguments payload packet : Freed

unfoldable free_method : Option MethodStruct → Outcome (List Freed)
free_method none = fault
free_method (some method) = ok (arguments ∷ payload ∷ packet ∷ [])

-- The pointers to a header and to a body are NULL.
unfoldable pub free_packet_struct : PacketStruct → Outcome (List Freed)
unfolding free_method
free_packet_struct p =
    if p.frame_type == type_method
    then free_method p.method_payload
    else if p.frame_type == type_header
    then fault
    else if p.frame_type == type_body
    then fault
    else ok (packet ∷ [])

-- The loop makes no round where the length is negative as an `int`.
unfoldable shown_length : ℕ → ℕ
shown_length arguments_length = if ltb arguments_length 2147483648 then arguments_length else 0

-- The argument bytes that are printed; nothing else of the packet is read through a pointer.
unfoldable debug_method : Option MethodStruct → Outcome Bytes
unfolding shown_length
debug_method none = fault
debug_method (some method) =
    load method.arguments_byte_array 0 (shown_length method.arguments_length)

unfoldable pub debug_packet_struct : PacketStruct → Outcome Bytes
unfolding debug_method
debug_packet_struct p = if p.frame_type == type_method then debug_method p.method_payload else ok []

-- What a packet owns.
abbrev owned : PacketStruct → List Freed
owned p = if p.frame_type == type_method then arguments ∷ payload ∷ packet ∷ [] else packet ∷ []

-- The bytes that a packet shows.
abbrev shown : PacketStruct → Bytes
shown p = elim p.method_payload [
  | none ↦ []
  | some method ↦
      if p.frame_type == type_method && ltb method.arguments_length 2147483648
      then method.arguments_byte_array
      else []
]

load_shown :
    (method : MethodStruct)
    → IsMeasured method
    → load method.arguments_byte_array 0 (shown_length method.arguments_length)
      ≡ ok (if ltb method.arguments_length 2147483648 then method.arguments_byte_array else [])
unfolding shown_length
load_shown method h = elim (Bool-cases (ltb method.arguments_length 2147483648)) [
  | inl small ↦ rw (small, ← h) (load-all method.arguments_byte_array)
  | inr large ↦ rw large refl
]

free_packet_struct-owned :
    (p : PacketStruct)
    → HasPayload p
    → free_packet_struct p
      ≡ (if p.frame_type == type_header || p.frame_type == type_body then fault else ok (owned p))
unfolding free_packet_struct
free_packet_struct-owned p (inl other) = ground arith
free_packet_struct-owned p (inr (method, has, measured)) = rw has (ground arith)

pub debug_packet_struct-shown :
    (p : PacketStruct) → HasPayload p → debug_packet_struct p ≡ ok (shown p)
unfolding debug_packet_struct
debug_packet_struct-shown p (inl other) = elim (Option-cases p.method_payload) [
  | inl empty ↦ rw empty (ground arith)
  | inr (method, has) ↦ rw has (ground arith)
]
debug_packet_struct-shown p (inr (method, has, measured)) =
    rw has (ground (arith, load_shown method measured))

-- Every packet that `break_packet` makes, of whatever bytes, is freed once with all that it owns,
-- what it owns first, unless it is a HEADER or a BODY, which `free_packet_struct` reads through
-- NULL; and a METHOD shows all of its arguments, if their length is an `int`.
pub break_packet-Releases :
    (bytes : Bytes) (p : PacketStruct)
    → break_packet bytes ≡ ok p
    → (free_packet_struct p ≡ (
        if p.frame_type == type_header || p.frame_type == type_body then fault else ok (owned p)))
      × (debug_packet_struct p ≡ ok (shown p))
break_packet-Releases bytes p e =
    let has = break_packet-HasPayload bytes p e in
    (free_packet_struct-owned p has, debug_packet_struct-shown p has)
