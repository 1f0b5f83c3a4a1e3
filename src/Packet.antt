-- ===== src/Packet.antt =====
-- fuzzer/Packet.c: AMQP frames in byte buffers.
-- `malloc n` gives `n` bytes of any contents. A type, a channel or a class is its bit pattern.
-- Logging has no effect here, nor the freeing of the buffers (see Packet.Releasing for packets).
pub mod Frames
pub mod Breaking
pub mod Scanning
pub mod Payloads
pub mod Releasing
use amqpgram.Base.{
  ℕ, zero, suc, ◌+◌, ◌-◌, ◌%◌, Bool, ◌&&◌, [], ◌∷◌, ◌++◌, Option, none, some, ltb, ◌==◌, not, List,
  if◌then◌else◌, Bytes, str_eq, length,
}
use amqpgram.Base.Outcome.{Outcome, ok, fault, stuck, ◌>>=◌, int_sum, read, write, load, store}
use amqpgram.Utils.{char_in_short, char_in_int, short_in_char, int_in_char, long_in_char}

-- `frame_type`. A byte of a frame is converted to it as it stands.
abbrev pub type_none : ℕ
type_none = 0

abbrev pub type_method : ℕ
type_method = 1

abbrev pub type_header : ℕ
type_header = 2

abbrev pub type_body : ℕ
type_body = 3

abbrev pub type_heartbeat : ℕ
type_heartbeat = 4

abbrev pub type_protocol_header : ℕ
type_protocol_header = 5

pub record MethodStruct : Type 0 where
  pub class_id : ℕ
  pub method_id : ℕ
  pub arguments_byte_array : Bytes
  pub arguments_length : ℕ

-- The pointers to a header and to a body are never set, and stay NULL.
pub record PacketStruct : Type 0 where
  pub frame_type : ℕ
  pub channel : ℕ
  pub size : ℕ
  pub amqp_header : Bytes
  pub method_payload : Option MethodStruct

-- The counter of packets, a `long long` that each caller reads and writes under the mutex.
unfoldable pub zero_packet_count : ℕ → ℕ
zero_packet_count packet_count = 0

-- The new counter, and the value returned.
unfoldable pub add_packet_count : ℕ → ℕ → ℕ × ℕ
add_packet_count amount packet_count =
    let count = (packet_count + amount) % 18446744073709551616 in (count, count)

unfoldable pub acc_packet_count : ℕ → ℕ
unfolding add_packet_count
acc_packet_count packet_count = (add_packet_count 1 packet_count).0

unfoldable pub get_packet_count : ℕ → ℕ
get_packet_count packet_count = packet_count

-- `written` is what the socket's `send` returns, `none` for -1. The new counter, and the result.
unfoldable pub send_packet : Option ℕ → Option Bytes → ℕ → ℕ → ℕ × ℕ
unfolding add_packet_count
send_packet written none size packet_count = (packet_count, 0)
send_packet none (some packet) size packet_count = (packet_count, 1)
send_packet (some sent) (some packet) size packet_count =
    if sent == size then ((add_packet_count 1 packet_count).0, 0) else (packet_count, 1)

-- `if (payload != NULL) memcpy(full_payload + 4, payload, size + 4);`
unfoldable pub copy_payload : Bytes → Option Bytes → ℕ → Outcome Bytes
copy_payload full_payload none n = ok full_payload
copy_payload full_payload (some payload) n =
    load payload 0 n >>= λ contents. store full_payload 4 contents

module _ (malloc : ℕ → Bytes) where
  unfoldable pub amqp_frame : ℕ → ℕ → ℕ → Bytes → Outcome Bytes
  amqp_frame kind channel size payload = do
    total_size ← int_sum size (4 + 4)
    packet₀ ← write (malloc total_size) 0 kind
    packet₁ ← short_in_char packet₀ channel 1 total_size
    packet₂ ← int_in_char packet₁ size 3 total_size
    contents ← load payload 0 size
    packet₃ ← store packet₂ (3 + 4) contents
    write packet₃ (total_size - 1) 0xce

  unfoldable pub amqp_method_frame : ℕ → ℕ → ℕ → ℕ → Option Bytes → Outcome Bytes
  amqp_method_frame channel size class method payload = do
    full_size ← int_sum size 4
    full₁ ← short_in_char (malloc full_size) class 0 full_size
    full₂ ← short_in_char full₁ method 2 full_size
    full₃ ← copy_payload full₂ payload full_size
    amqp_frame 0x01 channel full_size full₃

  unfoldable pub amqp_header_frame : ℕ → ℕ → ℕ → ℕ → ℕ → ℕ → Bytes → ℕ → Outcome Bytes
  amqp_header_frame channel size body_size class weight property_flags properties
        size_of_properties =
      do
        total_size ← int_sum (8 + 2 + 2 + 2) size_of_properties
        payload₁ ← short_in_char (malloc total_size) class 0 total_size
        payload₂ ← short_in_char payload₁ weight 2 total_size
        payload₃ ← long_in_char payload₂ body_size 4 total_size
        payload₄ ← short_in_char payload₃ property_flags 12 total_size
        contents ← load properties 0 size_of_properties
        payload₅ ← store payload₄ 14 contents
        amqp_frame 0x02 channel size payload₅

  unfoldable pub amqp_body_frame : ℕ → ℕ → Bytes → Outcome Bytes
  amqp_body_frame channel size payload = amqp_frame 0x03 channel size payload

-- `field_size` is a signed `char`; a negative sum is a size that no copy can have.
unfoldable pub add_string_entry : Bytes → ℕ → Bytes → ℕ → ℕ → Outcome (Bytes × ℕ)
add_string_entry dest field_size field_contents extra_info index =
    let copied = λ (full_size : ℕ). do
      dest₁ ← write dest index field_size
      contents ← load field_contents 0 full_size
      dest₂ ← store dest₁ (index + 1) contents
      ok (dest₂, full_size)
    in if ltb field_size 128
      then int_sum field_size extra_info >>= copied
      else if ltb (field_size + extra_info) 256
      then fault
      else copied (field_size + extra_info - 256)

-- The loop of `get_arguments`: how many bytes from `src[11 + counted]` on are taken, `rounds` at most.
unfoldable pub count_arguments : ℕ → Bytes → ℕ → Outcome ℕ
count_arguments zero src counted = ok counted
count_arguments (suc rounds) src counted = do
  byte ← read src (11 + counted)
  let rest = count_arguments rounds src (counted + 1)
  if byte == 0xce then ok counted else rest

-- Where the size less 4 is negative the loop makes no round.
unfoldable pub get_arguments : Bytes → Outcome Bytes
unfolding count_arguments
get_arguments src = do
  size ← char_in_int src 3
  arguments_size ← count_arguments (if ltb size 2147483648 then size - 4 else 0) src 0
  load src 11 arguments_size

-- The loop of `verify_length`, with the tests behind it.
unfoldable pub verify_from : ℕ → Bytes → ℕ → Outcome ℕ
verify_from zero packet index =
    read packet index >>= λ byte. ok (if not (byte == 0xce) then 1 else 0)
verify_from (suc rounds) packet index = do
  byte ← read packet index
  let rest = verify_from rounds packet (index + 1)
  if byte == 0xce then ok 2 else rest

unfoldable pub verify_length : Bytes → ℕ → Outcome ℕ
unfolding verify_from
verify_length packet length = verify_from length packet 7

-- `char_in_int(packet, 3) + 8`. A copy of a negative number of bytes, which follows, faults.
unfoldable pub packet_length : Bytes → Outcome ℕ
packet_length packet = do
  size ← char_in_int packet 3
  if ltb size 2147483648
      then int_sum size 8
      else if ltb (size + 8) 4294967296
      then fault
      else ok (size + 8 - 4294967296)

unfoldable pub packet_append : Bytes → Bytes → Outcome Bytes
packet_append packet1 packet2 = do
  length1 ← packet_length packet1
  length2 ← packet_length packet2
  total_length ← int_sum length1 length2
  first ← load packet1 0 length1
  second ← load packet2 0 length2
  ok (first ++ second)

abbrev pub empty_packet : PacketStruct
empty_packet = record {
  frame_type = type_none;
  channel = 0;
  size = 0;
  amqp_header = [];
  method_payload = none;
}

-- `case METHOD`; `size - 4` is of an `unsigned int`, and wraps.
unfoldable pub break_method : Bytes → ℕ → Outcome MethodStruct
break_method packet size = do
  class_id ← char_in_short packet 7
  method_id ← char_in_short packet 9
  let arguments_length = (size + 4294967292) % 4294967296
  arguments_byte_array ← load packet (7 + 4) arguments_length
  ok (record {
    class_id = class_id;
    method_id = method_id;
    arguments_byte_array = arguments_byte_array;
    arguments_length = arguments_length;
  })

-- What follows the test for a protocol header.
unfoldable pub break_frame : Bytes → Outcome PacketStruct
unfolding break_method
break_frame packet = do
  kind ← read packet 0
  channel ← char_in_short packet 1
  size ← char_in_int packet 3
  last ← read packet ((7 + size) % 4294967296)
  let result = record empty_packet { frame_type = kind; channel = channel; size = size }
  if not (last == 0xCE)
      then ok empty_packet
      else if kind == type_method
      then (break_method packet size >>= λ method.
          ok (record result { method_payload = some method }))
      else ok result

unfoldable pub break_packet : Bytes → Outcome PacketStruct
unfolding break_frame
break_packet packet = do
  magic ← load packet 0 4
  if str_eq magic (b'A' ∷ b'M' ∷ b'Q' ∷ b'P' ∷ [])
      then (load packet 0 8 >>= λ header.
          ok (record empty_packet { frame_type = type_protocol_header; amqp_header = header }))
      else break_frame packet
