-- ===== src/Packet/Breaking.antt =====
-- What `break_packet` finds in a frame that comes from the socket.
use amqpgram.Base.{
  ℕ, ◌+◌, ◌%◌, ◌/◌, [], ◌∷◌, ◌++◌, some, ltb, ◌==◌, ◌≡◌, ◌≢◌, ◌≤◌, ◌<◌, refl, ap, ◌∙◌, arith,
  lt→ltb, le→ltb, ◌^◌, if◌then◌else◌, Bytes, length, length-append, not,
}
use mathlib.Core.List.{append_assoc}
use amqpgram.Base.Outcome.{ok, fault, ◌>>=◌}
use amqpgram.Base.Memory.{read-fault, read-shift, load-shift, load-append}
use amqpgram.Utils.{char_in_int, char_in_short}
use amqpgram.Utils.Writing.{be_bytes}
use amqpgram.Utils.Reading.{char_in_int-be, char_in_short-be}
use amqpgram.Packet.{
  empty_packet, break_packet, break_frame, break_method, type_method, type_protocol_header,
}
use amqpgram.Packet.Frames.{frame_head, frame}

module _ (kind channel size : ℕ) (post : Bytes) where
  read_channel :
      channel < 65536 → char_in_short (frame_head kind channel size ++ post) 1 ≡ ok channel
  read_channel h =
      char_in_short-be (kind ∷ []) (be_bytes 4 size ++ post) (channel / 256 % 256) (channel % 256)
        (omega arith) (omega arith)
      ∙ ap ok (omega arith)

  pub read_size :
      size < 65536
      → char_in_int (frame_head kind channel size ++ post) 3
        ≡ ok (if ltb size 32768 then size else size + 4294901760)
  read_size h =
      char_in_int-be (kind ∷ be_bytes 2 channel) post (size / 256 / 256 / 256 % 256)
        (size / 256 / 256 % 256) (size / 256 % 256) (size % 256) (omega arith) (omega arith)
        (omega arith) (omega arith)
      ∙ ground arith

-- The first four bytes do not spell the protocol header if the first does not.
break_packet-frame :
    (a b c d : ℕ) (rest : Bytes)
    → a ≢ b'A'
    → break_packet (a ∷ b ∷ c ∷ d ∷ rest) ≡ break_frame (a ∷ b ∷ c ∷ d ∷ rest)
unfolding break_packet
break_packet-frame a b c d rest h = ground arith

module _ (kind channel : ℕ) (payload rest : Bytes) (last : ℕ) (not_header : kind ≢ b'A')
    (small : length payload < 32768) (short : channel < 65536) where
  abbrev received : Bytes
  received = frame_head kind channel (length payload) ++ (payload ++ last ∷ rest)

  -- The part of `break_frame` up to the end mark.
  break_received : break_packet received ≡ (
      let result = record empty_packet {
        frame_type = kind;
        channel = channel;
        size = length payload;
      } in
      if not (last == 0xce)
      then ok empty_packet
      else if kind == type_method
      then (break_method received (length payload) >>= λ method.
          ok (record result { method_payload = some method }))
      else ok result)
  unfolding break_frame
  break_received =
      let n = length payload in
      let head = frame_head kind channel n in
      break_packet-frame kind (channel / 256 % 256) (channel % 256) (n / 256 / 256 / 256 % 256) _
        not_header
      ∙ rw (
        read_channel kind channel n (payload ++ last ∷ rest) short,
        read_size kind channel n (payload ++ last ∷ rest) (omega arith),
        lt→ltb n 32768 small,
        read-shift (head ++ payload) (last ∷ rest) ((7 + n) % 4294967296) 0
            (omega (arith, length-append head payload)),
      )

  -- A frame whose end mark is another byte is reported as of type NONE, with nothing read from it,
  -- if its size is below 32768 and its first byte is not that of the protocol header.
  pub break_packet_no_end : last ≢ 0xce → break_packet received ≡ ok empty_packet
  break_packet_no_end h = break_received ∙ ground arith

  -- A frame of any type but METHOD, and of a size below 32768, whose first byte is not that of the
  -- protocol header yields its type, channel and size, and no payload.
  pub break_packet_other :
      last ≡ 0xce
      → kind ≢ type_method
      → break_packet received
        ≡ ok (record empty_packet { frame_type = kind; channel = channel; size = length payload })
  break_packet_other h k = break_received ∙ ground arith

break_method_lem :
    (channel class method : ℕ) (arguments rest : Bytes)
    → class < 65536
    → method < 65536
    → length arguments + 4 < 32768
    → break_method
        (frame_head 1 channel (length arguments + 4)
          ++ (be_bytes 2 class ++ (be_bytes 2 method ++ (arguments ++ rest))))
        (length arguments + 4)
      ≡ ok (record {
        class_id = class;
        method_id = method;
        arguments_byte_array = arguments;
        arguments_length = length arguments;
      })
unfolding break_method
break_method_lem channel class method arguments rest hc hm h =
    let n = length arguments in
    let head = frame_head 1 channel (n + 4) in
    let minus_four : (n + 4 + 4294967292) % 4294967296 ≡ n = omega arith in
    rw
      (
        char_in_short-be head (be_bytes 2 method ++ (arguments ++ rest)) (class / 256 % 256)
            (class % 256) (omega arith) (omega arith),
        char_in_short-be (head ++ be_bytes 2 class) (arguments ++ rest) (method / 256 % 256)
            (method % 256) (omega arith) (omega arith),
        minus_four,
        load-shift (head ++ (be_bytes 2 class ++ be_bytes 2 method)) (arguments ++ rest) 11 0 n
            (omega arith),
        load-append arguments rest,
      )
      (ground arith)

-- Breaking the frame of a method recovers the channel, the size, the class, the method and the
-- arguments that were put in, whatever follows the frame, if the size is below 32768.
pub break_packet-method_frame :
    (channel class method : ℕ) (arguments rest : Bytes)
    → channel < 65536
    → class < 65536
    → method < 65536
    → length arguments + 4 < 32768
    → break_packet
        (frame type_method channel (be_bytes 2 class ++ (be_bytes 2 method ++ arguments)) ++ rest)
      ≡ ok (record empty_packet {
        frame_type = type_method;
        channel = channel;
        size = length arguments + 4;
        method_payload = some (record {
          class_id = class;
          method_id = method;
          arguments_byte_array = arguments;
          arguments_length = length arguments;
        });
      })
break_packet-method_frame channel class method arguments rest ch hc hm h =
    let payload = be_bytes 2 class ++ (be_bytes 2 method ++ arguments) in
    let four : length payload ≡ length arguments + 4 = omega arith in
    ap (λ (end : Bytes). break_packet (frame_head type_method channel (length payload) ++ end))
      (append_assoc payload (0xce ∷ []) rest)
    ∙ break_received type_method channel payload rest 0xce (λ e. omega arith) (omega arith) ch
    ∙ rw (four, break_method_lem channel class method arguments (0xce ∷ rest) hc hm h)

-- The size of a frame with bit 15 set is read as a number below zero, so `break_packet` looks for
-- the end mark far behind any buffer: it faults on every frame with a payload of 32768 to 65528
-- bytes, in whatever buffer of less than 2 ^ 31 bytes.
pub break_packet_large_faults :
    (kind channel : ℕ) (payload rest : Bytes)
    → kind ≢ b'A'
    → channel < 65536
    → 32768 ≤ length payload
    → length payload < 65529
    → length payload + length rest + 8 < 2 ^ 31
    → break_packet (frame kind channel payload ++ rest) ≡ fault
break_packet_large_faults kind channel payload rest k ch lo hi room =
    let n = length payload in
    let head = frame_head kind channel n in
    let post = (payload ++ 0xce ∷ []) ++ rest in
    break_packet-frame kind (channel / 256 % 256) (channel % 256) (n / 256 / 256 / 256 % 256) _ k
    ∙ unfold break_frame in
      rw (
        read_channel kind channel n post ch,
        read_size kind channel n post (omega arith),
        le→ltb n 32768 lo,
        read-fault (head ++ post) ((7 + (n + 4294901760)) % 4294967296) (
            omega (
              arith,
              length-append head post,
              length-append (payload ++ 0xce ∷ []) rest,
              length-append payload (0xce ∷ []),
            )),
      )

-- A message that begins with the protocol header is reported as one, with its eight bytes.
pub break_packet-protocol_header :
    (a b c d : ℕ) (rest : Bytes)
    → break_packet (b'A' ∷ b'M' ∷ b'Q' ∷ b'P' ∷ a ∷ b ∷ c ∷ d ∷ rest)
      ≡ ok (record empty_packet {
        frame_type = type_protocol_header;
        amqp_header = b'A' ∷ b'M' ∷ b'Q' ∷ b'P' ∷ a ∷ b ∷ c ∷ d ∷ [];
      })
unfolding break_packet
break_packet-protocol_header a b c d rest = refl
