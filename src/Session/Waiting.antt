-- ===== src/Session/Waiting.antt =====
-- fuzzer/AMQP.c: `wait_response`, which takes a packet from the listener's buffer. Nothing calls it.
use amqpgram.Base.{ℕ, ◌+◌, ◌-◌, ◌%◌, ◌≡◌, ◌<◌, arith, ◌++◌, ltb, ◌==◌, if◌then◌else◌, Bytes, length}
use amqpgram.Base.Outcome.{Outcome, ok, stuck, ◌>>=◌}
use amqpgram.Packet.{PacketStruct, type_method, break_packet}
use amqpgram.Packet.Frames.{frame}
use amqpgram.Packet.Breaking.{break_packet-method_frame}
use amqpgram.Packet.Payloads.{break_packet-HasPayload}
use amqpgram.Packet.Releasing.{debug_packet_struct, debug_packet_struct-shown}
use amqpgram.Utils.Writing.{be_bytes}
use amqpgram.Session.Listening.{method_packet}

-- `n -= size + 7`, where `n` is an `int` and the size is unsigned; below 0 it becomes 0.
unfoldable left_over : ℕ → ℕ → ℕ
left_over n size =
    let left = (n + (4294967296 - (size + 7) % 4294967296)) % 4294967296 in
    if ltb left 2147483648 then left else 0

-- The packet, and the new number of bytes; while there are none it waits.
unfoldable pub wait_response : Bytes → ℕ → Outcome (PacketStruct × ℕ)
unfolding left_over
wait_response recvline n = if n == 0 then stuck else do
  packet ← break_packet recvline
  shown ← debug_packet_struct packet
  ok (packet, left_over n packet.size)

-- Where a method's frame of size below 32768 stands at the front of the buffer and `n`, an `int`, counts its bytes
-- and those behind it, `wait_response` takes its packet, and counts one byte more than follows the
-- frame.
pub wait_response-method_frame :
    (channel class method n : ℕ) (arguments rest : Bytes)
    → channel < 65536
    → class < 65536
    → method < 65536
    → length arguments + 4 < 32768
    → n ≡ length arguments + 12 + length rest
    → n < 2147483648
    → wait_response
        (frame type_method channel (be_bytes 2 class ++ (be_bytes 2 method ++ arguments)) ++ rest)
        n
      ≡ ok (method_packet channel class method arguments, length rest + 1)
unfolding wait_response left_over debug_packet_struct
wait_response-method_frame channel class method n arguments rest hc hk hm h count small =
    let broken = break_packet-method_frame channel class method arguments rest hc hk hm h in
    let p = method_packet channel class method arguments in
    rw (broken, debug_packet_struct-shown p (break_packet-HasPayload _ p broken)) (ground arith)
