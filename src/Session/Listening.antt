-- ===== src/Session/Listening.antt =====
-- What the listener makes of the frames that the socket gives.
use amqpgram.Base.{ℕ, suc, ◌+◌, ◌≡◌, ◌<◌, arith, ◌++◌, some, Bytes, length, ◌==◌, if◌then◌else◌}
use amqpgram.Base.Outcome.{ok, fault}
use amqpgram.Packet.{PacketStruct, empty_packet, type_method}
use amqpgram.Packet.Frames.{frame}
use amqpgram.Packet.Breaking.{break_packet-method_frame}
use amqpgram.Utils.Writing.{be_bytes}
use amqpgram.Session.{Session, accept_packet, parse_loop, listener_round}

-- The packet that stands for a method.
abbrev pub method_packet : ℕ → ℕ → ℕ → Bytes → PacketStruct
method_packet channel class method arguments = record empty_packet {
  frame_type = type_method;
  channel = channel;
  size = length arguments + 4;
  method_payload = some (record {
    class_id = class;
    method_id = method;
    arguments_byte_array = arguments;
    arguments_length = length arguments;
  });
}

-- Of a message that begins with the frame of a method the listener takes the first frame only,
-- whatever follows it: on channel 0 the frame's packet becomes the packet that waits, in place of
-- one that was not yet taken, and nothing else changes; on another channel the listener faults. The
-- size is below 32768, and two rounds of fuel are enough.
pub listener_round-method_frame :
    (fuel channel class method : ℕ) (arguments rest : Bytes) (s : Session)
    → channel < 65536
    → class < 65536
    → method < 65536
    → length arguments + 4 < 32768
    → listener_round
        (suc (suc fuel))
        (frame type_method channel (be_bytes 2 class ++ (be_bytes 2 method ++ arguments)) ++ rest)
        s
      ≡ (if channel == 0
          then ok
              (record s { channel_packet = some (method_packet channel class method arguments) })
          else fault)
unfolding listener_round parse_loop accept_packet
listener_round-method_frame fuel channel class method arguments rest s hc hk hm h =
    rw (break_packet-method_frame channel class method arguments rest hc hk hm h) (ground arith)
