-- ===== src/Tests/Packets.antt =====
-- fuzzer/Packet.c at concrete inputs.
use amqpgram.Base.{
  ℕ, ◌≡◌, refl, arith, [], ◌∷◌, ◌++◌, some, Bytes, length, length-replicate, replicate,
}
use amqpgram.Base.Outcome.{ok, fault}
use amqpgram.Packet.{amqp_frame, break_packet, send_packet}
use amqpgram.Packet.Frames.{frame, amqp_frame_lem}
use amqpgram.Packet.Breaking.{break_packet-method_frame, break_packet_large_faults}
use amqpgram.Session.Listening.{method_packet}

abbrev junk : ℕ → Bytes
junk n = replicate n 77

length-junk : (n : ℕ) → length (junk n) ≡ n
length-junk n = length-replicate n 77

amqp_frame_example :
    amqp_frame junk 1 258 3 (5 ∷ 6 ∷ 7 ∷ 8 ∷ [])
    ≡ ok (1 ∷ 1 ∷ 2 ∷ 0 ∷ 0 ∷ 0 ∷ 3 ∷ 5 ∷ 6 ∷ 7 ∷ 206 ∷ [])
amqp_frame_example = amqp_frame_lem junk length-junk 1 258 (5 ∷ 6 ∷ 7 ∷ []) (8 ∷ []) (omega arith)

break_packet-method_frame_example :
    break_packet (1 ∷ 0 ∷ 3 ∷ 0 ∷ 0 ∷ 0 ∷ 6 ∷ 0 ∷ 10 ∷ 0 ∷ 30 ∷ 206 ∷ 2 ∷ 206 ∷ 1 ∷ [])
    ≡ ok (method_packet 3 10 30 (206 ∷ 2 ∷ []))
break_packet-method_frame_example =
    break_packet-method_frame 3 10 30 (206 ∷ 2 ∷ []) (1 ∷ []) (omega arith) (omega arith)
      (omega arith) (omega arith)

large : Bytes
large = replicate 32768 0

large-length : length large ≡ 32768
unfolding large
large-length = length-replicate {A = ℕ} 32768 0

break_packet_large_faults_example : break_packet (frame 1 0 large ++ 5 ∷ []) ≡ fault
break_packet_large_faults_example =
    break_packet_large_faults 1 0 large (5 ∷ []) (λ e. omega arith) (omega arith)
      (omega (arith, large-length)) (omega (arith, large-length)) (omega (arith, large-length))

send_packet_count : send_packet (some 3) (some (1 ∷ 2 ∷ 3 ∷ [])) 3 6 ≡ (7, 0)
unfolding send_packet
send_packet_count = refl
