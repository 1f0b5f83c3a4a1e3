-- ===== src/Tests/Sessions.antt =====
-- fuzzer/AMQP.c at concrete inputs: the first rounds of a connection.
use amqpgram.Base.{ℕ, ◌≢◌, ◌≡◌, refl, arith, true, [], ◌∷◌, Option, none, some, Bytes, length}
use amqpgram.Base.Outcome.{ok, stuck}
use amqpgram.Base.Random.{pure}
use amqpgram.Base.Text.{codes}
use amqpgram.Packet.{send_packet}
use amqpgram.Grammar.Table.{pair_table}
use amqpgram.Connection.{reply_with}
use amqpgram.Connection.Interface.{Messages}
use amqpgram.Connection.Deciding.{answer, connection_packet_decider, decide_method}
use amqpgram.Connection.Builders.{program_messages}
use amqpgram.Session.{
  Session, new_session, channel_round, listener_round, ordered_packet_decider, choose_packet,
  packet_decider, deliver, decide_with, decide_class,
}
use amqpgram.Session.Decisions.{IsSettled}
use amqpgram.Session.Invariant.{
  Reach, round, listener_round-Reach, start, next, Reach-IsSettled, Reach-round_without_packet,
}
use amqpgram.Session.Endings.{listener_round-ne_stuck, listener_round_endless}
use amqpgram.Session.Listening.{method_packet, listener_round-method_frame}

abbrev pub draws : ℕ → ℕ
draws k = k

abbrev pub socket : Bytes → Option ℕ
socket bytes = some (length bytes)

abbrev pub messages : Messages
messages = program_messages draws pair_table 0 4 [] (pure (codes "AMQP"))

abbrev pub greeted : Session
greeted = record {
  current_state = 1;
  waiting_response = 1;
  packet_count = 1;
  is_running = true;
  channel_packet = none;
}

abbrev pub open_ok : Bytes
open_ok = 1 ∷ 0 ∷ 0 ∷ 0 ∷ 0 ∷ 0 ∷ 5 ∷ 0 ∷ 10 ∷ 0 ∷ 41 ∷ 0 ∷ 206 ∷ []

abbrev pub answered : Session
answered = record greeted { channel_packet = some (method_packet 0 10 41 (0 ∷ [])) }

abbrev pub connected : Session
connected = record {
  current_state = 5;
  waiting_response = 0;
  packet_count = 1;
  is_running = true;
  channel_packet = none;
}

listener_round-method_frame_example :
    listener_round 2 (1 ∷ 0 ∷ 0 ∷ 0 ∷ 0 ∷ 0 ∷ 5 ∷ 0 ∷ 10 ∷ 0 ∷ 41 ∷ 0 ∷ 206 ∷ 1 ∷ 0 ∷ []) greeted
    ≡ ok answered
listener_round-method_frame_example =
    listener_round-method_frame 0 0 10 41 (0 ∷ []) (1 ∷ 0 ∷ []) greeted (omega arith) (omega arith)
      (omega arith) (omega arith)

listener_round-ne_stuck_example : listener_round 2 open_ok greeted ≢ stuck
listener_round-ne_stuck_example =
    listener_round-ne_stuck 0 1 (0 ∷ 0 ∷ 0 ∷ 0 ∷ 0 ∷ 5 ∷ 0 ∷ 10 ∷ 0 ∷ 41 ∷ 0 ∷ 206 ∷ []) greeted
      (λ e. omega arith) (omega arith)

listener_round_endless_example :
    listener_round 50 (0xce ∷ 0 ∷ 0 ∷ 0 ∷ 0 ∷ 0xff ∷ 0xf9 ∷ 1 ∷ 2 ∷ []) greeted ≡ stuck
listener_round_endless_example = listener_round_endless 50 (1 ∷ 2 ∷ []) greeted

pub greets : channel_round draws messages 0 socket (new_session 0) 0 ≡ ok (greeted, 1)
unfolding new_session channel_round packet_decider choose_packet ordered_packet_decider answer
    program_messages reply_with deliver send_packet
greets = refl

hears : listener_round 2 open_ok greeted ≡ ok answered
hears =
    listener_round-method_frame 0 0 10 41 (0 ∷ []) [] greeted (omega arith) (omega arith)
      (omega arith) (omega arith)

connects : channel_round draws messages 0 socket answered 1 ≡ ok (connected, 2)
unfolding channel_round packet_decider choose_packet ordered_packet_decider decide_with decide_class
    connection_packet_decider decide_method deliver
connects = refl

first_session : Reach draws messages 0 socket 0 (new_session 0)
first_session = start (new_session 0) refl

pub Reach-connected : Reach draws messages 0 socket 0 connected
unfolding new_session
Reach-connected =
    next
      (listener_round-Reach draws messages 0 socket 2 open_ok greeted answered
        (next first_session (round 0 1 refl greets)) hears)
      (round 1 2 refl connects)

Reach-IsSettled_example : IsSettled 5 0
Reach-IsSettled_example = Reach-IsSettled draws messages 0 socket Reach-connected

Reach-round_without_packet_example :
    ordered_packet_decider draws messages none 5 0 2 ≡ answer messages.close 2
Reach-round_without_packet_example =
    Reach-round_without_packet draws messages 0 socket 2 Reach-connected refl refl
