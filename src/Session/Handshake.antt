-- ===== src/Session/Handshake.antt =====
-- A whole connection: from its start, with a broker that answers, to its close.
pub mod Turns
pub mod Program
use amqpgram.Base.{
  ℕ, ◌+◌, ◌≡◌, ◌≤◌, ◌<◌, refl, ap, ◌∙◌, arith, List, [], ◌∷◌, ◌++◌, Option, none, some, true, ◌==◌,
  Bytes, length,
}
use amqpgram.Base.Outcome.{ok}
use amqpgram.Base.Random.{Rand, ◌>>=◌, pure, lift, bind-run}
use amqpgram.Utils.Writing.{be_bytes}
use amqpgram.Packet.{PacketStruct, type_method, send_packet, add_packet_count}
use amqpgram.Packet.Frames.{frame}
use amqpgram.Connection.Interface.{Reply, Decision, sent, Messages, Leaves}
use amqpgram.Connection.Deciding.{answer, decide_method, connection_packet_decider}
use amqpgram.Session.{
  Session, state_connection_closed, new_session, choose_packet, deliver, packet_decider,
  channel_round, listener_round, ordered_packet_decider, decide_with, decide_class, decide_without,
}
use amqpgram.Session.Listening.{method_packet, listener_round-method_frame}
use amqpgram.Session.Protocol.Sessions.{chosen_by_rules}

-- What happens next: the channel's thread makes a round, or the listener hears a message.
pub data Event : Type 0 where
  turn : Event
  hear : Bytes → Event

unfoldable pub converse :
    (ℕ → ℕ) → Messages → ℕ → (Bytes → Option ℕ) → List Event → Session → Rand Session
converse draws m packet_chaos socket [] s = pure s
converse draws m packet_chaos socket (turn ∷ events) s = do
  s' ← channel_round draws m packet_chaos socket s
  converse draws m packet_chaos socket events s'
converse draws m packet_chaos socket (hear recvline ∷ events) s = do
  s' ← lift (listener_round 2 recvline s)
  converse draws m packet_chaos socket events s'

-- The frame of a method of the class Connection with these arguments, and whatever follows it.
abbrev pub said : ℕ → Bytes → Bytes → Bytes
said method arguments rest =
    frame type_method 0 (be_bytes 2 10 ++ (be_bytes 2 method ++ arguments)) ++ rest

-- A builder that does not fault.
abbrev pub Works : Rand Reply → Type 0
Works builder = (k : ℕ) → (reply : Reply) × (k' : ℕ) × (builder k ≡ ok (reply, k'))

abbrev pub at : ℕ → ℕ → ℕ → Option PacketStruct → Session
at state waiting count packet = record {
  current_state = state;
  waiting_response = waiting;
  packet_count = count;
  is_running = true;
  channel_packet = packet;
}
