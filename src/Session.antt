-- ===== src/Session.antt =====
-- fuzzer/AMQP.c: the states of a connection, the choice of each packet, and the two threads that
-- share a channel's packet.
pub mod Decisions
pub mod Invariant
pub mod Payloads
pub mod Waiting
pub mod Setup
pub mod Typing
pub mod Listening
pub mod Polling
pub mod Endings
pub mod Protocol
pub mod Handshake
pub mod Locking
use amqpgram.Base.{
  ℕ, zero, suc, ◌+◌, ◌%◌, Bool, true, false, ◌&&◌, ◌||◌, not, List, [], ◌∷◌, Option, none, some,
  leb, ltb, ◌==◌, if◌then◌else◌, Bytes, length,
}
use amqpgram.Base.Outcome.{Outcome, ok, fault, stuck}
use amqpgram.Base.Outcome
use amqpgram.Base.Text.{codes}
use amqpgram.Base.Random.{Rand, ◌>>=◌, pure, lift, rand}
use amqpgram.Packet.{
  MethodStruct, PacketStruct, type_none, type_method, type_protocol_header, send_packet,
  break_packet,
}
use amqpgram.Connection.{class_connection, reply_with}
use amqpgram.Connection.Interface.{Reply, Decision, sent, Messages}
use amqpgram.Connection.Deciding.{quiet, answer, connection_packet_decider}

-- `enum State`; NOOP, -1, is given by no function.
abbrev pub state_none : ℕ
state_none = 0

abbrev pub state_connection_start : ℕ
state_connection_start = 1

abbrev pub state_connection_tune : ℕ
state_connection_tune = 2

abbrev pub state_connection_tuned : ℕ
state_connection_tuned = 3

abbrev pub state_connection_open : ℕ
state_connection_open = 4

abbrev pub state_connected : ℕ
state_connected = 5

abbrev pub state_connection_close : ℕ
state_connection_close = 6

abbrev pub state_connection_close_ok : ℕ
state_connection_close_ok = 7

abbrev pub state_connection_closed : ℕ
state_connection_closed = 8

abbrev pub implemented_messages : ℕ
implemented_messages = 6

-- `decode_amqp` is the call of `decode_rule` for the rule `amqp` in the protocol's environment.
unfoldable pub amqp_header : Rand Bytes → Rand Reply
amqp_header decode_amqp = reply_with 1 1 decode_amqp

module _ (draws : ℕ → ℕ) (m : Messages) where
  unfoldable pub chaotic_reply : ℕ → Rand Reply
  chaotic_reply zero = m.amqp_header
  chaotic_reply (suc zero) = m.start_ok
  chaotic_reply (suc (suc zero)) = m.tune_ok none
  chaotic_reply (suc (suc (suc zero))) = m.open_connection
  chaotic_reply (suc (suc (suc (suc zero)))) = m.close
  chaotic_reply (suc (suc (suc (suc (suc _))))) = m.close_ok

  unfoldable pub chaotic_packet_decider : Rand Decision
  chaotic_packet_decider =
      rand draws >>= λ roll. answer (chaotic_reply (roll % implemented_messages))

  -- With no packet. In a state that is not listed `sent_packet` is returned uninitialised.
  unfoldable pub decide_without : ℕ → ℕ → Rand Decision
  decide_without state response_expected =
      if state == 2 || state == 3 || state == 5 || state == 6
      then connection_packet_decider m none state response_expected
      else lift fault

  -- `case CONNECTION`; NULL for the payload faults, and any other class leaves `sent_packet`
  -- uninitialised.
  unfoldable pub decide_class : Option MethodStruct → ℕ → ℕ → Rand Decision
  decide_class none state response_expected = lift fault
  decide_class (some method_payload) state response_expected =
      if method_payload.class_id == class_connection
      then connection_packet_decider m (some method_payload) state response_expected
      else lift fault

  -- With a packet. A type other than NONE and METHOD leaves `sent_packet` uninitialised.
  unfoldable pub decide_with : PacketStruct → ℕ → ℕ → Rand Decision
  decide_with packet state response_expected =
      if packet.frame_type == type_none
      then quiet state response_expected
      else if packet.frame_type == type_method
      then decide_class packet.method_payload state response_expected
      else lift fault

  unfoldable pub ordered_packet_decider : Option PacketStruct → ℕ → ℕ → Rand Decision
  ordered_packet_decider none state response_expected =
      if state == state_none then answer m.amqp_header else decide_without state response_expected
  ordered_packet_decider (some packet) state response_expected =
      if packet.frame_type == type_protocol_header
      then quiet state_none 0
      else if state == state_none
      then answer m.amqp_header
      else decide_with packet state response_expected

  -- `rand() % 4 + 1 >= PACKET_CHAOS` lets the state decide.
  unfoldable pub choose_packet : ℕ → Option PacketStruct → ℕ → ℕ → Rand Decision
  choose_packet packet_chaos packet state response_expected = do
    roll ← rand draws
    if leb packet_chaos (roll % 4 + 1)
        then ordered_packet_decider packet state response_expected
        else chaotic_packet_decider

-- What `packet_decider` leaves: the new state, the flag, the counter of packets, and what was
-- handed to the socket.
pub record Decided : Type 0 where
  pub state : ℕ
  pub waiting_response : ℕ
  pub packet_count : ℕ
  pub handed : Option Bytes

-- `socket` answers for `send`: how many bytes it took, `none` for -1.
unfoldable pub deliver : (Bytes → Option ℕ) → Bool → ℕ → Decision → Option Bytes → Decided
deliver socket is_running packet_count decision none = record {
  state = decision.next_state;
  waiting_response = decision.response_expected;
  packet_count = packet_count;
  handed = none;
}
deliver socket false packet_count decision (some packet) = record {
  state = state_connection_closed;
  waiting_response = 0;
  packet_count = packet_count;
  handed = none;
}
deliver socket true packet_count decision (some packet) =
    let (count, failed) = send_packet (socket packet) (some packet) (length packet) packet_count in
    if failed == 0
    then record {
      state = decision.next_state;
      waiting_response = decision.response_expected;
      packet_count = count;
      handed = some packet;
    }
    else record {
      state = state_connection_closed;
      waiting_response = 0;
      packet_count = count;
      handed = some packet;
    }

unfoldable pub packet_decider :
    (ℕ → ℕ)
    → Messages
    → ℕ
    → (Bytes → Option ℕ)
    → Bool
    → Option PacketStruct
    → ℕ
    → ℕ
    → ℕ
    → Rand Decided
packet_decider draws m packet_chaos socket is_running packet state response_expected packet_count =
    do
      decision ← choose_packet draws m packet_chaos packet state response_expected
      pure (deliver socket is_running packet_count decision decision.packet)

-- What the listener and the thread of channel 0 share.
pub record Session : Type 0 where
  pub current_state : ℕ
  pub waiting_response : ℕ
  pub packet_count : ℕ
  pub is_running : Bool
  pub channel_packet : Option PacketStruct

-- `fuzz`: a new connection keeps the count of packets.
unfoldable pub new_session : ℕ → Session
new_session packet_count = record {
  current_state = state_none;
  waiting_response = 0;
  packet_count = packet_count;
  is_running = true;
  channel_packet = none;
}

-- The thread goes on if there is a packet or none is awaited, and the connection is not closed.
abbrev pub is_ready : Session → Bool
is_ready s =
    not (s.current_state == state_connection_closed)
    && elim s.channel_packet [ none ↦ s.waiting_response == 0 | some packet ↦ true ]

-- One round of `AMQP_channel_thread`, where it does not wait.
unfoldable pub channel_round : (ℕ → ℕ) → Messages → ℕ → (Bytes → Option ℕ) → Session → Rand Session
channel_round draws m packet_chaos socket s = do
  decided ←
      packet_decider draws m packet_chaos socket s.is_running s.channel_packet s.current_state
        s.waiting_response s.packet_count
  pure (record s {
    current_state = decided.state;
    waiting_response = decided.waiting_response;
    packet_count = decided.packet_count;
    channel_packet = none;
  })

-- The listener puts a packet that it has broken up in place of one that was not yet taken. Only
-- channel 0 has a place; a packet for another faults.
unfoldable pub accept_packet : PacketStruct → Session → Outcome Session
accept_packet packet s =
    if packet.channel == 0 then ok (record s { channel_packet = some packet }) else fault

-- `while (parsed_n < n)`, where `n`, which is `recv(…) > 0`, is 1. Each round breaks up the packet
-- at the front of the buffer; one of type NONE is freed, and ends the loop.
unfoldable pub parse_loop : ℕ → Bytes → ℕ → Session → Outcome Session
unfolding accept_packet
parse_loop zero recvline parsed_n s = stuck
parse_loop (suc fuel) recvline parsed_n s =
    let round = Outcome.◌>>=◌ (break_packet recvline) λ read_packet.
      let next =
        Outcome.◌>>=◌ (accept_packet read_packet s)
          λ s'. parse_loop fuel recvline ((read_packet.size + 7) % 4294967296) s' in
      if read_packet.frame_type == type_none then ok s else next in
    if parsed_n == 0 || leb 2147483648 parsed_n then round else ok s

-- A message that the socket gave.
unfoldable pub listener_round : ℕ → Bytes → Session → Outcome Session
unfolding parse_loop
listener_round fuel recvline s = parse_loop fuel recvline 0 s

-- The end of the listener.
unfoldable pub listener_end : Session → Session
listener_end s = record s { is_running = false }
