-- ===== src/Session/Handshake/Turns.antt =====
-- The rounds of the channel's thread and the messages of the broker, one after another.
use amqpgram.Base.{
  ℕ, ◌+◌, ◌≡◌, ◌≤◌, ◌<◌, refl, ap, ◌∙◌, arith, List, ◌∷◌, Option, none, some, true, ◌==◌, Bytes,
  length,
}
use amqpgram.Base.Outcome.{ok, fault}
use amqpgram.Base.Random.{Rand, bind-run, bind-fault}
use amqpgram.Packet.{PacketStruct, send_packet, add_packet_count}
use amqpgram.Connection.Interface.{Reply, Decision, sent, Messages, Leaves}
use amqpgram.Connection.Deciding.{answer, decide_method, connection_packet_decider}
use amqpgram.Session.{
  Session, new_session, choose_packet, deliver, packet_decider, channel_round,
  ordered_packet_decider, decide_with, decide_class,
}
use amqpgram.Session.Listening.{method_packet, listener_round-method_frame}
use amqpgram.Session.Protocol.Sessions.{chosen_by_rules}
use amqpgram.Session.Handshake.{Event, turn, hear, converse, said, Works, at}

module _ (draws : ℕ → ℕ) (m : Messages) (packet_chaos : ℕ) (socket : Bytes → Option ℕ)
    (ordered : packet_chaos ≤ 1)
    (takes : (bytes : Bytes) → socket bytes ≡ some (length bytes)) where
  arrived :
      (count : ℕ) (d : Decision) (packet : Option Bytes)
      → (count' : ℕ) × (handed : Option Bytes) × (deliver socket true count d packet ≡ record {
        state = d.next_state;
        waiting_response = d.response_expected;
        packet_count = count';
        handed = handed;
      })
  unfolding deliver send_packet
  arrived count d none = (count, none, refl)
  arrived count d (some packet) =
      let same : (length packet == length packet) ≡ true = ground arith in
      ((add_packet_count 1 count).0, some packet, rw (takes packet, same))

  -- A round that the rules decide: the state and the flag of the decision, and no packet waits.
  turned :
      (state waiting count : ℕ) (packet : Option PacketStruct) (k : ℕ) (d : Decision) (k' : ℕ)
      → ordered_packet_decider draws m packet state waiting (k + 1) ≡ ok (d, k')
      → (count' : ℕ) × (channel_round draws m packet_chaos socket (at state waiting count packet) k
          ≡ ok (at d.next_state d.response_expected count' none, k'))
  unfolding channel_round packet_decider
  turned state waiting count packet k d k' e =
      let (count', handed, delivered) = arrived count d d.packet in
      (
        count',
        bind-run (packet_decider draws m packet_chaos socket true packet state waiting count) _ k (
            bind-run (choose_packet draws m packet_chaos packet state waiting) _ k
              (chosen_by_rules draws m packet_chaos socket ordered packet state waiting k ∙ e)
            ∙ ap (λ decided. ok (decided, k')) delivered),
      )

  -- A round that sends.
  sends :
      (state waiting count : ℕ) (packet : Option PacketStruct) (k : ℕ) (builder : Rand Reply)
      (next_state response : ℕ)
      → Leaves builder next_state response
      → Works builder
      → ordered_packet_decider draws m packet state waiting (k + 1) ≡ answer builder (k + 1)
      → (count' : ℕ) × (k' : ℕ) × (channel_round draws m packet_chaos socket
            (at state waiting count packet)
            k
          ≡ ok (at next_state response count' none, k'))
  unfolding answer
  sends state waiting count packet k builder next_state response leaves works e =
      let (reply, k', built) = works (k + 1) in
      let (state_left, flag_left) = leaves (k + 1) reply k' built in
      let (count', run) =
        turned state waiting count packet k (sent reply) k'
          (e ∙ bind-run builder _ (k + 1) built) in
      (count', k', run ∙ rw (state_left, flag_left))

  -- A round whose builder faults.
  faults :
      (state waiting count : ℕ) (packet : Option PacketStruct) (k : ℕ) (builder : Rand Reply)
      → builder (k + 1) ≡ fault
      → ordered_packet_decider draws m packet state waiting (k + 1) ≡ answer builder (k + 1)
      → channel_round draws m packet_chaos socket (at state waiting count packet) k ≡ fault
  unfolding answer channel_round packet_decider
  faults state waiting count packet k builder failed e =
      bind-fault (packet_decider draws m packet_chaos socket true packet state waiting count) _ k (
        bind-fault (choose_packet draws m packet_chaos packet state waiting) _ k (
          chosen_by_rules draws m packet_chaos socket ordered packet state waiting k
          ∙ e
          ∙ bind-fault builder _ (k + 1) failed))

  then_turn :
      (events : List Event) (s s' : Session) (k k' : ℕ)
      → channel_round draws m packet_chaos socket s k ≡ ok (s', k')
      → converse draws m packet_chaos socket (turn ∷ events) s k
        ≡ converse draws m packet_chaos socket events s' k'
  unfolding converse
  then_turn events s s' k k' e = bind-run (channel_round draws m packet_chaos socket s) _ k e

  then_hear :
      (events : List Event) (state waiting count method k : ℕ) (arguments rest : Bytes)
      → method < 65536
      → length arguments + 4 < 32768
      → converse draws m packet_chaos socket
          (hear (said method arguments rest) ∷ events)
          (at state waiting count none)
          k
        ≡ converse draws m packet_chaos socket events
            (at state waiting count (some (method_packet 0 10 method arguments)))
            k
  unfolding converse
  then_hear events state waiting count method k arguments rest h l = rw (
      listener_round-method_frame 0 0 10 method arguments rest (at state waiting count none)
        (omega arith) (omega arith) h l)

  -- A run, by the session that it leaves after its events.
  abbrev Arrives : List Event → Session → ℕ → ℕ → ℕ → Type 0
  Arrives events s k state waiting =
      (count : ℕ) × (k' : ℕ) × (converse draws m packet_chaos socket events s k
        ≡ ok (at state waiting count none, k'))

  -- Where the packet header can be built and the answer to Start cannot, a connection ends at Start.
  pub start_faults :
      (events : List Event) (count k : ℕ) (start rest : Bytes)
      → Works m.amqp_header
      → ((k : ℕ) → m.start_ok k ≡ fault)
      → length start + 4 < 32768
      → converse draws m packet_chaos socket
          (turn ∷ hear (said 10 start rest) ∷ turn ∷ events)
          (new_session count)
          k
        ≡ fault
  unfolding new_session converse ordered_packet_decider decide_with decide_class
      connection_packet_decider decide_method
  start_faults events count k start rest header_works failed l =
      let (count₁, k₁, greeted) =
        sends 0 0 count none k m.amqp_header 1 1 m.amqp_header_leaves header_works refl in
      then_turn (hear (said 10 start rest) ∷ turn ∷ events) _ _ k k₁ greeted
      ∙ then_hear (turn ∷ events) 1 1 count₁ 10 k₁ start rest (omega arith) l
      ∙ bind-fault (channel_round draws m packet_chaos socket _) _ k₁ (
          faults 1 1 count₁ (some (method_packet 0 10 10 start)) k₁ m.start_ok (failed (k₁ + 1))
            refl)
