-- ===== src/Session/Decisions.antt =====
-- What a decision leaves, whatever was received and whatever the dice say.
use amqpgram.Base.{
  ℕ, zero, suc, ◌+◌, ◌%◌, ◌≡◌, ◌≢◌, ◌⊎◌, ◌≤◌, ◌<◌, arith, Option, none, some, ◌==◌, if◌then◌else◌,
}
use amqpgram.Base.Outcome.{ok}
use amqpgram.Base.Random.{Rand, pure, bind-eq-ok}
use amqpgram.Packet.{MethodStruct, PacketStruct}
use amqpgram.Connection.Interface.{Reply, Decision, sent, Messages, Leaves}
use amqpgram.Connection.Deciding.{answer, decide_method, connection_packet_decider}
use amqpgram.Session.{
  chaotic_reply, chaotic_packet_decider, decide_without, decide_class, decide_with,
  ordered_packet_decider, choose_packet,
}

-- A state and a flag that fit: the states that only the enumeration names (ConnectionTune,
-- ConnectionClose) do not occur, and where no packet is awaited, the next step needs none.
abbrev pub IsSettled : ℕ → ℕ → Type 0
IsSettled state waiting =
    (state ≤ 8)
    × (state ≢ 2)
    × (state ≢ 6)
    × ((0 < waiting) ⊎ (state ≡ 0) ⊎ (state ≡ 3) ⊎ (state ≡ 5) ⊎ (state ≡ 8))

-- Every decision that is reached leaves a settled pair.
abbrev pub Settles : Rand Decision → Type 0
Settles r =
    (k : ℕ) (d : Decision) (k' : ℕ) → r k ≡ ok (d, k') → IsSettled d.next_state d.response_expected

answer-Leaves :
    (builder : Rand Reply) (state waiting : ℕ)
    → Leaves builder state waiting
    → (k : ℕ) (d : Decision) (k' : ℕ) → answer builder k ≡ ok (d, k')
    → (d.next_state ≡ state) × (d.response_expected ≡ waiting)
unfolding answer
answer-Leaves builder state waiting leaves k d k' e =
    let (reply, k₁, built, last) = bind-eq-ok builder (λ reply. pure (sent reply)) k e in
    ground (arith, last, leaves k reply k₁ built)

module _ (draws : ℕ → ℕ) (m : Messages) where
  open m use {
    amqp_header_leaves, start_ok_leaves, tune_ok_leaves, open_leaves, close_leaves, close_ok_leaves,
  }

  decide_method-Settles :
      (method_data : MethodStruct) (waiting : ℕ) → Settles (decide_method m method_data waiting)
  unfolding decide_method
  decide_method-Settles method_data waiting k d k' e = ground (
    arith,
    answer-Leaves m.start_ok 1 1 start_ok_leaves k d k',
    answer-Leaves (m.tune_ok (some method_data)) 3 0 (tune_ok_leaves (some method_data)) k d k',
    answer-Leaves m.close_ok 7 1 close_ok_leaves k d k',
  )

  decide_class-Settles :
      (payload : Option MethodStruct) (state waiting : ℕ)
      → Settles (decide_class draws m payload state waiting)
  unfolding decide_class connection_packet_decider
  decide_class-Settles none state waiting k d k' e = cc
  decide_class-Settles (some method_data) state waiting k d k' e =
      ground (arith, decide_method-Settles method_data waiting k d k')

  decide_without-Settles : (state waiting : ℕ) → Settles (decide_without draws m state waiting)
  unfolding decide_without connection_packet_decider
  decide_without-Settles state waiting k d k' e = ground (
    arith,
    answer-Leaves m.open_connection 4 1 open_leaves k d k',
    answer-Leaves m.close 7 1 close_leaves k d k',
  )

  ordered-Settles :
      (packet : Option PacketStruct) (state waiting : ℕ)
      → IsSettled state waiting
      → Settles (ordered_packet_decider draws m packet state waiting)
  unfolding ordered_packet_decider decide_with
  ordered-Settles none state waiting h k d k' e = ground (
    arith,
    answer-Leaves m.amqp_header 1 1 amqp_header_leaves k d k',
    decide_without-Settles state waiting k d k',
  )
  ordered-Settles (some packet) state waiting h k d k' e = ground (
    arith,
    answer-Leaves m.amqp_header 1 1 amqp_header_leaves k d k',
    decide_class-Settles packet.method_payload state waiting k d k',
  )

  chaotic_reply-Settles : (roll : ℕ) → Settles (answer (chaotic_reply draws m roll))
  unfolding chaotic_reply
  chaotic_reply-Settles zero k d k' e =
      omega (arith, answer-Leaves m.amqp_header 1 1 amqp_header_leaves k d k' e)
  chaotic_reply-Settles (suc zero) k d k' e =
      omega (arith, answer-Leaves m.start_ok 1 1 start_ok_leaves k d k' e)
  chaotic_reply-Settles (suc (suc zero)) k d k' e =
      omega (arith, answer-Leaves (m.tune_ok none) 3 0 (tune_ok_leaves none) k d k' e)
  chaotic_reply-Settles (suc (suc (suc zero))) k d k' e =
      omega (arith, answer-Leaves m.open_connection 4 1 open_leaves k d k' e)
  chaotic_reply-Settles (suc (suc (suc (suc zero)))) k d k' e =
      omega (arith, answer-Leaves m.close 7 1 close_leaves k d k' e)
  chaotic_reply-Settles (suc (suc (suc (suc (suc _))))) k d k' e =
      omega (arith, answer-Leaves m.close_ok 7 1 close_ok_leaves k d k' e)

  -- From a settled pair of state and flag, each decision that is reached, by the rules or by the
  -- dice, with or without a packet, leaves a settled pair.
  pub choose_packet-Settles :
      (packet_chaos : ℕ) (packet : Option PacketStruct) (state waiting : ℕ)
      → IsSettled state waiting
      → (k : ℕ) (d : Decision) (k' : ℕ)
      → choose_packet draws m packet_chaos packet state waiting k ≡ ok (d, k')
      → IsSettled d.next_state d.response_expected
  unfolding choose_packet chaotic_packet_decider
  choose_packet-Settles packet_chaos packet state waiting h k d k' e = ground (
    arith,
    ordered-Settles packet state waiting h (k + 1) d k',
    chaotic_reply-Settles (draws (k + 1) % 6) (k + 1 + 1) d k',
  )

  -- With no packet, in a settled pair that awaits none and is not closed, the rules send the
  -- protocol header, Open or Close, so nothing is read through NULL or left uninitialised.
  pub ordered_without_packet :
      (state k : ℕ)
      → IsSettled state 0
      → state ≢ 8
      → ordered_packet_decider draws m none state 0 k
        ≡ answer
            (if state == 0
              then m.amqp_header
              else if state == 3
              then m.open_connection
              else m.close)
            k
  unfolding ordered_packet_decider decide_without connection_packet_decider
  ordered_without_packet state k h n = ground (arith, h)
