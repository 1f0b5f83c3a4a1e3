-- ===== src/Session/Protocol/Refinement.antt =====
-- The deciders and the channel's thread refine the protocol.
use amqpgram.Base.{
  ℕ, ◌≡◌, ◌≢◌, inl, inr, refl, arith, Option, none, some, true, false, Bool-cases, ◌==◌, subst, sym,
  ap, ◌∙◌,
}
use amqpgram.Base.Outcome.{ok}
use amqpgram.Base.Random.{Rand, pure, bind-eq-ok}
use amqpgram.Packet.{MethodStruct, PacketStruct, type_none, type_method, type_protocol_header}
use amqpgram.Connection.{class_connection}
use amqpgram.Connection.Interface.{Reply, Decision, sent, Messages, Leaves}
use amqpgram.Connection.Deciding.{quiet, answer, decide_method, connection_packet_decider}
use amqpgram.Session.{decide_without, decide_class, decide_with, ordered_packet_decider}
use amqpgram.Session.Protocol.{
  Phase, unconnected, negotiating, tuned, opening, connected, closing, closed, silence, greeting,
  method, Output, header, start_ok, tune_ok, open_request, close_request, close_ok, Move, greet,
  refuse, ignore, on_start, on_secure, on_tune, on_open_ok, on_close, on_close_ok, on_other,
  ask_open, ask_close, Represents, is_unconnected, is_negotiating, is_tuned, is_opening,
  is_connected, is_closing, is_closed, input_of, input_of_method, payload_of, builder_of,
}

-- Of an output the packet is what its builder built; of none it is NULL.
abbrev pub Carries : Messages → Option PacketStruct → Option Output → ℕ → Decision → ℕ → Type 0
Carries m received none k d k' = (d.packet ≡ none) × (k' ≡ k)
Carries m received (some output) k d k' =
    (reply : Reply) × (builder_of m received output k ≡ ok (reply, k')) × (d ≡ sent reply)

-- A decision that is a move of the protocol.
abbrev pub Follows : Messages → Phase → Option PacketStruct → ℕ → Decision → ℕ → Type 0
Follows m p received k d k' =
    (output : Option Output) × (p' : Phase) × Move p (input_of received) output p'
    × Represents p' d.next_state d.response_expected
    × Carries m received output k d k'

module _ (m : Messages) where
  open m use {
    amqp_header_leaves, start_ok_leaves, tune_ok_leaves, open_leaves, close_leaves, close_ok_leaves,
  }

  answers :
      (builder : Rand Reply) (state waiting : ℕ) (p' : Phase) (k : ℕ) (d : Decision) (k' : ℕ)
      → Leaves builder state waiting
      → Represents p' state waiting
      → answer builder k ≡ ok (d, k')
      → Represents p' d.next_state d.response_expected
        × (reply : Reply) × (builder k ≡ ok (reply, k'))
        × (d ≡ sent reply)
  unfolding answer
  answers builder state waiting p' k d k' leaves r e =
      let (reply, k₁, built, last) = bind-eq-ok builder (λ reply. pure (sent reply)) k e in
      let (state_left, flag_left) = leaves k reply k₁ built in
      let same : d ≡ sent reply = ground (arith, last) in
      let counted : k₁ ≡ k' = ground (arith, last) in
      (rw (same, state_left, flag_left) r, reply, rw counted at built, same)

  follows :
      (p : Phase) (received : Option PacketStruct) (output : Output) (p' : Phase)
      (state waiting k : ℕ) (d : Decision) (k' : ℕ)
      → Move p (input_of received) (some output) p'
      → Leaves (builder_of m received output) state waiting
      → Represents p' state waiting
      → answer (builder_of m received output) k ≡ ok (d, k')
      → Follows m p received k d k'
  follows p received output p' state waiting k d k' move leaves r e =
      let (r', reply, built, same) =
        answers (builder_of m received output) state waiting p' k d k' leaves r e in
      (some output, p', move, r', (reply, built, same))

  stays :
      (p : Phase) (received : Option PacketStruct) (p' : Phase) (state waiting k : ℕ) (d : Decision)
      (k' : ℕ)
      → Move p (input_of received) none p'
      → Represents p' state waiting
      → quiet state waiting k ≡ ok (d, k')
      → Follows m p received k d k'
  stays p received p' state waiting k d k' move r e =
      let left : d ≡ record { next_state = state; response_expected = waiting; packet = none } =
        ground (arith, e) in
      (none, p', move, rw left r, (rw left, ground (arith, e)))

  module _ (p : Phase) (h : p ≢ unconnected) (packet : PacketStruct) (method_data : MethodStruct)
      (is_method : input_of (some packet) ≡ method method_data.method_id)
      (has_payload : packet.method_payload ≡ some method_data) where
    moves :
        (id : ℕ) (output : Option Output) (p' : Phase)
        → (method_data.method_id == id) ≡ true
        → Move p (method id) output p'
        → Move p (input_of (some packet)) output p'
    moves id output p' same move =
        let e : method_data.method_id ≡ id = ground arith in
        subst (λ i. Move p i output p') (sym (is_method ∙ ap method e)) move

    method-Follows :
        (waiting k : ℕ) (d : Decision) (k' : ℕ)
        → decide_method m method_data waiting k ≡ ok (d, k')
        → Follows m p (some packet) k d k'
    unfolding decide_method
    method-Follows waiting k d k' e = elim (Bool-cases (method_data.method_id == 10)) [
      | inl same ↦
          follows p (some packet) start_ok negotiating 1 1 k d k' (moves 10 _ _ same (on_start p h))
            start_ok_leaves is_negotiating (rw same at e)
      | inr not_start ↦ elim (Bool-cases (method_data.method_id == 30)) [
        | inl same ↦
            follows p (some packet) tune_ok tuned 3 0 k d k' (moves 30 _ _ same (on_tune p h))
              (tune_ok_leaves (payload_of (some packet))) is_tuned
              (rw (has_payload) (rw (not_start, same) at e))
        | inr not_tune ↦ elim (Bool-cases (method_data.method_id == 20)) [
          | inl same ↦
              stays p (some packet) connected 5 0 k d k' (moves 20 _ _ same (on_secure p h))
                is_connected (rw (not_start, not_tune, same) at e)
          | inr not_secure ↦ elim (Bool-cases (method_data.method_id == 41)) [
            | inl same ↦
                stays p (some packet) connected 5 0 k d k' (moves 41 _ _ same (on_open_ok p h))
                  is_connected (rw (not_start, not_tune, not_secure, same) at e)
            | inr not_open_ok ↦ elim (Bool-cases (method_data.method_id == 50)) [
              | inl same ↦
                  follows p (some packet) close_ok closing 7 1 k d k'
                    (moves 50 _ _ same (on_close p h)) close_ok_leaves is_closing
                    (rw (not_start, not_tune, not_secure, not_open_ok, same) at e)
              | inr not_close ↦ elim (Bool-cases (method_data.method_id == 51)) [
                | inl same ↦
                    stays p (some packet) closed 8 0 k d k' (moves 51 _ _ same (on_close_ok p h))
                      is_closed
                      (rw (not_start, not_tune, not_secure, not_open_ok, not_close, same) at e)
                | inr not_close_ok ↦
                    stays p (some packet) unconnected 0 waiting k d k'
                      (subst (λ i. Move p i none unconnected) (sym is_method)
                        (on_other p method_data.method_id h (ground arith) (ground arith)
                          (ground arith) (ground arith) (ground arith) (ground arith)))
                      (is_unconnected waiting)
                      (rw (not_start, not_tune, not_secure, not_open_ok, not_close, not_close_ok) at
                        e)
              ]
            ]
          ]
        ]
      ]
    ]

  not_greeting :
      (packet : PacketStruct)
      → (packet.frame_type == type_protocol_header) ≡ false
      → input_of (some packet) ≢ greeting
  not_greeting packet h = elim (Bool-cases (packet.frame_type == type_none)) [
    | inl empty ↦ rw (h, empty) (λ e. cc)
    | inr full ↦ rw (h, full) (no_greeting packet.method_payload)
  ]
    where
      no_greeting : (payload : Option MethodStruct) → input_of_method payload ≢ greeting
      no_greeting none = λ e. cc
      no_greeting (some payload) = λ e. cc

  module _ (draws : ℕ → ℕ) where
    class-Follows :
        (p : Phase) (packet : PacketStruct) (payload : Option MethodStruct) (state waiting k : ℕ)
        (d : Decision) (k' : ℕ)
        → p ≢ unconnected
        → (packet.frame_type == type_protocol_header) ≡ false
        → (packet.frame_type == type_none) ≡ false
        → packet.method_payload ≡ payload
        → decide_class draws m payload state waiting k ≡ ok (d, k')
        → Follows m p (some packet) k d k'
    unfolding decide_class connection_packet_decider
    class-Follows p packet none state waiting k d k' h a b c e = cc
    class-Follows p packet (some method_data) state waiting k d k' h a b c e =
        elim (Bool-cases (method_data.class_id == class_connection)) [
          | inl connection ↦
              method-Follows p h packet method_data (rw (a, b, c)) c waiting k d k'
                (rw (connection) at e)
          | inr other ↦ let faulted = rw other at e in cc
        ]

    packet-Follows :
        (p : Phase) (packet : PacketStruct) (state waiting k : ℕ) (d : Decision) (k' : ℕ)
        → p ≢ unconnected
        → (state == 0) ≡ false
        → Represents p state waiting
        → ordered_packet_decider draws m (some packet) state waiting k ≡ ok (d, k')
        → Follows m p (some packet) k d k'
    unfolding ordered_packet_decider decide_with
    packet-Follows p packet state waiting k d k' h n r e =
        elim (Bool-cases (packet.frame_type == type_protocol_header)) [
          | inl a ↦
              stays p (some packet) unconnected 0 0 k d k' (rw a (refuse p)) (is_unconnected 0)
                (rw a at e)
          | inr a ↦ elim (Bool-cases (packet.frame_type == type_none)) [
            | inl b ↦
                stays p (some packet) p state waiting k d k' (rw (a, b) (ignore p h)) r
                  (rw (a, n, b) at e)
            | inr b ↦ elim (Bool-cases (packet.frame_type == type_method)) [
              | inl c ↦
                  class-Follows p packet packet.method_payload state waiting k d k' h a b refl
                    (rw (a, n, b, c) at e)
              | inr c ↦ let faulted = rw (a, n, b, c) at e in cc
            ]
          ]
        ]

    silence-Follows :
        (p : Phase) (state waiting k : ℕ) (d : Decision) (k' : ℕ)
        → Represents p state waiting
        → ordered_packet_decider draws m none state waiting k ≡ ok (d, k')
        → Follows m p none k d k'
    unfolding ordered_packet_decider decide_without connection_packet_decider
    silence-Follows p state waiting k d k' (is_unconnected w) e =
        follows unconnected none header negotiating 1 1 k d k' (greet silence (λ e. cc))
          amqp_header_leaves is_negotiating e
    silence-Follows p state waiting k d k' is_negotiating e = cc
    silence-Follows p state waiting k d k' is_tuned e =
        follows tuned none open_request opening 4 1 k d k' ask_open open_leaves is_opening e
    silence-Follows p state waiting k d k' is_opening e = cc
    silence-Follows p state waiting k d k' is_connected e =
        follows connected none close_request closing 7 1 k d k' ask_close close_leaves is_closing e
    silence-Follows p state waiting k d k' is_closing e = cc
    silence-Follows p state waiting k d k' is_closed e = cc

    pub ordered-Follows :
        (p : Phase) (received : Option PacketStruct) (state waiting k : ℕ) (d : Decision) (k' : ℕ)
        → Represents p state waiting
        → ordered_packet_decider draws m received state waiting k ≡ ok (d, k')
        → Follows m p received k d k'
    unfolding ordered_packet_decider
    ordered-Follows p none state waiting k d k' r e = silence-Follows p state waiting k d k' r e
    ordered-Follows p (some packet) state waiting k d k' (is_unconnected w) e =
        elim (Bool-cases (packet.frame_type == type_protocol_header)) [
          | inl a ↦
              stays unconnected (some packet) unconnected 0 0 k d k' (rw a (refuse unconnected))
                (is_unconnected 0) (rw a at e)
          | inr a ↦
              follows unconnected (some packet) header negotiating 1 1 k d k'
                (greet (input_of (some packet)) (not_greeting packet a)) amqp_header_leaves
                is_negotiating (rw a at e)
        ]
    ordered-Follows p (some packet) state waiting k d k' is_negotiating e =
        packet-Follows negotiating packet 1 1 k d k' (λ e. cc) refl is_negotiating e
    ordered-Follows p (some packet) state waiting k d k' is_tuned e =
        packet-Follows tuned packet 3 0 k d k' (λ e. cc) refl is_tuned e
    ordered-Follows p (some packet) state waiting k d k' is_opening e =
        packet-Follows opening packet 4 1 k d k' (λ e. cc) refl is_opening e
    ordered-Follows p (some packet) state waiting k d k' is_connected e =
        packet-Follows connected packet 5 0 k d k' (λ e. cc) refl is_connected e
    ordered-Follows p (some packet) state waiting k d k' is_closing e =
        packet-Follows closing packet 7 1 k d k' (λ e. cc) refl is_closing e
    ordered-Follows p (some packet) state waiting k d k' is_closed e =
        packet-Follows closed packet 8 0 k d k' (λ e. cc) refl is_closed e
