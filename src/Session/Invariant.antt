-- ===== src/Session/Invariant.antt =====
-- The two threads of a connection as a step relation, and what holds of every session that they
-- reach, in whatever order they run.
use amqpgram.Base.{
  ℕ, zero, suc, ◌+◌, ◌%◌, ◌≡◌, ◌≢◌, ◌||◌, inl, inr, arith, Bool, true, false, Option, none, some,
  Bool-cases, leb, ◌==◌, if◌then◌else◌, Bytes, subst,
}
use amqpgram.Base.Outcome.{Outcome, ok, fault}
use amqpgram.Base.Outcome
use amqpgram.Base.Random.{bind-eq-ok}
use amqpgram.Packet.{PacketStruct, type_none, break_packet}
use amqpgram.Connection.Interface.{Decision, Messages}
use amqpgram.Connection.Deciding.{answer}
use amqpgram.Session.{
  Session, new_session, is_ready, choose_packet, deliver, packet_decider, ordered_packet_decider,
  channel_round, accept_packet, parse_loop, listener_round, listener_end,
}
use amqpgram.Session.Decisions.{IsSettled, choose_packet-Settles, ordered_without_packet}

-- The listener leaves the state and the flag alone.
pub accept_packet-keeps :
    (packet : PacketStruct) (s s' : Session)
    → accept_packet packet s ≡ ok s'
    → (s'.current_state ≡ s.current_state) × (s'.waiting_response ≡ s.waiting_response)
unfolding accept_packet
accept_packet-keeps packet s s' e = ground arith

module _ (draws : ℕ → ℕ) (m : Messages) (packet_chaos : ℕ) (socket : Bytes → Option ℕ) where
  -- The channel's thread makes a round where it does not wait; the listener puts a packet that it has
  -- broken up in its place, or ends. `k` is how often `rand()` was called before.
  pub data Step (s s' : Session) : Type 0 where
    round :
        (k k' : ℕ)
        → is_ready s ≡ true
        → channel_round draws m packet_chaos socket s k ≡ ok (s', k')
        → Step s s'
    place :
        (recvline : Bytes) (packet : PacketStruct)
        → break_packet recvline ≡ ok packet
        → packet.frame_type ≢ type_none
        → accept_packet packet s ≡ ok s'
        → Step s s'
    stop : s' ≡ listener_end s → Step s s'

  pub data Reach (packet_count : ℕ) : Session → Type 0 where
    start : (s : Session) → s ≡ new_session packet_count → Reach packet_count s
    next : {s s' : Session} → Reach packet_count s → Step s s' → Reach packet_count s'

  abbrev IsSettledSession : Session → Type 0
  IsSettledSession s = IsSettled s.current_state s.waiting_response

  deliver-IsSettled :
      (is_running : Bool) (packet_count : ℕ) (d : Decision) (packet : Option Bytes)
      → IsSettled d.next_state d.response_expected
      → let r = deliver socket is_running packet_count d packet in
        IsSettled r.state r.waiting_response
  unfolding deliver
  deliver-IsSettled is_running packet_count d none h = h
  deliver-IsSettled false packet_count d (some packet) h = omega arith
  deliver-IsSettled true packet_count d (some packet) h = ground arith

  round-IsSettled :
      (s s' : Session) (k k' : ℕ)
      → channel_round draws m packet_chaos socket s k ≡ ok (s', k')
      → IsSettledSession s
      → IsSettledSession s'
  unfolding channel_round packet_decider
  round-IsSettled s s' k k' e h =
      let (decided, k₁, run, last) =
        bind-eq-ok
          (packet_decider draws m packet_chaos socket s.is_running s.channel_packet s.current_state
            s.waiting_response s.packet_count)
          _ k e in
      let (d, k₂, chosen, delivered) =
        bind-eq-ok
          (choose_packet draws m packet_chaos s.channel_packet s.current_state s.waiting_response) _
          k run in
      ground (
        arith,
        last,
        delivered,
        deliver-IsSettled s.is_running s.packet_count d d.packet (
            choose_packet-Settles draws m packet_chaos s.channel_packet s.current_state
              s.waiting_response h k d k₂ chosen),
      )

  Step-IsSettled : {s s' : Session} → Step s s' → IsSettledSession s → IsSettledSession s'
  Step-IsSettled {s} {s'} (round k k' ready e) h = round-IsSettled s s' k k' e h
  Step-IsSettled {s} {s'} (place recvline packet broken typed e) h =
      ground (arith, accept_packet-keeps packet s s' e)
  Step-IsSettled {s} {s'} (stop e) h = unfold listener_end in ground arith

  -- Every session that the two threads reach, in whatever order they run and whatever the peer
  -- sends, is in a state that the program uses; and where its thread awaits no packet, that state
  -- is None, ConnectionTuned, Connected or ConnectionClosed.
  pub Reach-IsSettled :
      {packet_count : ℕ} {s : Session}
      → Reach packet_count s
      → IsSettled s.current_state s.waiting_response
  Reach-IsSettled (start s e) = unfold new_session in ground arith
  Reach-IsSettled (next r st) = Step-IsSettled st (Reach-IsSettled r)

  -- In a session that is reached, a round of the channel's thread that finds no packet sends the
  -- protocol header, Open or Close by the rules: it does not read a method through NULL.
  pub Reach-round_without_packet :
      {packet_count : ℕ} {s : Session} (k : ℕ)
      → Reach packet_count s
      → is_ready s ≡ true
      → s.channel_packet ≡ none
      → ordered_packet_decider draws m s.channel_packet s.current_state s.waiting_response k
        ≡ answer
            (if s.current_state == 0
              then m.amqp_header
              else if s.current_state == 3
              then m.open_connection
              else m.close)
            k
  Reach-round_without_packet {s = s} k r ready e =
      let no_wait : s.waiting_response ≡ 0 = ground arith in
      let not_closed : s.current_state ≢ 8 = ground arith in
      rw (e, no_wait)
        (ordered_without_packet draws m s.current_state k (rw no_wait at (Reach-IsSettled r))
          not_closed)

  parse_loop-Reach :
      (fuel : ℕ) (recvline : Bytes) (parsed_n : ℕ) {packet_count : ℕ} (s s' : Session)
      → Reach packet_count s
      → parse_loop fuel recvline parsed_n s ≡ ok s'
      → Reach packet_count s'
  unfolding parse_loop
  parse_loop-Reach zero recvline parsed_n s s' r e = absurd cc
  parse_loop-Reach (suc fuel) recvline parsed_n {packet_count} s s' r e =
      elim (Bool-cases (parsed_n == 0 || leb 2147483648 parsed_n)) [
        | inl more ↦
            let (packet, broken, rest) =
              Outcome.bind-eq-ok (break_packet recvline) _ (rw more at e) in
            elim (Bool-cases (packet.frame_type == type_none)) [
              | inl freed ↦
                  let same = rw freed at rest in
                  let kept : s ≡ s' = ground (arith, same) in subst (Reach packet_count) kept r
              | inr typed ↦
                  let (s₁, accepted, again) =
                    Outcome.bind-eq-ok (accept_packet packet s) _ (rw typed at rest) in
                  let put =
                    next r (place recvline packet broken (λ h. ground (arith, typed)) accepted) in
                  parse_loop-Reach fuel recvline ((packet.size + 7) % 4294967296) s₁ s' put again
            ]
        | inr done ↦
            let same = rw done at e in
            let kept : s ≡ s' = ground (arith, same) in subst (Reach packet_count) kept r
      ]

  -- What the listener makes of a whole message is reached, if the session before is.
  pub listener_round-Reach :
      (fuel : ℕ) (recvline : Bytes) {packet_count : ℕ} (s s' : Session)
      → Reach packet_count s
      → listener_round fuel recvline s ≡ ok s'
      → Reach packet_count s'
  unfolding listener_round
  listener_round-Reach fuel recvline s s' r e = parse_loop-Reach fuel recvline 0 s s' r e
