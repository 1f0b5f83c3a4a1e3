-- ===== src/Session/Protocol/Sessions.antt =====
-- Every session that the two threads reach runs through the phases of the protocol.
use amqpgram.Base.{
  ℕ, ◌+◌, ◌≡◌, ◌≢◌, ◌≤◌, ◌⊎◌, inl, inr, refl, arith, Option, none, some, Bool, true, false,
  Bool-cases, Option-cases, ◌==◌, Bytes, length, sym, ◌∙◌,
}
use amqpgram.Base.Outcome.{ok}
use amqpgram.Base.Random.{bind-eq-ok}
use amqpgram.Packet.{PacketStruct, send_packet}
use amqpgram.Connection.Interface.{Decision, Messages}
use amqpgram.Session.{
  Session, Decided, new_session, choose_packet, deliver, packet_decider, channel_round,
  accept_packet, listener_end, ordered_packet_decider,
}
use amqpgram.Session.Invariant.{accept_packet-keeps, Reach, round, place, stop, start, next}
use amqpgram.Session.Protocol.{
  Phase, unconnected, closed, Output, Move, Represents, is_unconnected, is_closed, input_of,
}
use amqpgram.Session.Protocol.Refinement.{Carries, ordered-Follows}

module _ (socket : Bytes → Option ℕ) where
  -- Why a packet was not delivered: the listener has ended, or the socket did not take all of it.
  abbrev pub Lost : Bool → Option Bytes → Type 0
  Lost is_running none = ⊥
  Lost is_running (some packet) = (is_running ≡ false) ⊎ (socket packet ≢ some (length packet))

  delivered :
      (is_running : Bool) (count : ℕ) (d : Decision) (packet : Option Bytes)
      → let r = deliver socket is_running count d packet in
        ((r.state ≡ d.next_state) × (r.waiting_response ≡ d.response_expected))
        ⊎ ((r.state ≡ 8) × (r.waiting_response ≡ 0) × Lost is_running packet)
  unfolding deliver send_packet
  delivered is_running count d none = inl (refl, refl)
  delivered false count d (some packet) = inr (refl, refl, inl refl)
  delivered true count d (some packet) = elim (Option-cases (socket packet)) [
    | inl refused ↦ rw refused (inr (refl, refl, inr (λ e. cc)))
    | inr (taken, took) ↦ elim (Bool-cases (taken == length packet)) [
      | inl whole ↦ rw (took, whole) (inl (refl, refl))
      | inr part ↦ rw (took, part) (inr (refl, refl, inr (λ e. ground (arith, e))))
    ]
  ]

-- A round of the channel's thread that is a move of the protocol, or loses the packet and closes.
abbrev pub Advances : (Bytes → Option ℕ) → Messages → Phase → Session → ℕ → Session → Type 0
Advances socket m p s k s' =
    (output : Option Output) × (p' : Phase) × (d : Decision) × (k' : ℕ) × Move p
      (input_of s.channel_packet) output p'
    × Carries m s.channel_packet output k d k'
    × (Represents p' s'.current_state s'.waiting_response
        ⊎ (Represents closed s'.current_state s'.waiting_response
            × Lost socket s.is_running d.packet))

module _ (draws : ℕ → ℕ) (m : Messages) (packet_chaos : ℕ) (socket : Bytes → Option ℕ)
    (ordered : packet_chaos ≤ 1) where
  pub chosen_by_rules :
      (received : Option PacketStruct) (state waiting k : ℕ)
      → choose_packet draws m packet_chaos received state waiting k
        ≡ ordered_packet_decider draws m received state waiting (k + 1)
  unfolding choose_packet
  chosen_by_rules received state waiting k = ground arith

  arrives :
      (p' : Phase) (d : Decision) (decided : Decided) (s s' : Session)
      → Represents p' d.next_state d.response_expected
      → decided ≡ deliver socket s.is_running s.packet_count d d.packet
      → s'.current_state ≡ decided.state
      → s'.waiting_response ≡ decided.waiting_response
      → Represents p' s'.current_state s'.waiting_response
        ⊎ (Represents closed s'.current_state s'.waiting_response
            × Lost socket s.is_running d.packet)
  arrives p' d decided s s' r e state flag =
      rw (state, flag, e)
        (elim (delivered socket s.is_running s.packet_count d d.packet) [
          | inl (same_state, same_flag) ↦ inl (rw (same_state, same_flag) r)
          | inr (ended, unset, lost) ↦ inr (rw (ended, unset) is_closed, lost)
        ])

  -- With PACKET_CHAOS at most 1, a round of the channel's thread in a session that represents a phase
  -- is a move of the protocol: the input is what waits for the thread, the output is what its builder
  -- built, and the session then represents the phase that follows; or the packet was not delivered,
  -- since the listener has ended or the socket did not take all of it, and the session is closed.
  pub channel_round-refines :
      (p : Phase) (s s' : Session) (k k' : ℕ)
      → Represents p s.current_state s.waiting_response
      → channel_round draws m packet_chaos socket s k ≡ ok (s', k')
      → Advances socket m p s (k + 1) s'
  unfolding channel_round packet_decider
  channel_round-refines p s s' k k' r e =
      let (decided, k₁, run, last) =
        bind-eq-ok
          (packet_decider draws m packet_chaos socket s.is_running s.channel_packet s.current_state
            s.waiting_response s.packet_count)
          _ k e in
      let (d, k₂, chosen, handed) =
        bind-eq-ok
          (choose_packet draws m packet_chaos s.channel_packet s.current_state s.waiting_response) _
          k run in
      let (output, p', made, r', carries) =
        ordered-Follows m draws p s.channel_packet s.current_state s.waiting_response (k + 1) d k₂ r
          (sym (chosen_by_rules s.channel_packet s.current_state s.waiting_response k) ∙ chosen) in
      (
        output,
        p',
        d,
        k₂,
        made,
        carries,
        arrives p' d decided s s' r' (ground (arith, handed)) (ground (arith, last))
            (ground (arith, last)),
      )

  place-keeps :
      (p : Phase) (packet : PacketStruct) (s s' : Session)
      → accept_packet packet s ≡ ok s'
      → Represents p s.current_state s.waiting_response
      → Represents p s'.current_state s'.waiting_response
  place-keeps p packet s s' e r =
      let (state, flag) = accept_packet-keeps packet s s' e in rw (state, flag) r

  -- With PACKET_CHAOS at most 1, every session that the two threads reach represents a phase.
  pub Reach-refines :
      {packet_count : ℕ} {s : Session}
      → Reach draws m packet_chaos socket packet_count s
      → (p : Phase) × Represents p s.current_state s.waiting_response
  unfolding new_session listener_end
  Reach-refines (start s e) = (unconnected, rw e (is_unconnected 0))
  Reach-refines (next {s} {s'} reach (round k k' ready e)) =
      let (p, r) = Reach-refines reach in
      let (output, p', d, k'', step, carries, result) = channel_round-refines p s s' k k' r e in
      elim result [ inl arrived ↦ (p', arrived) | inr (ended, lost) ↦ (closed, ended) ]
  Reach-refines (next {s} {s'} reach (place recvline packet broken typed e)) =
      let (p, r) = Reach-refines reach in (p, place-keeps p packet s s' e r)
  Reach-refines (next {s} {s'} reach (stop e)) = let (p, r) = Reach-refines reach in (p, rw e r)
