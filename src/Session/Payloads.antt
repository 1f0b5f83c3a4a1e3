-- ===== src/Session/Payloads.antt =====
-- The packet that waits for the channel's thread, in every session that the two threads reach.
use amqpgram.Base.{ℕ, ◌≡◌, ◌≢◌, inl, inr, arith, Option, none, some, Bool-cases, ◌==◌, Bytes}
use amqpgram.Base.Outcome.{ok}
use amqpgram.Base.Random
use amqpgram.Packet.{PacketStruct, type_none}
use amqpgram.Packet.Payloads.{HasPayload, break_packet-HasPayload}
use amqpgram.Connection.Interface.{Messages}
use amqpgram.Session.{
  Session, new_session, packet_decider, channel_round, accept_packet, listener_round, listener_end,
}
use amqpgram.Session.Invariant.{Reach, round, place, stop, start, next}

-- A packet that may wait: none, or one of channel 0 that has a type and, if a METHOD, its payload.
abbrev pub IsWaiting : Option PacketStruct → Type 0
IsWaiting none = Unit
IsWaiting (some packet) = (packet.channel ≡ 0) × (packet.frame_type ≢ type_none) × HasPayload packet

accept_packet-IsWaiting :
    (packet : PacketStruct) (s s' : Session)
    → packet.frame_type ≢ type_none
    → HasPayload packet
    → accept_packet packet s ≡ ok s'
    → IsWaiting s'.channel_packet
unfolding accept_packet
accept_packet-IsWaiting packet s s' typed h e = elim (Bool-cases (packet.channel == 0)) [
  | inl zeroth ↦
      let same = rw zeroth at e in
      let put : s'.channel_packet ≡ some packet = ground (arith, same) in
      rw put (ground arith, typed, h)
  | inr other ↦ let same = rw other at e in ground (arith, same)
]

module _ (draws : ℕ → ℕ) (m : Messages) (packet_chaos : ℕ) (socket : Bytes → Option ℕ) where
  round-takes :
      (s s' : Session) (k k' : ℕ)
      → channel_round draws m packet_chaos socket s k ≡ ok (s', k')
      → s'.channel_packet ≡ none
  unfolding channel_round
  round-takes s s' k k' e =
      let (decided, k₁, run, last) =
        Random.bind-eq-ok
          (packet_decider draws m packet_chaos socket s.is_running s.channel_packet s.current_state
            s.waiting_response s.packet_count)
          _ k e in
      ground (arith, last)

  -- In every session that the two threads reach, whatever bytes the peer sends, a packet that waits
  -- for the channel's thread is of channel 0 and not of type NONE, and a METHOD has its payload, with
  -- as many argument bytes as the length beside them says.
  pub Reach-IsWaiting :
      {packet_count : ℕ} {s : Session}
      → Reach draws m packet_chaos socket packet_count s
      → IsWaiting s.channel_packet
  unfolding new_session listener_round listener_end
  Reach-IsWaiting (start s e) = rw e tt
  Reach-IsWaiting (next {s} {s'} reach (round k k' ready e)) = rw (round-takes s s' k k' e) tt
  Reach-IsWaiting (next {s} {s'} reach (place recvline packet broken typed e)) =
      accept_packet-IsWaiting packet s s' typed (break_packet-HasPayload recvline packet broken) e
  Reach-IsWaiting (next {s} {s'} reach (stop e)) = rw e (Reach-IsWaiting reach)
