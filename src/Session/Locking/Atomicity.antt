-- ===== src/Session/Locking/Atomicity.antt =====
-- Each round of the channel's thread, and each packet of the listener, is as one step to the other
-- thread: the steps under the mutex refine the steps of `Session.Invariant`.
use amqpgram.Base.{ℕ, ◌≡◌, ◌≢◌, refl, arith, true, none, some, Bytes, Option}
use amqpgram.Base.Outcome.{ok}
use amqpgram.Base.Random.{bind-run}
use amqpgram.Packet.{PacketStruct, type_none, break_packet}
use amqpgram.Connection.Interface.{Messages}
use amqpgram.Session.{
  Session, Decided, new_session, is_ready, packet_decider, channel_round, accept_packet,
  listener_end,
}
use amqpgram.Session.Invariant.{Reach, round, place, stop as stop_step, start, next}
use amqpgram.Session.Locking.{
  Owner, by_listener, ChannelAt, top, holding, idle, asleep, awake, decided, emptied, finished,
  ListenerAt, found, placing, signalled, Cancel, at_top, at_wait, in_sleep, in_wake, ChannelMove,
  ListenerMove, LockReach, lock_channel, finish, rest, sleep, wake, lock_again, decide, empty,
  unlock_channel, find, lock_listener, put, unlock_listener, leave, stop, channel_moves,
  listener_moves, signal, cancel, die, begin, after,
}
use amqpgram.Session.Locking.Exclusion.{ChannelOwns, ListenerOwns, LockReach-owns}

-- What the step relation of whole rounds takes for the session: the place of a packet that is
-- decided upon counts as empty.
abbrev pub seen : ChannelAt → Session → Session
seen decided s = record s { channel_packet = none }
seen _ s = s

-- In its loop the channel's thread has found the connection not closed.
abbrev IsOpen : ChannelAt → Session → Type 0
IsOpen holding s = s.current_state ≢ 8
IsOpen idle s = s.current_state ≢ 8
IsOpen asleep s = s.current_state ≢ 8
IsOpen awake s = s.current_state ≢ 8
IsOpen _ s = Unit

abbrev IsFromPeer : PacketStruct → Type 0
IsFromPeer packet =
    (recvline : Bytes) × (break_packet recvline ≡ ok packet)
    × (packet.frame_type ≢ type_none)
    × (packet.channel ≡ 0)

-- The packet that the listener has in hand.
abbrev InHand : ListenerAt → Type 0
InHand (found packet) = IsFromPeer packet
InHand (placing packet) = IsFromPeer packet
InHand _ = Unit

seen-signalled : (c : ChannelAt) (s : Session) → seen (signalled c) s ≡ seen c s
unfolding signalled
seen-signalled top s = refl
seen-signalled holding s = refl
seen-signalled idle s = refl
seen-signalled asleep s = refl
seen-signalled awake s = refl
seen-signalled decided s = refl
seen-signalled emptied s = refl
seen-signalled finished s = refl

IsOpen-signalled : (c : ChannelAt) (s : Session) → IsOpen c s → IsOpen (signalled c) s
unfolding signalled
IsOpen-signalled top s h = tt
IsOpen-signalled holding s h = h
IsOpen-signalled idle s h = h
IsOpen-signalled asleep s h = h
IsOpen-signalled awake s h = h
IsOpen-signalled decided s h = tt
IsOpen-signalled emptied s h = tt
IsOpen-signalled finished s h = tt

-- While the listener has the mutex, no packet is decided upon.
seen_outside :
    (c : ChannelAt) (s : Session) (o : Owner) → ChannelOwns c o → o ≡ by_listener → seen c s ≡ s
seen_outside top s o h e = refl
seen_outside holding s o h e = refl
seen_outside idle s o h e = refl
seen_outside asleep s o h e = refl
seen_outside awake s o h e = refl
seen_outside decided s o h e = absurd (let both = rw e at h in cc)
seen_outside emptied s o h e = refl
seen_outside finished s o h e = refl

IsOpen-same :
    (c : ChannelAt) (s s' : Session) → s'.current_state ≡ s.current_state → IsOpen c s → IsOpen c s'
IsOpen-same top s s' e h = tt
IsOpen-same holding s s' e h = rw e h
IsOpen-same idle s s' e h = rw e h
IsOpen-same asleep s s' e h = rw e h
IsOpen-same awake s s' e h = rw e h
IsOpen-same decided s s' e h = tt
IsOpen-same emptied s s' e h = tt
IsOpen-same finished s s' e h = tt

seen-listener_end :
    (c : ChannelAt) (s : Session) → seen c (listener_end s) ≡ listener_end (seen c s)
unfolding listener_end
seen-listener_end top s = refl
seen-listener_end holding s = refl
seen-listener_end idle s = refl
seen-listener_end asleep s = refl
seen-listener_end awake s = refl
seen-listener_end decided s = refl
seen-listener_end emptied s = refl
seen-listener_end finished s = refl

seen-cancelled : (s : Session) {o o' : Owner} {c : ChannelAt} → Cancel o c o' → seen c s ≡ s
seen-cancelled s at_top = refl
seen-cancelled s at_wait = refl
seen-cancelled s in_sleep = refl
seen-cancelled s in_wake = refl

module _ (draws : ℕ → ℕ) (m : Messages) (packet_chaos : ℕ) (socket : Bytes → Option ℕ)
    (count : ℕ) where
  abbrev Reached : Session → Type 0
  Reached s = Reach draws m packet_chaos socket count s

  pub decided_round :
      (s : Session) (k k' : ℕ) (d : Decided)
      → packet_decider draws m packet_chaos socket s.is_running s.channel_packet s.current_state
          s.waiting_response s.packet_count k
        ≡ ok (d, k')
      → channel_round draws m packet_chaos socket s k
        ≡ ok (
          (record s {
            current_state = d.state;
            waiting_response = d.waiting_response;
            packet_count = d.packet_count;
            channel_packet = none;
          }),
          k',
        )
  unfolding channel_round
  decided_round s k k' d e =
      bind-run
        (packet_decider draws m packet_chaos socket s.is_running s.channel_packet s.current_state
          s.waiting_response s.packet_count)
        _ k e

  channel_refines :
      {s s' : Session} {o o' : Owner} {c c' : ChannelAt}
      → ChannelMove draws m packet_chaos socket s o c s' o' c'
      → Reached (seen c s)
      → IsOpen c s
      → Reached (seen c' s') × IsOpen c' s'
  channel_refines (lock_channel opened) r h = (r, opened)
  channel_refines (finish closed) r h = (r, tt)
  channel_refines (rest nothing) r h = (r, h)
  channel_refines sleep r h = (r, h)
  channel_refines wake r h = (r, h)
  channel_refines lock_again r h = (r, h)
  channel_refines {s} (decide k k' d work run) r h =
      let ready : is_ready s ≡ true = ground (arith, work) in
      (next r (round k k' ready (decided_round s k k' d run)), tt)
  channel_refines empty r h = (r, tt)
  channel_refines unlock_channel r h = (r, tt)

  listener_refines :
      {s s' : Session} {o o' : Owner} (c : ChannelAt) {l l' : ListenerAt}
      → ListenerMove s o l s' o' l'
      → ChannelOwns c o
      → ListenerOwns l o
      → Reached (seen c s)
      → IsOpen c s
      → InHand l
      → Reached (seen c s') × IsOpen c s' × InHand l'
  listener_refines c (find recvline packet broken typed zeroth) hc hl r h i =
      (r, h, (recvline, broken, typed, zeroth))
  listener_refines c lock_listener hc hl r h i = (r, h, i)
  listener_refines {s} c (put {o} {packet}) hc hl r h (recvline, broken, typed, zeroth) =
      let s' = record s { channel_packet = some packet } in
      let accepted : accept_packet packet s ≡ ok s' = unfold accept_packet in ground arith in
      (
        rw (seen_outside c s' o hc hl) (
            next (rw (seen_outside c s o hc hl) at r)
              (place recvline packet broken typed accepted)),
        IsOpen-same c s s' refl h,
        tt,
      )
  listener_refines c unlock_listener hc hl r h i = (r, h, tt)
  listener_refines c leave hc hl r h i = (r, h, tt)
  listener_refines {s} c stop hc hl r h i = (
    rw (seen-listener_end c s) (next r (stop_step refl)),
    IsOpen-same c s (listener_end s) (unfold listener_end in refl) h,
    tt,
  )

  LockReach-refines :
      {s : Session} {o : Owner} {c : ChannelAt} {l : ListenerAt}
      → LockReach draws m packet_chaos socket count s o c l
      → Reached (seen c s) × IsOpen c s × InHand l
  LockReach-refines begin = (start (new_session count) refl, tt, tt)
  LockReach-refines (after r (channel_moves move)) =
      let (reached, opened, hand) = LockReach-refines r in
      let (reached', opened') = channel_refines move reached opened in (reached', opened', hand)
  LockReach-refines (after {c} r (listener_moves move)) =
      let (reached, opened, hand) = LockReach-refines r in
      let (hc, hl) = LockReach-owns draws m packet_chaos socket r in
      listener_refines c move hc hl reached opened hand
  LockReach-refines (after {s} r (signal {c})) =
      let (reached, opened, hand) = LockReach-refines r in
      (rw (seen-signalled c s) reached, IsOpen-signalled c s opened, tt)
  LockReach-refines (after {s} r (cancel {c})) =
      let (reached, opened, hand) = LockReach-refines r in
      (rw (seen-signalled c s) reached, IsOpen-signalled c s opened, tt)
  LockReach-refines (after {s} r (die l ends over)) =
      let (reached, opened, hand) = LockReach-refines r in
      (rw (← seen-cancelled s ends) reached, tt, hand)

  -- Every session that the two threads reach under the mutex, in whatever order they step, is one that
  -- whole rounds of the channel's thread and whole packets of the listener reach; between the decision
  -- and the emptying of the packet's place, it is with the place empty.
  pub LockReach-Reach :
      {s : Session} {o : Owner} {c : ChannelAt} {l : ListenerAt}
      → LockReach draws m packet_chaos socket count s o c l
      → Reach draws m packet_chaos socket count (seen c s)
  LockReach-Reach r = (LockReach-refines r).0
