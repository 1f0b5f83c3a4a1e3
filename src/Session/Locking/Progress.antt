-- ===== src/Session/Locking/Progress.antt =====
-- Neither thread waits for the mutex in vain.
use amqpgram.Base.{ℕ, ◌≡◌, ◌≢◌, inl, inr, refl, Bool-cases, true, Bytes, Option, some}
use amqpgram.Base.Outcome.{ok}
use amqpgram.Packet.{PacketStruct}
use amqpgram.Connection.Interface.{Messages}
use amqpgram.Session.{Session, Decided, packet_decider, state_connection_closed}
use amqpgram.Session.Locking.{
  Owner, nobody, by_channel, by_listener, has_work, ChannelAt, top, holding, idle, asleep, awake,
  decided, emptied, finished, ListenerAt, receiving, found, placing, placed, signalling, leaving,
  cancelled, gone, LockStep, LockReach, lock_channel, rest, sleep, lock_again, decide, empty,
  unlock_channel, lock_listener, put, unlock_listener, channel_moves, listener_moves,
}
use amqpgram.Session.Locking.Holders.{HasMutex, ChannelHas, ListenerHas, LockReach-HasMutex}

-- A thread that is about to lock the mutex.
pub data WaitsFor (s : Session) : ChannelAt → ListenerAt → Owner → Type 0 where
  listener_waits : {c : ChannelAt} (packet : PacketStruct) → WaitsFor s c (found packet) by_listener
  channel_waits :
      {l : ListenerAt} → s.current_state ≢ state_connection_closed → WaitsFor s top l by_channel
  channel_waits_again : {l : ListenerAt} → WaitsFor s awake l by_channel

module _ (draws : ℕ → ℕ) (m : Messages) (packet_chaos : ℕ) (socket : Bytes → Option ℕ) where
  -- Steps, the last one first.
  pub data Run (s : Session) (o : Owner) (c : ChannelAt) (l : ListenerAt)
      : Session → Owner → ChannelAt → ListenerAt → Type 0 where
    stay : Run s o c l s o c l
    go :
        {s' s'' : Session} {o' o'' : Owner} {c' c'' : ChannelAt} {l' l'' : ListenerAt}
        → Run s o c l s' o' c' l'
        → LockStep draws m packet_chaos socket s' o' c' l' s'' o'' c'' l''
        → Run s o c l s'' o'' c'' l''

  -- Where the channel's thread decides upon what is there, `packet_decider` returns.
  abbrev pub Decides : Session → Type 0
  Decides s =
      has_work s ≡ true
      → (k : ℕ) × (k' : ℕ) × (d : Decided) × (packet_decider draws m packet_chaos socket
            s.is_running s.channel_packet s.current_state s.waiting_response s.packet_count k
          ≡ ok (d, k'))

  -- Steps behind which this thread holds the mutex.
  abbrev pub Gets : Session → Owner → ChannelAt → ListenerAt → Owner → Type 0
  Gets s o c l owner =
      (s' : Session) × (c' : ChannelAt) × (l' : ListenerAt) × Run s o c l s' owner c' l'

  abbrev listener_locks :
      {s s' : Session} {o : Owner} {c c' : ChannelAt} (packet : PacketStruct)
      → Run s o c (found packet) s' nobody c' (found packet)
      → Gets s o c (found packet) by_listener
  listener_locks {s' = s'} {c' = c'} packet run =
      (s', c', placing packet, go run (listener_moves lock_listener))

  channel_leaves :
      {s s' : Session} {o : Owner} {c : ChannelAt} (packet : PacketStruct)
      → Run s o c (found packet) s' by_channel decided (found packet)
      → Gets s o c (found packet) by_listener
  channel_leaves packet run =
      listener_locks packet (go (go run (channel_moves empty)) (channel_moves unlock_channel))

  -- From wherever the channel's thread has the mutex, the listener comes to it.
  listener_gets :
      (s : Session) (c : ChannelAt) (packet : PacketStruct)
      → ChannelHas c (found packet)
      → Decides s
      → Gets s by_channel c (found packet) by_listener
  listener_gets s holding packet h decides = elim (Bool-cases (has_work s)) [
    | inl work ↦
        let (k, k', d, run) = decides work in
        channel_leaves packet (go stay (channel_moves (decide k k' d work run)))
    | inr nothing ↦
        listener_locks packet (go (go stay (channel_moves (rest nothing))) (channel_moves sleep))
  ]
  listener_gets s idle packet h decides = listener_locks packet (go stay (channel_moves sleep))
  listener_gets s decided packet h decides = channel_leaves packet stay
  listener_gets s emptied packet h decides =
      listener_locks packet (go stay (channel_moves unlock_channel))
  listener_gets s top packet h decides = absurd h
  listener_gets s asleep packet h decides = absurd h
  listener_gets s awake packet h decides = absurd h
  listener_gets s finished packet h decides = absurd h

  -- From wherever the listener has the mutex, it leaves it, and the session's state stays.
  listener_leaves :
      (s : Session) (c : ChannelAt) (l : ListenerAt)
      → ListenerHas l
      → (s' : Session) × (l' : ListenerAt) × Run s by_listener c l s' nobody c l'
        × (s'.current_state ≡ s.current_state)
  listener_leaves s c (placing packet) h = (
    record s { channel_packet = some packet },
    signalling,
    go (go stay (listener_moves put)) (listener_moves unlock_listener),
    refl,
  )
  listener_leaves s c placed h = (s, signalling, go stay (listener_moves unlock_listener), refl)
  listener_leaves s c receiving h = absurd h
  listener_leaves s c (found packet) h = absurd h
  listener_leaves s c signalling h = absurd h
  listener_leaves s c leaving h = absurd h
  listener_leaves s c cancelled h = absurd h
  listener_leaves s c gone h = absurd h

  channel_locks :
      {s s' : Session} {o : Owner} {c : ChannelAt} {l l' : ListenerAt}
      → Run s o c l s' nobody c l'
      → s'.current_state ≡ s.current_state
      → WaitsFor s c l by_channel
      → Gets s o c l by_channel
  channel_locks {s' = s'} {l' = l'} run same (channel_waits opened) =
      (s', holding, l', go run (channel_moves (lock_channel (rw same opened))))
  channel_locks {s' = s'} {l' = l'} run same channel_waits_again =
      (s', holding, l', go run (channel_moves lock_again))

  holder_gives :
      (s : Session) (o : Owner) (c : ChannelAt) (l : ListenerAt) (owner : Owner)
      → HasMutex o c l
      → WaitsFor s c l owner
      → Decides s
      → Gets s o c l owner
  holder_gives s nobody c l owner h (listener_waits packet) decides = listener_locks packet stay
  holder_gives s nobody c l owner h (channel_waits opened) decides =
      channel_locks stay refl (channel_waits opened)
  holder_gives s nobody c l owner h channel_waits_again decides =
      channel_locks stay refl channel_waits_again
  holder_gives s by_channel c l owner h (listener_waits packet) decides =
      listener_gets s c packet h decides
  holder_gives s by_channel c l owner h (channel_waits opened) decides = absurd h
  holder_gives s by_channel c l owner h channel_waits_again decides = absurd h
  holder_gives s by_listener c l owner h (listener_waits packet) decides = absurd h
  holder_gives s by_listener c l owner h (channel_waits opened) decides =
      let (s', l', run, same) = listener_leaves s top l h in
      channel_locks run same (channel_waits opened)
  holder_gives s by_listener c l owner h channel_waits_again decides =
      let (s', l', run, same) = listener_leaves s awake l h in
      channel_locks run same channel_waits_again

  -- In whatever order the two threads have stepped, where one of them is about to lock the mutex, and
  -- `packet_decider` returns for what the channel's thread has to decide upon, steps of the threads
  -- lead from there to where the thread that waits holds the mutex.
  pub LockReach-Gets :
      {count : ℕ} {s : Session} {o : Owner} {c : ChannelAt} {l : ListenerAt} (owner : Owner)
      → LockReach draws m packet_chaos socket count s o c l
      → WaitsFor s c l owner
      → Decides s
      → Gets s o c l owner
  LockReach-Gets {s} {o} {c} {l} owner r waits decides =
      holder_gives s o c l owner (LockReach-HasMutex draws m packet_chaos socket r) waits decides
