-- ===== src/Session/Locking.antt =====
-- fuzzer/AMQP.c: the listener and the thread of channel 0, with the mutex and the condition of the
-- channel. One step is what a thread does between two points at which the other may be seen to act.
pub mod Exclusion
pub mod Atomicity
pub mod Waking
pub mod Holders
pub mod Progress
pub mod Phases
use amqpgram.Base.{ℕ, ◌≡◌, ◌≢◌, ◌⊎◌, Bool, true, false, Option, none, some, ◌==◌, Bytes}
use amqpgram.Base.Outcome.{ok}
use amqpgram.Packet.{PacketStruct, type_none, break_packet}
use amqpgram.Connection.Interface.{Messages}
use amqpgram.Session.{
  Session, Decided, new_session, packet_decider, listener_end, state_connection_closed,
}

-- Who holds `channel_mutexes[0]`.
pub data Owner : Type 0 where
  nobody by_channel by_listener : Owner

-- Where `AMQP_channel_thread` stands: at the test of its loop; with the mutex; before
-- `pthread_cond_wait`, with nothing found to do; in
-- `pthread_cond_wait`, with or without a signal; behind `packet_decider`; with the place emptied; at
-- its end. The state is read at the top without the mutex, but no other thread writes it.
pub data ChannelAt : Type 0 where
  top holding idle asleep awake decided emptied finished : ChannelAt

-- Where `listener` stands: at the test of its loop; with a packet for channel 0, before and behind
-- `pthread_mutex_lock`; behind the assignment; behind `pthread_mutex_unlock`; behind the loop; with the
-- channel's thread cancelled; at its end.
pub data ListenerAt : Type 0 where
  receiving : ListenerAt
  found placing : PacketStruct → ListenerAt
  placed signalling leaving cancelled gone : ListenerAt

-- `pthread_cond_signal`
unfoldable pub signalled : ChannelAt → ChannelAt
signalled asleep = awake
signalled top = top
signalled holding = holding
signalled idle = idle
signalled awake = awake
signalled decided = decided
signalled emptied = emptied
signalled finished = finished

-- Whether the inner loop of the channel's thread ends.
abbrev pub has_work : Session → Bool
has_work s = elim s.channel_packet [ none ↦ s.waiting_response == 0 | some packet ↦ true ]

-- The end of the channel's thread where it was cancelled. Inside `pthread_cond_wait` it takes the
-- mutex first, and keeps it.
pub data Cancel : Owner → ChannelAt → Owner → Type 0 where
  at_top : {o : Owner} → Cancel o top o
  at_wait : {o : Owner} → Cancel o idle o
  in_sleep : Cancel nobody asleep by_channel
  in_wake : Cancel nobody awake by_channel

-- A step of the listener that does not touch the other thread.
pub data ListenerMove (s : Session)
    : Owner → ListenerAt → Session → Owner → ListenerAt → Type 0 where
  find :
      {o : Owner} (recvline : Bytes) (packet : PacketStruct)
      → break_packet recvline ≡ ok packet
      → packet.frame_type ≢ type_none
      → packet.channel ≡ 0
      → ListenerMove s o receiving s o (found packet)
  lock_listener :
      {packet : PacketStruct} → ListenerMove s nobody (found packet) s by_listener (placing packet)
  put :
      {o : Owner} {packet : PacketStruct}
      → ListenerMove s o (placing packet) (record s { channel_packet = some packet }) o placed
  unlock_listener : {o : Owner} → ListenerMove s o placed s nobody signalling
  leave : {o : Owner} → ListenerMove s o receiving s o leaving
  stop : {o : Owner} → ListenerMove s o cancelled (listener_end s) o gone

module _ (draws : ℕ → ℕ) (m : Messages) (packet_chaos : ℕ) (socket : Bytes → Option ℕ) where
  -- A step of the channel's thread: what the threads share, the owner and the thread's place, before
  -- and behind it. A thread that waits for the condition may wake with no signal.
  pub data ChannelMove (s : Session)
      : Owner → ChannelAt → Session → Owner → ChannelAt → Type 0 where
    lock_channel :
        s.current_state ≢ state_connection_closed → ChannelMove s nobody top s by_channel holding
    finish :
        {o : Owner} → s.current_state ≡ state_connection_closed → ChannelMove s o top s o finished
    rest : {o : Owner} → has_work s ≡ false → ChannelMove s o holding s o idle
    sleep : {o : Owner} → ChannelMove s o idle s nobody asleep
    wake : {o : Owner} → ChannelMove s o asleep s o awake
    lock_again : ChannelMove s nobody awake s by_channel holding
    decide :
        {o : Owner} (k k' : ℕ) (d : Decided)
        → has_work s ≡ true
        → packet_decider draws m packet_chaos socket s.is_running s.channel_packet s.current_state
            s.waiting_response s.packet_count k
          ≡ ok (d, k')
        → ChannelMove s o holding
            (record s {
              current_state = d.state;
              waiting_response = d.waiting_response;
              packet_count = d.packet_count;
            })
            o
            decided
    empty : {o : Owner} → ChannelMove s o decided (record s { channel_packet = none }) o emptied
    unlock_channel : {o : Owner} → ChannelMove s o emptied s nobody top

  pub data LockStep (s : Session) (o : Owner)
      : ChannelAt → ListenerAt → Session → Owner → ChannelAt → ListenerAt → Type 0 where
    channel_moves :
        {c c' : ChannelAt} {l : ListenerAt} {s' : Session} {o' : Owner}
        → ChannelMove s o c s' o' c'
        → LockStep s o c l s' o' c' l
    listener_moves :
        {c : ChannelAt} {l l' : ListenerAt} {s' : Session} {o' : Owner}
        → ListenerMove s o l s' o' l'
        → LockStep s o c l s' o' c l'
    signal : {c : ChannelAt} → LockStep s o c signalling s o (signalled c) receiving
    cancel : {c : ChannelAt} → LockStep s o c leaving s o (signalled c) cancelled
    die :
        {c : ChannelAt} {o' : Owner} (l : ListenerAt)
        → Cancel o c o'
        → (l ≡ cancelled) ⊎ (l ≡ gone)
        → LockStep s o c l s o' finished l

  -- What the two threads reach from the start of a connection.
  pub data LockReach (count : ℕ) : Session → Owner → ChannelAt → ListenerAt → Type 0 where
    begin : LockReach count (new_session count) nobody top receiving
    after :
        {s s' : Session} {o o' : Owner} {c c' : ChannelAt} {l l' : ListenerAt}
        → LockReach count s o c l
        → LockStep s o c l s' o' c' l'
        → LockReach count s' o' c' l'
