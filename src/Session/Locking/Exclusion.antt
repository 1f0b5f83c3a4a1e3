-- ===== src/Session/Locking/Exclusion.antt =====
-- The two threads are never inside the mutex at the same time.
use amqpgram.Base.{ℕ, ◌≡◌, ◌≢◌, refl, Option, Bytes}
use amqpgram.Connection.Interface.{Messages}
use amqpgram.Session.{Session}
use amqpgram.Session.Locking.{
  Owner, nobody, by_channel, by_listener, ChannelAt, top, holding, idle, asleep, awake, decided,
  emptied, finished, ListenerAt, receiving, found, placing, placed, signalling, leaving, cancelled,
  gone, signalled, ChannelMove, ListenerMove, Cancel, LockReach, lock_channel, finish, rest, sleep,
  wake, lock_again, decide, empty, unlock_channel, at_top, at_wait, in_sleep, in_wake, find,
  lock_listener, put, unlock_listener, leave, stop, channel_moves, listener_moves, signal, cancel,
  die, begin, after,
}

-- Who holds the mutex where the channel's thread stands.
abbrev pub ChannelOwns : ChannelAt → Owner → Type 0
ChannelOwns holding o = o ≡ by_channel
ChannelOwns idle o = o ≡ by_channel
ChannelOwns decided o = o ≡ by_channel
ChannelOwns emptied o = o ≡ by_channel
ChannelOwns _ o = Unit

abbrev pub ListenerOwns : ListenerAt → Owner → Type 0
ListenerOwns (placing packet) o = o ≡ by_listener
ListenerOwns placed o = o ≡ by_listener
ListenerOwns _ o = Unit

-- Where one thread takes or leaves the mutex, the other is outside.
channel_outside :
    (c : ChannelAt) (o o' : Owner) → o ≢ by_channel → ChannelOwns c o → ChannelOwns c o'
channel_outside top o o' n h = tt
channel_outside holding o o' n h = absurd (n h)
channel_outside idle o o' n h = absurd (n h)
channel_outside asleep o o' n h = tt
channel_outside awake o o' n h = tt
channel_outside decided o o' n h = absurd (n h)
channel_outside emptied o o' n h = absurd (n h)
channel_outside finished o o' n h = tt

listener_outside :
    (l : ListenerAt) (o o' : Owner) → o ≢ by_listener → ListenerOwns l o → ListenerOwns l o'
listener_outside receiving o o' n h = tt
listener_outside (found packet) o o' n h = tt
listener_outside (placing packet) o o' n h = absurd (n h)
listener_outside placed o o' n h = absurd (n h)
listener_outside signalling o o' n h = tt
listener_outside leaving o o' n h = tt
listener_outside cancelled o o' n h = tt
listener_outside gone o o' n h = tt

signalled-owns : (c : ChannelAt) (o : Owner) → ChannelOwns c o → ChannelOwns (signalled c) o
unfolding signalled
signalled-owns top o h = tt
signalled-owns holding o h = h
signalled-owns idle o h = h
signalled-owns asleep o h = tt
signalled-owns awake o h = tt
signalled-owns decided o h = h
signalled-owns emptied o h = h
signalled-owns finished o h = tt

module _ (draws : ℕ → ℕ) (m : Messages) (packet_chaos : ℕ) (socket : Bytes → Option ℕ) where
  channel_keeps :
      {s s' : Session} {o o' : Owner} {c c' : ChannelAt} (l : ListenerAt)
      → ChannelMove draws m packet_chaos socket s o c s' o' c'
      → ChannelOwns c o
      → ListenerOwns l o
      → ChannelOwns c' o' × ListenerOwns l o'
  channel_keeps l (lock_channel opened) hc hl =
      (refl, listener_outside l nobody by_channel (λ e. cc) hl)
  channel_keeps l (finish closed) hc hl = (tt, hl)
  channel_keeps l (rest nothing) hc hl = (hc, hl)
  channel_keeps l (sleep {o}) hc hl = (tt, listener_outside l o nobody (λ e. cc) hl)
  channel_keeps l wake hc hl = (tt, hl)
  channel_keeps l lock_again hc hl = (refl, listener_outside l nobody by_channel (λ e. cc) hl)
  channel_keeps l (decide k k' d work run) hc hl = (hc, hl)
  channel_keeps l empty hc hl = (hc, hl)
  channel_keeps l (unlock_channel {o}) hc hl = (tt, listener_outside l o nobody (λ e. cc) hl)

  listener_keeps :
      {s s' : Session} {o o' : Owner} (c : ChannelAt) {l l' : ListenerAt}
      → ListenerMove s o l s' o' l'
      → ChannelOwns c o
      → ListenerOwns l o
      → ChannelOwns c o' × ListenerOwns l' o'
  listener_keeps c (find recvline packet broken typed zeroth) hc hl = (hc, tt)
  listener_keeps c lock_listener hc hl = (channel_outside c nobody by_listener (λ e. cc) hc, refl)
  listener_keeps c put hc hl = (hc, hl)
  listener_keeps c (unlock_listener {o}) hc hl = (channel_outside c o nobody (λ e. cc) hc, tt)
  listener_keeps c leave hc hl = (hc, tt)
  listener_keeps c stop hc hl = (hc, tt)

  Cancel-keeps :
      {o o' : Owner} {c : ChannelAt} (l : ListenerAt)
      → Cancel o c o'
      → ListenerOwns l o
      → ListenerOwns l o'
  Cancel-keeps l at_top hl = hl
  Cancel-keeps l at_wait hl = hl
  Cancel-keeps l in_sleep hl = listener_outside l nobody by_channel (λ e. cc) hl
  Cancel-keeps l in_wake hl = listener_outside l nobody by_channel (λ e. cc) hl

  -- In whatever order the two threads step, the channel's thread holds the mutex wherever it decides
  -- upon the packet in the place or empties it, and the listener wherever it puts a packet there; so
  -- they are never there at the same time.
  pub LockReach-owns :
      {count : ℕ} {s : Session} {o : Owner} {c : ChannelAt} {l : ListenerAt}
      → LockReach draws m packet_chaos socket count s o c l
      → ChannelOwns c o × ListenerOwns l o
  LockReach-owns begin = (tt, tt)
  LockReach-owns (after {l} r (channel_moves move)) =
      let (hc, hl) = LockReach-owns r in channel_keeps l move hc hl
  LockReach-owns (after {c} r (listener_moves move)) =
      let (hc, hl) = LockReach-owns r in listener_keeps c move hc hl
  LockReach-owns (after r (signal {c})) =
      let (hc, hl) = LockReach-owns r in (signalled-owns c _ hc, tt)
  LockReach-owns (after r (cancel {c})) =
      let (hc, hl) = LockReach-owns r in (signalled-owns c _ hc, tt)
  LockReach-owns (after r (die l ends gone_or)) =
      let (hc, hl) = LockReach-owns r in (tt, Cancel-keeps l ends hl)
