-- ===== src/Session/Locking/Holders.antt =====
-- Who holds the mutex is inside it, or is the channel's thread that was cancelled there.
use amqpgram.Base.{ℕ, ◌≡◌, ◌⊎◌, inl, inr, Bytes, Option}
use amqpgram.Connection.Interface.{Messages}
use amqpgram.Session.{Session}
use amqpgram.Session.Locking.{
  Owner, nobody, by_channel, by_listener, ChannelAt, top, holding, idle, asleep, awake, decided,
  emptied, finished, ListenerAt, receiving, found, placing, placed, signalling, leaving, cancelled,
  gone, signalled, ChannelMove, ListenerMove, Cancel, LockReach, lock_channel, finish, rest, sleep,
  wake, lock_again, decide, empty, unlock_channel, at_top, at_wait, in_sleep, in_wake, find,
  lock_listener, put, unlock_listener, leave, stop, channel_moves, listener_moves, signal, cancel,
  die, begin, after,
}

-- The listener has left its loop and cancelled the channel's thread.
abbrev pub HasCancelled : ListenerAt → Type 0
HasCancelled cancelled = Unit
HasCancelled gone = Unit
HasCancelled _ = ⊥

-- Where the listener may have the mutex.
abbrev pub ListenerHas : ListenerAt → Type 0
ListenerHas (placing packet) = Unit
ListenerHas placed = Unit
ListenerHas _ = ⊥

-- Where the channel's thread may have it; at its end only if it was cancelled.
abbrev pub ChannelHas : ChannelAt → ListenerAt → Type 0
ChannelHas holding l = Unit
ChannelHas idle l = Unit
ChannelHas decided l = Unit
ChannelHas emptied l = Unit
ChannelHas finished l = HasCancelled l
ChannelHas _ l = ⊥

abbrev pub HasMutex : Owner → ChannelAt → ListenerAt → Type 0
HasMutex nobody c l = Unit
HasMutex by_channel c l = ChannelHas c l
HasMutex by_listener c l = ListenerHas l

HasMutex-channel :
    (o : Owner) (c c' : ChannelAt) (l : ListenerAt)
    → (ChannelHas c l → ChannelHas c' l)
    → HasMutex o c l
    → HasMutex o c' l
HasMutex-channel nobody c c' l f h = tt
HasMutex-channel by_channel c c' l f h = f h
HasMutex-channel by_listener c c' l f h = h

ChannelHas-listener :
    (c : ChannelAt) (l l' : ListenerAt)
    → (HasCancelled l → HasCancelled l')
    → ChannelHas c l
    → ChannelHas c l'
ChannelHas-listener top l l' f h = h
ChannelHas-listener holding l l' f h = tt
ChannelHas-listener idle l l' f h = tt
ChannelHas-listener asleep l l' f h = h
ChannelHas-listener awake l l' f h = h
ChannelHas-listener decided l l' f h = tt
ChannelHas-listener emptied l l' f h = tt
ChannelHas-listener finished l l' f h = f h

HasMutex-listener :
    (o : Owner) (c : ChannelAt) (l l' : ListenerAt)
    → (HasCancelled l → HasCancelled l')
    → (ListenerHas l → ListenerHas l')
    → HasMutex o c l
    → HasMutex o c l'
HasMutex-listener nobody c l l' f f' h = tt
HasMutex-listener by_channel c l l' f f' h = ChannelHas-listener c l l' f h
HasMutex-listener by_listener c l l' f f' h = f' h

ChannelHas-signalled :
    (c : ChannelAt) (l : ListenerAt) → ChannelHas c l → ChannelHas (signalled c) l
unfolding signalled
ChannelHas-signalled top l h = h
ChannelHas-signalled holding l h = tt
ChannelHas-signalled idle l h = tt
ChannelHas-signalled asleep l h = h
ChannelHas-signalled awake l h = h
ChannelHas-signalled decided l h = tt
ChannelHas-signalled emptied l h = tt
ChannelHas-signalled finished l h = h

cancelled_keeps :
    {o o' : Owner} {c : ChannelAt} (l : ListenerAt)
    → Cancel o c o'
    → HasCancelled l
    → HasMutex o c l
    → HasMutex o' finished l
cancelled_keeps l (at_top {o}) over h = HasMutex-channel o top finished l (λ no. absurd no) h
cancelled_keeps l (at_wait {o}) over h = HasMutex-channel o idle finished l (λ _. over) h
cancelled_keeps l in_sleep over h = over
cancelled_keeps l in_wake over h = over

has_cancelled : (l : ListenerAt) → (l ≡ cancelled) ⊎ (l ≡ gone) → HasCancelled l
has_cancelled l (inl e) = rw e tt
has_cancelled l (inr e) = rw e tt

module _ (draws : ℕ → ℕ) (m : Messages) (packet_chaos : ℕ) (socket : Bytes → Option ℕ) where
  channel-HasMutex :
      {s s' : Session} {o o' : Owner} {c c' : ChannelAt} (l : ListenerAt)
      → ChannelMove draws m packet_chaos socket s o c s' o' c'
      → HasMutex o c l
      → HasMutex o' c' l
  channel-HasMutex l (lock_channel opened) h = tt
  channel-HasMutex l (finish {o} closed) h = HasMutex-channel o top finished l (λ no. absurd no) h
  channel-HasMutex l (rest {o} nothing) h = HasMutex-channel o holding idle l (λ _. tt) h
  channel-HasMutex l sleep h = tt
  channel-HasMutex l (wake {o}) h = HasMutex-channel o asleep awake l (λ no. no) h
  channel-HasMutex l lock_again h = tt
  channel-HasMutex l (decide {o} k k' d work run) h =
      HasMutex-channel o holding decided l (λ _. tt) h
  channel-HasMutex l (empty {o}) h = HasMutex-channel o decided emptied l (λ _. tt) h
  channel-HasMutex l unlock_channel h = tt

  listener-HasMutex :
      {s s' : Session} {o o' : Owner} (c : ChannelAt) {l l' : ListenerAt}
      → ListenerMove s o l s' o' l'
      → HasMutex o c l
      → HasMutex o' c l'
  listener-HasMutex c (find {o} recvline packet broken typed zeroth) h =
      HasMutex-listener o c receiving (found packet) (λ no. no) (λ no. no) h
  listener-HasMutex c lock_listener h = tt
  listener-HasMutex c (put {o} {packet}) h =
      HasMutex-listener o c (placing packet) placed (λ no. no) (λ _. tt) h
  listener-HasMutex c unlock_listener h = tt
  listener-HasMutex c (leave {o}) h =
      HasMutex-listener o c receiving leaving (λ no. no) (λ no. no) h
  listener-HasMutex c (stop {o}) h = HasMutex-listener o c cancelled gone (λ _. tt) (λ no. no) h

  signalled-HasMutex :
      (o : Owner) (c : ChannelAt) (l l' : ListenerAt)
      → (HasCancelled l → HasCancelled l')
      → (ListenerHas l → ListenerHas l')
      → HasMutex o c l
      → HasMutex o (signalled c) l'
  signalled-HasMutex o c l l' f f' h =
      HasMutex-channel o c (signalled c) l' (ChannelHas-signalled c l')
        (HasMutex-listener o c l l' f f' h)

  pub LockReach-HasMutex :
      {count : ℕ} {s : Session} {o : Owner} {c : ChannelAt} {l : ListenerAt}
      → LockReach draws m packet_chaos socket count s o c l
      → HasMutex o c l
  LockReach-HasMutex begin = tt
  LockReach-HasMutex (after {l} r (channel_moves move)) =
      channel-HasMutex l move (LockReach-HasMutex r)
  LockReach-HasMutex (after {c} r (listener_moves move)) =
      listener-HasMutex c move (LockReach-HasMutex r)
  LockReach-HasMutex (after {o} r (signal {c})) =
      signalled-HasMutex o c signalling receiving (λ no. no) (λ no. no) (LockReach-HasMutex r)
  LockReach-HasMutex (after {o} r (cancel {c})) =
      signalled-HasMutex o c leaving cancelled (λ no. absurd no) (λ no. no) (LockReach-HasMutex r)
  LockReach-HasMutex (after r (die l ends over)) =
      cancelled_keeps l ends (has_cancelled l over) (LockReach-HasMutex r)
