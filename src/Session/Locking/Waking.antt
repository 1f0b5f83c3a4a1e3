-- ===== src/Session/Locking/Waking.antt =====
-- No signal is lost: a packet that is put in its place wakes the channel's thread.
use amqpgram.Base.{
  ℕ, ◌≡◌, ◌⊎◌, inl, inr, refl, sym, ◌∙◌, true, false, ◌==◌, none, some, Bytes, Option,
}
use amqpgram.Packet.{PacketStruct}
use amqpgram.Connection.Interface.{Messages}
use amqpgram.Session.{Session, listener_end}
use amqpgram.Session.Locking.{
  Owner, nobody, by_channel, by_listener, ChannelAt, top, holding, idle, asleep, awake, decided,
  emptied, finished, ListenerAt, receiving, found, placing, placed, signalling, leaving, cancelled,
  gone, signalled, ChannelMove, ListenerMove, LockStep, LockReach, lock_channel, finish, rest,
  sleep, wake, lock_again, decide, empty, unlock_channel, find, lock_listener, put, unlock_listener,
  leave, stop, channel_moves, listener_moves, signal, cancel, die, begin, after,
}
use amqpgram.Session.Locking.Exclusion.{ChannelOwns, ListenerOwns, LockReach-owns}

abbrev IsAboutToSignal : ListenerAt → Type 0
IsAboutToSignal placed = Unit
IsAboutToSignal signalling = Unit
IsAboutToSignal _ = ⊥

-- If the channel's thread is asleep and a packet waits, the listener is about to signal; before it
-- sleeps no packet waits.
abbrev IsHeard : ChannelAt → Option PacketStruct → ListenerAt → Type 0
IsHeard asleep (some packet) l = IsAboutToSignal l
IsHeard asleep none l = Unit
IsHeard top w l = Unit
IsHeard holding w l = Unit
IsHeard idle w l = w ≡ none
IsHeard awake w l = Unit
IsHeard decided w l = Unit
IsHeard emptied w l = Unit
IsHeard finished w l = Unit

IsHeard-change :
    (c : ChannelAt) (w w' : Option PacketStruct) (l l' : ListenerAt)
    → ((packet : PacketStruct) → w' ≡ some packet → IsHeard asleep w l → IsAboutToSignal l')
    → (c ≡ idle → w ≡ none → w' ≡ none)
    → IsHeard c w l
    → IsHeard c w' l'
IsHeard-change top w w' l l' f f' h = tt
IsHeard-change holding w w' l l' f f' h = tt
IsHeard-change idle w w' l l' f f' h = f' refl h
IsHeard-change asleep w none l l' f f' h = tt
IsHeard-change asleep w (some packet) l l' f f' h = f packet refl h
IsHeard-change awake w w' l l' f f' h = tt
IsHeard-change decided w w' l l' f f' h = tt
IsHeard-change emptied w w' l l' f f' h = tt
IsHeard-change finished w w' l l' f f' h = tt

signalled-IsHeard :
    (c : ChannelAt) (w : Option PacketStruct) (l l' : ListenerAt)
    → IsHeard c w l
    → IsHeard (signalled c) w l'
unfolding signalled
signalled-IsHeard top w l l' h = tt
signalled-IsHeard holding w l l' h = tt
signalled-IsHeard idle w l l' h = h
signalled-IsHeard asleep w l l' h = tt
signalled-IsHeard awake w l l' h = tt
signalled-IsHeard decided w l l' h = tt
signalled-IsHeard emptied w l l' h = tt
signalled-IsHeard finished w l l' h = tt

nothing-IsHeard :
    (w : Option PacketStruct) (waiting : ℕ) (l : ListenerAt)
    → (elim w [ none ↦ waiting == 0 | some packet ↦ true ]) ≡ false
    → IsHeard idle w l
nothing-IsHeard none waiting l nothing = refl
nothing-IsHeard (some packet) waiting l nothing = cc

asleep-IsHeard : (w : Option PacketStruct) (l : ListenerAt) → w ≡ none → IsHeard asleep w l
asleep-IsHeard none l e = tt
asleep-IsHeard (some packet) l e = cc

-- With no packet that waits unheard before it, a listener that is not about to signal may go on.
unheard :
    (w : Option PacketStruct) (l l' : ListenerAt)
    → (IsAboutToSignal l → IsAboutToSignal l')
    → (packet : PacketStruct) → w ≡ some packet
    → IsHeard asleep w l
    → IsAboutToSignal l'
unheard none l l' f packet e h = cc
unheard (some w) l l' f packet e h = f h

-- Where the listener puts a packet, the channel's thread is not before its sleep.
outside : (c : ChannelAt) (o : Owner) → c ≡ idle → ChannelOwns c o → o ≡ by_listener → ⊥
outside idle o e hc hl = let both : by_channel ≡ by_listener = sym hc ∙ hl in cc
outside top o e hc hl = cc
outside holding o e hc hl = cc
outside asleep o e hc hl = cc
outside awake o e hc hl = cc
outside decided o e hc hl = cc
outside emptied o e hc hl = cc
outside finished o e hc hl = cc

module _ (draws : ℕ → ℕ) (m : Messages) (packet_chaos : ℕ) (socket : Bytes → Option ℕ) where
  channel-IsHeard :
      {s s' : Session} {o o' : Owner} {c c' : ChannelAt} (l : ListenerAt)
      → ChannelMove draws m packet_chaos socket s o c s' o' c'
      → IsHeard c s.channel_packet l
      → IsHeard c' s'.channel_packet l
  channel-IsHeard l (lock_channel opened) h = tt
  channel-IsHeard l (finish closed) h = tt
  channel-IsHeard {s} l (rest nothing) h =
      nothing-IsHeard s.channel_packet s.waiting_response l nothing
  channel-IsHeard {s} l sleep h = asleep-IsHeard s.channel_packet l h
  channel-IsHeard l wake h = tt
  channel-IsHeard l lock_again h = tt
  channel-IsHeard l (decide k k' d work run) h = tt
  channel-IsHeard l empty h = tt
  channel-IsHeard l unlock_channel h = tt

  listener-IsHeard :
      {s s' : Session} {o o' : Owner} (c : ChannelAt) {l l' : ListenerAt}
      → ListenerMove s o l s' o' l'
      → ChannelOwns c o
      → ListenerOwns l o
      → IsHeard c s.channel_packet l
      → IsHeard c s'.channel_packet l'
  listener-IsHeard {s} c (find recvline packet broken typed zeroth) hc hl h =
      IsHeard-change c s.channel_packet s.channel_packet receiving (found packet)
        (unheard s.channel_packet receiving (found packet) (λ no. no)) (λ e none_there. none_there)
        h
  listener-IsHeard {s} c (lock_listener {packet}) hc hl h =
      IsHeard-change c s.channel_packet s.channel_packet (found packet) (placing packet)
        (unheard s.channel_packet (found packet) (placing packet) (λ no. no))
        (λ e none_there. none_there) h
  listener-IsHeard {s} c (put {o} {packet}) hc hl h =
      IsHeard-change c s.channel_packet (some packet) (placing packet) placed (λ p e before. tt)
        (λ e none_there. absurd (outside c o e hc hl)) h
  listener-IsHeard {s} c unlock_listener hc hl h =
      IsHeard-change c s.channel_packet s.channel_packet placed signalling (λ p e before. tt)
        (λ e none_there. none_there) h
  listener-IsHeard {s} c leave hc hl h =
      IsHeard-change c s.channel_packet s.channel_packet receiving leaving
        (unheard s.channel_packet receiving leaving (λ no. no)) (λ e none_there. none_there) h
  listener-IsHeard {s} c stop hc hl h =
      unfold listener_end in
      IsHeard-change c s.channel_packet s.channel_packet cancelled gone
        (unheard s.channel_packet cancelled gone (λ no. no)) (λ e none_there. none_there) h

  LockReach-IsHeard :
      {count : ℕ} {s : Session} {o : Owner} {c : ChannelAt} {l : ListenerAt}
      → LockReach draws m packet_chaos socket count s o c l
      → IsHeard c s.channel_packet l
  LockReach-IsHeard begin = tt
  LockReach-IsHeard (after {l} r (channel_moves move)) =
      channel-IsHeard l move (LockReach-IsHeard r)
  LockReach-IsHeard (after {c} r (listener_moves move)) =
      let (hc, hl) = LockReach-owns draws m packet_chaos socket r in
      listener-IsHeard c move hc hl (LockReach-IsHeard r)
  LockReach-IsHeard (after {s} r (signal {c})) =
      signalled-IsHeard c s.channel_packet signalling receiving (LockReach-IsHeard r)
  LockReach-IsHeard (after {s} r (cancel {c})) =
      signalled-IsHeard c s.channel_packet leaving cancelled (LockReach-IsHeard r)
  LockReach-IsHeard (after r (die l ends over)) = tt

  -- What wakes the channel's thread: the listener's next step, or the one behind it, the unlocking.
  abbrev pub Wakes : Session → Owner → ListenerAt → Type 0
  Wakes s o l =
      LockStep draws m packet_chaos socket s o asleep l s o awake receiving
      ⊎ (LockStep draws m packet_chaos socket s o asleep l s nobody asleep signalling
          × LockStep draws m packet_chaos socket s nobody asleep signalling s nobody awake
              receiving)

  about_to_wake : (s : Session) (o : Owner) (l : ListenerAt) → IsAboutToSignal l → Wakes s o l
  unfolding signalled
  about_to_wake s o placed h = inr (listener_moves unlock_listener, signal)
  about_to_wake s o signalling h = inl signal
  about_to_wake s o receiving h = absurd h
  about_to_wake s o (found _) h = absurd h
  about_to_wake s o (placing _) h = absurd h
  about_to_wake s o leaving h = absurd h
  about_to_wake s o cancelled h = absurd h
  about_to_wake s o gone h = absurd h

  -- In whatever order the two threads step, where the channel's thread sleeps and a packet waits for
  -- it, the listener wakes it by its next step, or by the one behind it: no signal is lost.
  pub LockReach-Wakes :
      {count : ℕ} {s : Session} {o : Owner} {l : ListenerAt} (packet : PacketStruct)
      → LockReach draws m packet_chaos socket count s o asleep l
      → s.channel_packet ≡ some packet
      → Wakes s o l
  LockReach-Wakes {s} {o} {l} packet r e =
      about_to_wake s o l (let heard = LockReach-IsHeard r in rw e at heard)
