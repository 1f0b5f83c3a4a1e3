-- ===== src/Tests/Locks.antt =====
-- The first steps of the two threads under the mutex of channel 0.
use amqpgram.Base.{◌≡◌, refl, arith, true, none, [], ◌∷◌, some}
use amqpgram.Base.Outcome.{ok}
use amqpgram.Base.Text.{codes}
use amqpgram.Packet.{send_packet}
use amqpgram.Connection.{reply_with}
use amqpgram.Connection.Deciding.{answer}
use amqpgram.Connection.Builders.{program_messages}
use amqpgram.Session.{
  Decided, new_session, choose_packet, ordered_packet_decider, packet_decider, deliver,
}
use amqpgram.Session.Listening.{method_packet}
use amqpgram.Session.Locking.{
  rest, nobody, by_channel, by_listener, holding, found, asleep, decided, receiving, placed,
  LockReach, lock_channel, sleep, decide, empty, unlock_channel, find, lock_listener, put,
  channel_moves, listener_moves, begin, after,
}
use amqpgram.Session.Locking.Exclusion.{ChannelOwns, ListenerOwns, LockReach-owns}
use amqpgram.Session.Locking.Progress.{Gets, listener_waits, LockReach-Gets}
use amqpgram.Session.Locking.Waking.{Wakes, LockReach-Wakes}
use amqpgram.Tests.Sessions.{draws, messages, socket, greeted, answered, open_ok}
use amqpgram.Tests.Waiting.{breaks}

abbrev header_sent : Decided
header_sent = record {
  state = 1;
  waiting_response = 1;
  packet_count = 1;
  handed = some (codes "AMQP");
}

decides : packet_decider draws messages 0 socket true none 0 0 0 0 ≡ ok (header_sent, 1)
unfolding packet_decider choose_packet ordered_packet_decider answer program_messages reply_with
    deliver send_packet
decides = refl

has_decided : LockReach draws messages 0 socket 0 greeted by_channel decided receiving
unfolding new_session
has_decided =
    after (after begin (channel_moves (lock_channel (λ e. omega arith))))
      (channel_moves (decide 0 1 header_sent refl decides))

goes_to_sleep : LockReach draws messages 0 socket 0 greeted nobody asleep receiving
goes_to_sleep =
    after
      (after
        (after (after (after has_decided (channel_moves empty)) (channel_moves unlock_channel))
          (channel_moves (lock_channel (λ e. omega arith))))
        (channel_moves (rest refl)))
      (channel_moves sleep)

is_placed : LockReach draws messages 0 socket 0 answered by_listener asleep placed
is_placed =
    after
      (after
        (after goes_to_sleep (
          listener_moves
            (find open_ok (method_packet 0 10 41 (0 ∷ [])) breaks (λ e. omega arith) refl)))
        (listener_moves lock_listener))
      (listener_moves put)

LockReach-owns_example : ChannelOwns asleep by_listener × ListenerOwns placed by_listener
LockReach-owns_example = LockReach-owns draws messages 0 socket is_placed

LockReach-Wakes_example : Wakes draws messages 0 socket answered by_listener placed
LockReach-Wakes_example =
    LockReach-Wakes draws messages 0 socket (method_packet 0 10 41 (0 ∷ [])) is_placed refl

waits_for_mutex :
    LockReach draws messages 0 socket 0
      (new_session 0)
      by_channel
      holding
      (found (method_packet 0 10 41 (0 ∷ [])))
unfolding new_session
waits_for_mutex =
    after (after begin (channel_moves (lock_channel (λ e. omega arith)))) (
      listener_moves (find open_ok (method_packet 0 10 41 (0 ∷ [])) breaks (λ e. omega arith) refl))

LockReach-Gets_example :
    Gets draws messages 0 socket
      (new_session 0)
      by_channel
      holding
      (found (method_packet 0 10 41 (0 ∷ [])))
      by_listener
unfolding new_session
LockReach-Gets_example =
    LockReach-Gets draws messages 0 socket by_listener waits_for_mutex
      (listener_waits (method_packet 0 10 41 (0 ∷ []))) (λ work. (0, 1, header_sent, decides))
