-- ===== src/Tests/Protocols.antt =====
-- The protocol of a connection at concrete inputs.
use amqpgram.Base.{arith}
use amqpgram.Session.{new_session}
use amqpgram.Session.Protocol.{unconnected, is_unconnected}
use amqpgram.Session.Protocol.Sessions.{Advances, channel_round-refines}
use amqpgram.Tests.Sessions.{draws, socket, messages, greeted, greets}

channel_round-refines_example : Advances socket messages unconnected (new_session 0) 1 greeted
unfolding new_session
channel_round-refines_example =
    channel_round-refines draws messages 0 socket (omega arith) unconnected (new_session 0) greeted
      0 1 (is_unconnected 0) greets
