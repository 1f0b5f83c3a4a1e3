-- ===== src/Session/Locking/Phases.antt =====
-- What the channel's thread decides under the mutex, as a move of the protocol.
use amqpgram.Session.{Session}
