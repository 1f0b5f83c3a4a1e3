-- ===== src/Session/Handshake/Program.antt =====
-- A connection with the program's own builders, over the rules of the grammar files.
use amqpgram.Base.Text.{codes}
use amqpgram.Grammar.Table.{HashTable}
use amqpgram.Grammar.Lookup.{Grammar, Environment}
use amqpgram.Connection.Replies.{Says}

module _ (H : HashTable) where
  -- The rules of the protocol header.
  pub record HasHeader (env : Environment H) : Type 0 where
    pub amqp : Says H env (codes "amqp") (codes "protocol-header")
    pub header :
        Says H env (codes "protocol-header") (codes "literal-AMQP protocol-id protocol-version")
    pub literal : Says H env (codes "literal-AMQP") (codes "%d65.77.81.80")
    pub id : Says H env (codes "protocol-id") (codes "%d0")
    pub version : Says H env (codes "protocol-version") (codes "%d0.9.1")
