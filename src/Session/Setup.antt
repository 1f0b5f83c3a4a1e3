-- ===== src/Session/Setup.antt =====
-- fuzzer/AMQP.c: the set-up of the protocol's grammar and environment.
use amqpgram.Base.{List, Option, none, some, [], Bytes}
use amqpgram.Base.Outcome.{Outcome, ok, ◌>>=◌}
use amqpgram.Grammar.Table.{HashTable}
use amqpgram.Grammar.Lookup.{Grammar, Environment, new_environment}
use amqpgram.Grammar.Releasing.{FreedPart, free_environment}
use amqpgram.Grammar.Parser.{grammar_init}

-- The static variables `protocol_grammar` and `protocol_env`.
pub record Protocol (H : HashTable) : Type 0 where
  pub protocol_grammar : Option (Grammar H)
  pub protocol_env : Environment H

abbrev pub no_protocol : (H : HashTable) → Protocol H
no_protocol H = record { protocol_grammar = none; protocol_env = [] }

-- The result is `protocol_env`. The texts are those of abnf/grammar-spec and abnf/grammar-abnf.
unfoldable pub setup_protocol_env :
    (H : HashTable) → Bytes → Bytes → Protocol H → Outcome (Protocol H)
setup_protocol_env H spec abnf p = elim p.protocol_grammar [
  | some grammar ↦ ok p
  | none ↦ grammar_init H spec abnf >>= λ grammar.
      ok (record { protocol_grammar = some grammar; protocol_env = new_environment H grammar [] })
]

-- What is freed; `protocol_grammar` and `protocol_env` keep their values.
unfoldable pub cleanup_protocol_env : (H : HashTable) → Protocol H → Outcome (List FreedPart)
cleanup_protocol_env H p = free_environment H p.protocol_env
