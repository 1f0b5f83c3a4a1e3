-- ===== src/Connection/Replies/Login.antt =====
-- The login of StartOk: its user is a quoted text.
use amqpgram.Base.{ℕ, suc, ◌≡◌, refl, ◌∙◌, List, [], ◌∷◌, Bytes}
use amqpgram.Base.Outcome.{ok, fault}
use amqpgram.Base.Text.{codes}
use amqpgram.CString.{strtok, token_end, strtol}
use amqpgram.Utils.Writing.{be_bytes}
use amqpgram.Terminals.{count_occurrences, decode_terminal_symbol, decode_quoted}
use amqpgram.Grammar.{GrammarEntry}
use amqpgram.Grammar.Entries.{string_value, bytes_value}
use amqpgram.Grammar.Table.{HashTable}
use amqpgram.Grammar.Lookup.{Grammar, Environment}
use amqpgram.Generator.{parse_element}
use amqpgram.Generator.Tokens.{tokens_of, element}
use amqpgram.Generator.Rules.{decode_rule-string, elements_plain-step, elements_plain-fault}
use amqpgram.Connection.{call, decode}
use amqpgram.Connection.Replacing.{Answers, found}
use amqpgram.Connection.Replies.{Says, decoder, single}
use amqpgram.Connection.Replies.Payloads.{fuel}

module _ (H : HashTable) where
  -- The rules of the login and of the client's properties.
  pub record HasLogin (env : Environment H) : Type 0 where
    pub client_payload : Says H env (codes "client-properties-payload") (codes "%x00.56")
    pub message : Says H env (codes "message") (codes "[authzid] UTF8NUL authcid UTF8NUL passwd")
    pub null : Says H env (codes "UTF8NUL") (codes "%x00")

abbrev pub named : List (Bytes × GrammarEntry)
named =
    (codes "method-properties", string_value (codes "m11-method-properties"))
    ∷ (codes "method-id", string_value (codes "m11-method-id"))
    ∷ []

abbrev pub described : List (Bytes × GrammarEntry)
described =
    (codes "passwd", string_value (codes "\"password\""))
    ∷ (codes "authcid", string_value (codes "\"username\""))
    ∷ (codes "client-properties-length", bytes_value (be_bytes 4 2))
    ∷ (codes "client-properties-payload", bytes_value (0 ∷ 86 ∷ []))
    ∷ named

module _ (draws : ℕ → ℕ) (H : HashTable) (env : Environment H) (h : HasLogin H env) where
  pub client_run :
      (g : Grammar H) (a : Answers draws H env g named) (n k : ℕ)
      → decode draws H 0 (fuel n) (codes "client-properties-payload") (g ∷ env) k
        ≡ ok (0 ∷ 86 ∷ [], k)
  unfolding decode tokens_of parse_element strtok token_end count_occurrences decode_terminal_symbol
      strtol
  client_run g a n k =
      single draws H env a (codes "client-properties-payload") (codes "%x00.56") (0 ∷ 86 ∷ [])
        (suc (suc (suc n))) k k
        (found draws H env a (codes "client-properties-payload") h.client_payload) refl refl

  user_faults :
      (g : Grammar H) (a : Answers draws H env g described) (n k : ℕ)
      → decoder draws H env a (suc n) (codes "authcid") k ≡ fault
  unfolding parse_element strtok token_end count_occurrences decode_quoted
  user_faults g a n k =
      decode_rule-string draws H (call draws) n (codes "authcid") g env k (codes "\"username\"")
        (found draws H env a (codes "authcid") refl)
      ∙ elements_plain-fault (element draws H (call draws) n g env) 0 (codes "\"username\"") [] [] k
          refl

  pub message_faults :
      (g : Grammar H) (a : Answers draws H env g described) (n k : ℕ)
      → decode draws H 0 (fuel n) (codes "message") (g ∷ env) k ≡ fault
  unfolding decode tokens_of parse_element strtok token_end count_occurrences decode_terminal_symbol
      strtol
  message_faults g a n k =
      let each = element draws H (call draws) (suc (suc (suc n))) g env in
      decode_rule-string draws H (call draws) (suc (suc (suc n))) (codes "message") g env k
        (codes "[authzid] UTF8NUL authcid UTF8NUL passwd")
        (found draws H env a (codes "message") h.message)
      ∙ elements_plain-step each 4 (codes "[authzid]") (codes "UTF8NUL authcid UTF8NUL passwd") []
          [] k k refl
      ∙ elements_plain-step each 3 (codes "UTF8NUL") (codes "authcid UTF8NUL passwd") [] (0 ∷ []) k
          k
          (single draws H env a (codes "UTF8NUL") (codes "%x00") (0 ∷ []) (suc (suc n)) k k
            (found draws H env a (codes "UTF8NUL") h.null) refl refl)
      ∙ elements_plain-fault each 2 (codes "authcid") (codes "UTF8NUL passwd") (0 ∷ []) k
          (user_faults g a (suc (suc n)) k)
