-- ===== src/Connection/Replies/Starting.antt =====
-- StartOk and TuneOk, the answers that write outside an object.
use amqpgram.Base.{ℕ, ◌≡◌, ◌∙◌, [], ◌∷◌, Bytes}
use amqpgram.Base.Outcome.{fault}
use amqpgram.Base.Random.{Rand, bind-run, bind-fault}
use amqpgram.Base.Text.{codes}
use amqpgram.Grammar.Table.{HashTable}
use amqpgram.Grammar.Lookup.{Environment, create_grammar}
use amqpgram.GrammarInterface.{overwrite_rule_set_length}
use amqpgram.Connection.{decode, reply_with, set_rule, set_length, connection_start_ok}
use amqpgram.Connection.Replacing.{create-Answers, set_rule-Answers, set_length-Answers}
use amqpgram.Connection.Replies.Payloads.{fuel}
use amqpgram.Connection.Replies.Login.{HasLogin, client_run, message_faults}

pub reply_faults :
    (state response : ℕ) (builder : Rand Bytes) (k : ℕ)
    → builder k ≡ fault
    → reply_with state response builder k ≡ fault
unfolding reply_with
reply_faults state response builder k faults = bind-fault builder _ k faults

module _ (draws : ℕ → ℕ) (H : HashTable) (env : Environment H) (h : HasLogin H env) where
  pub connection_start_ok_faults : (n k : ℕ) → connection_start_ok draws H 0 (fuel n) env k ≡ fault
  unfolding connection_start_ok set_length overwrite_rule_set_length
  connection_start_ok_faults n k =
      let f = fuel n in
      let set = set_rule-Answers draws H env f in
      let (g₁, run₁, a₁) =
        set _ [] (create-Answers draws H env) (codes "method-id") (codes "m11-method-id") k in
      let (g₂, run₂, a₂) =
        set g₁ _ a₁ (codes "method-properties") (codes "m11-method-properties") k in
      let (g₃, run₃, a₃) =
        set_length-Answers draws H env f g₂ _ a₂ (codes "client-properties-payload")
          (codes "client-properties-length") (0 ∷ 86 ∷ []) k k
          (client_run draws H env h g₂ a₂ n k) in
      let (g₄, run₄, a₄) = set g₃ _ a₃ (codes "authcid") (codes "\"username\"") k in
      let (g₅, run₅, a₅) = set g₄ _ a₄ (codes "passwd") (codes "\"password\"") k in
      let measured =
        bind-fault (decode draws H 0 f (codes "message") (g₅ ∷ env)) _ k
          (message_faults draws H env h g₅ a₅ n k) in
      reply_faults 1 1 _ k (
        bind-run (set_rule draws H 0 f env _ _ (create_grammar H)) _ k run₁
        ∙ bind-run (set_rule draws H 0 f env _ _ g₁) _ k run₂
        ∙ bind-run (set_length draws H 0 f env _ _ g₂) _ k run₃
        ∙ bind-run (set_rule draws H 0 f env _ _ g₃) _ k run₄
        ∙ bind-run (set_rule draws H 0 f env _ _ g₄) _ k run₅
        ∙ bind-fault (set_length draws H 0 f env (codes "message") (codes "message-length") g₅) _ k
            measured)
