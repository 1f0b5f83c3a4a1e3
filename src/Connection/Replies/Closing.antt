-- ===== src/Connection/Replies/Closing.antt =====
-- The runs of the builders of Open, Close and CloseOk.
use amqpgram.Base.{ℕ, refl, ◌∙◌, [], ◌∷◌}
use amqpgram.Base.Random.{bind-run}
use amqpgram.Base.Text.{codes}
use amqpgram.Grammar.Table.{HashTable}
use amqpgram.Grammar.Lookup.{Environment, create_grammar}
use amqpgram.Connection.{set_rule, connection_open, connection_close, connection_close_ok}
use amqpgram.Connection.Replacing.{create-Answers, set_rule-Answers}
use amqpgram.Connection.Replies.{Gives, replied, framing_kept, finished}
use amqpgram.Connection.Replies.Payloads.{
  fuel, HasMethods, open_payload, close_payload, close_ok_payload,
}

module _ (draws : ℕ → ℕ) (H : HashTable) (env : Environment H) (h : HasMethods H env) where
  open_run :
      (n k : ℕ)
      → Gives
          (connection_open draws H 0 (fuel n) env)
          4
          1
          (0 ∷ 10 ∷ 0 ∷ 40 ∷ 1 ∷ 47 ∷ 0 ∷ 0 ∷ [])
          k
          k
  unfolding connection_open
  open_run n k =
      let set = set_rule-Answers draws H env (fuel n) in
      let (g₁, run₁, a₁) =
        set _ [] (create-Answers draws H env) (codes "method-id") (codes "m40-method-id") k in
      let (g₂, run₂, a₂) =
        set g₁ _ a₁ (codes "method-properties") (codes "m40-method-properties") k in
      let (g₃, run₃, a₃) = set g₂ _ a₂ (codes "virtual-host") (codes "%x01.2F") k in
      replied 4 1 _ (0 ∷ 10 ∷ 0 ∷ 40 ∷ 1 ∷ 47 ∷ 0 ∷ 0 ∷ []) k k (
        bind-run (set_rule draws H 0 (fuel n) env _ _ (create_grammar H)) _ k run₁
        ∙ bind-run (set_rule draws H 0 (fuel n) env _ _ g₁) _ k run₂
        ∙ bind-run (set_rule draws H 0 (fuel n) env _ _ g₂) _ k run₃
        ∙ finished draws H env a₃ _ n k k
            (framing_kept draws H env a₃ h.payload.framing (λ a. refl) (λ a. refl) (λ a. refl)
              (λ a. refl) (λ a. refl))
            (open_payload draws H env h g₃ a₃ n k))

  close_run :
      (n k : ℕ)
      → Gives
          (connection_close draws H 0 (fuel n) env)
          7
          1
          (0 ∷ 10 ∷ 0 ∷ 50 ∷ 0 ∷ 200 ∷ 3 ∷ 50 ∷ 48 ∷ 48 ∷ 0 ∷ 0 ∷ 0 ∷ 0 ∷ [])
          k
          k
  unfolding connection_close
  close_run n k =
      let set = set_rule-Answers draws H env (fuel n) in
      let (g₁, run₁, a₁) =
        set _ [] (create-Answers draws H env) (codes "method-id") (codes "m50-method-id") k in
      let (g₂, run₂, a₂) =
        set g₁ _ a₁ (codes "method-properties") (codes "m50-method-properties") k in
      let (g₃, run₃, a₃) = set g₂ _ a₂ (codes "reply-code") (codes "%x00.C8") k in
      let (g₄, run₄, a₄) = set g₃ _ a₃ (codes "reply-text") (codes "%x03.32.30.30") k in
      let (g₅, run₅, a₅) = set g₄ _ a₄ (codes "m50-class-id-val") (codes "%x00.00") k in
      let (g₆, run₆, a₆) = set g₅ _ a₅ (codes "m50-method-id-val") (codes "%x00.00") k in
      replied 7 1 _ (0 ∷ 10 ∷ 0 ∷ 50 ∷ 0 ∷ 200 ∷ 3 ∷ 50 ∷ 48 ∷ 48 ∷ 0 ∷ 0 ∷ 0 ∷ 0 ∷ []) k k (
        bind-run (set_rule draws H 0 (fuel n) env _ _ (create_grammar H)) _ k run₁
        ∙ bind-run (set_rule draws H 0 (fuel n) env _ _ g₁) _ k run₂
        ∙ bind-run (set_rule draws H 0 (fuel n) env _ _ g₂) _ k run₃
        ∙ bind-run (set_rule draws H 0 (fuel n) env _ _ g₃) _ k run₄
        ∙ bind-run (set_rule draws H 0 (fuel n) env _ _ g₄) _ k run₅
        ∙ bind-run (set_rule draws H 0 (fuel n) env _ _ g₅) _ k run₆
        ∙ finished draws H env a₆ _ n k k
            (framing_kept draws H env a₆ h.payload.framing (λ a. refl) (λ a. refl) (λ a. refl)
              (λ a. refl) (λ a. refl))
            (close_payload draws H env h g₆ a₆ n k))

  close_ok_run :
      (n k : ℕ) → Gives (connection_close_ok draws H 0 (fuel n) env) 7 1 (0 ∷ 10 ∷ 0 ∷ 51 ∷ []) k k
  unfolding connection_close_ok
  close_ok_run n k =
      let set = set_rule-Answers draws H env (fuel n) in
      let (g₁, run₁, a₁) =
        set _ [] (create-Answers draws H env) (codes "method-id") (codes "m51-method-id") k in
      let (g₂, run₂, a₂) =
        set g₁ _ a₁ (codes "method-properties") (codes "m51-method-properties") k in
      replied 7 1 _ (0 ∷ 10 ∷ 0 ∷ 51 ∷ []) k k (
        bind-run (set_rule draws H 0 (fuel n) env _ _ (create_grammar H)) _ k run₁
        ∙ bind-run (set_rule draws H 0 (fuel n) env _ _ g₁) _ k run₂
        ∙ finished draws H env a₂ _ n k k
            (framing_kept draws H env a₂ h.payload.framing (λ a. refl) (λ a. refl) (λ a. refl)
              (λ a. refl) (λ a. refl))
            (close_ok_payload draws H env h g₂ a₂ n k))

  -- With RULE_CHAOS 0, where the environment has the rules of the grammar files, Open, Close and CloseOk are
  -- the frames on channel 0 of the methods 40, 50 and 51 of the class 10: Open with the virtual host "/",
  -- Close with the code 200 and the text "200", CloseOk with no arguments. No call of `rand()` is made, and a
  -- depth of four rules is enough.
  pub builders_lem :
      (n k : ℕ)
      → Gives
          (connection_open draws H 0 (fuel n) env)
          4
          1
          (0 ∷ 10 ∷ 0 ∷ 40 ∷ 1 ∷ b'/' ∷ 0 ∷ 0 ∷ [])
          k
          k
        × Gives
            (connection_close draws H 0 (fuel n) env)
            7
            1
            (0 ∷ 10 ∷ 0 ∷ 50 ∷ 0 ∷ 200 ∷ 3 ∷ b'2' ∷ b'0' ∷ b'0' ∷ 0 ∷ 0 ∷ 0 ∷ 0 ∷ [])
            k
            k
        × Gives (connection_close_ok draws H 0 (fuel n) env) 7 1 (0 ∷ 10 ∷ 0 ∷ 51 ∷ []) k k
  builders_lem n k = (open_run n k, close_run n k, close_ok_run n k)
