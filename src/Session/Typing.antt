-- ===== src/Session/Typing.antt =====
-- The environments that `fuzz_with_strategy` (fuzzer/main.c) sets up before it fuzzes: that of the
-- protocol, and that of the class Connection before it.
use amqpgram.Base.{ℕ, ◌≡◌, subst, arith, refl, [], ◌∷◌, some, Bytes}
use amqpgram.Base.Outcome.{ok, bind-eq-ok}
use amqpgram.Base.Text.{codes}
use amqpgram.Grammar.{
  GenFunction, shortstring_generator, longstring_generator, new_function_grammar_entry,
  new_grammar_entry_t,
}
use amqpgram.Grammar.Entries.{function_value, of_function}
use amqpgram.Grammar.Table.{HashTable}
use amqpgram.Grammar.Lookup.{Grammar, Environment, new_environment}
use amqpgram.Grammar.Lookup.Laws.{AllWellFormed}
use amqpgram.Grammar.Lookup.Typing.{AreTyped}
use amqpgram.Grammar.Parser.{generate_grammar, grammar_init}
use amqpgram.Grammar.Parser.Typing.{generate_grammar-AllWellFormed, grammar_init-AllWellFormed}
use amqpgram.GrammarInterface.{overwrite_rule_with_chaos}
use amqpgram.GrammarInterface.Typing.{overwrite_rule_with_chaos-AllWellFormed}
use amqpgram.Connection.{setup_connection_env}
use amqpgram.Session.Setup.{Protocol, no_protocol, setup_protocol_env}

module _ (H : HashTable) where
  setup_protocol_env-AreTyped :
      (spec abnf : Bytes) (p : Protocol H)
      → setup_protocol_env H spec abnf (no_protocol H) ≡ ok p
      → AreTyped H p.protocol_env
  unfolding setup_protocol_env new_environment
  setup_protocol_env-AreTyped spec abnf p e =
      let (g, parsed, last) = bind-eq-ok (grammar_init H spec abnf) _ e in
      let made : g ∷ [] ≡ p.protocol_env = ground (arith, last) in
      subst (AreTyped H) made (grammar_init-AllWellFormed H spec abnf g parsed, tt)

  function_rule :
      (rule_chaos : ℕ) (g : Grammar H) (env : Environment H) (rule : Bytes) (f : GenFunction)
      (g' : Grammar H)
      → AllWellFormed H g
      → AreTyped H env
      → overwrite_rule_with_chaos H rule_chaos (some g) env rule (function_value f) ≡ ok g'
      → AllWellFormed H g'
  function_rule rule_chaos g env rule f g' w we e =
      overwrite_rule_with_chaos-AllWellFormed H rule_chaos g env rule (function_value f) g' w we
        (of_function f refl) e

  setup_connection_env-AreTyped :
      (draws : ℕ → ℕ) (rule_chaos fuel : ℕ) (connection : Bytes) (initial env : Environment H)
      → AreTyped H initial
      → setup_connection_env draws H rule_chaos fuel connection initial ≡ ok env
      → AreTyped H env
  unfolding setup_connection_env new_environment new_function_grammar_entry new_grammar_entry_t
  setup_connection_env-AreTyped draws rule_chaos fuel connection initial env w e =
      let (g, parsed, e₁) = bind-eq-ok (generate_grammar H connection) _ e in
      let short = function_value shortstring_generator in
      let (g₁, first, e₂) =
        bind-eq-ok
          (overwrite_rule_with_chaos H rule_chaos (some g) initial (codes "short-string") short) _
          e₁ in
      let long = function_value longstring_generator in
      let (g₂, second, e₃) =
        bind-eq-ok
          (overwrite_rule_with_chaos H rule_chaos (some g₁) initial (codes "long-string") long) _
          e₂ in
      let made : g₂ ∷ initial ≡ env = ground (arith, e₃) in
      let w₁ =
        function_rule rule_chaos g initial (codes "short-string") shortstring_generator g₁
          (generate_grammar-AllWellFormed H connection g parsed) w first in
      subst (AreTyped H) made (
        function_rule rule_chaos g₁ initial (codes "long-string") longstring_generator g₂ w₁ w
            second,
        w,
      )

  -- Whatever the three rule files hold, and at any RULE_CHAOS, where the set-up of the environments
  -- succeeds every entry in them is well formed: the fields that its type uses are set, with the
  -- sizes that it says, and the others are NULL.
  pub setup_environments-AreTyped :
      (draws : ℕ → ℕ) (rule_chaos fuel : ℕ) (spec abnf connection : Bytes) (p : Protocol H)
      (env : Environment H)
      → setup_protocol_env H spec abnf (no_protocol H) ≡ ok p
      → setup_connection_env draws H rule_chaos fuel connection p.protocol_env ≡ ok env
      → AreTyped H p.protocol_env × AreTyped H env
  setup_environments-AreTyped draws rule_chaos fuel spec abnf connection p env e e' =
      let w = setup_protocol_env-AreTyped spec abnf p e in
      (w, setup_connection_env-AreTyped draws rule_chaos fuel connection p.protocol_env env w e')
