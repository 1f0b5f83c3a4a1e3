-- ===== src/GrammarInterface/Lengths.antt =====
-- The rule of a length, where RULE_CHAOS is 0: it is the length of what the measured rule decodes to.
use amqpgram.Base.{
  ℕ, ◌≡◌, refl, ◌∙◌, arith, [], ◌∷◌, some, Bytes, length, replicate, if◌then◌else◌, str_eq,
}
use amqpgram.Base.Outcome.{ok}
use amqpgram.Base.Random.{Rand, bind-run}
use amqpgram.Utils.{int_in_char}
use amqpgram.Utils.Writing.{be_bytes, int_in_char_lem}
use amqpgram.Grammar.Entries.{IsWellFormed, of_bytes, bytes_value, new_byte_array_grammar_entry_lem}
use amqpgram.Grammar.Table.{HashTable}
use amqpgram.Grammar.Lookup.{Grammar, Environment, environment_lookup}
use amqpgram.Grammar.Lookup.Laws.{
  AllWellFormed, environment_lookup-insert, grammar_insert-AllWellFormed,
}
use amqpgram.GrammarInterface.{overwrite_rule_with_chaos, overwrite_rule_set_length}

length_literal : (v : ℕ) → int_in_char (replicate 4 0) v 0 4 ≡ ok (be_bytes 4 v)
length_literal v = int_in_char_lem [] (replicate 4 0) [] v 4 refl (omega arith)

module _ (H : HashTable) where
  -- With RULE_CHAOS 0, if the measured rule decodes to `decoded`, then the measured rule becomes these
  -- very bytes and the rule of the length becomes their number in four bytes, most significant first;
  -- every other rule is as it was, the entries stay well formed, and `rand()` is not called again.
  pub overwrite_rule_set_length_lem :
      (decode : Bytes → Environment H → Rand Bytes) (rule_to_decode length_rule decoded : Bytes)
      (g : Grammar H) (env : Environment H) (calls calls' : ℕ)
      → AllWellFormed H g
      → decode rule_to_decode (g ∷ env) calls ≡ ok (decoded, calls')
      → (changed : Grammar H) × (overwrite_rule_set_length H 0 decode rule_to_decode length_rule 4 g
            env calls
          ≡ ok (changed, calls'))
        × AllWellFormed H changed
        × ((j : Bytes)
            → environment_lookup H (changed ∷ env) j ≡ (
                if str_eq length_rule j
                then ok (some (bytes_value (be_bytes 4 (length decoded))))
                else if str_eq rule_to_decode j
                then ok (some (bytes_value decoded))
                else environment_lookup H (g ∷ env) j))
  unfolding overwrite_rule_set_length overwrite_rule_with_chaos
  overwrite_rule_set_length_lem decode rule_to_decode length_rule decoded g env calls calls' w run =
      let wd : IsWellFormed (bytes_value decoded) = of_bytes decoded refl in
      let bs = be_bytes 4 (length decoded) in
      let wl : IsWellFormed (bytes_value bs) = of_bytes bs refl in
      let w₁ = grammar_insert-AllWellFormed H g rule_to_decode (bytes_value decoded) w wd in
      (
        _,
        bind-run (decode rule_to_decode (g ∷ env)) _ calls run
            ∙ rw (
              new_byte_array_grammar_entry_lem decoded,
              length_literal (length decoded),
              new_byte_array_grammar_entry_lem bs,
            ),
        grammar_insert-AllWellFormed H _ length_rule (bytes_value bs) w₁ wl,
        λ j. rw (
          environment_lookup-insert H _ env length_rule j (bytes_value bs) w₁ wl,
          environment_lookup-insert H g env rule_to_decode j (bytes_value decoded) w wd,
        ),
      )
