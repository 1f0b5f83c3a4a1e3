-- ===== src/GrammarInterface.antt =====
-- fuzzer/Grammar_Interface.c: rules of a grammar replaced with regard to RULE_CHAOS.
-- A grammar that is changed in place is passed in and returned. `environment` is what the caller's
-- environment holds when the call is made.
pub mod Chaos
pub mod Lengths
pub mod Old
pub mod Typing
use amqpgram.Base.{ℕ, zero, suc, List, [], ◌∷◌, ◌++◌, Option, none, some, Bytes, length, replicate}
use amqpgram.Base.Outcome.{Outcome, ok}
use amqpgram.Base.Outcome
use amqpgram.Base.Text.{codes}
use amqpgram.Base.Random.{Rand, ◌>>=◌, pure, lift}
use amqpgram.Utils.{int_in_char}
use amqpgram.Grammar.{GrammarEntry, new_str_array_grammar_entry, new_byte_array_grammar_entry}
use amqpgram.Grammar.Table.{HashTable}
use amqpgram.Grammar.Lookup.{
  Grammar, Environment, create_grammar, environment_lookup, grammar_insert,
}

abbrev pub chaos_prefix : Bytes
chaos_prefix = codes "fuzzer-chaos-"

abbrev pub order_prefix : Bytes
order_prefix = codes "fuzzer-order-"

-- The alternatives where RULE_CHAOS is 1 or 3: all ordered, then the first RULE_CHAOS overwritten.
unfoldable pub fill_chaos : ℕ → Bytes → List Bytes → List Bytes
fill_chaos zero chaos_rule rules = rules
fill_chaos (suc n) chaos_rule [] = []
fill_chaos (suc n) chaos_rule (rule ∷ rules) = chaos_rule ∷ fill_chaos n chaos_rule rules

unfoldable pub rule_array : ℕ → Bytes → List Bytes
unfolding fill_chaos
rule_array rule_chaos rule =
    fill_chaos rule_chaos (chaos_prefix ++ rule) (replicate 4 (order_prefix ++ rule))

module _ (H : HashTable) where
  abbrev target_or_new : Option (Grammar H) → Grammar H
  target_or_new none = create_grammar H
  target_or_new (some target) = target

  -- The three insertions of the cases 1, 2 and 3: `rule` becomes a choice among `alternatives`.
  unfoldable pub insert_alternatives :
      Grammar H → Environment H → Bytes → GrammarEntry → List Bytes → Outcome (Grammar H)
  insert_alternatives target environment rule ordered_rule alternatives =
      Outcome.◌>>=◌ (environment_lookup H environment rule) λ found.
        Outcome.◌>>=◌ (new_str_array_grammar_entry alternatives (length alternatives)) λ entry.
          let with_chaos = grammar_insert H target (chaos_prefix ++ rule) found in
          let with_order = grammar_insert H with_chaos (order_prefix ++ rule) (some ordered_rule) in
          ok (grammar_insert H with_order rule (some entry))

  -- `switch (RULE_CHAOS)`
  unfoldable pub overwrite_rule_with_chaos :
      ℕ → Option (Grammar H) → Environment H → Bytes → GrammarEntry → Outcome (Grammar H)
  unfolding insert_alternatives rule_array
  overwrite_rule_with_chaos zero target environment rule ordered_rule =
      ok (grammar_insert H (target_or_new target) rule (some ordered_rule))
  overwrite_rule_with_chaos (suc zero) target environment rule ordered_rule =
      insert_alternatives (target_or_new target) environment rule ordered_rule (rule_array 1 rule)
  overwrite_rule_with_chaos (suc (suc zero)) target environment rule ordered_rule =
      insert_alternatives (target_or_new target) environment rule ordered_rule
        ((order_prefix ++ rule) ∷ (chaos_prefix ++ rule) ∷ [])
  overwrite_rule_with_chaos (suc (suc (suc zero))) target environment rule ordered_rule =
      insert_alternatives (target_or_new target) environment rule ordered_rule (rule_array 3 rule)
  overwrite_rule_with_chaos (suc (suc (suc (suc _)))) target environment rule ordered_rule =
      ok (target_or_new target)

  -- `decode` is `decode_rule`. In every call the environment is the changed grammar before others,
  -- `next`, so the second replacement sees the first.
  unfoldable pub overwrite_rule_set_length :
      ℕ
      → (Bytes → Environment H → Rand Bytes)
      → Bytes
      → Bytes
      → ℕ
      → Grammar H
      → Environment H
      → Rand (Grammar H)
  overwrite_rule_set_length rule_chaos decode rule_to_decode length_rule length_size grammar next =
      do
        decoded_rule ← decode rule_to_decode (grammar ∷ next)
        let decoded_rule_length = length decoded_rule
        entry ← lift (new_byte_array_grammar_entry decoded_rule decoded_rule_length)
        grammar' ← lift (
            overwrite_rule_with_chaos rule_chaos (some grammar) (grammar ∷ next) rule_to_decode
              entry)
        literal ← lift (int_in_char (replicate length_size 0) decoded_rule_length 0 length_size)
        length_entry ← lift (new_byte_array_grammar_entry literal length_size)
        lift (
            overwrite_rule_with_chaos rule_chaos (some grammar') (grammar' ∷ next) length_rule
              length_entry)
