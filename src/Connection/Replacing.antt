-- ===== src/Connection/Replacing.antt =====
-- Rules replaced one after another in a grammar, where RULE_CHAOS is 0.
use amqpgram.Base.{
  ℕ, ◌≡◌, refl, ap, ◌∙◌, List, [], ◌∷◌, Option, some, Bytes, length, if◌then◌else◌, str_eq,
}
use amqpgram.Base.Outcome.{Outcome, ok}
use amqpgram.Utils.Writing.{be_bytes}
use amqpgram.Grammar.{GrammarEntry, new_string_grammar_entry, new_grammar_entry_t}
use amqpgram.Grammar.Entries.{
  IsWellFormed, of_string, of_bytes, string_value, bytes_value, new_byte_array_grammar_entry_lem,
}
use amqpgram.Grammar.Table.{HashTable}
use amqpgram.Grammar.Lookup.{
  Grammar, Environment, create_grammar, environment_lookup, grammar_insert,
}
use amqpgram.Grammar.Lookup.Laws.{
  AllWellFormed, create_AllWellFormed, environment_lookup-cons, environment_lookup-insert,
  grammar_insert-AllWellFormed,
}
use amqpgram.GrammarInterface.{overwrite_rule_with_chaos}
use amqpgram.GrammarInterface.Lengths.{overwrite_rule_set_length_lem}
use amqpgram.Connection.{decode, set_rule, set_bytes, set_length}

-- What replacements, the last one first, make of an answer.
abbrev pub overridden :
    List (Bytes × GrammarEntry)
    → Bytes
    → Outcome (Option GrammarEntry)
    → Outcome (Option GrammarEntry)
overridden [] j found = found
overridden ((rule, entry) ∷ rules) j found =
    if str_eq rule j then ok (some entry) else overridden rules j found

module _ (draws : ℕ → ℕ) (H : HashTable) (env : Environment H) where
  -- A grammar of well-formed entries that, before `env`, answers as these replacements say.
  pub record Answers (g : Grammar H) (rules : List (Bytes × GrammarEntry)) : Type 0 where
    pub well_formed : AllWellFormed H g
    pub answer :
        (j : Bytes)
        → environment_lookup H (g ∷ env) j ≡ overridden rules j (environment_lookup H env j)

  pub create-Answers : Answers (create_grammar H) []
  unfolding create_grammar
  create-Answers = record {
    well_formed = create_AllWellFormed H;
    answer = λ j.
        environment_lookup-cons H H.new_table env j (create_AllWellFormed H)
        ∙ rw (H.lookup-new_table j);
  }

  insert-Answers :
      (g : Grammar H) (rules : List (Bytes × GrammarEntry)) (rule : Bytes) (entry : GrammarEntry)
      → Answers g rules
      → IsWellFormed entry
      → Answers (grammar_insert H g rule (some entry)) ((rule, entry) ∷ rules)
  insert-Answers g rules rule entry a w = record {
    well_formed = grammar_insert-AllWellFormed H g rule entry a.well_formed w;
    answer = λ j. environment_lookup-insert H g env rule j entry a.well_formed w ∙ rw (a.answer j);
  }

  pub found :
      {g : Grammar H} {rules : List (Bytes × GrammarEntry)} (a : Answers g rules) (j : Bytes)
      {answer : Outcome (Option GrammarEntry)}
      → environment_lookup H env j ≡ answer
      → environment_lookup H (g ∷ env) j ≡ overridden rules j answer
  found {rules = rules} a j e = a.answer j ∙ ap (overridden rules j) e

  module _ (fuel : ℕ) (g : Grammar H) (rules : List (Bytes × GrammarEntry))
      (a : Answers g rules) where
    -- What follows a replacement may take it for granted.
    pub set_rule-Answers :
        (rule text : Bytes) (k : ℕ)
        → (g' : Grammar H) × (set_rule draws H 0 fuel env rule text g k ≡ ok (g', k))
          × Answers g' ((rule, string_value text) ∷ rules)
    unfolding set_rule new_string_grammar_entry new_grammar_entry_t overwrite_rule_with_chaos
    set_rule-Answers rule text k =
        (_, refl, insert-Answers g rules rule (string_value text) a (of_string text refl))

    pub set_bytes-Answers :
        (rule bytes : Bytes) (size k : ℕ)
        → length bytes ≡ size
        → (g' : Grammar H) × (set_bytes draws H 0 fuel env rule bytes size g k ≡ ok (g', k))
          × Answers g' ((rule, bytes_value bytes) ∷ rules)
    unfolding set_bytes overwrite_rule_with_chaos
    set_bytes-Answers rule bytes size k e = (
      _,
      rw (← e, new_byte_array_grammar_entry_lem bytes),
      insert-Answers g rules rule (bytes_value bytes) a (of_bytes bytes refl),
    )

    pub set_length-Answers :
        (rule_to_decode length_rule decoded : Bytes) (k k' : ℕ)
        → decode draws H 0 fuel rule_to_decode (g ∷ env) k ≡ ok (decoded, k')
        → (g' : Grammar H) × (set_length draws H 0 fuel env rule_to_decode length_rule g k
            ≡ ok (g', k'))
          × Answers g' (
              (length_rule, bytes_value (be_bytes 4 (length decoded)))
              ∷ (rule_to_decode, bytes_value decoded)
              ∷ rules)
    unfolding set_length
    set_length-Answers rule_to_decode length_rule decoded k k' run =
        let (g', set, w, same) =
          overwrite_rule_set_length_lem H (decode draws H 0 fuel) rule_to_decode length_rule decoded
            g env k k' a.well_formed run in
        (g', set, record { well_formed = w; answer = λ j. same j ∙ rw (a.answer j) })
