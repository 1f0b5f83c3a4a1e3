-- ===== src/Grammar/Parser/Typing.antt =====
-- Whatever the rule files hold, what is read from them is well formed.
use amqpgram.Base.{
  ℕ, zero, suc, ◌≡◌, subst, arith, [], ◌∷◌, some, Bytes, length, Bool-cases, Option-cases, inl, inr,
  str_eq,
}
use amqpgram.Base.Outcome.{ok, bind-eq-ok}
use amqpgram.CString.{trim_string, strtok}
use amqpgram.Grammar.{GrammarEntry, new_grammar_entry_t}
use amqpgram.Grammar.Entries.{IsWellFormed, of_string, of_array}
use amqpgram.Grammar.Table.{HashTable}
use amqpgram.Grammar.Lookup.{Grammar, create_grammar, grammar_insert}
use amqpgram.Grammar.Lookup.Laws.{AllWellFormed, create_AllWellFormed}
use amqpgram.Grammar.Lookup.Typing.{grammar_insert-keeps}
use amqpgram.Grammar.Parser.{
  collect_alternatives, parse_value, fgets, populate_line, populate_lines, generate_grammar,
  grammar_init,
}
use amqpgram.Grammar.Parser.Rules.{copied-array}

pub parse_value-IsWellFormed :
    (value : Bytes) (entry : GrammarEntry) → parse_value value ≡ ok entry → IsWellFormed entry
unfolding parse_value
parse_value-IsWellFormed value entry e = elim (Option-cases (strtok b'/' value)) [
  | inl end ↦ absurd (let fails = rw (end, parse_value) at e in cc)
  | inr ((first, rest), more) ↦
      let run = rw (more, parse_value) at e in
      elim (Bool-cases (str_eq first value)) [
        | inl same ↦
            let built = rw same at run in
            of_string value (unfold new_grammar_entry_t in ground (arith, built))
        | inr other ↦
            let (others, collected, built) =
              bind-eq-ok (collect_alternatives (suc (length rest)) rest) _ (rw other at run) in
            let array = trim_string first ∷ others in
            of_array array (ground (arith, built, copied-array array))
      ]
]

module _ (H : HashTable) where
  populate_line-AllWellFormed :
      (g : Grammar H) (line : Bytes) (g' : Grammar H)
      → AllWellFormed H g
      → populate_line H g line ≡ ok g'
      → AllWellFormed H g'
  unfolding populate_line
  populate_line-AllWellFormed g line g' w e = elim (Option-cases (strtok b'=' line)) [
    | inl no_key ↦ absurd (let fails = rw (no_key, populate_line) at e in cc)
    | inr ((key, rest), has_key) ↦
        let e₁ = rw (has_key, populate_line) at e in
        elim (Option-cases (strtok b';' rest)) [
          | inl no_value ↦
              let same = rw (no_value, populate_line) at e₁ in
              let kept : g ≡ g' = ground (arith, same) in subst (AllWellFormed H) kept w
          | inr ((value, _), has_value) ↦
              let (entry, parsed, last) =
                bind-eq-ok (parse_value (trim_string value)) _
                  (rw (has_value, populate_line) at e₁) in
              let put : grammar_insert H g (trim_string key) (some entry) ≡ g' =
                ground (arith, last) in
              subst (AllWellFormed H) put (
                grammar_insert-keeps H g (trim_string key) (some entry) w
                  (parse_value-IsWellFormed (trim_string value) entry parsed))
        ]
  ]

  populate_lines-AllWellFormed :
      (fuel : ℕ) (g : Grammar H) (file : Bytes) (g' : Grammar H)
      → AllWellFormed H g
      → populate_lines H fuel g file ≡ ok g'
      → AllWellFormed H g'
  unfolding populate_lines
  populate_lines-AllWellFormed fuel g [] g' w e =
      let kept : g ≡ g' = ground (arith, e) in subst (AllWellFormed H) kept w
  populate_lines-AllWellFormed zero g (c ∷ file) g' w e = absurd cc
  populate_lines-AllWellFormed (suc fuel) g (c ∷ file) g' w e =
      let (line, rest) = fgets 2047 (c ∷ file) in
      let (g₁, first, others) = bind-eq-ok (populate_line H g line) _ e in
      populate_lines-AllWellFormed fuel g₁ rest g' (populate_line-AllWellFormed g line g₁ w first)
        others

  pub generate_grammar-AllWellFormed :
      (file : Bytes) (g : Grammar H) → generate_grammar H file ≡ ok g → AllWellFormed H g
  unfolding generate_grammar create_grammar
  generate_grammar-AllWellFormed file g e =
      populate_lines-AllWellFormed (length file) (create_grammar H) file g (create_AllWellFormed H)
        e

  pub grammar_init-AllWellFormed :
      (spec abnf : Bytes) (g : Grammar H) → grammar_init H spec abnf ≡ ok g → AllWellFormed H g
  unfolding grammar_init
  grammar_init-AllWellFormed spec abnf g e =
      let (first, run, last) = bind-eq-ok (generate_grammar H spec) _ e in
      populate_lines-AllWellFormed (length abnf) first abnf g
        (generate_grammar-AllWellFormed spec first run) last
