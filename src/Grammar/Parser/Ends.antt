-- ===== src/Grammar/Parser/Ends.antt =====
-- The reader of rules ends on every file: no loop runs out of fuel.
use amqpgram.Base.{
  ℕ, zero, suc, ◌≢◌, ◌≤◌, arith, List, [], ◌∷◌, Bytes, length, str_eq, Option-cases, Bool-cases,
  inl, inr,
}
use amqpgram.Base.Outcome.{stuck, bind-ne_stuck}
use amqpgram.CString.{trim_string, strtok}
use amqpgram.Grammar.{copy_strings, new_grammar_entry_t}
use amqpgram.Grammar.Table.{HashTable}
use amqpgram.Grammar.Lookup.{Grammar, create_grammar}
use amqpgram.Grammar.Parser.{
  collect_alternatives, parse_value, fgets, populate_line, populate_lines, grammar_init,
  generate_grammar,
}
use amqpgram.Grammar.Parser.Rules.{collect_ne_stuck}

copy_strings-ne_stuck : (n : ℕ) (array : List Bytes) → copy_strings n array ≢ stuck
unfolding copy_strings
copy_strings-ne_stuck zero array = λ e. cc
copy_strings-ne_stuck (suc n) [] = λ e. cc
copy_strings-ne_stuck (suc n) (s ∷ array) =
    bind-ne_stuck (copy_strings n array) _ (copy_strings-ne_stuck n array) (λ copies e. cc)

parse_value-ne_stuck : (value : Bytes) → parse_value value ≢ stuck
unfolding parse_value
parse_value-ne_stuck value = elim (Option-cases (strtok b'/' value)) [
  | inl end ↦ rw (end, parse_value) (λ e. cc)
  | inr ((entry, rest), more) ↦
      rw (more, parse_value)
        (elim (Bool-cases (str_eq entry value)) [
          | inl same ↦ rw same (unfold new_grammar_entry_t in (λ e. cc))
          | inr other ↦ rw other (
              bind-ne_stuck (collect_alternatives (suc (length rest)) rest) _
                (collect_ne_stuck (suc (length rest)) rest (omega arith))
                (λ others.
                  unfold new_grammar_entry_t in
                  bind-ne_stuck (copy_strings (suc (length others)) (trim_string entry ∷ others)) _
                    (copy_strings-ne_stuck (suc (length others)) (trim_string entry ∷ others))
                    (λ copies e. cc)))
        ])
]

length-fgets : (room : ℕ) (file : Bytes) → length (fgets room file).1 ≤ length file
unfolding fgets
length-fgets zero file = omega arith
length-fgets (suc room) [] = omega arith
length-fgets (suc room) (c ∷ file) = ground (arith, length-fgets room file)

fgets_takes : (room c : ℕ) (file : Bytes) → length (fgets (suc room) (c ∷ file)).1 ≤ length file
unfolding fgets
fgets_takes room c file = ground (arith, length-fgets room file)

module _ (H : HashTable) where
  populate_line-ne_stuck :
      (grammar : Grammar H) (line : Bytes) → populate_line H grammar line ≢ stuck
  unfolding populate_line
  populate_line-ne_stuck grammar line = elim (Option-cases (strtok b'=' line)) [
    | inl no_key ↦ rw (no_key, populate_line) (λ e. cc)
    | inr ((key, rest), has_key) ↦
        rw (has_key, populate_line)
          (elim (Option-cases (strtok b';' rest)) [
            | inl no_value ↦ rw (no_value, populate_line) (λ e. cc)
            | inr ((value, _), has_value) ↦
                rw (has_value, populate_line)
                  (bind-ne_stuck (parse_value (trim_string value)) _
                    (parse_value-ne_stuck (trim_string value)) (λ entry e. cc))
          ])
  ]

  populate_lines-ne_stuck :
      (fuel : ℕ) (grammar : Grammar H) (file : Bytes)
      → length file ≤ fuel
      → populate_lines H fuel grammar file ≢ stuck
  unfolding populate_lines
  populate_lines-ne_stuck fuel grammar [] h = λ e. cc
  populate_lines-ne_stuck zero grammar (c ∷ file) h = absurd (omega arith)
  populate_lines-ne_stuck (suc fuel) grammar (c ∷ file) h =
      let line = (fgets 2047 (c ∷ file)).0 in
      let rest = (fgets 2047 (c ∷ file)).1 in
      bind-ne_stuck (populate_line H grammar line) (λ grammar'. populate_lines H fuel grammar' rest)
        (populate_line-ne_stuck grammar line)
        (λ grammar'.
          populate_lines-ne_stuck fuel grammar' rest (omega (arith, fgets_takes 2046 c file)))

  -- Reading the two grammar files ends, whatever they hold: `grammar_init` returns the grammar, or
  -- faults on a malformed line.
  pub grammar_init-ne_stuck :
      (grammar_def abnf_def : Bytes) → grammar_init H grammar_def abnf_def ≢ stuck
  unfolding grammar_init
  grammar_init-ne_stuck grammar_def abnf_def =
      bind-ne_stuck (generate_grammar H grammar_def) _
        (populate_lines-ne_stuck (length grammar_def) (create_grammar H) grammar_def (omega arith))
        (λ g. populate_lines-ne_stuck (length abnf_def) g abnf_def (omega arith))
