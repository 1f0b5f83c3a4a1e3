-- ===== src/Grammar/Parser.antt =====
-- The reading of a file of ABNF rules (grammar/grammar-parser.c).
-- A file is the list of its bytes. Each loop has as much fuel as the text has bytes, and one more.
pub mod Rules
pub mod Ends
pub mod Typing
use amqpgram.Base.{
  ℕ, zero, suc, List, [], ◌∷◌, Option, none, some, ◌==◌, if◌then◌else◌, Bytes, length, str_eq,
}
use amqpgram.Base.Outcome.{Outcome, ok, fault, stuck, ◌>>=◌}
use amqpgram.CString.{trim_string, strtok}
use amqpgram.Grammar.{GrammarEntry, string, string_array, new_grammar_entry_t}
use amqpgram.Grammar.Table.{HashTable}
use amqpgram.Grammar.Lookup.{Grammar, create_grammar, grammar_insert}

-- The loop that collects the alternatives: `entry = strtok(NULL, "/")`, trimmed.
unfoldable pub collect_alternatives : ℕ → Bytes → Outcome (List Bytes)
unfolding trim_string
collect_alternatives zero rest = stuck
collect_alternatives (suc fuel) rest = elim (strtok b'/' rest) [
  | none ↦ ok []
  | some (entry, rest') ↦
      collect_alternatives fuel rest' >>= λ others. ok (trim_string entry ∷ others)
]

-- Behind the first token: one entry if that is the whole value, and all alternatives otherwise.
unfoldable pub parse_tokens : Bytes → Bytes → Bytes → Outcome GrammarEntry
unfolding collect_alternatives
parse_tokens read_value entry rest =
    let alternatives = do
      others ← collect_alternatives (suc (length rest)) rest
      new_grammar_entry_t string_array none (some (trim_string entry ∷ others))
          (suc (length others)) none
    in if str_eq entry read_value
      then new_grammar_entry_t string (some read_value) none 0 none
      else alternatives

-- `strcmp` on NULL faults.
unfoldable pub parse_value : Bytes → Outcome GrammarEntry
unfolding parse_tokens
parse_value read_value = elim (strtok b'/' read_value) [
  | none ↦ fault
  | some (entry, rest) ↦ parse_tokens read_value entry rest
]

-- `fgets(line, 2048, file)`: at most `room` bytes, up to a newline, which is taken.
unfoldable pub fgets : ℕ → Bytes → Bytes × Bytes
fgets zero file = ([], file)
fgets (suc room) [] = ([], [])
fgets (suc room) (c ∷ file) =
    let more = fgets room file in if c == b'\n' then (c ∷ [], file) else (c ∷ more.0, more.1)

module _ (H : HashTable) where
  -- The body of the loop of `populate_grammar`; `trim_string` of a key that is NULL faults.
  unfoldable pub populate_line : Grammar H → Bytes → Outcome (Grammar H)
  populate_line grammar line = elim (strtok b'=' line) [
    | none ↦ fault
    | some (key, rest) ↦ elim (strtok b';' rest) [
      | none ↦ ok grammar
      | some (value, _) ↦ parse_value (trim_string value) >>= λ entry.
          ok (grammar_insert H grammar (trim_string key) (some entry))
    ]
  ]

  unfoldable pub populate_lines : ℕ → Grammar H → Bytes → Outcome (Grammar H)
  populate_lines fuel grammar [] = ok grammar
  populate_lines zero grammar (c ∷ file) = stuck
  populate_lines (suc fuel) grammar (c ∷ file) =
      let (line, rest) = fgets 2047 (c ∷ file) in
      populate_line grammar line >>= λ grammar'. populate_lines fuel grammar' rest

  unfoldable pub populate_grammar : Grammar H → Bytes → Outcome (Grammar H)
  unfolding populate_lines
  populate_grammar grammar grammar_def = populate_lines (length grammar_def) grammar grammar_def

  unfoldable pub generate_grammar : Bytes → Outcome (Grammar H)
  unfolding populate_grammar
  generate_grammar grammar_def = populate_grammar (create_grammar H) grammar_def

  -- `grammar_init` (grammar/packet-generator.c)
  unfoldable pub grammar_init : Bytes → Bytes → Outcome (Grammar H)
  unfolding generate_grammar
  grammar_init grammar_def abnf_def =
      generate_grammar grammar_def >>= λ grammar. populate_grammar grammar abnf_def
