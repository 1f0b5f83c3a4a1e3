-- ===== src/Grammar/Printing.antt =====
-- grammar/grammar-parser.c: `print_key_value`, `print_key` and `debug_print_grammar`. The result is the
-- text that is printed.
use amqpgram.Base.{
  ℕ, zero, suc, ◌+◌, ◌-◌, ◌/◌, ◌%◌, ◌≡◌, refl, Option-cases, inl, inr, List, [], ◌∷◌, ◌++◌, Option,
  none, some, ltb, if◌then◌else◌, Bytes, length,
}
use amqpgram.Base.Outcome.{Outcome, ok, fault, ◌>>=◌}
use amqpgram.Base.Text.{codes}
use amqpgram.Grammar.{GrammarEntry, ValueType, string, string_array, byte_array, function, deref}
use amqpgram.Grammar.Entries.{IsWellFormed, of_string, of_array, of_bytes, of_function}
use amqpgram.Grammar.Table.{HashTable}
use amqpgram.Grammar.Lookup.{Grammar, grammar_lookup}
use amqpgram.Grammar.Lookup.Laws.{AllWellFormed}

abbrev quoted : Bytes → Bytes
quoted s = b'"' ∷ (s ++ b'"' ∷ [])

-- The loop over the strings of an array.
unfoldable print_strings : ℕ → List Bytes → Outcome Bytes
print_strings zero strings = ok []
print_strings (suc n) [] = fault
print_strings (suc zero) (s ∷ strings) = ok (quoted s)
print_strings (suc (suc n)) (s ∷ strings) =
    print_strings (suc n) strings >>= λ others. ok (quoted s ++ (codes ",\n" ++ others))

abbrev hex_digit : ℕ → ℕ
hex_digit n = if ltb n 10 then b'0' + n else b'a' + (n - 10)

-- `%2x` of a `char`, which is converted to `int` with its sign.
unfoldable pub print_char : ℕ → Bytes
print_char c =
    if ltb c 16
    then b' ' ∷ hex_digit c ∷ []
    else if ltb c 128
    then hex_digit (c / 16) ∷ hex_digit (c % 16) ∷ []
    else codes "ffffff" ++ hex_digit (c / 16) ∷ hex_digit (c % 16) ∷ []

-- The loop over the bytes.
unfoldable print_bytes : ℕ → Bytes → Outcome Bytes
unfolding print_char
print_bytes zero bytes = ok []
print_bytes (suc n) [] = fault
print_bytes (suc n) (c ∷ bytes) = print_bytes n bytes >>= λ others. ok (print_char c ++ others)

-- A pointer of another type is read only where the array is not empty.
abbrev strings_of : Option (List Bytes) → List Bytes
strings_of none = []
strings_of (some strings) = strings

abbrev bytes_of : Option Bytes → Bytes
bytes_of none = []
bytes_of (some bytes) = bytes

unfoldable print_value : Bytes → GrammarEntry → ValueType → Outcome Bytes
unfolding print_strings print_bytes
print_value key value string =
    deref value.str_entry >>= λ s. ok (quoted key ++ (codes " : " ++ (quoted s ++ codes "\n")))
print_value key value string_array =
    print_strings value.array_size (strings_of value.str_array_entry) >>= λ strings.
    ok (quoted key ++ (codes " : {" ++ (strings ++ codes "}\n")))
print_value key value function = ok (key ++ codes " : FUNCTION\n")
print_value key value byte_array =
    print_bytes value.array_size (bytes_of value.str_entry) >>= λ bytes.
    ok (key ++ (codes " : " ++ (bytes ++ codes "\n")))

unfoldable pub print_key_value : Bytes → Option GrammarEntry → Outcome Bytes
unfolding print_value
print_key_value key none = ok (codes "key " ++ (key ++ codes " not found!\n"))
print_key_value key (some value) = print_value key value value.entry_type

print_strings-all :
    (strings : List Bytes) → (text : Bytes) × (print_strings (length strings) strings ≡ ok text)
unfolding print_strings
print_strings-all [] = ([], refl)
print_strings-all (s ∷ []) = (quoted s, refl)
print_strings-all (s ∷ second ∷ strings) =
    let (others, run) = print_strings-all (second ∷ strings) in
    (quoted s ++ (codes ",\n" ++ others), rw run refl)

print_bytes-all : (bytes : Bytes) → (text : Bytes) × (print_bytes (length bytes) bytes ≡ ok text)
unfolding print_bytes
print_bytes-all [] = ([], refl)
print_bytes-all (c ∷ bytes) =
    let (others, run) = print_bytes-all bytes in (print_char c ++ others, rw run refl)

-- A well-formed entry is printed without a fault.
pub print_key_value_lem :
    (key : Bytes) (value : GrammarEntry)
    → IsWellFormed value
    → (text : Bytes) × (print_key_value key (some value) ≡ ok text)
unfolding print_key_value
print_key_value_lem key value (of_string s e) =
    (quoted key ++ (codes " : " ++ (quoted s ++ codes "\n")), rw e refl)
print_key_value_lem key value (of_array strings e) =
    let (text, run) = print_strings-all strings in
    (quoted key ++ (codes " : {" ++ (text ++ codes "}\n")), rw (e, run) refl)
print_key_value_lem key value (of_bytes bytes e) =
    let (text, run) = print_bytes-all bytes in
    (key ++ (codes " : " ++ (text ++ codes "\n")), rw (e, run) refl)
print_key_value_lem key value (of_function f e) = (key ++ codes " : FUNCTION\n", rw e refl)

module _ (H : HashTable) where
  unfoldable pub print_key : Grammar H → Bytes → Outcome Bytes
  unfolding print_key_value
  print_key grammar key = grammar_lookup H grammar key >>= print_key_value key

  -- `g_hash_table_foreach`, in the order of the table's keys.
  unfoldable pub print_keys : Grammar H → List Bytes → Outcome Bytes
  unfolding print_key_value
  print_keys grammar [] = ok []
  print_keys grammar (key ∷ keys) = print_key_value key (H.lookup grammar key) >>= λ first.
      print_keys grammar keys >>= λ others. ok (first ++ others)

  unfoldable pub debug_print_grammar : Grammar H → Outcome Bytes
  unfolding print_keys
  debug_print_grammar grammar = print_keys grammar (H.keys grammar)

  print_keys_lem :
      (grammar : Grammar H) (keys : List Bytes)
      → AllWellFormed H grammar
      → (text : Bytes) × (print_keys grammar keys ≡ ok text)
  unfolding print_keys
  print_keys_lem grammar [] w = ([], refl)
  print_keys_lem grammar (key ∷ keys) w =
      let (others, run) = print_keys_lem grammar keys w in
      elim (Option-cases (H.lookup grammar key)) [
        | inl absent ↦
            let first = codes "key " ++ (key ++ codes " not found!\n") in
            (first ++ others, rw (absent, run) refl)
        | inr (value, found) ↦
            let (first, printed) = print_key_value_lem key value (w key value found) in
            (first ++ others, rw (found, printed, run) refl)
      ]

  -- A grammar of well-formed entries is printed without a fault.
  pub debug_print_grammar_lem :
      (grammar : Grammar H)
      → AllWellFormed H grammar
      → (text : Bytes) × (debug_print_grammar grammar ≡ ok text)
  unfolding debug_print_grammar
  debug_print_grammar_lem grammar w = print_keys_lem grammar (H.keys grammar) w
