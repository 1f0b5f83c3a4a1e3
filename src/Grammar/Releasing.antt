-- ===== src/Grammar/Releasing.antt =====
-- grammar/grammar-parser.c: `free_grammar_entry_t`, which `decode_rule` calls for the copy of an entry
-- that a lookup gave, and GLib's table for each value that it drops.
use amqpgram.Base.{
  ℕ, zero, suc, ◌≡◌, refl, ap, Option-cases, inl, inr, List, [], ◌∷◌, ◌++◌, Option, none, some,
  Bytes, length,
}
use mathlib.Core.List.{map, append_assoc}
use amqpgram.Base.Outcome.{Outcome, ok, fault, ◌>>=◌}
use amqpgram.Grammar.{GrammarEntry}
use amqpgram.Grammar.Table.{HashTable}
use amqpgram.Grammar.Lookup.{Grammar, Environment}
use amqpgram.Grammar.Lookup.Laws.{AllWellFormed}
use amqpgram.Grammar.Lookup.Typing.{AreTyped}
use amqpgram.Grammar.Entries.{IsWellFormed, of_string, of_array, of_bytes, of_function}

-- What `free` is called for, in the order of the calls.
pub data FreedPart : Type 0 where
  text : Bytes → FreedPart
  array whole : FreedPart

-- The loop over `str_array_entry`, none of whose strings is NULL.
unfoldable free_strings : ℕ → List Bytes → Outcome (List FreedPart)
free_strings zero strings = ok []
free_strings (suc n) [] = fault
free_strings (suc n) (s ∷ strings) = free_strings n strings >>= λ others. ok (text s ∷ others)

unfoldable free_str_entry : Option Bytes → List FreedPart
free_str_entry none = []
free_str_entry (some s) = text s ∷ []

unfoldable free_str_array_entry : ℕ → Option (List Bytes) → Outcome (List FreedPart)
unfolding free_strings
free_str_array_entry array_size none = ok []
free_str_array_entry array_size (some strings) =
    free_strings array_size strings >>= λ parts. ok (parts ++ array ∷ [])

unfoldable pub free_grammar_entry_t : Option GrammarEntry → Outcome (List FreedPart)
unfolding free_str_entry free_str_array_entry
free_grammar_entry_t none = ok []
free_grammar_entry_t (some entry) =
    free_str_array_entry entry.array_size entry.str_array_entry >>= λ parts.
    ok (free_str_entry entry.str_entry ++ (parts ++ whole ∷ []))

free_strings-all :
    (strings : List Bytes) → free_strings (length strings) strings ≡ ok (map text strings)
unfolding free_strings
free_strings-all [] = refl
free_strings-all (s ∷ strings) = rw (free_strings-all strings)

-- The texts of an entry.
abbrev texts : GrammarEntry → List Bytes
texts entry = elim entry.str_entry [
  | some s ↦ s ∷ []
  | none ↦ elim entry.str_array_entry [ none ↦ [] | some strings ↦ strings ]
]

-- Whether an array is among what an entry owns.
abbrev arrays : GrammarEntry → List FreedPart
arrays entry = elim entry.str_array_entry [ none ↦ [] | some strings ↦ array ∷ [] ]

-- A well-formed entry is freed without a fault: first its texts, each once and in their order, then
-- the array that holds them, where it has one, and the entry last.
pub free_grammar_entry_t_lem :
    (entry : GrammarEntry)
    → IsWellFormed entry
    → free_grammar_entry_t (some entry)
      ≡ ok (map text (texts entry) ++ (arrays entry ++ whole ∷ []))
unfolding free_grammar_entry_t
free_grammar_entry_t_lem entry (of_string s e) = rw e refl
free_grammar_entry_t_lem entry (of_array strings e) =
    rw (e, free_strings-all strings)
      (ap ok (append_assoc (map text strings) (array ∷ []) (whole ∷ [])))
free_grammar_entry_t_lem entry (of_bytes bytes e) = rw e refl
free_grammar_entry_t_lem entry (of_function f e) = rw e refl

module _ (H : HashTable) where
  -- The values that `g_hash_table_destroy` drops, in the order of the table's keys; keys are not freed.
  unfoldable drop_values : Grammar H → List Bytes → Outcome (List FreedPart)
  unfolding free_grammar_entry_t
  drop_values grammar [] = ok []
  drop_values grammar (key ∷ keys) = free_grammar_entry_t (H.lookup grammar key) >>= λ first.
      drop_values grammar keys >>= λ others. ok (first ++ others)

  unfoldable pub free_grammar : Option (Grammar H) → Outcome (List FreedPart)
  unfolding drop_values
  free_grammar none = ok []
  free_grammar (some grammar) = drop_values grammar (H.keys grammar)

  -- The nodes behind the first, and their grammars, stay; the node itself is not listed.
  unfoldable pub free_environment : Environment H → Outcome (List FreedPart)
  unfolding free_grammar
  free_environment [] = ok []
  free_environment (grammar ∷ next) = free_grammar (some grammar)

  drop_values_lem :
      (grammar : Grammar H) (keys : List Bytes)
      → AllWellFormed H grammar
      → (parts : List FreedPart) × (drop_values grammar keys ≡ ok parts)
  unfolding drop_values free_grammar_entry_t
  drop_values_lem grammar [] w = ([], refl)
  drop_values_lem grammar (key ∷ keys) w =
      let (others, run) = drop_values_lem grammar keys w in
      elim (Option-cases (H.lookup grammar key)) [
        | inl absent ↦ (others, rw (absent, run) refl)
        | inr (entry, found) ↦
            let first = map text (texts entry) ++ (arrays entry ++ whole ∷ []) in
            (
              first ++ others,
              rw (found, free_grammar_entry_t_lem entry (w key entry found), run) refl,
            )
      ]

  -- An environment of well-formed entries is freed without a fault.
  pub free_environment_lem :
      (env : Environment H)
      → AreTyped H env
      → (parts : List FreedPart) × (free_environment env ≡ ok parts)
  unfolding free_environment
  free_environment_lem [] w = ([], refl)
  free_environment_lem (grammar ∷ next) (w, _) = drop_values_lem grammar (H.keys grammar) w
