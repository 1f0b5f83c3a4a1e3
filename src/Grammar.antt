-- ===== src/Grammar.antt =====
-- grammar/grammar-parser.c: the entries of a grammar, grammars and environments.
-- A pointer is an `Option`, with `none` for NULL; freeing memory has no effect here
-- (`Grammar.Releasing` has what is freed).
pub mod Table
pub mod Entries
pub mod Releasing
pub mod Printing
pub mod Lookup
pub mod Parser
use amqpgram.Base.{
  ℕ, zero, suc, Bool, List, [], ◌∷◌, Option, none, some, Bytes, ◌==◌, if◌then◌else◌,
}
use amqpgram.Base.Outcome.{Outcome, ok, fault, ◌>>=◌, load}

-- `enum value_type`
pub data ValueType : Type 0 where
  string string_array byte_array function : ValueType

-- The functions of type `gen_function` that the program has (fuzzer/Connection.c).
pub data GenFunction : Type 0 where
  shortstring_generator longstring_generator : GenFunction

-- `grammar_entry_t`
pub record GrammarEntry : Type 0 where
  pub entry_type : ValueType
  pub str_entry : Option Bytes
  pub str_array_entry : Option (List Bytes)
  pub array_size : ℕ
  pub generator_function : Option GenFunction

-- The first `n` strings of an array are copied.
unfoldable pub copy_strings : ℕ → List Bytes → Outcome (List Bytes)
copy_strings zero array = ok []
copy_strings (suc n) [] = fault
copy_strings (suc n) (s ∷ array) = copy_strings n array >>= λ copies. ok (s ∷ copies)

-- The string that a pointer holds; NULL faults.
abbrev pub deref {ℓ} : {A : Type ℓ} → Option A → Outcome A
deref none = fault
deref (some a) = ok a

unfoldable pub new_grammar_entry_t :
    ValueType → Option Bytes → Option (List Bytes) → ℕ → Option GenFunction → Outcome GrammarEntry
unfolding copy_strings
new_grammar_entry_t string str_entry str_array_entry array_size generator_function =
    deref str_entry >>= λ s. ok (record {
      entry_type = string;
      str_entry = some s;
      str_array_entry = none;
      array_size = 0;
      generator_function = none;
    })
new_grammar_entry_t string_array str_entry str_array_entry array_size generator_function = do
  array ← deref str_array_entry
  copies ← copy_strings array_size array
  ok (record {
    entry_type = string_array;
    str_entry = none;
    str_array_entry = some copies;
    array_size = array_size;
    generator_function = none;
  })
new_grammar_entry_t byte_array str_entry str_array_entry array_size generator_function = do
  bytes ← deref str_entry
  copy ← load bytes 0 array_size
  ok (record {
    entry_type = byte_array;
    str_entry = some copy;
    str_array_entry = none;
    array_size = array_size;
    generator_function = none;
  })
new_grammar_entry_t function str_entry str_array_entry array_size generator_function = ok (record {
  entry_type = function;
  str_entry = none;
  str_array_entry = none;
  array_size = 0;
  generator_function = generator_function;
})

unfoldable pub new_string_grammar_entry : Bytes → Outcome GrammarEntry
unfolding new_grammar_entry_t
new_string_grammar_entry str_entry = new_grammar_entry_t string (some str_entry) none 0 none

unfoldable pub new_str_array_grammar_entry : List Bytes → ℕ → Outcome GrammarEntry
unfolding new_grammar_entry_t
new_str_array_grammar_entry str_array_entry array_size =
    new_grammar_entry_t string_array none (some str_array_entry) array_size none

unfoldable pub new_byte_array_grammar_entry : Bytes → ℕ → Outcome GrammarEntry
unfolding new_grammar_entry_t
new_byte_array_grammar_entry byte_array_entry array_size =
    new_grammar_entry_t byte_array (some byte_array_entry) none array_size none

unfoldable pub new_function_grammar_entry : GenFunction → Outcome GrammarEntry
unfolding new_grammar_entry_t
new_function_grammar_entry generator_function =
    new_grammar_entry_t function none none 0 (some generator_function)

-- What `calloc` gives.
abbrev pub zeroed_entry : GrammarEntry
zeroed_entry = record {
  entry_type = string;
  str_entry = none;
  str_array_entry = none;
  array_size = 0;
  generator_function = none;
}

-- `str_entry` of the copy, where the source's is not NULL.
unfoldable pub copy_str_entry : ValueType → ℕ → Option Bytes → Option Bytes → Outcome (Option Bytes)
copy_str_entry entry_type array_size none dest = ok dest
copy_str_entry string array_size (some s) dest = ok (some s)
copy_str_entry byte_array array_size (some s) dest = load s 0 array_size >>= λ copy. ok (some copy)
copy_str_entry entry_type array_size (some s) dest = ok dest

unfoldable pub copy_str_array_entry :
    ℕ → Option (List Bytes) → Option (List Bytes) → Outcome (Option (List Bytes))
unfolding copy_strings
copy_str_array_entry array_size none dest = ok dest
copy_str_array_entry array_size (some array) dest =
    copy_strings array_size array >>= λ copies. ok (some copies)

abbrev pub dest_or_zeroed : Option GrammarEntry → GrammarEntry
dest_or_zeroed none = zeroed_entry
dest_or_zeroed (some dest) = dest

unfoldable pub copy_grammar_entry_t :
    Option GrammarEntry → Option GrammarEntry → Outcome (Option GrammarEntry)
unfolding copy_str_entry copy_str_array_entry
copy_grammar_entry_t dest none = ok none
copy_grammar_entry_t dest (some src) = do
  let target = dest_or_zeroed dest
  str_entry ← copy_str_entry src.entry_type src.array_size src.str_entry target.str_entry
  array ← copy_str_array_entry src.array_size src.str_array_entry target.str_array_entry
  ok (
      some (record {
        entry_type = src.entry_type;
        str_entry = str_entry;
        str_array_entry = array;
        array_size = src.array_size;
        generator_function = src.generator_function;
      }))
