-- ===== src/Grammar/Entries.antt =====
-- The constructor functions build well-formed entries, and an entry's copy is the entry.
use amqpgram.Base.{◌≡◌, refl, List, [], ◌∷◌, none, some, Bytes, length}
use amqpgram.Base.Outcome.{ok}
use amqpgram.Base.Memory.{load-all}
use amqpgram.Grammar.{
  string, string_array, byte_array, function, GenFunction, GrammarEntry, copy_strings,
  new_string_grammar_entry, new_str_array_grammar_entry, new_byte_array_grammar_entry,
  new_function_grammar_entry, copy_grammar_entry_t,
}

-- The well-formed entries: the fields that an entry's type uses are set, the others NULL or 0.
abbrev pub string_value : Bytes → GrammarEntry
string_value s = record {
  entry_type = string;
  str_entry = some s;
  str_array_entry = none;
  array_size = 0;
  generator_function = none;
}

abbrev pub array_value : List Bytes → GrammarEntry
array_value array = record {
  entry_type = string_array;
  str_entry = none;
  str_array_entry = some array;
  array_size = length array;
  generator_function = none;
}

abbrev pub bytes_value : Bytes → GrammarEntry
bytes_value bytes = record {
  entry_type = byte_array;
  str_entry = some bytes;
  str_array_entry = none;
  array_size = length bytes;
  generator_function = none;
}

abbrev pub function_value : GenFunction → GrammarEntry
function_value f = record {
  entry_type = function;
  str_entry = none;
  str_array_entry = none;
  array_size = 0;
  generator_function = some f;
}

pub data IsWellFormed (entry : GrammarEntry) : Type 0 where
  of_string : (s : Bytes) → entry ≡ string_value s → IsWellFormed entry
  of_array : (array : List Bytes) → entry ≡ array_value array → IsWellFormed entry
  of_bytes : (bytes : Bytes) → entry ≡ bytes_value bytes → IsWellFormed entry
  of_function : (f : GenFunction) → entry ≡ function_value f → IsWellFormed entry

pub copy_strings-all : (array : List Bytes) → copy_strings (length array) array ≡ ok array
unfolding copy_strings
copy_strings-all [] = refl
copy_strings-all (s ∷ array) = rw (copy_strings-all array)

-- A copy of a well-formed entry is the entry.
pub copy_grammar_entry_t_lem :
    {entry : GrammarEntry}
    → IsWellFormed entry
    → copy_grammar_entry_t none (some entry) ≡ ok (some entry)
unfolding copy_grammar_entry_t
copy_grammar_entry_t_lem (of_string s e) = rw e
copy_grammar_entry_t_lem (of_array array e) = rw e (rw (copy_strings-all array))
copy_grammar_entry_t_lem (of_bytes bytes e) = rw e (rw (load-all bytes))
copy_grammar_entry_t_lem (of_function f e) = rw e

-- Each constructor function that is given strings of the stated sizes builds a well-formed entry.
module _ (s : Bytes) where
  pub new_string_grammar_entry_lem : new_string_grammar_entry s ≡ ok (string_value s)
  unfolding new_string_grammar_entry
  new_string_grammar_entry_lem = refl

  pub new_byte_array_grammar_entry_lem :
      new_byte_array_grammar_entry s (length s) ≡ ok (bytes_value s)
  unfolding new_byte_array_grammar_entry
  new_byte_array_grammar_entry_lem = rw (load-all s)

pub new_str_array_grammar_entry_lem :
    (array : List Bytes) → new_str_array_grammar_entry array (length array) ≡ ok (array_value array)
unfolding new_str_array_grammar_entry
new_str_array_grammar_entry_lem array = rw (copy_strings-all array)

pub new_function_grammar_entry_lem :
    (f : GenFunction) → new_function_grammar_entry f ≡ ok (function_value f)
unfolding new_function_grammar_entry
new_function_grammar_entry_lem f = refl
