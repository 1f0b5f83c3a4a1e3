-- ===== src/Grammar/Lookup.antt =====
-- Grammars and environments of grammar/grammar-parser.c, over a hash table.
pub mod Laws
pub mod Typing
use amqpgram.Base.{ℕ, List, [], ◌∷◌, Option, none, some, Bytes}
use amqpgram.Base.Outcome.{Outcome, ok, ◌>>=◌}
use amqpgram.Grammar.{GrammarEntry, copy_grammar_entry_t}
use amqpgram.Grammar.Table.{HashTable}

module _ (H : HashTable) where
  open H use {Table, new_table, lookup, insert, keys}

  abbrev pub Grammar : Type 0
  Grammar = Table

  -- The nodes of an `Environment`, first to last; NULL is the empty list.
  abbrev pub Environment : Type 0
  Environment = List Grammar

  unfoldable pub create_grammar : Grammar
  create_grammar = new_table

  unfoldable pub grammar_lookup : Grammar → Bytes → Outcome (Option GrammarEntry)
  grammar_lookup grammar key = copy_grammar_entry_t none (lookup grammar key)

  -- `while (result == NULL && local_environment != NULL)`
  unfoldable pub environment_lookup : Environment → Bytes → Outcome (Option GrammarEntry)
  unfolding grammar_lookup
  environment_lookup [] key = ok none
  environment_lookup (grammar ∷ next) key = do
    let later = environment_lookup next key
    result ← grammar_lookup grammar key
    elim result [ none ↦ later | some entry ↦ ok (some entry) ]

  unfoldable pub grammar_insert : Grammar → Bytes → Option GrammarEntry → Grammar
  grammar_insert grammar key value = insert grammar key value

  unfoldable pub copy_keys : Grammar → List Bytes → Grammar → Outcome Grammar
  unfolding grammar_lookup
  copy_keys to_copy [] copied = ok copied
  copy_keys to_copy (key ∷ keys) copied = do
    entry ← grammar_lookup to_copy key
    copy_keys to_copy keys (insert copied key entry)

  unfoldable pub copy_grammar : Grammar → Outcome Grammar
  unfolding copy_keys
  copy_grammar to_copy = copy_keys to_copy (keys to_copy) new_table

  unfoldable pub new_environment : Grammar → Environment → Environment
  new_environment grammar next = grammar ∷ next
