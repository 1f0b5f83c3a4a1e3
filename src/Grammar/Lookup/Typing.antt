-- ===== src/Grammar/Lookup/Typing.antt =====
-- Environments in which every entry of every grammar is well formed.
use amqpgram.Base.{
  ◌≡◌, arith, [], ◌∷◌, Option, none, some, Bytes, All, str_eq, Bool-cases, Option-cases, inl, inr,
}
use amqpgram.Base.Outcome.{ok}
use amqpgram.Grammar.{GrammarEntry}
use amqpgram.Grammar.Table.{HashTable}
use amqpgram.Grammar.Entries.{IsWellFormed}
use amqpgram.Grammar.Lookup.{Grammar, Environment, environment_lookup, grammar_insert}
use amqpgram.Grammar.Lookup.Laws.{AllWellFormed, environment_lookup-cons}

-- A value is NULL, or an entry that is well formed.
abbrev pub IsValue : Option GrammarEntry → Type 0
IsValue none = Unit
IsValue (some entry) = IsWellFormed entry

module _ (H : HashTable) where
  open H use {lookup, lookup-insert}

  abbrev pub AreTyped : Environment H → Type 0
  AreTyped env = All (AllWellFormed H) env

  pub grammar_insert-keeps :
      (g : Grammar H) (k : Bytes) (value : Option GrammarEntry)
      → AllWellFormed H g
      → IsValue value
      → AllWellFormed H (grammar_insert H g k value)
  unfolding grammar_insert
  grammar_insert-keeps g k value w v j e found = elim (Bool-cases (str_eq k j)) [
    | inl same ↦
        let same_value : value ≡ some e = ground (arith, lookup-insert g k value j) in
        rw same_value at v
    | inr other ↦ w j e (ground (arith, lookup-insert g k value j))
  ]

  pub environment_lookup-IsValue :
      (env : Environment H) (k : Bytes) (value : Option GrammarEntry)
      → AreTyped env
      → environment_lookup H env k ≡ ok value
      → IsValue value
  environment_lookup-IsValue [] k value w e =
      let absent : value ≡ none = unfold environment_lookup in ground (arith, e) in rw absent tt
  environment_lookup-IsValue (g ∷ env) k value (wg, w) e =
      let run = rw (environment_lookup-cons H g env k wg) at e in
      elim (Option-cases (lookup g k)) [
        | inl absent ↦ environment_lookup-IsValue env k value w (rw absent at run)
        | inr (entry, found) ↦
            let same = rw found at run in
            let present : value ≡ some entry = ground (arith, same) in rw present (wg k entry found)
      ]
