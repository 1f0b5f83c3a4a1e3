-- ===== src/Grammar/Lookup/Laws.antt =====
-- What is found in a grammar and in an environment.
use amqpgram.Base.{
  ◌≡◌, refl, subst, ◌∙◌, arith, List, [], ◌∷◌, none, some, if◌then◌else◌, Bytes, str_eq, str_eq→eq,
  Bool-cases, Option-cases, inl, inr,
}
use amqpgram.Base.Outcome.{ok}
use amqpgram.Grammar.{GrammarEntry, copy_grammar_entry_t}
use amqpgram.Grammar.Table.{HashTable, member}
use amqpgram.Grammar.Entries.{IsWellFormed, copy_grammar_entry_t_lem}
use amqpgram.Grammar.Lookup.{
  Grammar, Environment, grammar_lookup, environment_lookup, grammar_insert, copy_keys, copy_grammar,
}

copy-none : copy_grammar_entry_t none none ≡ ok none
unfolding copy_grammar_entry_t
copy-none = refl

module _ (H : HashTable) where
  open H use {
    lookup, insert, keys, has, new_table, lookup-new_table, lookup-insert, has-lookup, member-keys,
  }

  -- Every entry of a grammar is well formed.
  abbrev pub AllWellFormed : Grammar H → Type 0
  AllWellFormed g = (k : Bytes) (e : GrammarEntry) → lookup g k ≡ some e → IsWellFormed e

  pub grammar_lookup-lookup :
      (g : Grammar H) (k : Bytes) → AllWellFormed g → grammar_lookup H g k ≡ ok (lookup g k)
  unfolding grammar_lookup
  grammar_lookup-lookup g k w = elim (Option-cases (lookup g k)) [
    | inl absent ↦ rw absent copy-none
    | inr (e, found) ↦ rw found (copy_grammar_entry_t_lem (w k e found))
  ]

  pub grammar_insert-AllWellFormed :
      (g : Grammar H) (k : Bytes) (e : GrammarEntry)
      → AllWellFormed g
      → IsWellFormed e
      → AllWellFormed (grammar_insert H g k (some e))
  unfolding grammar_insert
  grammar_insert-AllWellFormed g k e w we j e' found = elim (Bool-cases (str_eq k j)) [
    | inl same ↦
        let same_entry : e ≡ e' = ground (arith, lookup-insert g k (some e) j) in
        subst IsWellFormed same_entry we
    | inr other ↦ w j e' (ground (arith, lookup-insert g k (some e) j))
  ]

  pub create_AllWellFormed : AllWellFormed new_table
  create_AllWellFormed k e found = absurd (ground (arith, lookup-new_table k))

  pub environment_lookup-cons :
      (g : Grammar H) (env : Environment H) (k : Bytes)
      → AllWellFormed g
      → environment_lookup H (g ∷ env) k
        ≡ elim (lookup g k) [ none ↦ environment_lookup H env k | some e ↦ ok (some e) ]
  unfolding environment_lookup
  environment_lookup-cons g env k w = rw (grammar_lookup-lookup g k w)

  -- Where the entries of an environment's first grammar are well formed, inserting a well-formed
  -- entry into that grammar gives the inserted key this entry, whatever the environment had for it,
  -- and changes no other key.
  pub environment_lookup-insert :
      (g : Grammar H) (env : Environment H) (k j : Bytes) (e : GrammarEntry)
      → AllWellFormed g
      → IsWellFormed e
      → environment_lookup H (grammar_insert H g k (some e) ∷ env) j
        ≡ (if str_eq k j then ok (some e) else environment_lookup H (g ∷ env) j)
  environment_lookup-insert g env k j e w we =
      environment_lookup-cons (grammar_insert H g k (some e)) env j
        (grammar_insert-AllWellFormed g k e w we)
      ∙ unfold grammar_insert in
        rw (lookup-insert g k (some e) j, environment_lookup-cons g env j w) (ground arith)

  copy_keys_lem :
      (g : Grammar H) (ks : List Bytes) (copied : Grammar H)
      → AllWellFormed g
      → (copied' : Grammar H) × (copy_keys H g ks copied ≡ ok copied')
        × ((j : Bytes) → lookup copied' j ≡ (if member j ks then lookup g j else lookup copied j))
  unfolding copy_keys
  copy_keys_lem g [] copied w = (copied, refl, λ j. refl)
  copy_keys_lem g (k ∷ ks) copied w =
      let (copied', run, same) = copy_keys_lem g ks (insert copied k (lookup g k)) w in
      (
        copied',
        rw (grammar_lookup-lookup g k w) run,
        λ j. ground (arith, same j, lookup-insert copied k (lookup g k) j, str_eq→eq k j),
      )

  -- The copy of a well-formed grammar exists and answers every lookup as the grammar does.
  pub copy_grammar_lem :
      (g : Grammar H)
      → AllWellFormed g
      → (copied : Grammar H) × (copy_grammar H g ≡ ok copied)
        × ((k : Bytes) → grammar_lookup H copied k ≡ grammar_lookup H g k)
  unfolding copy_grammar grammar_lookup
  copy_grammar_lem g w =
      let (copied, run, same) = copy_keys_lem g (keys g) new_table w in
      (
        copied,
        run,
        λ k. rw (same k, member-keys g k, lookup-new_table k) (ground (arith, has-lookup g k)),
      )
