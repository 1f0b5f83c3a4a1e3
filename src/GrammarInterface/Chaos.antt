-- ===== src/GrammarInterface/Chaos.antt =====
-- What `overwrite_rule_with_chaos` makes of a rule.
use amqpgram.Base.{
  ℕ, zero, suc, ◌%◌, ◌≡◌, ◌≤◌, ◌<◌, refl, arith, List, [], ◌∷◌, ◌++◌, some, Bytes, Bool, ltb, ◌==◌,
  if◌then◌else◌, str_eq, get_elem?,
}
use native.Mathlib.Nat.{mod-lt}
use amqpgram.Base.Outcome.{ok}
use amqpgram.Grammar.{GrammarEntry}
use amqpgram.Grammar.Entries.{IsWellFormed, of_array, array_value, new_str_array_grammar_entry_lem}
use amqpgram.Grammar.Table.{HashTable}
use amqpgram.Grammar.Lookup.{Grammar, Environment, environment_lookup}
use amqpgram.Grammar.Lookup.Laws.{
  AllWellFormed, environment_lookup-insert, grammar_insert-AllWellFormed,
}
use amqpgram.Terminals.{select_alternative_rule}
use amqpgram.GrammarInterface.{
  chaos_prefix, order_prefix, rule_array, fill_chaos, insert_alternatives,
  overwrite_rule_with_chaos,
}

-- Whether a choice with result `roll` of `rand()` is the chaotic one.
abbrev pub is_chaotic : ℕ → ℕ → Bool
is_chaotic rule_chaos roll = if rule_chaos == 2 then roll % 2 == 1 else ltb (roll % 4) rule_chaos

-- The alternatives of a rule at each RULE_CHAOS between 1 and 3.
abbrev pub alternatives : ℕ → Bytes → List Bytes
alternatives rule_chaos rule =
    if rule_chaos == 2
    then (order_prefix ++ rule) ∷ (chaos_prefix ++ rule) ∷ []
    else if rule_chaos == 1
    then (chaos_prefix ++ rule)
      ∷ (order_prefix ++ rule)
      ∷ (order_prefix ++ rule)
      ∷ (order_prefix ++ rule)
      ∷ []
    else (chaos_prefix ++ rule)
      ∷ (chaos_prefix ++ rule)
      ∷ (chaos_prefix ++ rule)
      ∷ (order_prefix ++ rule)
      ∷ []

choose_of_two :
    (a b : Bytes) (i : ℕ) → i < 2 → get_elem? (a ∷ b ∷ []) i ≡ some (if i == 1 then b else a)
choose_of_two a b zero h = refl
choose_of_two a b (suc zero) h = refl
choose_of_two a b (suc (suc i)) h = absurd (omega arith)

choose_of_four :
    (a b : Bytes) (rule_chaos i : ℕ)
    → 1 ≤ rule_chaos
    → rule_chaos ≤ 3
    → i < 4
    → get_elem? (fill_chaos rule_chaos a (b ∷ b ∷ b ∷ b ∷ [])) i
      ≡ some (if ltb i rule_chaos then a else b)
unfolding fill_chaos
choose_of_four a b zero i h h' l = absurd (omega arith)
choose_of_four a b (suc zero) zero h h' l = refl
choose_of_four a b (suc zero) (suc zero) h h' l = refl
choose_of_four a b (suc zero) (suc (suc zero)) h h' l = refl
choose_of_four a b (suc zero) (suc (suc (suc zero))) h h' l = refl
choose_of_four a b (suc (suc zero)) zero h h' l = refl
choose_of_four a b (suc (suc zero)) (suc zero) h h' l = refl
choose_of_four a b (suc (suc zero)) (suc (suc zero)) h h' l = refl
choose_of_four a b (suc (suc zero)) (suc (suc (suc zero))) h h' l = refl
choose_of_four a b (suc (suc (suc zero))) zero h h' l = refl
choose_of_four a b (suc (suc (suc zero))) (suc zero) h h' l = refl
choose_of_four a b (suc (suc (suc zero))) (suc (suc zero)) h h' l = refl
choose_of_four a b (suc (suc (suc zero))) (suc (suc (suc zero))) h h' l = refl
choose_of_four a b (suc (suc (suc (suc c)))) i h h' l = absurd (omega arith)
choose_of_four a b c (suc (suc (suc (suc i)))) h h' l = absurd (omega arith)

-- The choice among the alternatives that RULE_CHAOS between 1 and 3 gives is the chaotic rule for
-- the results of `rand()` that `is_chaotic` tells, and the ordered rule for the others: for 1, 2
-- and 3 of four results in a row.
pub select_alternative_rule-alternatives :
    (rule_chaos roll : ℕ) (rule : Bytes)
    → 1 ≤ rule_chaos
    → rule_chaos ≤ 3
    → select_alternative_rule (array_value (alternatives rule_chaos rule)) roll
      ≡ ok
          (some (if is_chaotic rule_chaos roll then chaos_prefix ++ rule else order_prefix ++ rule))
unfolding select_alternative_rule rule_array
select_alternative_rule-alternatives zero roll rule h h' = absurd (omega arith)
select_alternative_rule-alternatives (suc zero) roll rule h h' = rw (
    choose_of_four (chaos_prefix ++ rule) (order_prefix ++ rule) 1 (roll % 4) h h'
      (mod-lt roll (omega arith)))
select_alternative_rule-alternatives (suc (suc zero)) roll rule h h' = rw (
    choose_of_two (order_prefix ++ rule) (chaos_prefix ++ rule) (roll % 2)
      (mod-lt roll (omega arith)))
select_alternative_rule-alternatives (suc (suc (suc zero))) roll rule h h' = rw (
    choose_of_four (chaos_prefix ++ rule) (order_prefix ++ rule) 3 (roll % 4) h h'
      (mod-lt roll (omega arith)))
select_alternative_rule-alternatives (suc (suc (suc (suc c)))) roll rule h h' = absurd (omega arith)

module _ (H : HashTable) where
  -- What an environment of the grammar `changed` before `env` says of each rule, where three rules
  -- of `target` were given values.
  abbrev pub Answers :
      Grammar H
      → Grammar H
      → Environment H
      → Bytes
      → GrammarEntry
      → GrammarEntry
      → GrammarEntry
      → Type 0
  Answers changed target env rule choice ordered chaotic =
      (j : Bytes)
      → environment_lookup H (changed ∷ env) j ≡ (
          if str_eq rule j
          then ok (some choice)
          else if str_eq (order_prefix ++ rule) j
          then ok (some ordered)
          else if str_eq (chaos_prefix ++ rule) j
          then ok (some chaotic)
          else environment_lookup H (target ∷ env) j)

  insert_alternatives_lem :
      (target : Grammar H) (environment env : Environment H) (rule : Bytes)
      (ordered old : GrammarEntry) (array : List Bytes)
      → AllWellFormed H target
      → IsWellFormed ordered
      → IsWellFormed old
      → environment_lookup H environment rule ≡ ok (some old)
      → (changed : Grammar H) × (insert_alternatives H target environment rule ordered array
          ≡ ok changed)
        × AllWellFormed H changed
        × Answers changed target env rule (array_value array) ordered old
  unfolding insert_alternatives
  insert_alternatives_lem target environment env rule ordered old array w wo wf found =
      let wa : IsWellFormed (array_value array) = of_array array refl in
      let w₁ = grammar_insert-AllWellFormed H target (chaos_prefix ++ rule) old w wf in
      let w₂ = grammar_insert-AllWellFormed H _ (order_prefix ++ rule) ordered w₁ wo in
      (
        _,
        rw (found, new_str_array_grammar_entry_lem array),
        grammar_insert-AllWellFormed H _ rule (array_value array) w₂ wa,
        λ j. rw (
          environment_lookup-insert H _ env rule j (array_value array) w₂ wa,
          environment_lookup-insert H _ env (order_prefix ++ rule) j ordered w₁ wo,
          environment_lookup-insert H target env (chaos_prefix ++ rule) j old w wf,
        ),
      )

  -- With RULE_CHAOS 1, 2 or 3, for a rule that the environment has, the replacement yields a grammar
  -- of well-formed entries in which the rule is a choice among the alternatives of that RULE_CHAOS,
  -- its name behind "fuzzer-order-" is the new entry, its name behind "fuzzer-chaos-" is what the
  -- environment had for the rule, and every other rule is as it was.
  pub overwrite_rule_with_chaos_lem :
      (rule_chaos : ℕ) (target : Grammar H) (environment env : Environment H) (rule : Bytes)
      (ordered old : GrammarEntry)
      → 1 ≤ rule_chaos
      → rule_chaos ≤ 3
      → AllWellFormed H target
      → IsWellFormed ordered
      → IsWellFormed old
      → environment_lookup H environment rule ≡ ok (some old)
      → (changed : Grammar H) × (overwrite_rule_with_chaos H rule_chaos
            (some target)
            environment
            rule
            ordered
          ≡ ok changed)
        × AllWellFormed H changed
        × Answers changed target env rule (array_value (alternatives rule_chaos rule)) ordered old
  unfolding overwrite_rule_with_chaos
  overwrite_rule_with_chaos_lem zero target environment env rule ordered old h h' =
      absurd (omega arith)
  overwrite_rule_with_chaos_lem (suc zero) target environment env rule ordered old h h' =
      insert_alternatives_lem target environment env rule ordered old _
  overwrite_rule_with_chaos_lem (suc (suc zero)) target environment env rule ordered old h h' =
      insert_alternatives_lem target environment env rule ordered old _
  overwrite_rule_with_chaos_lem (suc (suc (suc zero))) target environment env rule ordered old h
        h' =
      insert_alternatives_lem target environment env rule ordered old _
  overwrite_rule_with_chaos_lem (suc (suc (suc (suc c)))) target environment env rule ordered old h
        h' =
      absurd (omega arith)
