-- ===== src/GrammarInterface/Old.antt =====
-- `old_overwrite_rule_with_chaos` of fuzzer/Grammar_Interface.c, which no other function calls, beside
-- the function that took its place.
use amqpgram.Base.{
  arith, ℕ, zero, suc, ◌+◌, ◌-◌, ◌≡◌, ◌==◌, if◌then◌else◌, refl, List, [], ◌∷◌, ◌++◌, Option, none,
  some, Bytes, length, replicate,
}
use amqpgram.Base.Outcome.{Outcome, ok, fault, stuck, ◌>>=◌}
use amqpgram.Grammar.{GrammarEntry, deref, new_str_array_grammar_entry}
use amqpgram.Grammar.Table.{HashTable}
use amqpgram.Grammar.Lookup.{Grammar, environment_lookup, grammar_lookup, grammar_insert}
use amqpgram.Grammar.Lookup.Laws.{AllWellFormed, grammar_lookup-lookup}
use amqpgram.GrammarInterface.{
  chaos_prefix, order_prefix, insert_alternatives, overwrite_rule_with_chaos,
}

-- `array[i] = v`, where `i` is below the length.
abbrev pub set {ℓ} : {A : Type ℓ} → List A → ℕ → A → List A
set [] i v = []
set (x ∷ xs) zero v = v ∷ xs
set (x ∷ xs) (suc i) v = x ∷ set xs i v

-- The loop of the cases 1 and 3, from both ends of the array.
unfoldable pub fill_both : ℕ → ℕ → Bytes → Bytes → List (Option Bytes) → List (Option Bytes)
fill_both zero i order_rule chaos_rule rules = rules
fill_both (suc left) i order_rule chaos_rule rules =
    fill_both left (i + 1) order_rule chaos_rule
      (set (set rules i (some order_rule)) (4 - i - 1) (some chaos_rule))

-- `calloc(4, …)`, all NULL, and the loop.
unfoldable pub old_rule_array : ℕ → Bytes → List (Option Bytes)
unfolding fill_both
old_rule_array rule_chaos rule =
    fill_both (4 - rule_chaos) 0 (order_prefix ++ rule) (chaos_prefix ++ rule) (replicate 4 none)

-- The strings of an array, each of which is read.
unfoldable pub read_strings : List (Option Bytes) → Outcome (List Bytes)
read_strings [] = ok []
read_strings (s ∷ strings) =
    deref s >>= λ text. read_strings strings >>= λ others. ok (text ∷ others)

module _ (H : HashTable) where
  unfoldable pub old_insert_alternatives :
      Grammar H → Bytes → GrammarEntry → List (Option Bytes) → Outcome (Grammar H)
  unfolding read_strings
  old_insert_alternatives grammar rule ordered_rule rules =
      grammar_lookup H grammar rule >>= λ found. read_strings rules >>= λ alternatives.
      new_str_array_grammar_entry alternatives (length alternatives) >>= λ entry.
      let with_chaos = grammar_insert H grammar (chaos_prefix ++ rule) found in
      let with_order = grammar_insert H with_chaos (order_prefix ++ rule) (some ordered_rule) in
      ok (grammar_insert H with_order rule (some entry))

  -- `switch (RULE_CHAOS)`
  unfoldable pub old_overwrite_rule_with_chaos :
      ℕ → Grammar H → Bytes → GrammarEntry → Outcome (Grammar H)
  unfolding old_insert_alternatives old_rule_array
  old_overwrite_rule_with_chaos zero grammar rule ordered_rule =
      ok (grammar_insert H grammar rule (some ordered_rule))
  old_overwrite_rule_with_chaos (suc zero) grammar rule ordered_rule =
      old_insert_alternatives grammar rule ordered_rule (old_rule_array 1 rule)
  old_overwrite_rule_with_chaos (suc (suc zero)) grammar rule ordered_rule =
      old_insert_alternatives grammar rule ordered_rule
        (some (order_prefix ++ rule) ∷ some (chaos_prefix ++ rule) ∷ [])
  old_overwrite_rule_with_chaos (suc (suc (suc zero))) grammar rule ordered_rule =
      old_insert_alternatives grammar rule ordered_rule (old_rule_array 3 rule)
  old_overwrite_rule_with_chaos (suc (suc (suc (suc _)))) grammar rule ordered_rule = ok grammar

  alone : (g : Grammar H) (key : Bytes) → environment_lookup H (g ∷ []) key ≡ grammar_lookup H g key
  unfolding environment_lookup
  alone g key = found (grammar_lookup H g key)
    where
      found :
          (o : Outcome (Option GrammarEntry))
          → (o >>= λ result. elim result [ none ↦ ok none | some entry ↦ ok (some entry) ]) ≡ o
      found (ok none) = refl
      found (ok (some entry)) = refl
      found fault = refl
      found stuck = refl

  -- In a grammar of well-formed entries the old function does what the new one does with the grammar alone
  -- for the environment, but for RULE_CHAOS 1, where it makes two of the four alternatives chaotic, and 3,
  -- where it reads a string through NULL.
  pub old_overwrite_rule_with_chaos_lem :
      (rule_chaos : ℕ) (grammar : Grammar H) (rule : Bytes) (ordered_rule : GrammarEntry)
      → AllWellFormed H grammar
      → old_overwrite_rule_with_chaos rule_chaos grammar rule ordered_rule ≡ (
          if rule_chaos == 1
          then insert_alternatives H grammar (grammar ∷ []) rule ordered_rule (
              (order_prefix ++ rule)
              ∷ (chaos_prefix ++ rule)
              ∷ (order_prefix ++ rule)
              ∷ (chaos_prefix ++ rule)
              ∷ [])
          else if rule_chaos == 3
          then fault
          else overwrite_rule_with_chaos H rule_chaos
              (some grammar)
              (grammar ∷ [])
              rule
              ordered_rule)
  unfolding old_overwrite_rule_with_chaos overwrite_rule_with_chaos insert_alternatives
  old_overwrite_rule_with_chaos_lem zero grammar rule ordered_rule w = refl
  old_overwrite_rule_with_chaos_lem (suc zero) grammar rule ordered_rule w = rw (alone grammar rule)
  old_overwrite_rule_with_chaos_lem (suc (suc zero)) grammar rule ordered_rule w =
      rw (alone grammar rule)
  old_overwrite_rule_with_chaos_lem (suc (suc (suc zero))) grammar rule ordered_rule w =
      rw (grammar_lookup-lookup H grammar rule w)
  old_overwrite_rule_with_chaos_lem (suc (suc (suc (suc c)))) grammar rule ordered_rule w =
      ground arith
