-- ===== src/GrammarInterface/Typing.antt =====
-- The replacement of rules keeps grammars well formed, at every RULE_CHAOS.
use amqpgram.Base.{ℕ, zero, suc, ◌≡◌, subst, arith, List, ◌∷◌, ◌++◌, some, Bytes, length, replicate}
use amqpgram.Base.Outcome.{ok, bind-eq-ok}
use amqpgram.Base.Random.{Rand, lift, bind-eq-ok as bind-eq-run, lift-eq-ok}
use amqpgram.Grammar.{
  GrammarEntry, new_str_array_grammar_entry, new_byte_array_grammar_entry, new_grammar_entry_t,
}
use amqpgram.Grammar.Entries.{IsWellFormed, of_array, of_bytes, new_str_array_grammar_entry_lem}
use amqpgram.Grammar.Table.{HashTable}
use amqpgram.Grammar.Lookup.{Grammar, Environment, environment_lookup, grammar_insert}
use amqpgram.Grammar.Lookup.Laws.{AllWellFormed}
use amqpgram.Grammar.Lookup.Typing.{AreTyped, grammar_insert-keeps, environment_lookup-IsValue}
use amqpgram.Base.Memory.{load-length}
use amqpgram.Base.Outcome.{load}
use amqpgram.Utils.{int_in_char}
use amqpgram.GrammarInterface.{
  overwrite_rule_set_length, chaos_prefix, order_prefix, insert_alternatives,
  overwrite_rule_with_chaos,
}

-- A new byte entry holds as many bytes as its size says.
pub new_byte_array_grammar_entry-IsWellFormed :
    (bytes : Bytes) (size : ℕ) (entry : GrammarEntry)
    → new_byte_array_grammar_entry bytes size ≡ ok entry
    → IsWellFormed entry
unfolding new_byte_array_grammar_entry new_grammar_entry_t
new_byte_array_grammar_entry-IsWellFormed bytes size entry e =
    let (copy, loaded, built) = bind-eq-ok (load bytes 0 size) _ e in
    of_bytes copy (ground (arith, built, load-length bytes 0 size copy loaded))

module _ (H : HashTable) where
  insert_alternatives-AllWellFormed :
      (target : Grammar H) (env : Environment H) (rule : Bytes) (ordered : GrammarEntry)
      (array : List Bytes) (changed : Grammar H)
      → AllWellFormed H target
      → AreTyped H env
      → IsWellFormed ordered
      → insert_alternatives H target env rule ordered array ≡ ok changed
      → AllWellFormed H changed
  unfolding insert_alternatives
  insert_alternatives-AllWellFormed target env rule ordered array changed w we wo e =
      let (found, looked, e₁) = bind-eq-ok (environment_lookup H env rule) _ e in
      let (entry, built, last) =
        bind-eq-ok (new_str_array_grammar_entry array (length array)) _ e₁ in
      let g₁ = grammar_insert H target (chaos_prefix ++ rule) found in
      let g₂ = grammar_insert H g₁ (order_prefix ++ rule) (some ordered) in
      let put : grammar_insert H g₂ rule (some entry) ≡ changed = ground (arith, last) in
      let w₁ =
        grammar_insert-keeps H target (chaos_prefix ++ rule) found w
          (environment_lookup-IsValue H env rule found we looked) in
      let w₂ = grammar_insert-keeps H g₁ (order_prefix ++ rule) (some ordered) w₁ wo in
      subst (AllWellFormed H) put (
        grammar_insert-keeps H g₂ rule (some entry) w₂
          (of_array array (ground (arith, built, new_str_array_grammar_entry_lem array))))

  -- Every replacement, at any RULE_CHAOS, keeps a grammar well formed, if the environment and the
  -- new entry are.
  pub overwrite_rule_with_chaos-AllWellFormed :
      (rule_chaos : ℕ) (target : Grammar H) (env : Environment H) (rule : Bytes)
      (ordered : GrammarEntry) (changed : Grammar H)
      → AllWellFormed H target
      → AreTyped H env
      → IsWellFormed ordered
      → overwrite_rule_with_chaos H rule_chaos (some target) env rule ordered ≡ ok changed
      → AllWellFormed H changed
  unfolding overwrite_rule_with_chaos
  overwrite_rule_with_chaos-AllWellFormed zero target env rule ordered changed w we wo e =
      let put : grammar_insert H target rule (some ordered) ≡ changed = ground (arith, e) in
      subst (AllWellFormed H) put (grammar_insert-keeps H target rule (some ordered) w wo)
  overwrite_rule_with_chaos-AllWellFormed (suc zero) target env rule ordered changed w we wo e =
      insert_alternatives-AllWellFormed target env rule ordered _ changed w we wo e
  overwrite_rule_with_chaos-AllWellFormed (suc (suc zero)) target env rule ordered changed w we wo
        e =
      insert_alternatives-AllWellFormed target env rule ordered _ changed w we wo e
  overwrite_rule_with_chaos-AllWellFormed (suc (suc (suc zero))) target env rule ordered changed w
        we wo e =
      insert_alternatives-AllWellFormed target env rule ordered _ changed w we wo e
  overwrite_rule_with_chaos-AllWellFormed (suc (suc (suc (suc c)))) target env rule ordered changed
        w we wo e =
      let kept : target ≡ changed = ground (arith, e) in subst (AllWellFormed H) kept w

  pub overwrite_rule_set_length-AllWellFormed :
      (rule_chaos : ℕ) (decode : Bytes → Environment H → Rand Bytes)
      (rule_to_decode length_rule : Bytes) (length_size : ℕ) (g : Grammar H) (next : Environment H)
      (changed : Grammar H) (k k' : ℕ)
      → AllWellFormed H g
      → AreTyped H next
      → overwrite_rule_set_length H rule_chaos decode rule_to_decode length_rule length_size g next
          k
        ≡ ok (changed, k')
      → AllWellFormed H changed
  unfolding overwrite_rule_set_length
  overwrite_rule_set_length-AllWellFormed rule_chaos decode rule_to_decode length_rule length_size g
        next changed k k' w wn e =
      let (decoded, k₁, run, e₁) = bind-eq-run (decode rule_to_decode (g ∷ next)) _ k e in
      let n = length decoded in
      let (entry, k₂, built, e₂) =
        bind-eq-run (lift (new_byte_array_grammar_entry decoded n)) _ k₁ e₁ in
      let replaced =
        overwrite_rule_with_chaos H rule_chaos (some g) (g ∷ next) rule_to_decode entry in
      let (g', k₃, first, e₃) = bind-eq-run (lift replaced) _ k₂ e₂ in
      let (literal, k₄, written, e₄) =
        bind-eq-run (lift (int_in_char (replicate length_size 0) n 0 length_size)) _ k₃ e₃ in
      let (length_entry, k₅, built', e₅) =
        bind-eq-run (lift (new_byte_array_grammar_entry literal length_size)) _ k₄ e₄ in
      let w' =
        overwrite_rule_with_chaos-AllWellFormed rule_chaos g (g ∷ next) rule_to_decode entry g' w
          (w, wn)
          (new_byte_array_grammar_entry-IsWellFormed decoded n entry
            (lift-eq-ok (new_byte_array_grammar_entry decoded n) k₁ built))
          (lift-eq-ok replaced k₂ first) in
      overwrite_rule_with_chaos-AllWellFormed rule_chaos g' (g' ∷ next) length_rule length_entry
        changed w' (w', wn)
        (new_byte_array_grammar_entry-IsWellFormed literal length_size length_entry
          (lift-eq-ok (new_byte_array_grammar_entry literal length_size) k₄ built'))
        (lift-eq-ok
          (overwrite_rule_with_chaos H rule_chaos (some g') (g' ∷ next) length_rule length_entry) k₅
          e₅)
