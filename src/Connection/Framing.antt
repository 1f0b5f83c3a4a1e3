-- ===== src/Connection/Framing.antt =====
-- The outer frame of what the builders send, at every RULE_CHAOS.
pub mod Decoding
pub mod Packets
use amqpgram.Base.{
  Bool, true, ◌||◌, ◌∙◌, ℕ, zero, suc, ◌≡◌, refl, arith, false, [], ◌∷◌, ◌++◌, List, Option, none,
  some, Bytes, All, str_eq, subst, length, replicate,
}
use amqpgram.Base.Outcome.{Outcome, ok, bind-eq-ok}
use amqpgram.Base.Random.{Rand, lift, ◌>>=◌, lift-eq-ok, bind-eq-ok as bind-eq-run}
use amqpgram.Base.Text.{codes}
use amqpgram.Utils.{int_in_char}
use amqpgram.Grammar.{
  GrammarEntry, new_str_array_grammar_entry, new_string_grammar_entry, new_byte_array_grammar_entry,
}
use amqpgram.Grammar.Table.{HashTable}
use amqpgram.Grammar.Lookup.{
  Grammar, Environment, environment_lookup, grammar_insert, new_environment,
}
use amqpgram.Connection.{decode, set_rule, set_bytes, set_length}
use amqpgram.GrammarInterface.{
  chaos_prefix, order_prefix, insert_alternatives, overwrite_rule_with_chaos,
  overwrite_rule_set_length,
}

-- The rules of the outer frame; the length and the payload are not among them.
abbrev pub framing_rules : List Bytes
framing_rules =
    codes "method"
    ∷ codes "method-frame"
    ∷ codes "frame-properties"
    ∷ codes "channel"
    ∷ codes "frame-end"
    ∷ []

abbrev pub is_among : Bytes → List Bytes → Bool
is_among rule [] = false
is_among rule (j ∷ rules) = str_eq rule j || is_among rule rules

-- A rule that is none of them.
abbrev pub IsApart : Bytes → Type 0
IsApart rule = is_among rule framing_rules ≡ false

or-eq-false : (a b : Bool) → (a || b) ≡ false → (a ≡ false) × (b ≡ false)
or-eq-false false b h = (refl, h)
or-eq-false true b h = cc

module _ (H : HashTable) where
  -- A grammar that has none of the rules of the outer frame.
  abbrev pub Spares : Grammar H → Type 0
  Spares g = All (λ j. H.lookup g j ≡ none) framing_rules

  insert-absent :
      (g : Grammar H) (rule : Bytes) (value : Option GrammarEntry) (rules : List Bytes)
      → is_among rule rules ≡ false
      → All (λ j. H.lookup g j ≡ none) rules
      → All (λ j. H.lookup (grammar_insert H g rule value) j ≡ none) rules
  unfolding grammar_insert
  insert-absent g rule value [] apart absent = tt
  insert-absent g rule value (j ∷ rules) apart (first, others) =
      let (here, later) = or-eq-false (str_eq rule j) (is_among rule rules) apart in
      (
        H.lookup-insert g rule value j ∙ rw here first,
        insert-absent g rule value rules later others,
      )

  insert-Spares :
      (g : Grammar H) (rule : Bytes) (value : Option GrammarEntry)
      → IsApart rule
      → Spares g
      → Spares (grammar_insert H g rule value)
  insert-Spares g rule value = insert-absent g rule value framing_rules

  insert_alternatives-Spares :
      (target : Grammar H) (env : Environment H) (rule : Bytes) (ordered : GrammarEntry)
      (array : List Bytes) (changed : Grammar H)
      → IsApart rule
      → Spares target
      → insert_alternatives H target env rule ordered array ≡ ok changed
      → Spares changed
  unfolding insert_alternatives
  insert_alternatives-Spares target env rule ordered array changed a s e =
      let (found, looked, e₁) = bind-eq-ok (environment_lookup H env rule) _ e in
      let (entry, built, last) =
        bind-eq-ok (new_str_array_grammar_entry array (length array)) _ e₁ in
      let g₁ = grammar_insert H target (chaos_prefix ++ rule) found in
      let g₂ = grammar_insert H g₁ (order_prefix ++ rule) (some ordered) in
      let put : grammar_insert H g₂ rule (some entry) ≡ changed = ground (arith, last) in
      let s₁ = insert-Spares target (chaos_prefix ++ rule) found refl s in
      let s₂ = insert-Spares g₁ (order_prefix ++ rule) (some ordered) refl s₁ in
      subst Spares put (insert-Spares g₂ rule (some entry) a s₂)

  overwrite_rule_with_chaos-Spares :
      (rule_chaos : ℕ) (target : Grammar H) (env : Environment H) (rule : Bytes)
      (ordered : GrammarEntry) (changed : Grammar H)
      → IsApart rule
      → Spares target
      → overwrite_rule_with_chaos H rule_chaos (some target) env rule ordered ≡ ok changed
      → Spares changed
  unfolding overwrite_rule_with_chaos
  overwrite_rule_with_chaos-Spares zero target env rule ordered changed a s e =
      let put : grammar_insert H target rule (some ordered) ≡ changed = ground (arith, e) in
      subst Spares put (insert-Spares target rule (some ordered) a s)
  overwrite_rule_with_chaos-Spares (suc zero) target env rule ordered changed a s e =
      insert_alternatives-Spares target env rule ordered _ changed a s e
  overwrite_rule_with_chaos-Spares (suc (suc zero)) target env rule ordered changed a s e =
      insert_alternatives-Spares target env rule ordered _ changed a s e
  overwrite_rule_with_chaos-Spares (suc (suc (suc zero))) target env rule ordered changed a s e =
      insert_alternatives-Spares target env rule ordered _ changed a s e
  overwrite_rule_with_chaos-Spares (suc (suc (suc (suc c)))) target env rule ordered changed a s e =
      let kept : target ≡ changed = ground (arith, e) in subst Spares kept s

  -- A change of the grammar that leaves the outer frame alone.
  abbrev pub Sparing : Rand (Grammar H) → Type 0
  Sparing change = (k k' : ℕ) (changed : Grammar H) → change k ≡ ok (changed, k') → Spares changed

  overwrite-Sparing :
      (rule_chaos : ℕ) (target : Grammar H) (env : Environment H) (rule : Bytes)
      (ordered : GrammarEntry)
      → IsApart rule
      → Spares target
      → Sparing (lift (overwrite_rule_with_chaos H rule_chaos (some target) env rule ordered))
  overwrite-Sparing rule_chaos target env rule ordered a s k k' changed e =
      overwrite_rule_with_chaos-Spares rule_chaos target env rule ordered changed a s
        (lift-eq-ok (overwrite_rule_with_chaos H rule_chaos (some target) env rule ordered) k e)

module _ (draws : ℕ → ℕ) (H : HashTable) (rule_chaos fuel : ℕ) (env : Environment H) where
  pub set_rule-Sparing :
      (rule text : Bytes) (g : Grammar H)
      → IsApart rule
      → Spares H g
      → Sparing H (set_rule draws H rule_chaos fuel env rule text g)
  unfolding set_rule new_environment
  set_rule-Sparing rule text g a s k k' changed e =
      let (entry, k₁, built, last) = bind-eq-run (lift (new_string_grammar_entry text)) _ k e in
      overwrite-Sparing H rule_chaos g (g ∷ env) rule entry a s k₁ k' changed last

  pub set_bytes-Sparing :
      (rule bytes : Bytes) (size : ℕ) (g : Grammar H)
      → IsApart rule
      → Spares H g
      → Sparing H (set_bytes draws H rule_chaos fuel env rule bytes size g)
  unfolding set_bytes new_environment
  set_bytes-Sparing rule bytes size g a s k k' changed e =
      let (entry, k₁, built, last) =
        bind-eq-run (lift (new_byte_array_grammar_entry bytes size)) _ k e in
      overwrite-Sparing H rule_chaos g (g ∷ env) rule entry a s k₁ k' changed last

  pub set_length-Sparing :
      (rule_to_decode length_rule : Bytes) (g : Grammar H)
      → IsApart rule_to_decode
      → IsApart length_rule
      → Spares H g
      → Sparing H (set_length draws H rule_chaos fuel env rule_to_decode length_rule g)
  unfolding set_length overwrite_rule_set_length
  set_length-Sparing rule_to_decode length_rule g a a' s k k' changed e =
      let (decoded, k₁, run, e₁) =
        bind-eq-run (decode draws H rule_chaos fuel rule_to_decode (g ∷ env)) _ k e in
      let (entry, k₂, built, e₂) =
        bind-eq-run (lift (new_byte_array_grammar_entry decoded (length decoded))) _ k₁ e₁ in
      let replaced =
        overwrite_rule_with_chaos H rule_chaos (some g) (g ∷ env) rule_to_decode entry in
      let (g', k₃, first, e₃) = bind-eq-run (lift replaced) _ k₂ e₂ in
      let (literal, k₄, written, e₄) =
        bind-eq-run (lift (int_in_char (replicate 4 0) (length decoded) 0 4)) _ k₃ e₃ in
      let (length_entry, k₅, built', e₅) =
        bind-eq-run (lift (new_byte_array_grammar_entry literal 4)) _ k₄ e₄ in
      overwrite-Sparing H rule_chaos g' (g' ∷ env) length_rule length_entry a'
        (overwrite-Sparing H rule_chaos g (g ∷ env) rule_to_decode entry a s k₂ k₃ g' first) k₅ k'
        changed e₅
