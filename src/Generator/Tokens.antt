-- ===== src/Generator/Tokens.antt =====
-- A rule's text as the list of its elements.
use amqpgram.Base.{
  ℕ, zero, suc, ◌+◌, ◌≡◌, ◌∙◌, List, [], ◌∷◌, ◌++◌, map, Option, none, some, Bytes, length,
}
use amqpgram.Base.Outcome.{ok}
use amqpgram.Base.Random.{Rand}
use amqpgram.CString.{strtok}
use amqpgram.Grammar.{GenFunction}
use amqpgram.Grammar.Entries.{string_value}
use amqpgram.Grammar.Table.{HashTable}
use amqpgram.Grammar.Lookup.{Grammar, Environment, environment_lookup}
use amqpgram.Terminals.{count_occurrences}
use amqpgram.Generator.{parse_element, decode_rule}
use amqpgram.Generator.Repetition.{elements_plain}
use amqpgram.Generator.Rules.{elements_plain-step, decode_rule-string}

-- `fields` elements at most, from the one that was split off last.
unfoldable pub tokens : ℕ → Option (Bytes × Bytes) → List Bytes
tokens zero next = []
tokens (suc fields) none = []
tokens (suc fields) (some (token, rest)) = token ∷ tokens fields (strtok b' ' rest)

unfoldable pub tokens_of : Bytes → List Bytes
unfolding tokens strtok count_occurrences
tokens_of s = tokens (count_occurrences s b' ' + 1) (strtok b' ' s)

-- The bytes of elements, each given with what it decodes to.
abbrev pub joined : List (Bytes × Bytes) → Bytes → Bytes
joined [] result = result
joined ((token, bytes) ∷ elements) result = joined elements (result ++ bytes)

-- Elements that are decoded one after another, from `k` calls of `rand()` to `k'`.
abbrev pub Decodes : (Bytes → Rand Bytes) → List (Bytes × Bytes) → ℕ → ℕ → Type 0
Decodes element [] k k' = k ≡ k'
Decodes element ((token, bytes) ∷ elements) k k' =
    (k₁ : ℕ) × (element token k ≡ ok (bytes, k₁)) × Decodes element elements k₁ k'

elements_plain-joined :
    (element : Bytes → Rand Bytes) (fields : ℕ) (next : Option (Bytes × Bytes))
    (elements : List (Bytes × Bytes)) (result : Bytes) (k k' : ℕ)
    → tokens fields next ≡ map (λ e. e.0) elements
    → Decodes element elements k k'
    → elements_plain element fields next result k ≡ ok (joined elements result, k')
unfolding tokens elements_plain
elements_plain-joined element zero next [] result k k' e h = rw h
elements_plain-joined element zero next (x ∷ elements) result k k' e h = cc
elements_plain-joined element (suc fields) none [] result k k' e h = rw h
elements_plain-joined element (suc fields) none (x ∷ elements) result k k' e h = cc
elements_plain-joined element (suc fields) (some (token, rest)) [] result k k' e h = cc
elements_plain-joined element (suc fields) (some (token, rest)) ((token', bytes) ∷ elements) result
      k k' e (k₁, first, later) =
    let same : token ≡ token' = cc in
    let others : tokens fields (strtok b' ' rest) ≡ map (λ e. e.0) elements = cc in
    elements_plain-step element fields token rest result bytes k k₁ (rw same first)
    ∙ elements_plain-joined element fields (strtok b' ' rest) elements (result ++ bytes) k₁ k'
        others later

module _ (draws : ℕ → ℕ) (H : HashTable)
    (call : (Bytes → Environment H → Rand Bytes) → GenFunction → Environment H → Rand Bytes) (n : ℕ)
    (g : Grammar H) (env : Environment H) where
  -- The element `e` in a rule, where `n` rules may be nested below it.
  abbrev pub element : Bytes → Rand Bytes
  element e = parse_element draws (λ r. decode_rule draws H call n r (g ∷ env)) (suc (length e)) e

  -- A rule is decoded to the bytes of its elements.
  pub decode_rule-elements :
      (rule s : Bytes) (elements : List (Bytes × Bytes)) (k k' : ℕ)
      → environment_lookup H (g ∷ env) rule ≡ ok (some (string_value s))
      → tokens_of s ≡ map (λ e. e.0) elements
      → Decodes element elements k k'
      → decode_rule draws H call (suc n) rule (g ∷ env) k ≡ ok (joined elements [], k')
  unfolding tokens_of
  decode_rule-elements rule s elements k k' found split each =
      decode_rule-string draws H call n rule g env k s found
      ∙ elements_plain-joined element (count_occurrences s b' ' + 1) (strtok b' ' s) elements [] k
          k' split each
