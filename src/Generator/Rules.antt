-- ===== src/Generator/Rules.antt =====
-- What `decode_rule` makes of a rule, by the entry that the environment has for it.
use amqpgram.Base.{ℕ, suc, ◌+◌, ◌≡◌, [], ◌∷◌, ◌++◌, Bytes, length, some}
use amqpgram.Base.Outcome.{fault, ok}
use amqpgram.Base.Memory.{load-all}
use amqpgram.Base.Random.{bind-fault, Rand, bind-run}
use amqpgram.CString.{strtok}
use amqpgram.Grammar.{GenFunction}
use amqpgram.Grammar.Entries.{string_value, bytes_value}
use amqpgram.Grammar.Table.{HashTable}
use amqpgram.Grammar.Lookup.{Grammar, Environment, environment_lookup}
use amqpgram.Terminals.{count_occurrences}
use amqpgram.Generator.{parse_element, decode_rule}
use amqpgram.Generator.Repetition.{elements_plain, parse_elements_lem}

pub elements_plain-step :
    (element : Bytes → Rand Bytes) (fields : ℕ) (token rest result bytes : Bytes) (k k' : ℕ)
    → element token k ≡ ok (bytes, k')
    → elements_plain element (suc fields) (some (token, rest)) result k
      ≡ elements_plain element fields (strtok b' ' rest) (result ++ bytes) k'
unfolding elements_plain
elements_plain-step element fields token rest result bytes k k' h = bind-run (element token) _ k h

pub elements_plain-fault :
    (element : Bytes → Rand Bytes) (fields : ℕ) (token rest result : Bytes) (k : ℕ)
    → element token k ≡ fault
    → elements_plain element (suc fields) (some (token, rest)) result k ≡ fault
unfolding elements_plain
elements_plain-fault element fields token rest result k h = bind-fault (element token) _ k h

module _ (draws : ℕ → ℕ) (H : HashTable)
    (call : (Bytes → Environment H → Rand Bytes) → GenFunction → Environment H → Rand Bytes) (n : ℕ)
    (rule : Bytes) (g : Grammar H) (env : Environment H) (k : ℕ) where
  pub decode_rule-bytes :
      (bytes : Bytes)
      → environment_lookup H (g ∷ env) rule ≡ ok (some (bytes_value bytes))
      → decode_rule draws H call (suc n) rule (g ∷ env) k ≡ ok (bytes, k)
  unfolding decode_rule
  decode_rule-bytes bytes found = rw (found, load-all bytes)

  pub decode_rule-string :
      (s : Bytes)
      → environment_lookup H (g ∷ env) rule ≡ ok (some (string_value s))
      → decode_rule draws H call (suc n) rule (g ∷ env) k
        ≡ elements_plain
            (λ element.
              parse_element draws
                (λ r. decode_rule draws H call n r (g ∷ env))
                (suc (length element))
                element)
            (count_occurrences s b' ' + 1)
            (strtok b' ' s)
            []
            k
  unfolding decode_rule
  decode_rule-string s found =
      rw found (parse_elements_lem draws (λ r. decode_rule draws H call n r (g ∷ env)) s k)
