-- ===== src/Connection/Replies/Payloads.antt =====
-- What the payloads of Open, Close and CloseOk decode to.
use amqpgram.Base.{ℕ, suc, ◌≡◌, refl, List, [], ◌∷◌, none, Bytes}
use amqpgram.Base.Outcome.{ok}
use amqpgram.Base.Text.{codes}
use amqpgram.CString.{strtok, token_end, strtol}
use amqpgram.Terminals.{count_occurrences, decode_terminal_symbol}
use amqpgram.Grammar.{GrammarEntry}
use amqpgram.Grammar.Entries.{string_value}
use amqpgram.Grammar.Table.{HashTable}
use amqpgram.Grammar.Lookup.{Grammar, Environment, environment_lookup}
use amqpgram.Generator.{parse_element, decode_rule}
use amqpgram.Generator.Tokens.{tokens_of, decode_rule-elements}
use amqpgram.Connection.{call, decode}
use amqpgram.Connection.Replacing.{Answers, found}
use amqpgram.Connection.Replies.{Says, HasPayload, single, payload_run}

module _ (H : HashTable) where
  -- The rules that Open, Close and CloseOk need.
  pub record HasMethods (env : Environment H) : Type 0 where
    pub payload : HasPayload H env
    pub open_id : Says H env (codes "m40-method-id") (codes "%x00.28")
    pub open_properties : Says H env (codes "m40-method-properties") (codes "virtual-host %d0 %d0")
    pub close_id : Says H env (codes "m50-method-id") (codes "%x00.32")
    pub close_properties :
        Says H env
          (codes "m50-method-properties")
          (codes "reply-code reply-text m50-class-id-val m50-method-id-val")
    pub close_ok_id : Says H env (codes "m51-method-id") (codes "%x00.33")
    pub close_ok_properties : environment_lookup H env (codes "m51-method-properties") ≡ ok none

abbrev pub opening : List (Bytes × GrammarEntry)
opening =
    (codes "virtual-host", string_value (codes "%x01.2F"))
    ∷ (codes "method-properties", string_value (codes "m40-method-properties"))
    ∷ (codes "method-id", string_value (codes "m40-method-id"))
    ∷ []

abbrev pub closing : List (Bytes × GrammarEntry)
closing =
    (codes "m50-method-id-val", string_value (codes "%x00.00"))
    ∷ (codes "m50-class-id-val", string_value (codes "%x00.00"))
    ∷ (codes "reply-text", string_value (codes "%x03.32.30.30"))
    ∷ (codes "reply-code", string_value (codes "%x00.C8"))
    ∷ (codes "method-properties", string_value (codes "m50-method-properties"))
    ∷ (codes "method-id", string_value (codes "m50-method-id"))
    ∷ []

abbrev pub closed : List (Bytes × GrammarEntry)
closed =
    (codes "method-properties", string_value (codes "m51-method-properties"))
    ∷ (codes "method-id", string_value (codes "m51-method-id"))
    ∷ []

abbrev pub fuel : ℕ → ℕ
fuel n = suc (suc (suc (suc n)))

module _ (draws : ℕ → ℕ) (H : HashTable) (env : Environment H) (h : HasMethods H env) where
  pub open_payload :
      (g : Grammar H) (a : Answers draws H env g opening) (n k : ℕ)
      → decode draws H 0 (fuel n) (codes "method-payload") (g ∷ env) k
        ≡ ok (0 ∷ 10 ∷ 0 ∷ 40 ∷ 1 ∷ 47 ∷ 0 ∷ 0 ∷ [], k)
  unfolding tokens_of parse_element strtok token_end count_occurrences decode_terminal_symbol strtol
  open_payload g a n k =
      let one = single draws H env a in
      payload_run draws H env a (0 ∷ 40 ∷ []) (1 ∷ 47 ∷ 0 ∷ 0 ∷ []) (suc n) k k
        (found draws H env a (codes "method-payload") h.payload.method_payload)
        (found draws H env a (codes "class-id") h.payload.class_id)
        (one (codes "method-id") (codes "m40-method-id") (0 ∷ 40 ∷ []) (suc (suc n)) k k
          (found draws H env a (codes "method-id") refl) refl
          (one (codes "m40-method-id") (codes "%x00.28") (0 ∷ 40 ∷ []) (suc n) k k
            (found draws H env a (codes "m40-method-id") h.open_id) refl refl))
        (one (codes "method-properties") (codes "m40-method-properties") (1 ∷ 47 ∷ 0 ∷ 0 ∷ [])
          (suc (suc n)) k k (found draws H env a (codes "method-properties") refl) refl
          (decode_rule-elements draws H (call draws) (suc n) g env (codes "m40-method-properties")
            (codes "virtual-host %d0 %d0")
            ((codes "virtual-host", 1 ∷ 47 ∷ [])
              ∷ (codes "%d0", 0 ∷ [])
              ∷ (codes "%d0", 0 ∷ [])
              ∷ [])
            k k (found draws H env a (codes "m40-method-properties") h.open_properties) refl
            (
              k,
              one (codes "virtual-host") (codes "%x01.2F") (1 ∷ 47 ∷ []) n k k
                  (found draws H env a (codes "virtual-host") refl) refl refl,
              (k, refl, (k, refl, refl)),
            )))

  pub close_payload :
      (g : Grammar H) (a : Answers draws H env g closing) (n k : ℕ)
      → decode draws H 0 (fuel n) (codes "method-payload") (g ∷ env) k
        ≡ ok (0 ∷ 10 ∷ 0 ∷ 50 ∷ 0 ∷ 200 ∷ 3 ∷ 50 ∷ 48 ∷ 48 ∷ 0 ∷ 0 ∷ 0 ∷ 0 ∷ [], k)
  unfolding tokens_of parse_element strtok token_end count_occurrences decode_terminal_symbol strtol
  close_payload g a n k =
      let one = single draws H env a in
      payload_run draws H env a (0 ∷ 50 ∷ []) (0 ∷ 200 ∷ 3 ∷ 50 ∷ 48 ∷ 48 ∷ 0 ∷ 0 ∷ 0 ∷ 0 ∷ [])
        (suc n) k k (found draws H env a (codes "method-payload") h.payload.method_payload)
        (found draws H env a (codes "class-id") h.payload.class_id)
        (one (codes "method-id") (codes "m50-method-id") (0 ∷ 50 ∷ []) (suc (suc n)) k k
          (found draws H env a (codes "method-id") refl) refl
          (one (codes "m50-method-id") (codes "%x00.32") (0 ∷ 50 ∷ []) (suc n) k k
            (found draws H env a (codes "m50-method-id") h.close_id) refl refl))
        (one (codes "method-properties") (codes "m50-method-properties")
          (0 ∷ 200 ∷ 3 ∷ 50 ∷ 48 ∷ 48 ∷ 0 ∷ 0 ∷ 0 ∷ 0 ∷ []) (suc (suc n)) k k
          (found draws H env a (codes "method-properties") refl) refl
          (decode_rule-elements draws H (call draws) (suc n) g env (codes "m50-method-properties")
            (codes "reply-code reply-text m50-class-id-val m50-method-id-val")
            ((codes "reply-code", 0 ∷ 200 ∷ [])
              ∷ (codes "reply-text", 3 ∷ 50 ∷ 48 ∷ 48 ∷ [])
              ∷ (codes "m50-class-id-val", 0 ∷ 0 ∷ [])
              ∷ (codes "m50-method-id-val", 0 ∷ 0 ∷ [])
              ∷ [])
            k k (found draws H env a (codes "m50-method-properties") h.close_properties) refl
            (
              k,
              one (codes "reply-code") (codes "%x00.C8") (0 ∷ 200 ∷ []) n k k
                  (found draws H env a (codes "reply-code") refl) refl refl,
              (
                k,
                one (codes "reply-text") (codes "%x03.32.30.30") (3 ∷ 50 ∷ 48 ∷ 48 ∷ []) n k k
                    (found draws H env a (codes "reply-text") refl) refl refl,
                (
                  k,
                  one (codes "m50-class-id-val") (codes "%x00.00") (0 ∷ 0 ∷ []) n k k
                      (found draws H env a (codes "m50-class-id-val") refl) refl refl,
                  (
                    k,
                    one (codes "m50-method-id-val") (codes "%x00.00") (0 ∷ 0 ∷ []) n k k
                        (found draws H env a (codes "m50-method-id-val") refl) refl refl,
                    refl,
                  ),
                ),
              ),
            )))

  pub close_ok_payload :
      (g : Grammar H) (a : Answers draws H env g closed) (n k : ℕ)
      → decode draws H 0 (fuel n) (codes "method-payload") (g ∷ env) k
        ≡ ok (0 ∷ 10 ∷ 0 ∷ 51 ∷ [], k)
  unfolding tokens_of parse_element strtok token_end count_occurrences decode_terminal_symbol strtol
      decode_rule
  close_ok_payload g a n k =
      let one = single draws H env a in
      payload_run draws H env a (0 ∷ 51 ∷ []) [] (suc n) k k
        (found draws H env a (codes "method-payload") h.payload.method_payload)
        (found draws H env a (codes "class-id") h.payload.class_id)
        (one (codes "method-id") (codes "m51-method-id") (0 ∷ 51 ∷ []) (suc (suc n)) k k
          (found draws H env a (codes "method-id") refl) refl
          (one (codes "m51-method-id") (codes "%x00.33") (0 ∷ 51 ∷ []) (suc n) k k
            (found draws H env a (codes "m51-method-id") h.close_ok_id) refl refl))
        (one (codes "method-properties") (codes "m51-method-properties") [] (suc (suc n)) k k
          (found draws H env a (codes "method-properties") refl) refl
          (rw (found draws H env a (codes "m51-method-properties") h.close_ok_properties)))
