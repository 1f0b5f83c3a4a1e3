-- ===== src/Connection/Methods.antt =====
-- The rules of the framing, and the method that each builder ends with where RULE_CHAOS is 0.
use amqpgram.Base.{ℕ, suc, ◌≡◌, refl, ◌∙◌, [], ◌∷◌, ◌++◌, Bytes, length, some}
use amqpgram.Base.Outcome.{ok}
use amqpgram.Base.Random.{Rand, bind-run}
use amqpgram.Base.Text.{codes}
use amqpgram.CString.{strtok, token_end, strtol}
use amqpgram.Terminals.{count_occurrences, decode_terminal_symbol}
use amqpgram.Packet.{type_method}
use amqpgram.Packet.Frames.{frame}
use amqpgram.Utils.Writing.{be_bytes}
use amqpgram.Grammar.Entries.{string_value, bytes_value}
use amqpgram.Grammar.Table.{HashTable}
use amqpgram.Grammar.Lookup.{Grammar, Environment, environment_lookup, new_environment}
use amqpgram.Grammar.Lookup.Laws.{AllWellFormed}
use amqpgram.GrammarInterface.Lengths.{overwrite_rule_set_length_lem}
use amqpgram.Generator.{parse_element, decode_rule}
use amqpgram.Generator.Repetition.{elements_plain}
use amqpgram.Generator.Rules.{elements_plain-step, decode_rule-bytes, decode_rule-string}
use amqpgram.Connection.{call, decode, set_length, finish_method}

module _ (H : HashTable) where
  -- The rules of the framing, as the grammar files have them.
  pub record HasFraming (env : Environment H) : Type 0 where
    pub method :
        environment_lookup H env (codes "method") ≡ ok (some (string_value (codes "method-frame")))
    pub method_frame :
        environment_lookup H env (codes "method-frame")
        ≡ ok (some (string_value (codes "%d1 frame-properties method-payload frame-end")))
    pub frame_properties :
        environment_lookup H env (codes "frame-properties")
        ≡ ok (some (string_value (codes "channel payload-size")))
    pub channel :
        environment_lookup H env (codes "channel") ≡ ok (some (string_value (codes "%x00.00")))
    pub frame_end :
        environment_lookup H env (codes "frame-end") ≡ ok (some (string_value (codes "%xCE")))

module _ (draws : ℕ → ℕ) (H : HashTable) where
  module _ (g : Grammar H) (env : Environment H) (k : ℕ) (h : HasFraming H (g ∷ env)) where
    abbrev pub decoder : ℕ → Bytes → Rand Bytes
    decoder m rule = decode_rule draws H (call draws) m rule (g ∷ env)

    abbrev pub element : ℕ → Bytes → Rand Bytes
    element m e = parse_element draws (λ r. decoder m r) (suc (length e)) e

    pub decode-channel : (n : ℕ) → decoder (suc n) (codes "channel") k ≡ ok (0 ∷ 0 ∷ [], k)
    unfolding strtok token_end elements_plain count_occurrences parse_element decode_terminal_symbol
        strtol
    decode-channel n =
        decode_rule-string draws H (call draws) n (codes "channel") g env k (codes "%x00.00")
          h.channel
        ∙ elements_plain-step (element n) 0 (codes "%x00.00") [] [] (0 ∷ 0 ∷ []) k k refl

    pub decode-frame_end : (n : ℕ) → decoder (suc n) (codes "frame-end") k ≡ ok (206 ∷ [], k)
    unfolding strtok token_end elements_plain count_occurrences parse_element decode_terminal_symbol
        strtol
    decode-frame_end n =
        decode_rule-string draws H (call draws) n (codes "frame-end") g env k (codes "%xCE")
          h.frame_end
        ∙ elements_plain-step (element n) 0 (codes "%xCE") [] [] (206 ∷ []) k k refl

    module _ (payload : Bytes)
        (size : environment_lookup H (g ∷ env) (codes "payload-size")
          ≡ ok (some (bytes_value (be_bytes 4 (length payload)))))
        (body : environment_lookup H (g ∷ env) (codes "method-payload")
          ≡ ok (some (bytes_value payload))) where
      decode-properties :
          (n : ℕ)
          → decoder (suc (suc n)) (codes "frame-properties") k
            ≡ ok (0 ∷ 0 ∷ be_bytes 4 (length payload), k)
      unfolding strtok token_end elements_plain count_occurrences parse_element
          decode_terminal_symbol strtol
      decode-properties n =
          decode_rule-string draws H (call draws) (suc n) (codes "frame-properties") g env k
            (codes "channel payload-size") h.frame_properties
          ∙ elements_plain-step (element (suc n)) 1 (codes "channel") (codes "payload-size") []
              (0 ∷ 0 ∷ []) k k (decode-channel n)
          ∙ elements_plain-step (element (suc n)) 0 (codes "payload-size") [] (0 ∷ 0 ∷ [])
              (be_bytes 4 (length payload)) k k
              (decode_rule-bytes draws H (call draws) n (codes "payload-size") g env k _ size)

      abbrev framed : Bytes
      framed = ((1 ∷ 0 ∷ 0 ∷ be_bytes 4 (length payload)) ++ payload) ++ 206 ∷ []

      decode-method_frame :
          (n : ℕ) → decoder (suc (suc (suc n))) (codes "method-frame") k ≡ ok (framed, k)
      unfolding strtok token_end elements_plain count_occurrences parse_element
          decode_terminal_symbol strtol
      decode-method_frame n =
          decode_rule-string draws H (call draws) (suc (suc n)) (codes "method-frame") g env k
            (codes "%d1 frame-properties method-payload frame-end") h.method_frame
          ∙ elements_plain-step (element (suc (suc n))) 3 (codes "%d1")
              (codes "frame-properties method-payload frame-end") [] (1 ∷ []) k k refl
          ∙ elements_plain-step (element (suc (suc n))) 2 (codes "frame-properties")
              (codes "method-payload frame-end") (1 ∷ []) _ k k (decode-properties n)
          ∙ elements_plain-step (element (suc (suc n))) 1 (codes "method-payload")
              (codes "frame-end") (1 ∷ 0 ∷ 0 ∷ be_bytes 4 (length payload)) payload k k
              (decode_rule-bytes draws H (call draws) (suc n) (codes "method-payload") g env k _
                body)
          ∙ elements_plain-step (element (suc (suc n))) 0 (codes "frame-end") []
              ((1 ∷ 0 ∷ 0 ∷ be_bytes 4 (length payload)) ++ payload) (206 ∷ []) k k
              (decode-frame_end (suc n))

      decode-method :
          (n : ℕ) → decoder (suc (suc (suc (suc n)))) (codes "method") k ≡ ok (framed, k)
      unfolding strtok token_end elements_plain count_occurrences parse_element
          decode_terminal_symbol strtol
      decode-method n =
          decode_rule-string draws H (call draws) (suc (suc (suc n))) (codes "method") g env k
            (codes "method-frame") h.method
          ∙ elements_plain-step (element (suc (suc (suc n)))) 0 (codes "method-frame") [] [] framed
              k k (decode-method_frame n)

  -- With RULE_CHAOS 0, in a grammar of well-formed entries that has the framing rules as the grammar
  -- files have them, if the rule of the payload decodes to `payload` then each builder ends with the
  -- frame of a method on channel 0 with exactly this payload: type 1, channel 0, the payload's length
  -- in four bytes, the payload and the end mark. A depth of four rules is enough beside the payload's.
  pub finish_method_lem :
      (g : Grammar H) (env : Environment H) (payload : Bytes) (n calls calls' : ℕ)
      → AllWellFormed H g
      → HasFraming H (g ∷ env)
      → decode draws H 0 (suc (suc (suc (suc n)))) (codes "method-payload") (g ∷ env) calls
        ≡ ok (payload, calls')
      → finish_method draws H 0 (suc (suc (suc (suc n)))) env g calls
        ≡ ok (frame type_method 0 payload, calls')
  unfolding finish_method set_length new_environment decode
  finish_method_lem g env payload n calls calls' w h run =
      let (changed, set, w', same) =
        overwrite_rule_set_length_lem H (decode draws H 0 (suc (suc (suc (suc n)))))
          (codes "method-payload") (codes "payload-size") payload g env calls calls' w run in
      let h' : HasFraming H (changed ∷ env) = record {
        method = same (codes "method") ∙ h.method;
        method_frame = same (codes "method-frame") ∙ h.method_frame;
        frame_properties = same (codes "frame-properties") ∙ h.frame_properties;
        channel = same (codes "channel") ∙ h.channel;
        frame_end = same (codes "frame-end") ∙ h.frame_end;
      } in
      bind-run
        (set_length draws H 0 (suc (suc (suc (suc n)))) env (codes "method-payload")
          (codes "payload-size") g)
        _ calls set
      ∙ decode-method changed env calls' h' payload (same (codes "payload-size"))
          (same (codes "method-payload")) n
