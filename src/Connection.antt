-- ===== src/Connection.antt =====
-- fuzzer/Connection.c: the packets that the fuzzer sends on a connection, and which to send.
-- `connection_env` is a parameter: `setup_connection_env` fills it once. `fuel` bounds the depth of
-- nested rules in each call of `decode_rule`, and the rounds of the search for a frame size.
pub mod Interface
pub mod Builders
pub mod Deciding
pub mod Tuning
pub mod Methods
pub mod Framing
pub mod Replacing
pub mod Replies
use amqpgram.Base.{
  ℕ, zero, suc, ◌+◌, ◌-◌, ◌%◌, Bool, ◌||◌, List, [], ◌∷◌, ◌++◌, Option, none, some, ltb, leb, ◌==◌,
  if◌then◌else◌, Bytes, length, replicate,
}
use amqpgram.Base.Outcome.{Outcome, ok, fault, stuck, store}
use amqpgram.Base.Outcome
use amqpgram.Base.Text.{codes}
use amqpgram.Base.Random.{Rand, ◌>>=◌, pure, lift, rand}
use amqpgram.Utils.{short_to_int, char_in_short, char_in_int, short_in_char, int_in_char}
use amqpgram.Packet.{MethodStruct}
use amqpgram.Grammar.{
  GenFunction, shortstring_generator, longstring_generator, new_string_grammar_entry,
  new_byte_array_grammar_entry, new_function_grammar_entry,
}
use amqpgram.Grammar.Table.{HashTable}
use amqpgram.Grammar.Lookup.{Grammar, Environment, create_grammar, new_environment}
use amqpgram.Grammar.Releasing.{FreedPart, free_environment}
use amqpgram.Grammar.Parser.{generate_grammar}
use amqpgram.Generator.{rule_repetition_infty, decode_rule}
use amqpgram.GrammarInterface.{overwrite_rule_with_chaos, overwrite_rule_set_length}
use amqpgram.Connection.Interface.{Reply, Decision, sent}

-- `enum connection_method`, as far as a packet from the peer is told by it, and `CONNECTION`.
abbrev pub method_start : ℕ
method_start = 10

abbrev pub method_secure : ℕ
method_secure = 20

abbrev pub method_tune : ℕ
method_tune = 30

abbrev pub method_open_ok : ℕ
method_open_ok = 41

abbrev pub method_close : ℕ
method_close = 50

abbrev pub method_close_ok : ℕ
method_close_ok = 51

abbrev pub class_connection : ℕ
class_connection = 10

-- `decode_rule(…)[0]`; NULL faults.
unfoldable pub first_byte : Bytes → Outcome ℕ
first_byte [] = fault
first_byte (b ∷ bytes) = ok b

-- The loops that fill the strings with octets.
unfoldable pub octets : Rand Bytes → ℕ → Rand Bytes
unfolding first_byte
octets octet zero = pure []
octets octet (suc count) = do
  decoded ← octet
  b ← lift (first_byte decoded)
  others ← octets octet count
  pure (b ∷ others)

-- `rand() % (received + 1)` of an `int` pattern: `received + 1` overflows at the greatest `int`, and
-- is a zero divisor at -1.
unfoldable pub rand_up_to : ℕ → ℕ → Outcome ℕ
rand_up_to received roll =
    if ltb received 2147483647
    then ok (roll % (received + 1))
    else if received == 2147483647 || received == 4294967295
    then fault
    else ok (roll % (4294967295 - received))

-- `*next_state` and `*response_expected` are assigned constants, and the packet is returned.
unfoldable pub reply_with : ℕ → ℕ → Rand Bytes → Rand Reply
reply_with state response builder = builder >>= λ result.
    pure (record { next_state = state; response_expected = response; packet = result })

module _ (draws : ℕ → ℕ) where
  module _ {Env : Type 0} where
    unfoldable pub generate_shortstring : (Bytes → Env → Rand Bytes) → Env → Rand Bytes
    unfolding octets
    generate_shortstring decode environment = do
      roll ← rand draws
      let shortstring_length = roll % rule_repetition_infty % 256
      contents ← octets (decode (codes "OCTET") environment) shortstring_length
      pure (shortstring_length ∷ contents)

    unfoldable pub generate_longstring : (Bytes → Env → Rand Bytes) → Env → Rand Bytes
    unfolding octets
    generate_longstring decode environment = do
      roll ← rand draws
      let string_length = roll % rule_repetition_infty
      result ←
          lift (int_in_char (replicate (string_length + 4) 0) string_length 0 (string_length + 4))
      contents ← octets (decode (codes "OCTET") environment) string_length
      lift (store result 4 contents)

    -- A call through the pointer `generator_function`.
    unfoldable pub call : (Bytes → Env → Rand Bytes) → GenFunction → Env → Rand Bytes
    unfolding generate_shortstring generate_longstring
    call decode shortstring_generator environment = generate_shortstring decode environment
    call decode longstring_generator environment = generate_longstring decode environment

  -- `while (frame_max != 0 && frame_max < 4095)`, entered with -1.
  unfoldable pub choose_frame_max : ℕ → ℕ → Rand ℕ
  unfolding rand_up_to
  choose_frame_max zero received_frame_max = lift stuck
  choose_frame_max (suc fuel) received_frame_max = do
    roll ← rand draws
    frame_max ← lift (rand_up_to received_frame_max roll)
    let again = choose_frame_max fuel received_frame_max
    if frame_max == 0 || leb 4095 frame_max then pure frame_max else again

  -- The two limits that `connection_tune_ok` answers with.
  unfoldable pub tune_limits : ℕ → Option MethodStruct → Rand (ℕ × ℕ)
  unfolding choose_frame_max
  tune_limits fuel none = pure (65535, 4294967295)
  tune_limits fuel (some method_data) = do
    received_channel_max ← lift (char_in_short method_data.arguments_byte_array 0)
    received_frame_max ← lift (char_in_int method_data.arguments_byte_array 2)
    roll ← rand draws
    channel_max ← lift (rand_up_to (short_to_int received_channel_max) roll)
    frame_max ← choose_frame_max fuel received_frame_max
    pure (channel_max, frame_max)

  module _ (H : HashTable) (rule_chaos fuel : ℕ) where
    unfoldable pub decode : Bytes → Environment H → Rand Bytes
    unfolding call
    decode = decode_rule draws H (call {Env = Environment H}) fuel

    unfoldable pub setup_connection_env : Bytes → Environment H → Outcome (Environment H)
    setup_connection_env grammar_def initial_env =
        Outcome.◌>>=◌ (generate_grammar H grammar_def) λ grammar.
          Outcome.◌>>=◌ (new_function_grammar_entry shortstring_generator) λ short.
            Outcome.◌>>=◌
              (overwrite_rule_with_chaos H rule_chaos (some grammar) initial_env
                (codes "short-string") short)
              λ grammar₁. Outcome.◌>>=◌ (new_function_grammar_entry longstring_generator) λ long.
                Outcome.◌>>=◌
                  (overwrite_rule_with_chaos H rule_chaos (some grammar₁) initial_env
                    (codes "long-string") long)
                  λ grammar₂. ok (new_environment H grammar₂ initial_env)

    -- `result_env->grammar` and `result_env->next` in an object with room for so many pointers.
    unfoldable pub node_in : ℕ → Grammar H → Environment H → Outcome (Environment H)
    node_in room grammar next = if ltb room 2 then fault else ok (new_environment H grammar next)

    module _ (connection_env : Environment H) where
      unfoldable pub cleanup_connection_env : Outcome (List FreedPart)
      cleanup_connection_env = free_environment H connection_env

      -- `overwrite_rule_with_chaos(mutable_grammar, result_env, rule, new_string_grammar_entry(text))`
      unfoldable pub set_rule : Bytes → Bytes → Grammar H → Rand (Grammar H)
      set_rule rule text mutable_grammar = do
        entry ← lift (new_string_grammar_entry text)
        lift (
            overwrite_rule_with_chaos H rule_chaos (some mutable_grammar)
              (new_environment H mutable_grammar connection_env) rule entry)

      unfoldable pub set_bytes : Bytes → Bytes → ℕ → Grammar H → Rand (Grammar H)
      set_bytes rule bytes size mutable_grammar = do
        entry ← lift (new_byte_array_grammar_entry bytes size)
        lift (
            overwrite_rule_with_chaos H rule_chaos (some mutable_grammar)
              (new_environment H mutable_grammar connection_env) rule entry)

      unfoldable pub set_length : Bytes → Bytes → Grammar H → Rand (Grammar H)
      set_length rule_to_decode length_rule mutable_grammar =
          overwrite_rule_set_length H rule_chaos decode rule_to_decode length_rule 4 mutable_grammar
            connection_env

      -- The end of each builder: the payload's length, then the whole method.
      unfoldable pub finish_method : Grammar H → Rand Bytes
      unfolding set_length decode
      finish_method mutable_grammar = do
        grammar ← set_length (codes "method-payload") (codes "payload-size") mutable_grammar
        decode (codes "method") (new_environment H grammar connection_env)

      unfoldable pub connection_start_ok : Rand Reply
      unfolding set_rule set_length finish_method
      connection_start_ok = reply_with 1 1 do
        g₁ ← set_rule (codes "method-id") (codes "m11-method-id") (create_grammar H)
        g₂ ← set_rule (codes "method-properties") (codes "m11-method-properties") g₁
        g₃ ← set_length (codes "client-properties-payload") (codes "client-properties-length") g₂
        g₄ ← set_rule (codes "authcid") (codes "\"username\"") g₃
        g₅ ← set_rule (codes "passwd") (codes "\"password\"") g₄
        g₆ ← set_length (codes "message") (codes "message-length") g₅
        finish_method g₆

      -- The node of the environment is allocated with the size of a pointer to it: of its two fields only the
      -- first has room.
      unfoldable pub connection_tune_ok : Option MethodStruct → Rand Reply
      unfolding tune_limits node_in set_rule set_bytes finish_method
      connection_tune_ok method_data = reply_with 3 0 do
        (channel_max, frame_max) ← tune_limits fuel method_data
        environment ← lift (node_in 1 (create_grammar H) connection_env)
        g₁ ← set_rule (codes "method-id") (codes "m31-method-id") (create_grammar H)
        g₂ ← set_rule (codes "method-properties") (codes "m31-method-properties") g₁
        frame_max_char ← lift (int_in_char (replicate 4 0) frame_max 0 4)
        g₃ ← set_bytes (codes "frame-max") frame_max_char 4 g₂
        channel_max_char ← lift (short_in_char (replicate 2 0) channel_max 0 2)
        g₄ ← set_bytes (codes "channel-max") channel_max_char 2 g₃
        finish_method g₄

      unfoldable pub connection_open : Rand Reply
      unfolding set_rule finish_method
      connection_open = reply_with 4 1 do
        g₁ ← set_rule (codes "method-id") (codes "m40-method-id") (create_grammar H)
        g₂ ← set_rule (codes "method-properties") (codes "m40-method-properties") g₁
        g₃ ← set_rule (codes "virtual-host") (codes "%x01.2F") g₂
        finish_method g₃

      unfoldable pub connection_close : Rand Reply
      unfolding set_rule finish_method
      connection_close = reply_with 7 1 do
        g₁ ← set_rule (codes "method-id") (codes "m50-method-id") (create_grammar H)
        g₂ ← set_rule (codes "method-properties") (codes "m50-method-properties") g₁
        g₃ ← set_rule (codes "reply-code") (codes "%x00.C8") g₂
        g₄ ← set_rule (codes "reply-text") (codes "%x03.32.30.30") g₃
        g₅ ← set_rule (codes "m50-class-id-val") (codes "%x00.00") g₄
        g₆ ← set_rule (codes "m50-method-id-val") (codes "%x00.00") g₅
        finish_method g₆

      unfoldable pub connection_close_ok : Rand Reply
      unfolding set_rule finish_method
      connection_close_ok = reply_with 7 1 do
        g₁ ← set_rule (codes "method-id") (codes "m51-method-id") (create_grammar H)
        g₂ ← set_rule (codes "method-properties") (codes "m51-method-properties") g₁
        finish_method g₂
