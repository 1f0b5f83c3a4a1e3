-- ===== src/Tests/Replies.antt =====
-- fuzzer/Connection.c with the rules of the grammar files: the packets and events of a connection.
use amqpgram.Base.{ℕ, refl, arith, [], ◌∷◌, Bytes}
use amqpgram.Base.Outcome.{ok}
use amqpgram.Grammar.{copy_grammar_entry_t}
use amqpgram.Grammar.Table.{pair_table}
use amqpgram.Grammar.Lookup.{create_grammar, environment_lookup, grammar_insert}
use amqpgram.Connection.{connection_open, connection_close, connection_close_ok}
use amqpgram.Connection.Replies.{HasPayload, Gives}
use amqpgram.Connection.Replies.Payloads.{HasMethods}
use amqpgram.Connection.Replies.Closing.{builders_lem}
use amqpgram.Base.Random.{Rand}
use amqpgram.Connection.Interface.{Reply, Messages, Leaves}
use amqpgram.Tests.Files.ConnectionFile.{connection_env}

abbrev draws : ℕ → ℕ
draws k = 5000

pub payload_rules : HasPayload pair_table connection_env
unfolding environment_lookup grammar_insert copy_grammar_entry_t create_grammar
payload_rules = record {
  framing = record {
    method = refl;
    method_frame = refl;
    frame_properties = refl;
    channel = refl;
    frame_end = refl;
  };
  method_payload = refl;
  class_id = refl;
}

method_rules : HasMethods pair_table connection_env
unfolding environment_lookup grammar_insert copy_grammar_entry_t create_grammar
method_rules = record {
  payload = payload_rules;
  open_id = refl;
  open_properties = refl;
  close_id = refl;
  close_properties = refl;
  close_ok_id = refl;
  close_ok_properties = refl;
}

builders_lem_example :
    Gives
      (connection_open draws pair_table 0 4 connection_env)
      4
      1
      (0 ∷ 10 ∷ 0 ∷ 40 ∷ 1 ∷ b'/' ∷ 0 ∷ 0 ∷ [])
      0
      0
    × Gives
        (connection_close draws pair_table 0 4 connection_env)
        7
        1
        (0 ∷ 10 ∷ 0 ∷ 50 ∷ 0 ∷ 200 ∷ 3 ∷ b'2' ∷ b'0' ∷ b'0' ∷ 0 ∷ 0 ∷ 0 ∷ 0 ∷ [])
        0
        0
    × Gives (connection_close_ok draws pair_table 0 4 connection_env) 7 1 (0 ∷ 10 ∷ 0 ∷ 51 ∷ []) 0 0
builders_lem_example = builders_lem draws pair_table connection_env method_rules 0 0

abbrev sends : ℕ → ℕ → Bytes → Rand Reply
sends state response packet k =
    ok (record { next_state = state; response_expected = response; packet = packet }, k)

sends-Leaves :
    (state response : ℕ) (packet : Bytes) → Leaves (sends state response packet) state response
sends-Leaves state response packet k reply k' e = ground (arith, e)

-- Builders that send one byte each.
abbrev builders : Messages
builders = record {
  amqp_header = sends 1 1 (0 ∷ []);
  start_ok = sends 1 1 (1 ∷ []);
  tune_ok = λ method_data. sends 3 0 (2 ∷ []);
  open_connection = sends 4 1 (3 ∷ []);
  close = sends 7 1 (4 ∷ []);
  close_ok = sends 7 1 (5 ∷ []);
  amqp_header_leaves = sends-Leaves 1 1 (0 ∷ []);
  start_ok_leaves = sends-Leaves 1 1 (1 ∷ []);
  tune_ok_leaves = λ method_data. sends-Leaves 3 0 (2 ∷ []);
  open_leaves = sends-Leaves 4 1 (3 ∷ []);
  close_leaves = sends-Leaves 7 1 (4 ∷ []);
  close_ok_leaves = sends-Leaves 7 1 (5 ∷ []);
}
