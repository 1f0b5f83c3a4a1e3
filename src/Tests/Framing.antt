-- ===== src/Tests/Framing.antt =====
-- fuzzer/Connection.c at RULE_CHAOS 3: the packet that opens a connection, with a length and a method
-- that the dice have chosen.
use amqpgram.Connection.{reply_with, connection_open}
use amqpgram.Grammar.{
  new_string_grammar_entry, copy_grammar_entry_t, new_str_array_grammar_entry,
  new_byte_array_grammar_entry,
}
use amqpgram.GrammarInterface.{overwrite_rule_with_chaos, overwrite_rule_set_length}
use amqpgram.Grammar.Lookup.{environment_lookup, new_environment, create_grammar, grammar_insert}
use amqpgram.Generator.{decode_rule, parse_elements, parse_element}
use amqpgram.Terminals.{
  decode_terminal_symbol, decode_terminal_range, generate_range, select_alternative_rule,
}
use amqpgram.CString.{strtok, token_end, strtol}
use amqpgram.Utils.{int_in_char}
use amqpgram.Connection.Interface.{Reply}
use amqpgram.Connection.Framing.Packets.{open_method, build-IsFramed}
use amqpgram.Connection.Framing.Decoding.{IsFramed}
use amqpgram.Grammar.Table.{pair_table}
use amqpgram.Base.Outcome.{ok}
use amqpgram.Base.{ℕ, ◌+◌, ◌*◌, ◌%◌, ◌≡◌, refl, [], ◌∷◌}
use amqpgram.Tests.Files.ConnectionFile.{connection_env}
use amqpgram.Tests.Replies.{payload_rules}

abbrev rolls : ℕ → ℕ
rolls k = (k * 7919 + 13) % 32768

abbrev scrambled : Reply
scrambled = record {
  next_state = 4;
  response_expected = 1;
  packet = 1 ∷ 0 ∷ 0 ∷ 224 ∷ 238 ∷ 252 ∷ 138 ∷ 0 ∷ 10 ∷ 30 ∷ 253 ∷ 0 ∷ 0 ∷ 206 ∷ [];
}

open_scrambled : connection_open rolls pair_table 3 8 connection_env 0 ≡ ok (scrambled, 11)
unfolding reply_with new_string_grammar_entry overwrite_rule_with_chaos environment_lookup
    new_environment copy_grammar_entry_t create_grammar new_str_array_grammar_entry grammar_insert
    overwrite_rule_set_length decode_rule parse_elements strtok parse_element token_end
    decode_terminal_symbol strtol connection_open new_byte_array_grammar_entry decode_terminal_range
    generate_range select_alternative_rule int_in_char
open_scrambled = refl

build-IsFramed_example : IsFramed scrambled.packet
build-IsFramed_example =
    build-IsFramed rolls pair_table 3 8 connection_env payload_rules.framing open_method 0 scrambled
      11 open_scrambled
