-- ===== src/Tests/Rules.antt =====
-- grammar/packet-generator.c, fuzzer/Grammar_Interface.c and fuzzer/Connection.c at concrete inputs.
use amqpgram.Base.{
  ℕ, ◌*◌, ◌^◌, suc, ◌+◌, ◌≡◌, ◌≢◌, ◌≤◌, ◌<◌, ◌⊎◌, inr, refl, arith, List, [], ◌∷◌, some, Bytes,
  length,
}
use amqpgram.Base.Outcome.{ok, fault, stuck}
use amqpgram.Base.Random.{Rand, pure}
use amqpgram.Base.Text.{codes}
use amqpgram.CString.{strtok, token_end, strtol}
use amqpgram.Utils.Writing.{be_bytes}
use amqpgram.Grammar.{copy_grammar_entry_t}
use amqpgram.Grammar.Entries.{of_string, string_value, array_value}
use amqpgram.Grammar.Table.{pair_table}
use amqpgram.Grammar.Lookup.{
  create_grammar, Grammar, Environment, environment_lookup, grammar_insert,
}
use amqpgram.Grammar.Lookup.Laws.{AllWellFormed, grammar_insert-AllWellFormed}
use amqpgram.Terminals.{
  generate_range, remainder, decode_terminal_symbol, decode_terminal_range, count_occurrences,
}
use amqpgram.Terminals.Ranges.{generate_range_lem}
use amqpgram.Generator.{decode_rule, parse_elements, parse_element, repetition_quantity}
use amqpgram.Generator.Repetition.{elements_plain, parse_elements_lem, repetition_quantity_lem}
use amqpgram.Generator.Ends.{parse_elements-Ends}
use amqpgram.GrammarInterface.{overwrite_rule_with_chaos}
use amqpgram.GrammarInterface.Chaos.{alternatives, Answers, overwrite_rule_with_chaos_lem}
use amqpgram.Connection.{finish_method, decode, choose_frame_max}
use amqpgram.Connection.Methods.{HasFraming, finish_method_lem}
use amqpgram.Connection.Tuning.{choose_frame_max_lem}
use amqpgram.Tests.Grammars.{empty_grammar, empty_AllWellFormed, class_grammar, class_AllWellFormed}

abbrev draws : ℕ → ℕ
draws k = k * 5000

generate_range_example :
    (gen : ℕ) × (32 ≤ gen)
    × (gen < 127)
    × (2 * 256 ^ 0 ≤ 127 → 127 < 256 ^ 1 → generate_range 32 127 1000 ≡ ok (be_bytes 1 gen))
    × (256 ^ 0 ≤ 127 → 127 < 2 * 256 ^ 0 → generate_range 32 127 1000 ≡ ok (be_bytes 0 gen))
generate_range_example = generate_range_lem 0 32 127 1000 (omega arith)

repetition_quantity_example :
    (quantity : ℕ) × (1 ≤ 16
      → (repetition_quantity 1 16 77 ≡ ok quantity) × (1 ≤ quantity) × (quantity ≤ 16))
    × (◌≡◌ {A = ℕ} 1 (16 + 1) → repetition_quantity 1 16 77 ≡ fault)
repetition_quantity_example = repetition_quantity_lem 1 16 77 (omega arith)

abbrev echo : Bytes → Rand Bytes
echo rule = pure rule

parse_elements_example :
    parse_elements draws echo (codes "%x01 2abc") 0
    ≡ elements_plain
        (λ element. parse_element draws echo (suc (length element)) element)
        (count_occurrences (codes "%x01 2abc") b' ' + 1)
        (strtok b' ' (codes "%x01 2abc"))
        []
        0
parse_elements_example = parse_elements_lem draws echo (codes "%x01 2abc") 0

parse_elements-Ends_example : parse_elements draws echo (codes "%x01 2*4%d1-9 abc") 0 ≢ stuck
parse_elements-Ends_example =
    parse_elements-Ends draws echo (λ name k e. cc) (codes "%x01 2*4%d1-9 abc") 0

class_found :
    environment_lookup pair_table (class_grammar ∷ []) (codes "class-id")
    ≡ ok (some (string_value (codes "%x00.0A")))
unfolding environment_lookup grammar_insert copy_grammar_entry_t create_grammar
class_found = refl

overwrite_rule_with_chaos_example :
    (changed : Grammar pair_table) × (overwrite_rule_with_chaos pair_table 1
        (some class_grammar)
        (class_grammar ∷ [])
        (codes "class-id")
        (string_value (codes "%x00.14"))
      ≡ ok changed)
    × AllWellFormed pair_table changed
    × Answers pair_table changed class_grammar []
        (codes "class-id")
        (array_value (alternatives 1 (codes "class-id")))
        (string_value (codes "%x00.14"))
        (string_value (codes "%x00.0A"))
overwrite_rule_with_chaos_example =
    overwrite_rule_with_chaos_lem pair_table 1 class_grammar (class_grammar ∷ []) []
      (codes "class-id") (string_value (codes "%x00.14")) (string_value (codes "%x00.0A"))
      (omega arith) (omega arith) class_AllWellFormed (of_string (codes "%x00.14") refl)
      (of_string (codes "%x00.0A") refl) class_found

-- The second round has a suitable result.
choose_frame_max_example :
    (frame_max : ℕ) × (calls' : ℕ) × (choose_frame_max draws 5 131072 0 ≡ ok (frame_max, calls'))
    × (frame_max ≤ 131072)
    × (frame_max ≡ 0 ⊎ 4095 ≤ frame_max)
choose_frame_max_example =
    choose_frame_max_lem draws 5 131072 0 1 (omega arith) (omega arith) (inr (omega arith))

abbrev framing : List (Bytes × Bytes)
framing =
    (codes "method", codes "method-frame")
    ∷ (codes "method-frame", codes "%d1 frame-properties method-payload frame-end")
    ∷ (codes "frame-properties", codes "channel payload-size")
    ∷ (codes "channel", codes "%x00.00")
    ∷ (codes "frame-end", codes "%xCE")
    ∷ (codes "method-payload", codes "%x00.0A.00.32 1*1%x05-FF")
    ∷ []

abbrev with_rules : List (Bytes × Bytes) → Grammar pair_table
with_rules [] = empty_grammar
with_rules ((rule, text) ∷ rules) =
    grammar_insert pair_table (with_rules rules) rule (some (string_value text))

with_rules-AllWellFormed :
    (rules : List (Bytes × Bytes)) → AllWellFormed pair_table (with_rules rules)
with_rules-AllWellFormed [] = empty_AllWellFormed
with_rules-AllWellFormed ((rule, text) ∷ rules) =
    grammar_insert-AllWellFormed pair_table (with_rules rules) rule (string_value text)
      (with_rules-AllWellFormed rules) (of_string text refl)

pub framing_rules : HasFraming pair_table (with_rules framing ∷ [])
unfolding environment_lookup grammar_insert copy_grammar_entry_t create_grammar
framing_rules = record {
  method = refl;
  method_frame = refl;
  frame_properties = refl;
  channel = refl;
  frame_end = refl;
}

abbrev env : Environment pair_table
env = with_rules framing ∷ []

payload_run :
    decode draws pair_table 0 4 (codes "method-payload") env 0 ≡ ok (0 ∷ 10 ∷ 0 ∷ 50 ∷ 5 ∷ [], 2)
unfolding decode environment_lookup grammar_insert create_grammar decode_rule copy_grammar_entry_t
    parse_elements count_occurrences strtok parse_element token_end decode_terminal_symbol remainder
    decode_terminal_range strtol generate_range
payload_run = refl

finish_method_example :
    finish_method draws pair_table 0 4 [] (with_rules framing) 0
    ≡ ok (1 ∷ 0 ∷ 0 ∷ 0 ∷ 0 ∷ 0 ∷ 5 ∷ 0 ∷ 10 ∷ 0 ∷ 50 ∷ 5 ∷ 206 ∷ [], 2)
finish_method_example =
    finish_method_lem draws pair_table (with_rules framing) [] (0 ∷ 10 ∷ 0 ∷ 50 ∷ 5 ∷ []) 0 0 2
      (with_rules-AllWellFormed framing) framing_rules payload_run
