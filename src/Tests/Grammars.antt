-- ===== src/Tests/Grammars.antt =====
-- grammar/grammar-parser.c and fuzzer/Grammar_Interface.c at concrete inputs.
use amqpgram.Base.{◌≡◌, ◌≢◌, refl, [], ◌∷◌, some}
use amqpgram.Base.Outcome.{ok, stuck}
use amqpgram.Base.Text.{codes}
use amqpgram.CString.{trim_string}
use amqpgram.Grammar.Entries.{of_string, string_value, array_value}
use amqpgram.Grammar.Table.{pair_table}
use amqpgram.Grammar.Lookup.{Grammar, create_grammar, grammar_insert}
use amqpgram.Grammar.Lookup.Laws.{AllWellFormed, grammar_insert-AllWellFormed}
use amqpgram.Grammar.Parser.{parse_value, grammar_init}
use amqpgram.Grammar.Parser.Rules.{parse_value-join}
use amqpgram.Grammar.Parser.Ends.{grammar_init-ne_stuck}

abbrev pub empty_grammar : Grammar pair_table
empty_grammar = create_grammar pair_table

pub empty_AllWellFormed : AllWellFormed pair_table empty_grammar
unfolding create_grammar
empty_AllWellFormed k e found = cc

abbrev pub class_grammar : Grammar pair_table
class_grammar =
    grammar_insert pair_table empty_grammar (codes "class-id")
      (some (string_value (codes "%x00.0A")))

pub class_AllWellFormed : AllWellFormed pair_table class_grammar
class_AllWellFormed =
    grammar_insert-AllWellFormed pair_table empty_grammar (codes "class-id")
      (string_value (codes "%x00.0A")) empty_AllWellFormed (of_string (codes "%x00.0A") refl)

parse_value-join_example :
    parse_value (codes "a-b / \"c\" / d")
    ≡ ok (array_value (codes "a-b" ∷ codes "\"c\"" ∷ codes "d" ∷ []))
unfolding trim_string
parse_value-join_example =
    parse_value-join (codes "a-b ") (codes " \"c\" ") (codes " d" ∷ [])
      (refl, (refl, (refl, (refl, tt)))) (refl, (refl, (refl, (refl, (refl, tt)))))
      ((refl, (refl, tt)), tt)

grammar_init_example :
    grammar_init pair_table (codes "a = %x01 ; one\nb = a / c ; two\n") (codes "c = \"x\" ;\n")
    ≢ stuck
grammar_init_example =
    grammar_init-ne_stuck pair_table (codes "a = %x01 ; one\nb = a / c ; two\n")
      (codes "c = \"x\" ;\n")
