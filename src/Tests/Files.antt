-- ===== src/Tests/Files.antt =====
-- The rule files in abnf/, and the tables that the parser makes of them.
pub mod ProtocolFiles
pub mod ConnectionFile
use Prim.Native.String.{String}
use amqpgram.Base.{List, Option, some, Bytes}
use amqpgram.Base.Text.{codes}
use amqpgram.Grammar.{GrammarEntry, GenFunction}
use amqpgram.Grammar.Entries.{string_value, array_value, function_value}

abbrev Row : Type 0
Row = Bytes × Option GrammarEntry

abbrev pub rule : String → String → Row
rule key value = (codes key, some (string_value (codes value)))

abbrev pub choice : String → List Bytes → Row
choice key alternatives = (codes key, some (array_value alternatives))

abbrev pub generator : String → GenFunction → Row
generator key f = (codes key, some (function_value f))
