-- ===== src/Tests/Files/ProtocolFiles.antt =====
-- abnf/grammar-spec and abnf/grammar-abnf.
use amqpgram.Base.{◌≡◌, refl, [], ◌∷◌, ◌++◌, Bytes}
use amqpgram.Base.Outcome.{ok}
use amqpgram.Base.Text.{codes}
use amqpgram.CString.{strtok, token_end}
use amqpgram.Grammar.{copy_grammar_entry_t, new_grammar_entry_t}
use amqpgram.Grammar.Table.{pair_table}
use amqpgram.Grammar.Lookup.{Grammar, grammar_insert, create_grammar}
use amqpgram.Grammar.Parser.{grammar_init, generate_grammar, populate_line, fgets, parse_value}
use amqpgram.Tests.Files.{rule, choice}

abbrev pub grammar_spec : Bytes
grammar_spec =
    codes "amqp                = protocol-header ; ALTERED: amqp-unit not defined anywhere\n"
    ++ codes "protocol-header     = literal-AMQP protocol-id protocol-version\n"
    ++ codes "literal-AMQP        = %d65.77.81.80                             ; \"AMQP\"\n"
    ++ codes "protocol-id         = %d0                                       ; Must be 0\n"
    ++ codes "protocol-version    = %d0.9.1                                   ; 0-9-1\n"
    ++ codes
        "method              = method-frame [content]                    ; ALTERED: Optional rules are enclosed with brackets\n"
    ++ codes "method-frame        = %d1 frame-properties method-payload frame-end\n"
    ++ codes "frame-properties    = channel payload-size\n"
    ++ codes "channel             = short-uint                                ; Non-zero\n"
    ++ codes "payload-size        = long-uint\n"
    ++ codes "method-payload      = class-id method-id *amqp-field\n"
    ++ codes "class-id            = %x00.01-FF.FF\n"
    ++ codes "method-id           = %x00.01-FF.FF\n"
    ++ codes
        "amqp-field          = BIT / OCTET / short-uint / long-uint / long-long-uint / short-string / long-string / timestamp / field-table\n"
    ++ codes "short-uint          = 2OCTET\n"
    ++ codes "long-uint           = 4OCTET\n"
    ++ codes "long-long-uint      = 8OCTET\n"
    ++ codes "short-string        = OCTET *string-char ; length + content\n"
    ++ codes "string-char         = %x01-FF ; ALTERED: does not fit RFC2234 or superior\n"
    ++ codes "long-string         = long-uint *OCTET ; length + content\n"
    ++ codes "timestamp           = long-long-uint ; 64-bit POSIX\n"
    ++ codes "field-table         = long-uint *field-value-pair\n"
    ++ codes "field-value-pair    = field-name field-value\n"
    ++ codes "field-name          = short-string\n"
    ++ codes
        "field-value         = %x74 boolean / %x62 short-short-int / %x42 short-short-uint / %x55 short-int / %x75 short-uint / %x49 long-int / %x69 long-uint / %x4c long-long-int / %x6c long-long-uint / %x66 float / %x64 double / %x44 decimal-value / %x73 short-string / %x53 long-string / %x41 field-array / %x54 timestamp / %x46 field-table / %x56                                   ; ALTERED: Case-sensitive strings should have its characters specified individually\n"
    ++ codes
        "boolean             = OCTET                                     ; 0 = FALSE, else TRUE\n"
    ++ codes "short-short-int     = OCTET\n"
    ++ codes "short-short-uint    = OCTET\n"
    ++ codes "short-int           = 2OCTET\n"
    ++ codes "long-int            = 4OCTET\n"
    ++ codes "long-long-int       = 8OCTET\n"
    ++ codes "float               = 4OCTET                                   ; IEEE-754\n"
    ++ codes "double              = 8OCTET                                   ; rfc1832 XDR double\n"
    ++ codes "decimal-value       = scale long-uint\n"
    ++ codes
        "scale               = OCTET                                     ; number of decimal digits\n"
    ++ codes "field-array         = long-int *field-value                     ; array of values\n"
    ++ codes "frame-end           = %xCE\n"
    ++ codes "content             = %d2 content-header *content-body\n"
    ++ codes "content-header      = frame-properties header-payload frame-end\n"
    ++ codes
        "header-payload      = content-class content-weight content-body-size property-flags property-list\n"
    ++ codes "content-class       = OCTET\n"
    ++ codes "content-weight      = %x00\n"
    ++ codes "content-body-size   = long-long-uint\n"
    ++ codes "property-flags      = 15*BIT %b0 / 15*BIT %b1 property-flags\n"
    ++ codes "property-list       = *amqp-field\n"
    ++ codes "content-body        = %d3 frame-properties body-payload frame-end\n"
    ++ codes "body-payload        = *OCTET\n"
    ++ codes "heartbeat           = %d8 %d0 %d0 frame-end\n"

abbrev pub grammar_abnf : Bytes
grammar_abnf =
    codes "ALPHA          =  %x41-5A / %x61-7A   ; A-Z / a-z\n"
    ++ codes "BIT            =  \"0\" / \"1\"\n"
    ++ codes "CHAR           =  %x01-7F\n"
    ++ codes "DIGIT          =  %x30-39\n"
    ++ codes "DQUOTE         =  %x22\n"
    ++ codes "HEXDIG         =  DIGIT / \"A\" / \"B\" / \"C\" / \"D\" / \"E\" / \"F\"\n"
    ++ codes "OCTET          =  %x00-FF\n"

abbrev pub protocol_grammar : Grammar pair_table
protocol_grammar =
    rule "amqp" "protocol-header"
    ∷ rule "protocol-header" "literal-AMQP protocol-id protocol-version"
    ∷ rule "literal-AMQP" "%d65.77.81.80"
    ∷ rule "protocol-id" "%d0"
    ∷ rule "protocol-version" "%d0.9.1"
    ∷ rule "method" "method-frame [content]"
    ∷ rule "method-frame" "%d1 frame-properties method-payload frame-end"
    ∷ rule "frame-properties" "channel payload-size"
    ∷ rule "channel" "short-uint"
    ∷ rule "payload-size" "long-uint"
    ∷ rule "method-payload" "class-id method-id *amqp-field"
    ∷ rule "class-id" "%x00.01-FF.FF"
    ∷ rule "method-id" "%x00.01-FF.FF"
    ∷ choice "amqp-field" (
        codes "BIT"
        ∷ codes "OCTET"
        ∷ codes "short-uint"
        ∷ codes "long-uint"
        ∷ codes "long-long-uint"
        ∷ codes "short-string"
        ∷ codes "long-string"
        ∷ codes "timestamp"
        ∷ codes "field-table"
        ∷ [])
    ∷ rule "short-uint" "2OCTET"
    ∷ rule "long-uint" "4OCTET"
    ∷ rule "long-long-uint" "8OCTET"
    ∷ rule "short-string" "OCTET *string-char"
    ∷ rule "string-char" "%x01-FF"
    ∷ rule "long-string" "long-uint *OCTET"
    ∷ rule "timestamp" "long-long-uint"
    ∷ rule "field-table" "long-uint *field-value-pair"
    ∷ rule "field-value-pair" "field-name field-value"
    ∷ rule "field-name" "short-string"
    ∷ choice "field-value" (
        codes "%x74 boolean"
        ∷ codes "%x62 short-short-int"
        ∷ codes "%x42 short-short-uint"
        ∷ codes "%x55 short-int"
        ∷ codes "%x75 short-uint"
        ∷ codes "%x49 long-int"
        ∷ codes "%x69 long-uint"
        ∷ codes "%x4c long-long-int"
        ∷ codes "%x6c long-long-uint"
        ∷ codes "%x66 float"
        ∷ codes "%x64 double"
        ∷ codes "%x44 decimal-value"
        ∷ codes "%x73 short-string"
        ∷ codes "%x53 long-string"
        ∷ codes "%x41 field-array"
        ∷ codes "%x54 timestamp"
        ∷ codes "%x46 field-table"
        ∷ codes "%x56"
        ∷ [])
    ∷ rule "boolean" "OCTET"
    ∷ rule "short-short-int" "OCTET"
    ∷ rule "short-short-uint" "OCTET"
    ∷ rule "short-int" "2OCTET"
    ∷ rule "long-int" "4OCTET"
    ∷ rule "long-long-int" "8OCTET"
    ∷ rule "float" "4OCTET"
    ∷ rule "double" "8OCTET"
    ∷ rule "decimal-value" "scale long-uint"
    ∷ rule "scale" "OCTET"
    ∷ rule "field-array" "long-int *field-value"
    ∷ rule "frame-end" "%xCE"
    ∷ rule "content" "%d2 content-header *content-body"
    ∷ rule "content-header" "frame-properties header-payload frame-end"
    ∷ rule "header-payload"
        "content-class content-weight content-body-size property-flags property-list"
    ∷ rule "content-class" "OCTET"
    ∷ rule "content-weight" "%x00"
    ∷ rule "content-body-size" "long-long-uint"
    ∷ choice "property-flags" (codes "15*BIT %b0" ∷ codes "15*BIT %b1 property-flags" ∷ [])
    ∷ rule "property-list" "*amqp-field"
    ∷ rule "content-body" "%d3 frame-properties body-payload frame-end"
    ∷ rule "body-payload" "*OCTET"
    ∷ rule "heartbeat" "%d8 %d0 %d0 frame-end"
    ∷ choice "ALPHA" (codes "%x41-5A" ∷ codes "%x61-7A" ∷ [])
    ∷ choice "BIT" (codes "\"0\"" ∷ codes "\"1\"" ∷ [])
    ∷ rule "CHAR" "%x01-7F"
    ∷ rule "DIGIT" "%x30-39"
    ∷ rule "DQUOTE" "%x22"
    ∷ choice "HEXDIG" (
        codes "DIGIT"
        ∷ codes "\"A\""
        ∷ codes "\"B\""
        ∷ codes "\"C\""
        ∷ codes "\"D\""
        ∷ codes "\"E\""
        ∷ codes "\"F\""
        ∷ [])
    ∷ rule "OCTET" "%x00-FF"
    ∷ []

-- What the parser makes of the two files.
pub parses : grammar_init pair_table grammar_spec grammar_abnf ≡ ok protocol_grammar
unfolding grammar_init generate_grammar copy_grammar_entry_t populate_line strtok fgets token_end
    parse_value new_grammar_entry_t grammar_insert create_grammar
parses = refl
