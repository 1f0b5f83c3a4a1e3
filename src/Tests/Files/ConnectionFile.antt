-- ===== src/Tests/Files/ConnectionFile.antt =====
-- abnf/grammar-connection.
use amqpgram.Base.{◌≡◌, refl, [], ◌∷◌, ◌++◌, Bytes}
use amqpgram.Base.Outcome.{ok}
use amqpgram.Base.Text.{codes}
use amqpgram.Grammar.{
  shortstring_generator, longstring_generator, copy_grammar_entry_t, new_grammar_entry_t,
  new_function_grammar_entry,
}
use amqpgram.Grammar.Table.{pair_table}
use amqpgram.Grammar.Lookup.{Grammar, Environment, grammar_insert, create_grammar, new_environment}
use amqpgram.Grammar.Parser.{generate_grammar, populate_line, fgets, parse_value}
use amqpgram.CString.{strtok, token_end}
use amqpgram.GrammarInterface.{overwrite_rule_with_chaos}
use amqpgram.Connection.{setup_connection_env}
use amqpgram.Tests.Files.{rule, choice, generator}
use amqpgram.Tests.Files.ProtocolFiles.{protocol_grammar}

abbrev pub grammar_connection : Bytes
grammar_connection =
    codes "connection              = open-connection *use-connection close-connection\n"
    ++ codes
        "open-connection         = C:protocol-header S:START C:START-OK *challenge S:TUNE C:TUNE-OK C:OPEN S:OPEN-OK\n"
    ++ codes "challenge               = S:SECURE C:SECURE-OK\n"
    ++ codes "use-connection          = C:CLOSE S:CLOSE-OK\n"
    ++ codes "close-connection        = C:CLOSE S:CLOSE-OK / S:CLOSE C:CLOSE-OK\n"
    ++ codes "\n"
    ++ codes "method                  = method-frame\n"
    ++ codes "channel                 = %x00.00\n"
    ++ codes "class-id                = %x00.0A\n"
    ++ codes "method-payload          = class-id method-id method-properties\n"
    ++ codes "\n"
    ++ codes
        "; entries starting with <\"m\" %d0-%d99 \"-\"> are to substitute existing fields in the overall grammar for the method of id equal to the numerical part of the prefix\n"
    ++ codes "\n"
    ++ codes "\n"
    ++ codes "m11-method-id           = %x00.0B\n"
    ++ codes "m11-method-properties = client-properties mechanism response locale\n"
    ++ codes "client-properties = client-properties-length client-properties-payload\n"
    ++ codes "\n"
    ++ codes
        "; client-properties-payload = %d07 \"product\" %x53 product-value %d07 \"version\" %x53 version-value %d08 \"platform\" %x53 platform-value\n"
    ++ codes "\n"
    ++ codes "client-properties-payload = %x00.56\n"
    ++ codes "\n"
    ++ codes "product-value           = long-string\n"
    ++ codes "version-value           = long-string\n"
    ++ codes "platform-value          = long-string\n"
    ++ codes "\n"
    ++ codes "mechanism = %d5 %x50.4C.41.49.4E ; PLAIN\n"
    ++ codes "response = message-length message\n"
    ++ codes "locale = %d5 %x65.6E.5F.55.53 ; en_US\n"
    ++ codes "\n"
    ++ codes "m31-method-id           = %x00.1F\n"
    ++ codes "m31-method-properties   = channel-max frame-max heartbeat-time\n"
    ++ codes "channel-max             = short-int\n"
    ++ codes "frame-max               = long-int\n"
    ++ codes "heartbeat-time          = short-int \n"
    ++ codes "\n"
    ++ codes "m40-method-id           = %x00.28\n"
    ++ codes "m40-method-properties   = virtual-host %d0 %d0\n"
    ++ codes "\n"
    ++ codes "m50-method-id           = %x00.32\n"
    ++ codes "m50-method-properties   = reply-code reply-text m50-class-id-val m50-method-id-val\n"
    ++ codes "m50-class-id-val        = class-id  ; To be overwritten\n"
    ++ codes "m50-method-id-val       = method-id ; To be overwritten\n"
    ++ codes "reply-code              = short-int\n"
    ++ codes "reply-text              = shortstr\n"
    ++ codes "\n"
    ++ codes "m51-method-id           = %x00.33\n"
    ++ codes "\n"
    ++ codes "\n"
    ++ codes "; RFC4616 : PLAIN\n"
    ++ codes "\n"
    ++ codes "message   = [authzid] UTF8NUL authcid UTF8NUL passwd ;\n"
    ++ codes "authcid   = 1*SAFE ; MUST accept up to 255 octets\n"
    ++ codes "authzid   = 1*SAFE ; MUST accept up to 255 octets\n"
    ++ codes "passwd    = 1*SAFE ; MUST accept up to 255 octets\n"
    ++ codes "UTF8NUL   = %x00 ; UTF-8 encoded NUL character\n"
    ++ codes "\n"
    ++ codes "SAFE      = UTF1 / UTF2 / UTF3 / UTF4\n"
    ++ codes "            ;; any UTF-8 encoded Unicode character except NUL\n"
    ++ codes "\n"
    ++ codes "UTF1      = %x01-7F ;; except NUL\n"
    ++ codes "UTF2      = %xC2-DF UTF0\n"
    ++ codes "UTF3      = %xE0 %xA0-BF UTF0 / %xE1-EC 2UTF0 / %xED %x80-9F UTF0 / %xEE-EF 2UTF0\n"
    ++ codes "UTF4      = %xF0 %x90-BF 2UTF0 / %xF1-F3 3UTF0 / %xF4 %x80-8F 2UTF0\n"
    ++ codes "UTF0      = %x80-BF\n"

abbrev connection_grammar : Grammar pair_table
connection_grammar =
    rule "connection" "open-connection *use-connection close-connection"
    ∷ rule "open-connection"
        "C:protocol-header S:START C:START-OK *challenge S:TUNE C:TUNE-OK C:OPEN S:OPEN-OK"
    ∷ rule "challenge" "S:SECURE C:SECURE-OK"
    ∷ rule "use-connection" "C:CLOSE S:CLOSE-OK"
    ∷ choice "close-connection" (codes "C:CLOSE S:CLOSE-OK" ∷ codes "S:CLOSE C:CLOSE-OK" ∷ [])
    ∷ rule "method" "method-frame"
    ∷ rule "channel" "%x00.00"
    ∷ rule "class-id" "%x00.0A"
    ∷ rule "method-payload" "class-id method-id method-properties"
    ∷ rule "m11-method-id" "%x00.0B"
    ∷ rule "m11-method-properties" "client-properties mechanism response locale"
    ∷ rule "client-properties" "client-properties-length client-properties-payload"
    ∷ rule "; client-properties-payload"
        "%d07 \"product\" %x53 product-value %d07 \"version\" %x53 version-value %d08 \"platform\" %x53 platform-value"
    ∷ rule "client-properties-payload" "%x00.56"
    ∷ rule "product-value" "long-string"
    ∷ rule "version-value" "long-string"
    ∷ rule "platform-value" "long-string"
    ∷ rule "mechanism" "%d5 %x50.4C.41.49.4E"
    ∷ rule "response" "message-length message"
    ∷ rule "locale" "%d5 %x65.6E.5F.55.53"
    ∷ rule "m31-method-id" "%x00.1F"
    ∷ rule "m31-method-properties" "channel-max frame-max heartbeat-time"
    ∷ rule "channel-max" "short-int"
    ∷ rule "frame-max" "long-int"
    ∷ rule "heartbeat-time" "short-int"
    ∷ rule "m40-method-id" "%x00.28"
    ∷ rule "m40-method-properties" "virtual-host %d0 %d0"
    ∷ rule "m50-method-id" "%x00.32"
    ∷ rule "m50-method-properties" "reply-code reply-text m50-class-id-val m50-method-id-val"
    ∷ rule "m50-class-id-val" "class-id"
    ∷ rule "m50-method-id-val" "method-id"
    ∷ rule "reply-code" "short-int"
    ∷ rule "reply-text" "shortstr"
    ∷ rule "m51-method-id" "%x00.33"
    ∷ rule "message" "[authzid] UTF8NUL authcid UTF8NUL passwd"
    ∷ rule "authcid" "1*SAFE"
    ∷ rule "authzid" "1*SAFE"
    ∷ rule "passwd" "1*SAFE"
    ∷ rule "UTF8NUL" "%x00"
    ∷ choice "SAFE" (codes "UTF1" ∷ codes "UTF2" ∷ codes "UTF3" ∷ codes "UTF4" ∷ [])
    ∷ rule "UTF1" "%x01-7F"
    ∷ rule "UTF2" "%xC2-DF UTF0"
    ∷ choice "UTF3" (
        codes "%xE0 %xA0-BF UTF0"
        ∷ codes "%xE1-EC 2UTF0"
        ∷ codes "%xED %x80-9F UTF0"
        ∷ codes "%xEE-EF 2UTF0"
        ∷ [])
    ∷ choice "UTF4"
        (codes "%xF0 %x90-BF 2UTF0" ∷ codes "%xF1-F3 3UTF0" ∷ codes "%xF4 %x80-8F 2UTF0" ∷ [])
    ∷ rule "UTF0" "%x80-BF"
    ∷ generator "short-string" shortstring_generator
    ∷ generator "long-string" longstring_generator
    ∷ []

abbrev pub connection_env : Environment pair_table
connection_env = connection_grammar ∷ protocol_grammar ∷ []

-- With RULE_CHAOS 0, the file and the two generators of strings give this environment.
pub fills :
    setup_connection_env (λ k. k) pair_table 0 4 grammar_connection (protocol_grammar ∷ [])
    ≡ ok connection_env
unfolding setup_connection_env generate_grammar copy_grammar_entry_t populate_line strtok fgets
    token_end parse_value new_grammar_entry_t grammar_insert create_grammar
    new_function_grammar_entry overwrite_rule_with_chaos new_environment
fills = refl
