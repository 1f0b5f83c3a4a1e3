-- ===== src/Tests/Waiting.antt =====
-- Packets that wait, and what becomes of them, at concrete inputs.
use amqpgram.Base.{List, false, ◌≡◌, refl, arith, [], ◌∷◌, some, Bytes}
use amqpgram.Base.Outcome.{ok}
use amqpgram.Grammar.Table.{pair_table}
use amqpgram.Grammar.Lookup.{new_environment}
use amqpgram.Packet.{break_packet}
use amqpgram.Packet.Breaking.{break_packet-method_frame}
use amqpgram.Session.Invariant.{listener_round-Reach}
use amqpgram.Session.Listening.{method_packet, listener_round-method_frame}
use amqpgram.Session.Payloads.{IsWaiting, Reach-IsWaiting}
use amqpgram.Session.Typing.{setup_environments-AreTyped}
use amqpgram.Grammar.Lookup.Typing.{AreTyped}
use amqpgram.Tests.Files.ConnectionFile.{grammar_connection, connection_env, fills}
use amqpgram.Session.{Session, listener_round}
use amqpgram.Session.Polling.{Polled, silent, received, listener, Ends, listener-Ends}
use amqpgram.Session.Setup.{Protocol, no_protocol, setup_protocol_env}
use amqpgram.Tests.Sessions.{draws, messages, socket, connected, open_ok, Reach-connected}
use amqpgram.Tests.Files.ProtocolFiles.{grammar_spec, grammar_abnf, protocol_grammar, parses}

abbrev waiting : Bytes
waiting = 1 ∷ 0 ∷ 0 ∷ 0 ∷ 0 ∷ 0 ∷ 5 ∷ 0 ∷ 10 ∷ 0 ∷ 41 ∷ 0 ∷ 206 ∷ 1 ∷ 0 ∷ []

pub breaks : break_packet open_ok ≡ ok (method_packet 0 10 41 (0 ∷ []))
breaks =
    break_packet-method_frame 0 10 41 (0 ∷ []) [] (omega arith) (omega arith) (omega arith)
      (omega arith)

Reach-IsWaiting_example : IsWaiting (some (method_packet 0 10 41 (0 ∷ [])))
Reach-IsWaiting_example = Reach-IsWaiting draws messages 0 socket (
    listener_round-Reach draws messages 0 socket 2 open_ok connected
      (record connected { channel_packet = some (method_packet 0 10 41 (0 ∷ [])) }) Reach-connected
      (listener_round-method_frame 0 0 10 41 (0 ∷ []) [] connected (omega arith) (omega arith)
        (omega arith) (omega arith)))

abbrev set_up : Protocol pair_table
set_up = record { protocol_grammar = some protocol_grammar; protocol_env = protocol_grammar ∷ [] }

sets_up :
    setup_protocol_env pair_table grammar_spec grammar_abnf (no_protocol pair_table) ≡ ok set_up
unfolding setup_protocol_env new_environment
sets_up = rw parses refl

setup_environments-AreTyped_example :
    AreTyped pair_table set_up.protocol_env × AreTyped pair_table connection_env
setup_environments-AreTyped_example =
    setup_environments-AreTyped pair_table (λ k. k) 0 4 grammar_spec grammar_abnf grammar_connection
      set_up connection_env sets_up fills

abbrev silence : Polled × (Session → Session)
silence = (silent, λ s. s)

-- Five empty polls before OpenOk, and five behind it.
abbrev answers : List (Polled × (Session → Session))
answers =
    silence
    ∷ silence
    ∷ silence
    ∷ silence
    ∷ silence
    ∷ (received false open_ok, λ s. s)
    ∷ silence
    ∷ silence
    ∷ silence
    ∷ silence
    ∷ silence
    ∷ []

takes :
    (s : Session)
    → listener_round 2 open_ok s
      ≡ ok (record s { channel_packet = some (method_packet 0 10 41 (0 ∷ [])) })
takes s =
    listener_round-method_frame 0 0 10 41 (0 ∷ []) [] s (omega arith) (omega arith) (omega arith)
      (omega arith)

listener-Ends_example : Ends (listener 2 answers 0 connected)
listener-Ends_example =
    listener-Ends 2 answers 0 connected
      (tt, (tt, (tt, (tt, (tt, ((λ s. (_, takes s)), (tt, (tt, (tt, (tt, (tt, tt)))))))))))
      (omega arith) (omega arith)
