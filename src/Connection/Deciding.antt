-- ===== src/Connection/Deciding.antt =====
-- `connection_packet_decider` of fuzzer/Connection.c, over any six packets that leave the states
-- which the builders leave.
use amqpgram.Base.{ℕ, ◌||◌, Option, none, some, ◌==◌, if◌then◌else◌}
use amqpgram.Base.Outcome.{fault}
use amqpgram.Base.Random.{Rand, ◌>>=◌, pure, lift}
use amqpgram.Packet.{MethodStruct}
use amqpgram.Connection.{
  method_start, method_secure, method_tune, method_open_ok, method_close, method_close_ok,
  class_connection,
}
use amqpgram.Connection.Interface.{Reply, Decision, sent, Messages}

abbrev pub quiet : ℕ → ℕ → Rand Decision
quiet state response =
    pure (record { next_state = state; response_expected = response; packet = none })

unfoldable pub answer : Rand Reply → Rand Decision
answer builder = builder >>= λ reply. pure (sent reply)

-- The method is told by its number; `case SECURE` falls through to `case OPEN_OK`.
unfoldable pub decide_method : Messages → MethodStruct → ℕ → Rand Decision
decide_method m method_data response_expected =
    let id = method_data.method_id in
    if id == method_start
    then answer m.start_ok
    else if id == method_tune
    then answer (m.tune_ok (some method_data))
    else if id == method_secure || id == method_open_ok
    then quiet 5 0
    else if id == method_close
    then answer m.close_ok
    else if id == method_close_ok
    then quiet 8 0
    else quiet 0 response_expected

-- With no packet, any state but 3 and 5 goes on to read through NULL.
unfoldable pub connection_packet_decider : Messages → Option MethodStruct → ℕ → ℕ → Rand Decision
connection_packet_decider m none next_state response_expected =
    if next_state == 3
    then answer m.open_connection
    else if next_state == 5
    then answer m.close
    else lift fault
connection_packet_decider m (some method_data) next_state response_expected =
    if method_data.class_id == class_connection
    then decide_method m method_data response_expected
    else quiet 7 response_expected
