-- ===== src/Connection/Builders.antt =====
-- Each builder of fuzzer/Connection.c that returns leaves its own state and flag, so the builders
-- make up the interface that the session works over.
use amqpgram.Base.{ℕ, Bytes, arith}
use amqpgram.Base.Random.{Rand, bind-eq-ok}
use amqpgram.Grammar.Table.{HashTable}
use amqpgram.Grammar.Lookup.{Environment}
use amqpgram.Connection.{
  reply_with, connection_start_ok, connection_tune_ok, connection_open, connection_close,
  connection_close_ok,
}
use amqpgram.Connection.Interface.{Messages, Leaves}

pub reply_with-Leaves :
    (state response : ℕ) (builder : Rand Bytes)
    → Leaves (reply_with state response builder) state response
unfolding reply_with
reply_with-Leaves state response builder calls reply calls' e =
    let (result, k, built, last) = bind-eq-ok builder _ calls e in ground (arith, last)

module _ (draws : ℕ → ℕ) (H : HashTable) (rule_chaos fuel : ℕ) (connection_env : Environment H)
    (decode_amqp : Rand Bytes) where
  -- The packets of the program: the five methods, and the protocol header.
  unfoldable pub program_messages : Messages
  unfolding connection_start_ok connection_tune_ok connection_open connection_close
      connection_close_ok
  program_messages = record {
    amqp_header = reply_with 1 1 decode_amqp;
    start_ok = connection_start_ok draws H rule_chaos fuel connection_env;
    tune_ok = connection_tune_ok draws H rule_chaos fuel connection_env;
    open_connection = connection_open draws H rule_chaos fuel connection_env;
    close = connection_close draws H rule_chaos fuel connection_env;
    close_ok = connection_close_ok draws H rule_chaos fuel connection_env;
    amqp_header_leaves = reply_with-Leaves 1 1 _;
    start_ok_leaves = reply_with-Leaves 1 1 _;
    tune_ok_leaves = λ method_data. reply_with-Leaves 3 0 _;
    open_leaves = reply_with-Leaves 4 1 _;
    close_leaves = reply_with-Leaves 7 1 _;
    close_ok_leaves = reply_with-Leaves 7 1 _;
  }
