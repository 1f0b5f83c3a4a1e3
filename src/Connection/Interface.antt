-- ===== src/Connection/Interface.antt =====
-- What the builders of packets and the deciders of fuzzer/Connection.c and fuzzer/AMQP.c write
-- through their pointers and return.
use amqpgram.Base.{ℕ, ◌≡◌, [], ◌∷◌, Option, none, some, Bytes}
use amqpgram.Base.Outcome.{ok}
use amqpgram.Base.Random.{Rand}
use amqpgram.Packet.{MethodStruct}

-- `*next_state`, `*response_expected` and the packet; `*sent_packet_size` is its length.
pub record Reply : Type 0 where
  pub next_state : ℕ
  pub response_expected : ℕ
  pub packet : Bytes

-- The same where the packet may be NULL.
pub record Decision : Type 0 where
  pub next_state : ℕ
  pub response_expected : ℕ
  pub packet : Option Bytes

-- The decoded packet as a pointer: of no bytes it is NULL, since `realloc` frees at size 0.
abbrev pub as_pointer : Bytes → Option Bytes
as_pointer [] = none
as_pointer (b ∷ bytes) = some (b ∷ bytes)

abbrev pub sent : Reply → Decision
sent reply = record {
  next_state = reply.next_state;
  response_expected = reply.response_expected;
  packet = as_pointer reply.packet;
}

-- A builder that returns leaves this state and this flag.
abbrev pub Leaves : Rand Reply → ℕ → ℕ → Type 0
Leaves builder state response =
    (calls : ℕ) (reply : Reply) (calls' : ℕ)
    → builder calls ≡ ok (reply, calls')
    → (reply.next_state ≡ state) × (reply.response_expected ≡ response)

-- The six packets that the fuzzer sends, and the state that each leaves.
pub record Messages : Type 0 where
  pub amqp_header : Rand Reply
  pub start_ok : Rand Reply
  pub tune_ok : Option MethodStruct → Rand Reply
  pub open_connection : Rand Reply
  pub close : Rand Reply
  pub close_ok : Rand Reply
  pub amqp_header_leaves : Leaves amqp_header 1 1
  pub start_ok_leaves : Leaves start_ok 1 1
  pub tune_ok_leaves : (method_data : Option MethodStruct) → Leaves (tune_ok method_data) 3 0
  pub open_leaves : Leaves open_connection 4 1
  pub close_leaves : Leaves close 7 1
  pub close_ok_leaves : Leaves close_ok 7 1
