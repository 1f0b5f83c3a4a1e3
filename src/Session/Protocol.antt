-- ===== src/Session/Protocol.antt =====
-- What a client of AMQP does on a connection: the phases of the connection, what it may receive,
-- and what it answers. The states and flags of fuzzer/AMQP.c represent the phases.
pub mod Refinement
pub mod Sessions
use amqpgram.Base.{ℕ, ◌≡◌, ◌≢◌, Option, none, some, ◌==◌, if◌then◌else◌}
use amqpgram.Base.Random.{Rand}
use amqpgram.Packet.{MethodStruct, PacketStruct, type_none, type_protocol_header}
use amqpgram.Connection.Interface.{Reply, Messages}

pub data Phase : Type 0 where
  unconnected negotiating tuned opening connected closing closed : Phase

-- What waits for the client: nothing, a protocol header, a frame with no end, or a method.
pub data Input : Type 0 where
  silence greeting noise : Input
  method : ℕ → Input

pub data Output : Type 0 where
  header start_ok tune_ok open_request close_request close_ok : Output

-- In each phase, what is answered to each input, and the phase that follows.
pub data Move : Phase → Input → Option Output → Phase → Type 0 where
  greet : (i : Input) → i ≢ greeting → Move unconnected i (some header) negotiating
  refuse : (p : Phase) → Move p greeting none unconnected
  ignore : (p : Phase) → p ≢ unconnected → Move p noise none p
  on_start : (p : Phase) → p ≢ unconnected → Move p (method 10) (some start_ok) negotiating
  on_secure : (p : Phase) → p ≢ unconnected → Move p (method 20) none connected
  on_tune : (p : Phase) → p ≢ unconnected → Move p (method 30) (some tune_ok) tuned
  on_open_ok : (p : Phase) → p ≢ unconnected → Move p (method 41) none connected
  on_close : (p : Phase) → p ≢ unconnected → Move p (method 50) (some close_ok) closing
  on_close_ok : (p : Phase) → p ≢ unconnected → Move p (method 51) none closed
  on_other :
      (p : Phase) (id : ℕ)
      → p ≢ unconnected
      → id ≢ 10
      → id ≢ 20
      → id ≢ 30
      → id ≢ 41
      → id ≢ 50
      → id ≢ 51
      → Move p (method id) none unconnected
  ask_open : Move tuned silence (some open_request) opening
  ask_close : Move connected silence (some close_request) closing

-- The number of the state and the flag that a phase has in the program; with no connection the flag
-- may have any value.
pub data Represents : Phase → ℕ → ℕ → Type 0 where
  is_unconnected : (waiting : ℕ) → Represents unconnected 0 waiting
  is_negotiating : Represents negotiating 1 1
  is_tuned : Represents tuned 3 0
  is_opening : Represents opening 4 1
  is_connected : Represents connected 5 0
  is_closing : Represents closing 7 1
  is_closed : Represents closed 8 0

abbrev pub input_of_method : Option MethodStruct → Input
input_of_method none = noise
input_of_method (some payload) = method payload.method_id

abbrev pub input_of : Option PacketStruct → Input
input_of none = silence
input_of (some packet) =
    if packet.frame_type == type_protocol_header
    then greeting
    else if packet.frame_type == type_none
    then noise
    else input_of_method packet.method_payload

abbrev pub payload_of : Option PacketStruct → Option MethodStruct
payload_of none = none
payload_of (some packet) = packet.method_payload

-- The builder of each output, given the packet that waits.
abbrev pub builder_of : Messages → Option PacketStruct → Output → Rand Reply
builder_of m packet header = m.amqp_header
builder_of m packet start_ok = m.start_ok
builder_of m packet tune_ok = m.tune_ok (payload_of packet)
builder_of m packet open_request = m.open_connection
builder_of m packet close_request = m.close
builder_of m packet close_ok = m.close_ok
