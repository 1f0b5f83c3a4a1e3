-- ===== src/Generator.antt =====
-- grammar/packet-generator.c: the decoding of a rule into bytes.
-- The C functions call one another through rules, so `decode_rule` takes fuel; a call of a
-- generator function goes through `call`, which is given the decoder.
pub mod Repetition
pub mod Rules
pub mod Tokens
pub mod Readers
pub mod Ends
use amqpgram.Base.{
  ℕ, zero, suc, ◌+◌, ◌-◌, ◌*◌, ◌%◌, Bool, true, false, ◌&&◌, ◌||◌, not, List, [], ◌∷◌, ◌++◌, Option,
  none, some, ltb, leb, ◌==◌, if◌then◌else◌, Bytes, length, drop,
}
use amqpgram.Base.Outcome.{Outcome, ok, fault, stuck, int_sum, load}
use amqpgram.Base.Outcome
use amqpgram.Base.Random.{Rand, ◌>>=◌, pure, lift, rand}
use amqpgram.CString.{byte_at, strtok}
use amqpgram.Grammar.{
  GrammarEntry, ValueType, string, string_array, byte_array, function, GenFunction, deref,
}
use amqpgram.Grammar.Table.{HashTable}
use amqpgram.Grammar.Lookup.{Environment, environment_lookup}
use amqpgram.Terminals.{
  count_occurrences, remainder, decode_terminal_range, decode_terminal_symbol, decode_quoted,
  select_alternative_rule,
}

-- `RULE_REPETITION_INFTY`
abbrev pub rule_repetition_infty : ℕ
rule_repetition_infty = 16

abbrev pub is_digit : ℕ → Bool
is_digit c = leb 0x30 c && leb c 0x39

-- The loops that read a number, and what lies behind it.
unfoldable pub read_number : ℕ → Bytes → Outcome (ℕ × Bytes)
read_number number [] = ok (number, [])
read_number number (c ∷ s) =
    let more = Outcome.◌>>=◌ (int_sum (number * 10) (c - 0x30)) λ number'. read_number number' s in
    if is_digit c then more else ok (number, c ∷ s)

-- The least and the greatest number of repetitions, and the element that is repeated.
unfoldable pub repetition_bounds : Bytes → Outcome (ℕ × ℕ × Bytes)
unfolding read_number
repetition_bounds element_str = Outcome.◌>>=◌ (read_number 0 element_str) λ (min, rest).
    if byte_at rest 0 == b'*'
    then (if is_digit (byte_at rest 1)
        then (Outcome.◌>>=◌ (read_number 0 (drop 1 rest)) λ (max, element). ok (min, max, element))
        else ok (min, rule_repetition_infty, drop 1 rest))
    else ok (min, min, rest)

-- `rand() % (max - min + 1) + min`; the divisor may be negative, and faults if it is 0.
unfoldable pub repetition_quantity : ℕ → ℕ → ℕ → Outcome ℕ
repetition_quantity min max roll =
    if ltb (max + 1 - min) 2147483648
    then (Outcome.◌>>=◌ (remainder roll (max + 1) min) λ r. int_sum r min)
    else fault

-- `while (position + temp_length >= real_length)`: the room is doubled.
unfoldable pub grow : ℕ → ℕ → ℕ → Outcome ℕ
grow zero need real_length = stuck
grow (suc fuel) need real_length =
    let more = grow fuel need (2 * real_length) in
    if leb real_length need then more else ok real_length

-- `memcpy(result + position, partial, …)` into an object of `room` bytes, of which those before
-- the position are `result`.
unfoldable pub copy_into : ℕ → Bytes → Bytes → Outcome Bytes
copy_into room result [] = ok result
copy_into room result (b ∷ partial) =
    if ltb room (length result + length (b ∷ partial)) then fault else ok (result ++ b ∷ partial)

-- The loop of `parse_repetition`, with the growing buffer.
unfoldable pub repeat_loop : Rand Bytes → ℕ → Bytes → ℕ → Rand Bytes
unfolding grow copy_into
repeat_loop element zero end_result real_length = pure end_result
repeat_loop element (suc quantity) end_result real_length = do
  temp_result ← element
  let need = length end_result + length temp_result
  room ← lift (grow (suc need) need real_length)
  end_result' ← lift (copy_into room end_result temp_result)
  repeat_loop element quantity end_result' room

-- The loop of `parse_elements`; `real_length` is 1 where nothing is allocated yet.
unfoldable pub elements_loop :
    (Bytes → Rand Bytes) → ℕ → Option (Bytes × Bytes) → Bytes → ℕ → ℕ → Rand Bytes
unfolding copy_into
elements_loop element zero next result real_length room = pure result
elements_loop element (suc fields) none result real_length room = pure result
elements_loop element (suc fields) (some (element_to_parse, rest)) result real_length room = do
  partial_result ← element element_to_parse
  let total_length = length result + length partial_result
  let grown = leb real_length total_length
  let room' = if grown then total_length * 2 else room
  let real_length' = if grown then total_length * 2 else real_length
  result' ← lift (copy_into room' result partial_result)
  elements_loop element fields (strtok b' ' rest) result' real_length' room'

module _ (draws : ℕ → ℕ) where
  abbrev pub decode_terminal : Bytes → Rand Bytes
  decode_terminal grammar_value =
      if not (byte_at grammar_value 0 == b'%')
      then pure []
      else if count_occurrences grammar_value b'-' == 1
      then (rand draws >>= λ roll. lift (decode_terminal_range grammar_value roll))
      else lift (decode_terminal_symbol grammar_value)

  -- `element` is `parse_element`.
  abbrev pub parse_repetition : (Bytes → Rand Bytes) → Bytes → Rand Bytes
  parse_repetition element element_str = do
    (min, max, element_to_repeat) ← lift (repetition_bounds element_str)
    roll ← rand draws
    quantity ← lift (repetition_quantity min max roll)
    if quantity == 0 then pure [] else repeat_loop (element element_to_repeat) quantity [] quantity

  -- `element_str` names a repetition, a terminal, a quoted text, an optional, or a rule, for which
  -- `rule` is called. The fuel is for repetitions of repetitions; an element behind one is shorter.
  unfoldable pub parse_element : (Bytes → Rand Bytes) → ℕ → Bytes → Rand Bytes
  unfolding repetition_bounds repetition_quantity repeat_loop
  parse_element rule zero element_str = lift stuck
  parse_element rule (suc fuel) element_str =
      let first = byte_at element_str 0 in
      let repetition = parse_repetition (parse_element rule fuel) element_str in
      if is_digit first || first == b'*'
      then repetition
      else if first == b'%'
      then decode_terminal element_str
      else if first == b'"'
      then lift (decode_quoted element_str)
      else if first == b'[' || first == b']'
      then pure []
      else rule element_str

  unfoldable pub parse_elements : (Bytes → Rand Bytes) → Bytes → Rand Bytes
  unfolding elements_loop
  parse_elements rule element_str =
      elements_loop (λ element. parse_element rule (suc (length element)) element)
        (count_occurrences element_str b' ' + 1) (strtok b' ' element_str) [] 1 0

  module _ (H : HashTable)
      (call : (Bytes → Environment H → Rand Bytes) → GenFunction → Environment H → Rand Bytes) where
    -- The `switch` of `decode_rule`, given the decoder for the rules inside.
    unfoldable pub decode_entry :
        (Bytes → Environment H → Rand Bytes) → Environment H → ValueType → GrammarEntry → Rand Bytes
    decode_entry decoder environment string key_value =
        lift (deref key_value.str_entry) >>= parse_elements (λ rule. decoder rule environment)
    decode_entry decoder environment string_array key_value = do
      roll ← rand draws
      selected ← lift (select_alternative_rule key_value roll)
      rule_to_decode ← lift (deref selected)
      parse_elements (λ rule. decoder rule environment) rule_to_decode
    decode_entry decoder environment byte_array key_value = do
      bytes ← lift (deref key_value.str_entry)
      lift (load bytes 0 key_value.array_size)
    decode_entry decoder environment function key_value = do
      generator_function ← lift (deref key_value.generator_function)
      call decoder generator_function environment

    -- An environment that is NULL, or lacks the rule, gives no byte.
    unfoldable pub decode_rule : ℕ → Bytes → Environment H → Rand Bytes
    unfolding decode_entry
    decode_rule zero rule environment = lift stuck
    decode_rule (suc fuel) rule [] = pure []
    decode_rule (suc fuel) rule (grammar ∷ next) = do
      let decoder = decode_rule fuel
      found ← lift (environment_lookup H (grammar ∷ next) rule)
      elim found [
        | none ↦ pure []
        | some key_value ↦ decode_entry decoder (grammar ∷ next) key_value.entry_type key_value
      ]
