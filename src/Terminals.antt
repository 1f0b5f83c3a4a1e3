-- ===== src/Terminals.antt =====
-- grammar/packet-generator.c: the terminal symbols of the grammar.
-- `none` of the length is not needed: a result is its bytes, and NULL is no byte.
pub mod Ranges
pub mod Intervals
pub mod Ends
use amqpgram.Base.{
  ℕ, zero, suc, ◌+◌, ◌-◌, ◌*◌, ◌/◌, ◌%◌, Bool, ◌&&◌, ◌||◌, not, List, [], ◌∷◌, ◌++◌, Option, none,
  some, ltb, leb, ◌==◌, if◌then◌else◌, Bytes, length, drop, replicate, get_elem?,
}
use mathlib.Core.List.{reverse}
use amqpgram.Base.Outcome.{Outcome, ok, fault, stuck, ◌>>=◌, int_sum, store}
use amqpgram.CString.{byte_at, strtok, strtol}
use amqpgram.Grammar.{GrammarEntry, ValueType, string_array}

unfoldable pub count_occurrences : Bytes → ℕ → ℕ
count_occurrences [] character = 0
count_occurrences (c ∷ string) character =
    let characters = count_occurrences string character in
    if c == character then suc characters else characters

unfoldable pub get_terminal_base : Bytes → ℕ
get_terminal_base terminal =
    let mark = byte_at terminal 1 in
    if mark == b'd' then 10 else if mark == b'x' then 16 else if mark == b'b' then 2 else 0

-- The bytes between the dots, `characters` of them; `strtol` of NULL faults.
unfoldable pub symbol_bytes : ℕ → ℕ → Bytes → Outcome Bytes
symbol_bytes base zero rest = ok []
symbol_bytes base (suc characters) rest = elim (strtok b'.' rest) [
  | none ↦ fault
  | some (temp, rest') ↦
      symbol_bytes base characters rest' >>= λ others. ok (strtol temp base % 256 ∷ others)
]

unfoldable pub decode_terminal_symbol : Bytes → Outcome Bytes
unfolding symbol_bytes count_occurrences get_terminal_base
decode_terminal_symbol terminal_symbol =
    if ltb (length terminal_symbol) 2
    then fault
    else symbol_bytes (get_terminal_base terminal_symbol)
        (count_occurrences terminal_symbol b'.' + 1) (drop 2 terminal_symbol)

-- `a % b` of an `int` `a` that is not negative and of `upper - lower`: the remainder has the sign
-- of `a`, and a zero divisor faults.
unfoldable pub remainder : ℕ → ℕ → ℕ → Outcome ℕ
remainder a upper lower =
    if upper == lower
    then fault
    else if ltb lower upper
    then ok (a % (upper - lower))
    else ok (a % (lower - upper))

-- The loops that compute `min` and `max`, over the bytes last to first.
unfoldable pub weigh : ℕ → ℕ → Bytes → Outcome ℕ
weigh sum multiplied_base [] = ok sum
weigh sum multiplied_base (b ∷ bytes) = do
  sum' ← int_sum sum (b * multiplied_base)
  multiplied_base' ← int_sum (multiplied_base * 256) 0
  weigh sum' multiplied_base' bytes

-- `for (int i = max; i > 1; i /= 256)`
unfoldable pub count_digits : ℕ → ℕ → Outcome ℕ
count_digits zero i = stuck
count_digits (suc fuel) i =
    let next = count_digits fuel (i / 256) >>= λ string_length. ok (suc string_length) in
    if ltb 1 i then next else ok 0

-- The loop that writes `gen` from the last byte on, into zeroed bytes.
unfoldable pub write_digits : ℕ → ℕ → Bytes
write_digits zero gen = []
write_digits (suc rounds) gen =
    let front = write_digits rounds (gen / 256) in
    if ltb 0 gen then front ++ gen % 256 ∷ [] else replicate (suc rounds) 0

-- What follows the computation of `min` and `max`; `roll` is what `rand()` returns.
unfoldable pub generate_range : ℕ → ℕ → ℕ → Outcome Bytes
unfolding remainder count_digits write_digits
generate_range min max roll = do
  r ← remainder roll max min
  let gen = r + min
  string_length ← count_digits (suc max) max
  ok (write_digits string_length gen)

-- What is written over the two bytes before the second number. In another base the second byte is
-- the terminator that `strtok_r` has left there.
unfoldable pub symbol_mark : ℕ → Bytes → Bytes
symbol_mark base temp =
    if base == 2
    then b'%' ∷ b'b' ∷ temp
    else if base == 10
    then b'%' ∷ b'd' ∷ temp
    else if base == 16
    then b'%' ∷ b'x' ∷ temp
    else b'%' ∷ []

unfoldable pub decode_terminal_range : Bytes → ℕ → Outcome Bytes
unfolding symbol_mark weigh get_terminal_base
decode_terminal_range terminal_range roll = elim (strtok b'-' terminal_range) [
  | none ↦ fault
  | some (first, rest) ↦ do
    low ← decode_terminal_symbol first
    min ← weigh 0 1 (reverse low)
    elim (strtok b'-' rest) [
      | none ↦ fault
      | some (second, _) ↦ do
        high ← decode_terminal_symbol (symbol_mark (get_terminal_base terminal_range) second)
        max ← weigh 0 1 (reverse high)
        generate_range min max roll
    ]
]

-- The loop of `decode_quoted`, up to the terminator, or the quote that it overwrites by one.
unfoldable pub quoted_loop : Bytes → Bytes
quoted_loop [] = []
quoted_loop (c ∷ quoted) =
    let rest = quoted_loop quoted in
    if leb 0x41 c && leb c 0x5A
    then (c + 20) ∷ rest
    else if c == b'"' || c == 0
    then []
    else c ∷ rest

-- `strcpy` writes the text behind the quote and its terminator into `strlen - 1` bytes. (Of no text
-- the size is the greatest `size_t`, and `calloc` answers NULL.)
unfoldable pub decode_quoted : Bytes → Outcome Bytes
unfolding quoted_loop
decode_quoted quoted_string = do
  quoted ← store (replicate (length quoted_string - 1) 0) 0 (drop 1 quoted_string ++ 0 ∷ [])
  ok (quoted_loop quoted)

unfoldable pub choose_rule : ValueType → Option (List Bytes) → ℕ → ℕ → Outcome (Option Bytes)
choose_rule string_array (some array) array_size roll =
    if array_size == 0
    then ok none
    else elim (get_elem? array (roll % array_size)) [ none ↦ fault | some rule ↦ ok (some rule) ]
choose_rule _ _ array_size roll = ok none

-- NULL for an entry of another type, or with no alternative; `roll` is what `rand()` returns.
unfoldable pub select_alternative_rule : GrammarEntry → ℕ → Outcome (Option Bytes)
unfolding choose_rule
select_alternative_rule value roll =
    choose_rule value.entry_type value.str_array_entry value.array_size roll
