-- ===== src/Utils.antt =====
-- fuzzer/utils.c: numbers in byte arrays, most significant byte first.
-- A `short`, `int` or `long` is its bit pattern, a number below 2 ^ 16, 2 ^ 32 or 2 ^ 64.
pub mod Writing
pub mod Reading
use amqpgram.Base.{
  ℕ, zero, suc, ◌+◌, ◌-◌, ◌*◌, ◌/◌, ◌%◌, Bool, ◌||◌, [], ◌∷◌, ◌++◌, Option, none, some, ltb, ◌==◌,
  if◌then◌else◌, Bytes,
}
use amqpgram.Base.Outcome.{Outcome, ok, stuck, ◌>>=◌, read, write, load, store}
use Prim.Native.Nat.{bit_and}

-- The conversion of a `short` to `int`, and of an `int` to `long`.
abbrev pub short_to_int : ℕ → ℕ
short_to_int p = if ltb p 32768 then p else p + 4294901760

abbrev pub int_to_long : ℕ → ℕ
int_to_long p = if ltb p 2147483648 then p else p + 18446744069414584320

unfoldable pub char_in_short : Bytes → ℕ → Outcome ℕ
char_in_short src index = do
  hi ← read src index
  lo ← read src (index + 1)
  ok ((hi * 256 + lo) % 65536)

unfoldable pub char_in_int : Bytes → ℕ → Outcome ℕ
unfolding char_in_short
char_in_int src index = do
  hi ← char_in_short src index
  lo ← char_in_short src (index + 2)
  ok ((short_to_int hi * 65536 + short_to_int lo) % 4294967296)

unfoldable pub char_in_long : Bytes → ℕ → Outcome ℕ
char_in_long src index = do
  hi ← char_in_int src index
  lo ← char_in_int src (index + 4)
  ok ((int_to_long hi * 4294967296 + int_to_long lo) % 18446744073709551616)

-- The bytes of a number as they lie in memory, least significant first.
abbrev pub le_bytes : ℕ → ℕ → Bytes
le_bytes zero v = []
le_bytes (suc n) v = v % 256 ∷ le_bytes n (v / 256)

-- The body of the loops below: `dst[start]` and `dst[end]` change places.
unfoldable pub swap_bytes : Bytes → ℕ → ℕ → Outcome Bytes
swap_bytes dst start end = do
  temp ← read dst start
  last ← read dst end
  dst' ← write dst start last
  write dst' end temp

-- `while (start < end)` of the three writers; each round narrows the range by two.
unfoldable pub swap_loop : ℕ → Bytes → ℕ → ℕ → Outcome Bytes
unfolding swap_bytes
swap_loop zero dst start end = stuck
swap_loop (suc fuel) dst start end =
    let round = swap_bytes dst start end >>= λ dst'. swap_loop fuel dst' (start + 1) (end - 1) in
    if ltb start end then round else ok dst

unfoldable pub long_in_char : Bytes → ℕ → ℕ → ℕ → Outcome Bytes
unfolding swap_loop
long_in_char dst src index n =
    if ltb n (index + 8)
    then ok dst
    else store dst index (le_bytes 8 src) >>= λ dst'. swap_loop 5 dst' index (index + 8 - 1)

unfoldable pub int_in_char : Bytes → ℕ → ℕ → ℕ → Outcome Bytes
unfolding swap_loop
int_in_char dst src index n =
    if ltb n (index + 4)
    then ok dst
    else store dst index (le_bytes 4 src) >>= λ dst'. swap_loop 3 dst' index (index + 4 - 1)

unfoldable pub short_in_char : Bytes → ℕ → ℕ → ℕ → Outcome Bytes
unfolding swap_loop
short_in_char dst src index n =
    if ltb n (index + 2)
    then ok dst
    else store dst index (le_bytes 2 src) >>= λ dst'. swap_loop 2 dst' index (index + 2 - 1)

-- `none` is NULL.
unfoldable pub extract_char_array_entry : Bytes → ℕ → Outcome (Option Bytes)
extract_char_array_entry src index = do
  size ← read src index
  if size == 0
      then ok none
      else if ltb size index
      then ok none
      else load src (1 + index) size >>= λ bytes. ok (some bytes)

-- The terminator that `calloc` leaves behind the copy is kept.
unfoldable pub extract_string_entry : Bytes → ℕ → Outcome (Option Bytes)
unfolding extract_char_array_entry
extract_string_entry src index = do
  size ← read src index
  pre_result ← extract_char_array_entry src index
  elim pre_result [
    | none ↦ ok none
    | some bytes ↦ load bytes 0 size >>= λ copy. ok (some (copy ++ 0 ∷ []))
  ]

-- The rest of the function is a comment.
unfoldable pub extract_field_table : Bytes → ℕ → Option Bytes
extract_field_table field_table base_index = none

unfoldable pub check_bit_equal : ℕ → ℕ → Bool
check_bit_equal arg1 arg2 = (bit_and arg1 arg2 == arg2) || (bit_and arg1 arg2 == arg1)
