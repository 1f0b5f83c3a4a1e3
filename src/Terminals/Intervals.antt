-- ===== src/Terminals/Intervals.antt =====
-- grammar/packet-generator.c: `generate_random_terminal`, which no function calls.
use amqpgram.Base.{
  ℕ, ◌+◌, ◌-◌, ◌%◌, ◌≡◌, ◌≤◌, ◌<◌, arith, none, some, ◌&&◌, ltb, ◌==◌, if◌then◌else◌, Bytes,
}
use native.Mathlib.Nat.{mod-lt}
use amqpgram.Base.Outcome.{Outcome, ok, fault}
use amqpgram.CString.{strtok, strtol}

-- An `int` plus 2 ^ 31, which keeps the order, from its bit pattern; and back.
abbrev pub above_least : ℕ → ℕ
above_least pattern = (pattern + 2147483648) % 4294967296

-- `(rand() % (max - min)) + min`; a zero divisor faults, and so does an overflow. The remainder of a
-- number that is not negative is not negative, whatever the sign of the divisor.
unfoldable pub between : ℕ → ℕ → ℕ → Outcome ℕ
between min max roll =
    let low = above_least min in
    let high = above_least max in
    let distance = if ltb low high then high - low else low - high in
    let sum = roll % distance + low in
    if low == high
    then fault
    else if ltb low high && ltb 2147483647 distance
    then fault
    else if ltb 2147483648 distance
    then fault
    else if ltb sum 4294967296
    then ok (above_least sum)
    else fault

-- `roll` is what `rand()` returns; `strtol` of NULL faults.
unfoldable pub generate_random_terminal : Bytes → ℕ → ℕ → Outcome ℕ
unfolding between
generate_random_terminal interval base roll = elim (strtok b'-' interval) [
  | none ↦ fault
  | some (first, rest) ↦ elim (strtok b'-' rest) [
    | none ↦ fault
    | some (second, _) ↦
        between (strtol first base % 4294967296) (strtol second base % 4294967296) roll
  ]
]

-- Between two numbers below 2 ^ 31, the least first, the result is from the least up to but without the
-- greatest.
pub between_lem :
    (min max roll : ℕ)
    → min < max
    → max < 2147483648
    → (gen : ℕ) × (between min max roll ≡ ok gen) × (min ≤ gen) × (gen < max)
unfolding between
between_lem min max roll h small =
    let r = roll % (max - min) in
    let below : r < max - min = mod-lt roll (omega arith) in
    (min + r, ground arith, omega arith, omega arith)
