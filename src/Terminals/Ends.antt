-- ===== src/Terminals/Ends.antt =====
-- The decoding of terminals ends.
use mathlib.Core.List.{reverse}
use amqpgram.Base.{
  ℕ, zero, suc, ◌+◌, ◌*◌, ◌/◌, ◌≢◌, ◌<◌, arith, [], ◌∷◌, Bytes, drop, ltb, Bool-cases, Option-cases,
  inl, inr, Option, none, some,
}
use amqpgram.Base.Outcome.{Outcome, fault, stuck, bind-ne_stuck, int_sum}
use amqpgram.CString.{strtok}
use amqpgram.Terminals.{
  symbol_bytes, symbol_mark, decode_terminal_symbol, weigh, count_digits, generate_range, remainder,
  decode_terminal_range, count_occurrences, get_terminal_base,
}

pub int_sum-ne_stuck : (a b : ℕ) → int_sum a b ≢ stuck
int_sum-ne_stuck a b = ground arith

pub remainder-ne_stuck : (a upper lower : ℕ) → remainder a upper lower ≢ stuck
unfolding remainder
remainder-ne_stuck a upper lower = ground arith

symbol_bytes-ne_stuck :
    (base characters : ℕ) (rest : Bytes) → symbol_bytes base characters rest ≢ stuck
unfolding symbol_bytes
symbol_bytes-ne_stuck base zero rest = λ e. cc
symbol_bytes-ne_stuck base (suc characters) rest = elim (Option-cases (strtok b'.' rest)) [
  | inl end ↦ rw (end, symbol_bytes) (λ e. cc)
  | inr ((temp, rest'), more) ↦
      rw (more, symbol_bytes)
        (bind-ne_stuck (symbol_bytes base characters rest') _
          (symbol_bytes-ne_stuck base characters rest') (λ others e. cc))
]

pub decode_terminal_symbol-ne_stuck : (s : Bytes) → decode_terminal_symbol s ≢ stuck
unfolding decode_terminal_symbol
decode_terminal_symbol-ne_stuck s =
    ground
      (arith, symbol_bytes-ne_stuck (get_terminal_base s) (count_occurrences s b'.' + 1) (drop 2 s))

weigh-ne_stuck : (sum base : ℕ) (bytes : Bytes) → weigh sum base bytes ≢ stuck
unfolding weigh
weigh-ne_stuck sum base [] = λ e. cc
weigh-ne_stuck sum base (b ∷ bytes) =
    bind-ne_stuck (int_sum sum (b * base)) _ (int_sum-ne_stuck sum (b * base)) λ sum'.
      bind-ne_stuck (int_sum (base * 256) 0) _ (int_sum-ne_stuck (base * 256) 0)
        λ base'. weigh-ne_stuck sum' base' bytes

count_digits-ne_stuck : (fuel i : ℕ) → i < fuel → count_digits fuel i ≢ stuck
unfolding count_digits
count_digits-ne_stuck zero i h = absurd (omega arith)
count_digits-ne_stuck (suc fuel) i h = elim (Bool-cases (ltb 1 i)) [
  | inl more ↦ rw more (
      bind-ne_stuck (count_digits fuel (i / 256)) _
        (count_digits-ne_stuck fuel (i / 256) (ground arith)) (λ n e. cc))
  | inr done ↦ rw done (λ e. cc)
]

generate_range-ne_stuck : (min max roll : ℕ) → generate_range min max roll ≢ stuck
unfolding generate_range
generate_range-ne_stuck min max roll =
    bind-ne_stuck (remainder roll max min) _ (remainder-ne_stuck roll max min) λ r.
      bind-ne_stuck (count_digits (suc max) max) _
        (count_digits-ne_stuck (suc max) max (omega arith)) (λ n e. cc)

option-ne_stuck :
    (o : Option (Bytes × Bytes)) (f : Bytes × Bytes → Outcome Bytes)
    → ((x : Bytes × Bytes) → f x ≢ stuck)
    → elim o as (λ _. Outcome Bytes) [ none ↦ fault | some x ↦ f x ] ≢ stuck
option-ne_stuck none f h = λ e. cc
option-ne_stuck (some x) f h = h x

pub decode_terminal_range-ne_stuck : (s : Bytes) (roll : ℕ) → decode_terminal_range s roll ≢ stuck
unfolding decode_terminal_range
decode_terminal_range-ne_stuck s roll = option-ne_stuck (strtok b'-' s) _ λ first.
    bind-ne_stuck (decode_terminal_symbol first.0) _ (decode_terminal_symbol-ne_stuck first.0)
      λ low. bind-ne_stuck (weigh 0 1 (reverse low)) _ (weigh-ne_stuck 0 1 (reverse low)) λ min.
        option-ne_stuck (strtok b'-' first.1) _ λ second.
          bind-ne_stuck (decode_terminal_symbol (symbol_mark (get_terminal_base s) second.0)) _
            (decode_terminal_symbol-ne_stuck (symbol_mark (get_terminal_base s) second.0))
            λ high.
              bind-ne_stuck (weigh 0 1 (reverse high)) _ (weigh-ne_stuck 0 1 (reverse high))
                λ max. generate_range-ne_stuck min max roll
