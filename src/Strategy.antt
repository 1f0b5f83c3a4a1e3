-- ===== src/Strategy.antt =====
-- `check_strat` and `fuzz` (fuzzer/AMQP.c) and `fuzz_with_strategy` (fuzzer/main.c): how long to fuzz.
-- The strategy is the time or the count of packets. In the rounds of `fuzz_with_strategy` the numbers
-- are not negative.
pub mod Limits
use amqpgram.Base.{
  ℕ, zero, suc, ◌+◌, ◌-◌, ◌*◌, ◌%◌, Bool, true, false, ◌&&◌, ◌||◌, not, ltb, leb, ◌==◌,
  if◌then◌else◌,
}
use amqpgram.Base.Outcome.{Outcome, ok, stuck}

-- `<` of two patterns of a `long long`.
unfoldable pub less : ℕ → ℕ → Bool
less a b =
    ltb ((a + 9223372036854775808) % 18446744073709551616)
      ((b + 9223372036854775808) % 18446744073709551616)

-- The loop of `check_strat`. The `i`-th call of `stratupdate` gives `update i`; `running i` and
-- `still i` are what the two tests of `is_running` behind it read. The readings and the limit
-- are patterns of a `long long`; the reading is
-- returned as the pattern of an `int`.
unfoldable pub check_strat : (ℕ → ℕ) → (ℕ → Bool) → (ℕ → Bool) → ℕ → ℕ → ℕ → Outcome ℕ
unfolding less
check_strat update running still zero stratval i = stuck
check_strat update running still (suc fuel) stratval i =
    let current_val = update i in
    let again = check_strat update running still fuel stratval (suc i) in
    if less current_val stratval && running i
    then (if not (still i) then ok (current_val % 4294967296) else again)
    else ok (current_val % 4294967296)

-- How a round of `fuzz_with_strategy` ends: another round, the return, or `exit(1)`.
pub data Round : Type 0 where
  again : ℕ → ℕ → Round
  returned : ℕ → Round
  exited : Round

-- One round, where `fuzz` returns `reached` and the packets are then `next_packets_count`. A `delta`
-- below zero exits, so `currval + delta` is `reached`.
unfoldable pub strategy_round : ℕ → ℕ → ℕ → ℕ → ℕ → ℕ → Round
strategy_round stratval printable_stratval currval last_packets_count reached next_packets_count =
    let delta = reached - currval in
    if ltb reached currval || ltb (2 * printable_stratval) delta
    then exited
    else if next_packets_count == last_packets_count
    then exited
    else if ltb reached stratval && ltb delta stratval
    then again reached next_packets_count
    else returned reached

-- The rounds; `instances i` is what the `i`-th call of `fuzz` returns, and the packets behind it.
unfoldable pub fuzz_with_strategy : (ℕ → ℕ × ℕ) → ℕ → ℕ → ℕ → ℕ → ℕ → ℕ → Outcome Round
unfolding strategy_round
fuzz_with_strategy instances zero stratval printable_stratval i currval last_packets_count = stuck
fuzz_with_strategy instances (suc fuel) stratval printable_stratval i currval last_packets_count =
    elim (strategy_round stratval printable_stratval currval last_packets_count (instances i).0
      (instances i).1) [
        | again currval' packets ↦
            fuzz_with_strategy instances fuel stratval printable_stratval (suc i) currval' packets
        | returned v ↦ ok (returned v)
        | exited ↦ ok exited
      ]
