-- ===== src/Tests/Strategies.antt =====
-- The strategies at concrete inputs.
use amqpgram.Base.{ℕ, ◌+◌, ◌*◌, ◌%◌, ◌≡◌, ◌≤◌, refl, arith, Bool, true, inl}
use amqpgram.Base.Outcome.{ok}
use amqpgram.Strategy.{check_strat, less, returned, fuzz_with_strategy}
use amqpgram.Strategy.Limits.{Stops, check_strat_lem}

-- Three packets more at each reading.
abbrev update : ℕ → ℕ
update i = 3 * i

abbrev running : ℕ → Bool
running i = true

check_strat_example :
    (j : ℕ) × (0 ≤ j)
    × (j ≤ 0 + 4)
    × Stops update running running 10 j
    × (check_strat update running running 9 10 0 ≡ ok (update j % 4294967296))
unfolding less
check_strat_example = check_strat_lem update running running 10 9 0 4 (omega arith) (inl refl)

-- Ten packets in each instance.
abbrev instances : ℕ → ℕ × ℕ
instances i = (10 * i + 10, 10 * i + 11)

three_instances : fuzz_with_strategy instances 5 25 25 0 0 0 ≡ ok (returned 30)
unfolding fuzz_with_strategy
three_instances = refl
