-- ===== src/Strategy/Limits.antt =====
-- What the loops of the strategy return, and that they return.
use amqpgram.Base.{
  ℕ, zero, suc, ◌+◌, ◌%◌, ◌≡◌, ◌≤◌, ◌<◌, ◌⊎◌, inl, inr, ◌∙◌, arith, Bool, true, false, Bool-cases,
  subst, sym, refl,
}
use amqpgram.Base.Outcome.{Outcome, ok}
use amqpgram.Strategy.{
  check_strat, less, Round, again, returned, exited, strategy_round, fuzz_with_strategy,
}

module _ (update : ℕ → ℕ) (running still : ℕ → Bool) (stratval : ℕ) where
  -- A reading that ends the loop.
  abbrev pub Stops : ℕ → Type 0
  Stops i = (less (update i) stratval ≡ false) ⊎ (running i ≡ false) ⊎ (still i ≡ false)

  -- The next reading is looked at only where this one did not stop.
  later :
      (fuel i round : ℕ)
      → round < suc fuel
      → Stops (i + round)
      → less (update i) stratval ≡ true
      → running i ≡ true
      → still i ≡ true
      → ((round' : ℕ)
          → round' < fuel
          → Stops (suc i + round')
          → (j : ℕ) × (suc i ≤ j)
            × (j ≤ suc i + round')
            × Stops j
            × (check_strat update running still fuel stratval (suc i) ≡ ok (update j % 4294967296)))
      → (j : ℕ) × (i ≤ j)
        × (j ≤ i + round)
        × Stops j
        × (check_strat update running still (suc fuel) stratval i ≡ ok (update j % 4294967296))
  unfolding check_strat
  later fuel i zero l s below runs goes next =
      let here : Stops i = subst Stops (omega arith) s in absurd (ground (arith, here))
  later fuel i (suc round) l s below runs goes next =
      let (j, lo, hi, stops, run) = next round (omega arith) (subst Stops (omega arith) s) in
      (j, omega arith, omega arith, stops, rw (below, runs, goes) run)

  -- If one of the next `fuel` readings reaches the limit or finds the listener stopped, `check_strat`
  -- returns, and what it returns is a reading up to that one that does, modulo 2 ^ 32, as an `int`
  -- has it.
  pub check_strat_lem :
      (fuel i round : ℕ)
      → round < fuel
      → Stops (i + round)
      → (j : ℕ) × (i ≤ j)
        × (j ≤ i + round)
        × Stops j
        × (check_strat update running still fuel stratval i ≡ ok (update j % 4294967296))
  unfolding check_strat
  check_strat_lem zero i round l s = absurd (omega arith)
  check_strat_lem (suc fuel) i round l s = elim (Bool-cases (less (update i) stratval)) [
    | inr reached ↦ (i, omega arith, omega arith, inl reached, rw reached)
    | inl below ↦ elim (Bool-cases (running i)) [
      | inr stopped ↦ (i, omega arith, omega arith, inr (inl stopped), rw (below, stopped))
      | inl runs ↦ elim (Bool-cases (still i)) [
        | inr stopped ↦ (i, omega arith, omega arith, inr (inr stopped), rw (below, runs, stopped))
        | inl goes ↦
            later fuel i round l s below runs goes
              (λ round' l' s'. check_strat_lem fuel (suc i) round' l' s')
      ]
    ]
  ]

round_returned :
    (stratval printable_stratval currval last reached next v : ℕ)
    → strategy_round stratval printable_stratval currval last reached next ≡ returned v
    → (v ≡ reached) × (stratval ≤ v)
unfolding strategy_round
round_returned stratval printable_stratval currval last reached next v e = ground arith

module _ (instances : ℕ → ℕ × ℕ) (stratval printable_stratval : ℕ) where
  -- What a round leaves to show.
  after_round :
      (fuel i currval last v : ℕ) (r : Round)
      → ((currval' packets : ℕ)
          → fuzz_with_strategy instances fuel stratval printable_stratval (suc i) currval' packets
            ≡ ok (returned v)
          → (j : ℕ) × (suc i ≤ j) × (v ≡ (instances j).0) × (stratval ≤ v))
      → strategy_round stratval printable_stratval currval last (instances i).0 (instances i).1 ≡ r
      → ◌≡◌ {A = Outcome Round}
          (elim r [
            | again currval' packets ↦
                fuzz_with_strategy instances fuel stratval printable_stratval
                  (suc i)
                  currval'
                  packets
            | returned v' ↦ ok (returned v')
            | exited ↦ ok exited
          ])
          (ok (returned v))
      → (j : ℕ) × (i ≤ j) × (v ≡ (instances j).0) × (stratval ≤ v)
  after_round fuel i currval last v (again currval' packets) later e run =
      let (j, lo, same, reached) = later currval' packets run in (j, omega arith, same, reached)
  after_round fuel i currval last v (returned v') later e run =
      let same : v' ≡ v = ground (arith, run) in
      let (reached, limit) =
        round_returned stratval printable_stratval currval last (instances i).0 (instances i).1 v'
          e in
      (i, omega arith, sym same ∙ reached, omega arith)
  after_round fuel i currval last v exited later e run = cc

  -- A number that `fuzz_with_strategy` returns, with whatever fuel, is what one of its instances
  -- reached, and is at least the limit.
  pub fuzz_with_strategy_lem :
      (fuel i currval last_packets_count v : ℕ)
      → fuzz_with_strategy instances fuel stratval printable_stratval i currval last_packets_count
        ≡ ok (returned v)
      → (j : ℕ) × (i ≤ j) × (v ≡ (instances j).0) × (stratval ≤ v)
  unfolding fuzz_with_strategy
  fuzz_with_strategy_lem zero i currval last v e = cc
  fuzz_with_strategy_lem (suc fuel) i currval last v e =
      after_round fuel i currval last v
        (strategy_round stratval printable_stratval currval last (instances i).0 (instances i).1)
        (λ currval' packets run. fuzz_with_strategy_lem fuel (suc i) currval' packets v run) refl e
