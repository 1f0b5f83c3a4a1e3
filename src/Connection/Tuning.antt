-- ===== src/Connection/Tuning.antt =====
-- The limits that `connection_tune_ok` answers with.
use amqpgram.Base.{
  ℕ, zero, suc, ◌+◌, ◌%◌, ◌≡◌, ◌≤◌, ◌<◌, ◌⊎◌, inl, inr, subst, true, false, ◌∙◌, arith, ◌||◌, leb,
  ◌==◌, if◌then◌else◌, Bool-cases, lt→ltb,
}
use native.Mathlib.Nat.{mod-lt}
use amqpgram.Base.Outcome.{ok, fault}
use amqpgram.Connection.{rand_up_to, choose_frame_max}

-- For a received number below 2147483647 the result is at most the number; of -1, that is
-- 4294967295, and of 2147483647 the program faults.
pub rand_up_to_lem :
    (received roll : ℕ)
    → (received < 2147483647 → (r : ℕ) × (rand_up_to received roll ≡ ok r) × (r ≤ received))
      × (received ≡ 2147483647 ⊎ received ≡ 4294967295 → rand_up_to received roll ≡ fault)
unfolding rand_up_to
rand_up_to_lem received roll = (
  (λ small.
      let below : roll % (received + 1) < received + 1 = mod-lt roll (omega arith) in
      (roll % (received + 1), rw (lt→ltb received 2147483647 small), omega arith)),
  λ bad. elim bad [ inl e ↦ rw e | inr e ↦ rw e ],
)

accepted :
    (frame_max : ℕ)
    → (frame_max == 0 || leb 4095 frame_max) ≡ true
    → frame_max ≡ 0 ⊎ 4095 ≤ frame_max
accepted frame_max h = ground arith

rejected :
    (frame_max : ℕ)
    → (frame_max == 0 || leb 4095 frame_max) ≡ false
    → frame_max ≡ 0 ⊎ 4095 ≤ frame_max
    → ⊥
rejected frame_max h k = ground arith

module _ (draws : ℕ → ℕ) where
  choose_frame_max_round :
      (fuel received_frame_max calls : ℕ)
      → received_frame_max < 2147483647
      → choose_frame_max draws (suc fuel) received_frame_max calls ≡ (
          let r = draws calls % (received_frame_max + 1) in
          if r == 0 || leb 4095 r
          then ok (r, calls + 1)
          else choose_frame_max draws fuel received_frame_max (calls + 1))
  unfolding choose_frame_max rand_up_to
  choose_frame_max_round fuel received calls small =
      rw (lt→ltb received 2147483647 small)
        (elim (Bool-cases
          (draws calls % (received + 1) == 0 || leb 4095 (draws calls % (received + 1)))) [
            | inl found ↦ rw found
            | inr again ↦ rw again
          ])

  -- For a received limit below 2147483647, if one of the next `fuel` results of `rand()` leaves a
  -- remainder that is 0 or at least 4095, the search returns a number that is 0 or at least 4095
  -- and at most the received limit. (The comment in the source has 4096 for the least size.)
  pub choose_frame_max_lem :
      (fuel received_frame_max calls round : ℕ)
      → received_frame_max < 2147483647
      → round < fuel
      → draws (calls + round) % (received_frame_max + 1) ≡ 0
        ⊎ 4095 ≤ draws (calls + round) % (received_frame_max + 1)
      → (frame_max : ℕ) × (calls' : ℕ) × (choose_frame_max draws fuel received_frame_max calls
          ≡ ok (frame_max, calls'))
        × (frame_max ≤ received_frame_max)
        × (frame_max ≡ 0 ⊎ 4095 ≤ frame_max)
  choose_frame_max_lem zero received calls round small l suits = absurd (omega arith)
  choose_frame_max_lem (suc fuel) received calls zero small l suits =
      let r = draws calls % (received + 1) in
      let below : draws calls % (received + 1) < received + 1 =
        mod-lt (draws calls) (omega arith) in
      elim (Bool-cases (r == 0 || leb 4095 r)) [
        | inl found ↦ (
          r,
          calls + 1,
          choose_frame_max_round fuel received calls small ∙ rw found,
          omega arith,
          accepted r found,
        )
        | inr again ↦ absurd (
            rejected r again (
              subst (λ n. draws n % (received + 1) ≡ 0 ⊎ 4095 ≤ draws n % (received + 1))
                (omega arith) suits))
      ]
  choose_frame_max_lem (suc fuel) received calls (suc round) small l suits =
      let r = draws calls % (received + 1) in
      let below : draws calls % (received + 1) < received + 1 =
        mod-lt (draws calls) (omega arith) in
      elim (Bool-cases (r == 0 || leb 4095 r)) [
        | inl found ↦ (
          r,
          calls + 1,
          choose_frame_max_round fuel received calls small ∙ rw found,
          omega arith,
          accepted r found,
        )
        | inr again ↦
            let (frame_max, calls', run, small_enough, suited) =
              choose_frame_max_lem fuel received (calls + 1) round small (omega arith) (
                subst (λ n. draws n % (received + 1) ≡ 0 ⊎ 4095 ≤ draws n % (received + 1))
                  (omega arith) suits) in
            (
              frame_max,
              calls',
              choose_frame_max_round fuel received calls small ∙ rw again run,
              small_enough,
              suited,
            )
      ]
