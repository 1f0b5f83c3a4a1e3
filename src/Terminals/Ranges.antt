-- ===== src/Terminals/Ranges.antt =====
-- What a range of terminals yields.
use amqpgram.Base.{
  ℕ, zero, suc, ◌+◌, ◌-◌, ◌*◌, ◌/◌, ◌%◌, ◌^◌, ◌≡◌, ◌≤◌, ◌<◌, refl, ap, sym, arith, [], ◌∷◌, ◌++◌,
  replicate, ltb, lt→ltb, le→ltb, Bool-cases, inl, inr,
}
use amqpgram.Base.Outcome.{ok, fault}
use amqpgram.Utils.Writing.{be_bytes}
use amqpgram.Terminals.{remainder, count_digits, write_digits, generate_range}
use native.Mathlib.Nat.{mod-lt}

replicate-snoc : (n x : ℕ) → replicate n x ++ x ∷ [] ≡ x ∷ replicate n x
replicate-snoc zero x = refl
replicate-snoc (suc n) x = ap (◌∷◌ x) (replicate-snoc n x)

be_bytes-zero : (n : ℕ) → be_bytes n 0 ≡ replicate n 0
be_bytes-zero zero = refl
be_bytes-zero (suc n) = rw (be_bytes-zero n) (replicate-snoc n 0)

write_digits_lem : (n gen : ℕ) → write_digits n gen ≡ be_bytes n gen
unfolding write_digits
write_digits_lem zero gen = refl
write_digits_lem (suc n) gen = elim (Bool-cases (ltb 0 gen)) [
  | inl more ↦ rw (more, write_digits_lem n (gen / 256))
  | inr done ↦
      let none_left : gen ≡ 0 = ground arith in rw (done, none_left) (sym (be_bytes-zero (suc n)))
]

pow_large : (n : ℕ) → n < 256 ^ n
pow_large zero = omega arith
pow_large (suc n) = omega (arith, pow_large n)

count_digits_lem :
    (n fuel i : ℕ)
    → 2 * 256 ^ n ≤ i
    → i < 256 ^ suc n
    → suc n < fuel
    → count_digits fuel i ≡ ok (suc n)
unfolding count_digits
count_digits_lem n zero i lo hi f = absurd (omega arith)
count_digits_lem zero (suc zero) i lo hi f = absurd (omega arith)
count_digits_lem zero (suc (suc fuel)) i lo hi f =
    rw (lt→ltb 1 i (omega arith), le→ltb 1 (i / 256) (omega arith))
count_digits_lem (suc n) (suc fuel) i lo hi f =
    let lo' : 2 * 256 ^ n ≤ i / 256 = omega arith in
    let hi' : i / 256 < 256 ^ suc n = omega arith in
    rw (
      lt→ltb 1 i (omega (arith, pow_large n)),
      count_digits_lem n fuel (i / 256) lo' hi' (omega arith),
    )

count_digits_short :
    (n fuel i : ℕ) → 256 ^ n ≤ i → i < 2 * 256 ^ n → n < fuel → count_digits fuel i ≡ ok n
unfolding count_digits
count_digits_short n zero i lo hi f = absurd (omega arith)
count_digits_short zero (suc fuel) i lo hi f = rw (le→ltb 1 i (omega arith))
count_digits_short (suc n) (suc fuel) i lo hi f =
    let lo' : 256 ^ n ≤ i / 256 = omega arith in
    let hi' : i / 256 < 2 * 256 ^ n = omega arith in
    rw (
      lt→ltb 1 i (omega (arith, pow_large n)),
      count_digits_short n fuel (i / 256) lo' hi' (omega arith),
    )

pub remainder_same : (roll m : ℕ) → remainder roll m m ≡ fault
unfolding remainder
remainder_same roll m = ground arith

pub remainder_lem :
    (roll min max : ℕ) → min < max → remainder roll max min ≡ ok (roll % (max - min))
unfolding remainder
remainder_lem roll min max h = ground arith

generate_range_digits :
    (n min max roll : ℕ)
    → min < max
    → count_digits (suc max) max ≡ ok n
    → generate_range min max roll ≡ ok (be_bytes n (roll % (max - min) + min))
unfolding generate_range
generate_range_digits n min max roll h e =
    rw (remainder_lem roll min max h, e, write_digits_lem n (roll % (max - min) + min))

-- The number that a range of terminals yields, where the least number `min` is below the greatest
-- `max`: for any result `roll` of `rand()` there is a number `gen` with `min <= gen < max` such
-- that, if `max` has `n + 1` digits in base 256 of which the first is 2 or more, the bytes are
-- `gen` in `n + 1` bytes, most significant first; and if `max` has `n + 1` digits of which the
-- first is 1, the bytes are only the `n` lowest of `gen`. So `max` itself is never yielded.
pub generate_range_lem :
    (n min max roll : ℕ)
    → min < max
    → (gen : ℕ) × (min ≤ gen)
      × (gen < max)
      × (2 * 256 ^ n ≤ max
          → max < 256 ^ suc n
          → generate_range min max roll ≡ ok (be_bytes (suc n) gen))
      × (256 ^ n ≤ max → max < 2 * 256 ^ n → generate_range min max roll ≡ ok (be_bytes n gen))
generate_range_lem n min max roll h =
    let below : roll % (max - min) < max - min = mod-lt roll (omega arith) in
    (
      roll % (max - min) + min,
      omega arith,
      omega arith,
      λ lo hi.
          generate_range_digits (suc n) min max roll h
            (count_digits_lem n (suc max) max lo hi (omega (arith, pow_large n))),
      λ lo hi.
          generate_range_digits n min max roll h
            (count_digits_short n (suc max) max lo hi (omega (arith, pow_large n))),
    )
