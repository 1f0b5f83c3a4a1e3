-- ===== src/Generator/Readers.antt =====
-- Reading the numbers of a repetition ends, and takes what it reads off the text.
use amqpgram.Base.{
  ltb, ◌-◌, ◌+◌, ℕ, ◌*◌, ◌-◌, ◌≡◌, ◌≢◌, ◌≤◌, ◌<◌, arith, true, false, ◌||◌, ◌==◌, [], ◌∷◌, Bytes,
  length, drop, Bool-cases, inl, inr,
}
use amqpgram.Base.Outcome.{ok, stuck, bind-ne_stuck, bind-eq-ok, int_sum}
use amqpgram.CString.{byte_at}
use amqpgram.Terminals.{remainder}
use amqpgram.Terminals.Ends.{int_sum-ne_stuck, remainder-ne_stuck}
use amqpgram.Generator.{is_digit, read_number, repetition_bounds, repetition_quantity}

read_number-ne_stuck : (n : ℕ) (s : Bytes) → read_number n s ≢ stuck
unfolding read_number
read_number-ne_stuck n [] = λ e. cc
read_number-ne_stuck n (c ∷ s) = elim (Bool-cases (is_digit c)) [
  | inl digit ↦ rw digit (
      bind-ne_stuck (int_sum (n * 10) (c - 0x30)) _ (int_sum-ne_stuck (n * 10) (c - 0x30))
        (λ n'. read_number-ne_stuck n' s))
  | inr other ↦ rw other (λ e. cc)
]

read_number_shorter :
    (n : ℕ) (s : Bytes) (m : ℕ) (rest : Bytes)
    → read_number n s ≡ ok (m, rest)
    → length rest ≤ length s
unfolding read_number
read_number_shorter n [] m rest e = ground (arith, e)
read_number_shorter n (c ∷ s) m rest e = elim (Bool-cases (is_digit c)) [
  | inl digit ↦
      let (n', run, later) =
        bind-eq-ok (int_sum (n * 10) (c - 0x30)) (λ n'. read_number n' s) (rw digit at e) in
      omega (arith, read_number_shorter n' s m rest later)
  | inr other ↦ let same = rw other at e in ground (arith, same)
]

pub repetition_quantity-ne_stuck : (min max roll : ℕ) → repetition_quantity min max roll ≢ stuck
unfolding repetition_quantity
repetition_quantity-ne_stuck min max roll =
    let rest =
      bind-ne_stuck (remainder roll (max + 1) min) (λ r. int_sum r min)
        (remainder-ne_stuck roll (max + 1) min) λ r. int_sum-ne_stuck r min in
    elim (Bool-cases (ltb (max + 1 - min) 2147483648)) [
      | inl fits ↦ rw fits rest
      | inr wide ↦ rw wide (λ e. cc)
    ]

pub repetition_bounds-ne_stuck : (s : Bytes) → repetition_bounds s ≢ stuck
unfolding repetition_bounds
repetition_bounds-ne_stuck s = bind-ne_stuck (read_number 0 s) _ (read_number-ne_stuck 0 s) λ first.
    ground (
      arith,
      bind-ne_stuck {B = ℕ × ℕ × Bytes} (read_number 0 (drop 1 first.1))
          (λ x. ok (first.0, x.0, x.1)) (read_number-ne_stuck 0 (drop 1 first.1)) (λ x e. cc),
    )

length-drop_one : (s : Bytes) → (byte_at s 0 == b'*') ≡ true → length (drop 1 s) < length s
length-drop_one [] h = cc
length-drop_one (c ∷ s) h = omega arith

-- A number that begins with a digit takes at least the digit.
read_number_digit :
    (c : ℕ) (s : Bytes) (m : ℕ) (rest : Bytes)
    → is_digit c ≡ true
    → read_number 0 (c ∷ s) ≡ ok (m, rest)
    → length rest ≤ length s
unfolding read_number
read_number_digit c s m rest digit e =
    let (n, run, later) =
      bind-eq-ok (int_sum 0 (c - 0x30)) (λ n. read_number n s) (rw digit at e) in
    read_number_shorter n s m rest later

read_number_none :
    (c : ℕ) (s : Bytes) (m : ℕ) (rest : Bytes)
    → is_digit c ≡ false
    → read_number 0 (c ∷ s) ≡ ok (m, rest)
    → byte_at rest 0 ≡ c
unfolding read_number
read_number_none c s m rest other e = let same = rw other at e in ground (arith, same)

-- What is repeated is shorter than the element.
repetition_bounds_shorter :
    (c : ℕ) (s : Bytes) (min max : ℕ) (element : Bytes)
    → (is_digit c || c == b'*') ≡ true
    → repetition_bounds (c ∷ s) ≡ ok (min, max, element)
    → length element < length (c ∷ s)
unfolding repetition_bounds
repetition_bounds_shorter c s min max element h e =
    let ((n, rest), run, later) = bind-eq-ok (read_number 0 (c ∷ s)) _ e in
    let short = read_number_shorter 0 (c ∷ s) n rest run in
    elim (Bool-cases (byte_at rest 0 == b'*')) [
      | inl star ↦
          let dropped = length-drop_one rest star in
          elim (Bool-cases (is_digit (byte_at rest 1))) [
            | inl digit ↦
                let ((max', element'), run', last) =
                  bind-eq-ok (read_number 0 (drop 1 rest)) _ (rw (star, digit) at later) in
                let short' = read_number_shorter 0 (drop 1 rest) max' element' run' in
                let same : element' ≡ element = ground (arith, last) in
                let less : length element' < length (c ∷ s) = omega arith in rw same at less
            | inr other ↦
                let last = rw (star, other) at later in
                let same : drop 1 rest ≡ element = ground (arith, last) in
                let less : length (drop 1 rest) < length (c ∷ s) = omega arith in rw same at less
          ]
      | inr none_there ↦
          let last = rw none_there at later in
          let same : rest ≡ element = ground (arith, last) in
          elim (Bool-cases (is_digit c)) [
            | inl digit ↦
                let taken = read_number_digit c s n rest digit run in
                let less : length rest < length (c ∷ s) = omega arith in rw same at less
            | inr other ↦ let kept = read_number_none c s n rest other run in absurd (ground arith)
          ]
    ]

pub shorter :
    (s : Bytes) (min max : ℕ) (element : Bytes)
    → (is_digit (byte_at s 0) || byte_at s 0 == b'*') ≡ true
    → repetition_bounds s ≡ ok (min, max, element)
    → length element < length s
shorter [] min max element h e = cc
shorter (c ∷ s) min max element h e = repetition_bounds_shorter c s min max element h e
