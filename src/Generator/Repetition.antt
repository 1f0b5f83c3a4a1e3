-- ===== src/Generator/Repetition.antt =====
-- The two loops that fill a growing buffer: the buffer is never overrun.
use amqpgram.Base.{
  ℕ, zero, suc, ◌+◌, ◌*◌, ◌-◌, ◌%◌, ◌≡◌, ◌≤◌, ◌<◌, refl, ap, sym, arith, [], ◌∷◌, ◌++◌, Bytes,
  length, leb, Bool-cases, le→ltb, lt→ltb, inl, inr, ◌⊎◌, Option, none, some,
}
use mathlib.Core.List.{append-nil}
use native.Mathlib.Nat.{mod-lt}
use amqpgram.Base.Outcome.{Outcome, ok, fault, stuck}
use amqpgram.Base.Random.{Rand, ◌>>=◌, pure}
use amqpgram.CString.{strtok}
use amqpgram.Terminals.{count_occurrences}
use amqpgram.Terminals.Ranges.{remainder_lem, remainder_same}
use amqpgram.Generator.{
  repetition_quantity, parse_element, parse_elements, grow, copy_into, repeat_loop, elements_loop,
}

grow_lem :
    (fuel need real_length : ℕ)
    → 0 < real_length
    → 0 < fuel
    → suc need < fuel + real_length
    → (room : ℕ) × (need < room) × (grow fuel need real_length ≡ ok room)
unfolding grow
grow_lem zero need real_length p f h = absurd (omega arith)
grow_lem (suc fuel) need real_length p f h = elim (Bool-cases (leb real_length need)) [
  | inl more ↦
      let (room, large, e) =
        grow_lem fuel need (2 * real_length) (omega arith) (ground arith) (ground arith) in
      (room, large, rw (more, e))
  | inr done ↦ (real_length, ground arith, rw (done))
]

copy_into_lem :
    (room : ℕ) (result partial : Bytes)
    → partial ≡ [] ⊎ length result + length partial ≤ room
    → copy_into room result partial ≡ ok (result ++ partial)
unfolding copy_into
copy_into_lem room result [] h = ap ok (sym (append-nil result))
copy_into_lem room result (b ∷ partial) (inl h) = cc
copy_into_lem room result (b ∷ partial) (inr h) =
    rw (le→ltb room (length result + length (b ∷ partial)) h)

-- What the loop of a repetition comes to without its buffer.
unfoldable pub repeat_plain : Rand Bytes → ℕ → Bytes → Rand Bytes
repeat_plain element zero end_result = pure end_result
repeat_plain element (suc quantity) end_result =
    element >>= λ temp_result. repeat_plain element quantity (end_result ++ temp_result)

bind-ext_cases :
    (o : Outcome (Bytes × ℕ)) (f g : Bytes → Rand Bytes)
    → ((a : Bytes) (l : ℕ) → f a l ≡ g a l)
    → elim o [ ok (a, l) ↦ f a l | fault ↦ fault | stuck ↦ stuck ]
      ≡ elim o [ ok (a, l) ↦ g a l | fault ↦ fault | stuck ↦ stuck ]
bind-ext_cases (ok (a, l)) f g h = h a l
bind-ext_cases fault f g h = refl
bind-ext_cases stuck f g h = refl

bind-ext :
    (m : Rand Bytes) (f g : Bytes → Rand Bytes) (k : ℕ)
    → ((a : Bytes) (l : ℕ) → f a l ≡ g a l)
    → (m >>= f) k ≡ (m >>= g) k
bind-ext m f g k h = bind-ext_cases (m k) f g h

-- The loop of a repetition, begun with any bytes in a buffer of a size that is not 0, decodes the
-- element as often as is asked and joins the results: the doubling of the buffer comes before every
-- overrun, and ends.
pub repeat_loop_lem :
    (element : Rand Bytes) (quantity : ℕ) (end_result : Bytes) (real_length k : ℕ)
    → 0 < real_length
    → repeat_loop element quantity end_result real_length k
      ≡ repeat_plain element quantity end_result k
unfolding repeat_loop repeat_plain
repeat_loop_lem element zero end_result real_length k h = refl
repeat_loop_lem element (suc quantity) end_result real_length k h =
    bind-ext element _ _ k λ temp_result l.
      let need = length end_result + length temp_result in
      let (room, large, e) = grow_lem (suc need) need real_length h (omega arith) (omega arith) in
      rw (e, copy_into_lem room end_result temp_result (inr (omega arith)))
        (repeat_loop_lem element quantity (end_result ++ temp_result) room l (omega arith))

-- What the loop of a rule's elements comes to without its buffer.
unfoldable pub elements_plain :
    (Bytes → Rand Bytes) → ℕ → Option (Bytes × Bytes) → Bytes → Rand Bytes
elements_plain element zero next result = pure result
elements_plain element (suc fields) none result = pure result
elements_plain element (suc fields) (some (element_to_parse, rest)) result =
    element element_to_parse >>= λ partial_result.
    elements_plain element fields (strtok b' ' rest) (result ++ partial_result)

no_growth :
    (result partial : Bytes) (real_length room : ℕ)
    → real_length ≤ 1 ⊎ real_length ≤ room
    → length result + length partial < real_length
    → partial ≡ [] ⊎ length result + length partial ≤ room
no_growth result [] real_length room h f = inl refl
no_growth result (b ∷ partial) real_length room (inl h) f = absurd (omega arith)
no_growth result (b ∷ partial) real_length room (inr h) f = inr (omega arith)

-- Nothing is allocated yet, or the buffer has the stated length.
pub elements_loop_lem :
    (element : Bytes → Rand Bytes) (fields : ℕ) (next : Option (Bytes × Bytes)) (result : Bytes)
    (real_length room k : ℕ)
    → real_length ≤ 1 ⊎ real_length ≤ room
    → elements_loop element fields next result real_length room k
      ≡ elements_plain element fields next result k
unfolding elements_loop elements_plain
elements_loop_lem element zero next result real_length room k h = refl
elements_loop_lem element (suc fields) none result real_length room k h = refl
elements_loop_lem element (suc fields) (some (element_to_parse, rest)) result real_length room k h =
    bind-ext (element element_to_parse) _ _ k λ partial_result l.
      elim (Bool-cases (leb real_length (length result + length partial_result))) [
        | inl grown ↦
            let total = length result + length partial_result in
            rw (grown, copy_into_lem (total * 2) result partial_result (inr (omega arith)))
              (elements_loop_lem element fields (strtok b' ' rest) (result ++ partial_result)
                (total * 2) (total * 2) l (inr (omega arith)))
        | inr fits ↦
            rw
              (
                fits,
                copy_into_lem room result partial_result
                    (no_growth result partial_result real_length room h (ground arith)),
              )
              (elements_loop_lem element fields (strtok b' ' rest) (result ++ partial_result)
                real_length room l h)
      ]

-- The elements of a rule are split off at blanks, decoded from left to right, and their bytes
-- joined: the growing buffer of the source is never overrun and loses nothing, whatever the rules
-- inside decode to.
pub parse_elements_lem :
    (draws : ℕ → ℕ) (rule : Bytes → Rand Bytes) (element_str : Bytes) (k : ℕ)
    → parse_elements draws rule element_str k
      ≡ elements_plain
          (λ element. parse_element draws rule (suc (length element)) element)
          (count_occurrences element_str b' ' + 1)
          (strtok b' ' element_str)
          []
          k
unfolding parse_elements
parse_elements_lem draws rule element_str k =
    elements_loop_lem _ (count_occurrences element_str b' ' + 1) (strtok b' ' element_str) [] 1 0 k
      (inl (omega arith))

-- How often an element `min*max` is repeated, for any result of `rand()`: at least `min` and at
-- most `max` times if `min <= max`; where `min` is `max + 1` the program divides by zero. The
-- greatest number is below 2147483647.
pub repetition_quantity_lem :
    (min max roll : ℕ)
    → max < 2147483647
    → (quantity : ℕ) × (min ≤ max
        → (repetition_quantity min max roll ≡ ok quantity) × (min ≤ quantity) × (quantity ≤ max))
      × (min ≡ max + 1 → repetition_quantity min max roll ≡ fault)
unfolding repetition_quantity
repetition_quantity_lem min max roll small = (
  roll % (max + 1 - min) + min,
  (λ h.
      let below : roll % (max + 1 - min) < max + 1 - min = mod-lt roll (omega arith) in
      (
        rw (
          lt→ltb (max + 1 - min) 2147483648 (omega arith),
          remainder_lem roll min (max + 1) (omega arith),
          lt→ltb (roll % (max + 1 - min) + min) 2147483648 (omega arith),
        ),
        omega arith,
        omega arith,
      )),
  λ h. rw (h, lt→ltb (max + 1 - (max + 1)) 2147483648 (omega arith), remainder_same roll (max + 1)),
)
