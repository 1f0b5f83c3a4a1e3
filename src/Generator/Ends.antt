-- ===== src/Generator/Ends.antt =====
-- The decoding of an element ends: the fuel that `parse_elements` gives is enough.
use amqpgram.Base.{
  ◌-◌, drop, replicate, ◌∷◌, ◌++◌, Bool, ◌++◌, ℕ, zero, suc, ◌+◌, ◌≡◌, ◌≢◌, ◌<◌, refl, arith, true,
  false, ◌||◌, ◌==◌, not, [], Bytes, length, if◌then◌else◌, Option, none, some,
}
use amqpgram.Base.Outcome.{store, bind-ne_stuck}
use amqpgram.Terminals.{decode_quoted}
use amqpgram.Base.Outcome.{Outcome, ok, fault, stuck}
use amqpgram.Base.Random.{Rand, ◌>>=◌, pure, lift}
use amqpgram.CString.{byte_at, strtok}
use amqpgram.Terminals.{decode_terminal_symbol, decode_terminal_range, count_occurrences}
use amqpgram.Terminals.Ends.{decode_terminal_symbol-ne_stuck, decode_terminal_range-ne_stuck}
use amqpgram.Generator.{
  is_digit, repetition_bounds, repetition_quantity, repeat_loop, parse_element, decode_terminal,
  parse_elements,
}
use amqpgram.Generator.Repetition.{
  repeat_plain, repeat_loop_lem, elements_plain, parse_elements_lem,
}
use amqpgram.Generator.Readers.{repetition_quantity-ne_stuck, repetition_bounds-ne_stuck, shorter}

-- Code that ends, whatever the calls of `rand()` give from there on.
abbrev pub Ends {ℓ} : {A : Type ℓ} → Rand A → Type ℓ
Ends m = (k : ℕ) → m k ≢ stuck

bind-Ends_cases {ℓ κ} :
    {A : Type ℓ} {B : Type κ} (o : Outcome (A × ℕ)) (f : A → Rand B)
    → o ≢ stuck
    → ((a : A) → Ends (f a))
    → ◌≢◌ {A = Outcome (B × ℕ)}
        (elim o [ ok (a, k') ↦ f a k' | fault ↦ fault | stuck ↦ stuck ])
        stuck
bind-Ends_cases (ok (a, k')) f h g = g a k'
bind-Ends_cases fault f h g = λ e. cc
bind-Ends_cases stuck f h g = absurd (h refl)

bind-Ends {ℓ κ} :
    {A : Type ℓ} {B : Type κ} (m : Rand A) (f : A → Rand B)
    → Ends m
    → ((a : A) → Ends (f a))
    → Ends (m >>= f)
bind-Ends m f h g k = bind-Ends_cases (m k) f (h k) g

lift-Ends {ℓ} : {A : Type ℓ} (o : Outcome A) → o ≢ stuck → Ends (lift o)
lift-Ends (ok a) h k e = cc
lift-Ends fault h k e = cc
lift-Ends stuck h k e = h refl

lift_bind-Ends {ℓ κ} :
    {A : Type ℓ} {B : Type κ} (o : Outcome A) (f : A → Rand B)
    → o ≢ stuck
    → ((a : A) → o ≡ ok a → Ends (f a))
    → Ends (lift o >>= f)
lift_bind-Ends (ok a) f h g = g a refl
lift_bind-Ends fault f h g = λ k e. cc
lift_bind-Ends stuck f h g = absurd (h refl)

if-Ends {ℓ} :
    {A : Type ℓ} (c : Bool) (m m' : Rand A)
    → (c ≡ true → Ends m)
    → (c ≡ false → Ends m')
    → Ends (if c then m else m')
if-Ends true m m' h h' = h refl
if-Ends false m m' h h' = h' refl

repeat_plain-Ends :
    (element : Rand Bytes) (quantity : ℕ) (result : Bytes)
    → Ends element
    → Ends (repeat_plain element quantity result)
unfolding repeat_plain
repeat_plain-Ends element zero result h = λ k e. cc
repeat_plain-Ends element (suc quantity) result h =
    bind-Ends element _ h
      λ temp_result. repeat_plain-Ends element quantity (result ++ temp_result) h

elements_plain-Ends :
    (element : Bytes → Rand Bytes) (fields : ℕ) (next : Option (Bytes × Bytes)) (result : Bytes)
    → ((token : Bytes) → Ends (element token))
    → Ends (elements_plain element fields next result)
unfolding elements_plain
elements_plain-Ends element zero next result h = λ k e. cc
elements_plain-Ends element (suc fields) none result h = λ k e. cc
elements_plain-Ends element (suc fields) (some (token, rest)) result h =
    bind-Ends (element token) _ (h token) λ partial_result.
      elements_plain-Ends element fields (strtok b' ' rest) (result ++ partial_result) h

store-ne_stuck : (dst : Bytes) (i : ℕ) (bytes : Bytes) → store dst i bytes ≢ stuck
store-ne_stuck dst zero [] = λ e. cc
store-ne_stuck [] zero (b ∷ bytes) = λ e. cc
store-ne_stuck (x ∷ dst) zero (b ∷ bytes) =
    bind-ne_stuck (store dst zero bytes) _ (store-ne_stuck dst zero bytes) λ stored e. cc
store-ne_stuck [] (suc i) bytes = λ e. cc
store-ne_stuck (x ∷ dst) (suc i) bytes =
    bind-ne_stuck (store dst i bytes) _ (store-ne_stuck dst i bytes) λ stored e. cc

decode_quoted-ne_stuck : (s : Bytes) → decode_quoted s ≢ stuck
unfolding decode_quoted
decode_quoted-ne_stuck s =
    bind-ne_stuck (store (replicate (length s - 1) 0) 0 (drop 1 s ++ 0 ∷ [])) _
      (store-ne_stuck (replicate (length s - 1) 0) 0 (drop 1 s ++ 0 ∷ [])) λ quoted e. cc

module _ (draws : ℕ → ℕ) (rule : Bytes → Rand Bytes)
    (rule_ends : (name : Bytes) → Ends (rule name)) where
  repetition-Ends :
      (element : Rand Bytes) (quantity : ℕ)
      → Ends element
      → Ends (if quantity == 0 then pure [] else repeat_loop element quantity [] quantity)
  repetition-Ends element quantity h =
      if-Ends (quantity == 0) (pure []) (repeat_loop element quantity [] quantity) (λ e k e'. cc)
        (λ some_there k.
          let more : 0 < quantity = ground arith in
          rw (repeat_loop_lem element quantity [] quantity k more)
            (repeat_plain-Ends element quantity [] h k))

  decode_terminal-Ends : (s : Bytes) → Ends (decode_terminal draws s)
  decode_terminal-Ends s =
      if-Ends (not (byte_at s 0 == b'%')) _ _ (λ e k e'. cc)
        (λ e.
          if-Ends (count_occurrences s b'-' == 1) _ _
            (λ e k.
              lift-Ends (decode_terminal_range s (draws k))
                (decode_terminal_range-ne_stuck s (draws k)) (k + 1))
            (λ e. lift-Ends (decode_terminal_symbol s) (decode_terminal_symbol-ne_stuck s)))

  parse_element-Ends :
      (fuel : ℕ) (s : Bytes) → length s < fuel → Ends (parse_element draws rule fuel s)
  unfolding parse_element
  parse_element-Ends zero s h = absurd (omega arith)
  parse_element-Ends (suc fuel) s h =
      if-Ends (is_digit (byte_at s 0) || byte_at s 0 == b'*') _ _
        (λ e. lift_bind-Ends (repetition_bounds s) _ (repetition_bounds-ne_stuck s) λ bounds run k.
          lift_bind-Ends (repetition_quantity bounds.0 bounds.1 (draws k)) _
            (repetition_quantity-ne_stuck bounds.0 bounds.1 (draws k))
            (λ quantity chosen. repetition-Ends (parse_element draws rule fuel bounds.2) quantity (
              parse_element-Ends fuel bounds.2
                (omega (arith, shorter s bounds.0 bounds.1 bounds.2 e run))))
            (k + 1))
        (λ e.
          if-Ends (byte_at s 0 == b'%') _ _ (λ e. decode_terminal-Ends s)
            (λ e.
              if-Ends (byte_at s 0 == b'"') _ _
                (λ e. lift-Ends (decode_quoted s) (decode_quoted-ne_stuck s))
                (λ e.
                  if-Ends (byte_at s 0 == b'[' || byte_at s 0 == b']') _ _ (λ e k e'. cc)
                    (λ e. rule_ends s))))

  -- Where every rule that may be called ends, so does the decoding of a rule's elements, whatever its
  -- text is: the depth that is given for repetitions of repetitions is enough.
  pub parse_elements-Ends :
      (element_str : Bytes) (k : ℕ) → parse_elements draws rule element_str k ≢ stuck
  parse_elements-Ends element_str k = rw (parse_elements_lem draws rule element_str k) (
      elements_plain-Ends (λ element. parse_element draws rule (suc (length element)) element)
        (count_occurrences element_str b' ' + 1) (strtok b' ' element_str) []
        (λ token. parse_element-Ends (suc (length token)) token (omega arith)) k)
