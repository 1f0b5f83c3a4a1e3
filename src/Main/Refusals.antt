-- ===== src/Main/Refusals.antt =====
-- The options that end `main` before it connects.
use amqpgram.Base.{
  ℕ, ◌%◌, ◌≡◌, ◌≢◌, Bool-cases, ◌<◌, inl, inr, refl, arith, List, ◌∷◌, ◌++◌, Option, some, ltb,
  Bytes,
}
use amqpgram.Base.Outcome.{Outcome, ok, ◌>>=◌}
use amqpgram.CString.{strtol}
use amqpgram.Main.{
  Settings, initial_settings, Parsed, parsed, returned, exited, number, int_number, set_chaos,
  set_strat, set_option, set_options, Entropy, refused, start_fuzzing, main,
}
use amqpgram.Main.Options.{set_options-append}

-- An option that `main` refuses, after those that led to `s`.
pub data IsRefused (s : Settings) : ℕ → Option Bytes → Type 0 where
  help : (optarg : Option Bytes) → IsRefused s b'h' optarg
  packet_chaos_beyond :
      (optarg : Bytes) → 4 < strtol optarg 10 % 4294967296 → IsRefused s b'P' (some optarg)
  rule_chaos_beyond :
      (optarg : Bytes) → 4 < strtol optarg 10 % 4294967296 → IsRefused s b'R' (some optarg)
  second_count : (optarg : Option Bytes) → s.strat ≢ b'0' → IsRefused s b'n' optarg
  second_time : (optarg : Option Bytes) → s.strat ≢ b'0' → IsRefused s b't' optarg

module _ (entropy : Entropy) (instances : Settings → ℕ → ℕ × ℕ) (fuel time : ℕ) where
  set_option_refused :
      (opt : ℕ) (optarg : Option Bytes) (s : Settings)
      → IsRefused s opt optarg
      → (outcome : Parsed) × (set_option opt optarg s ≡ ok outcome)
        × (start_fuzzing entropy instances fuel time outcome ≡ ok (refused 1))
        × ((s' : Settings) → outcome ≢ parsed s')
  unfolding set_option int_number number set_chaos set_strat start_fuzzing
  set_option_refused opt optarg s (help _) = (returned 1, refl, refl, λ s' e. cc)
  set_option_refused opt optarg s (packet_chaos_beyond text l) =
      (returned 1, ground arith, refl, λ s' e. cc)
  set_option_refused opt optarg s (rule_chaos_beyond text l) =
      (returned 1, ground arith, refl, λ s' e. cc)
  set_option_refused opt optarg s (second_count _ n) = (exited 1, ground arith, refl, λ s' e. cc)
  set_option_refused opt optarg s (second_time _ n) = (exited 1, ground arith, refl, λ s' e. cc)

  ended :
      (outcome : Parsed) (after : List (ℕ × Option Bytes))
      → start_fuzzing entropy instances fuel time outcome ≡ ok (refused 1)
      → ((s' : Settings) → outcome ≢ parsed s')
      → (elim outcome as (λ _. Outcome Parsed) [
        | parsed s' ↦ set_options after s'
        | returned status ↦ ok (returned status)
        | exited status ↦ ok (exited status)
      ]
          >>= start_fuzzing entropy instances fuel time)
        ≡ ok (refused 1)
  ended (parsed s) after status other = absurd (other s refl)
  ended (returned n) after status other = status
  ended (exited n) after status other = status

  -- After options that were accepted, `-h`, a level of chaos that is not between 0 and 4 as an `int`, or
  -- a second criterion ends `main` with the status 1, whatever options follow.
  pub main_refuses :
      (argc : ℕ) (before after : List (ℕ × Option Bytes)) (opt : ℕ) (optarg : Option Bytes)
      (s : Settings)
      → set_options before initial_settings ≡ ok (parsed s)
      → IsRefused s opt optarg
      → main entropy instances fuel time argc (before ++ (opt, optarg) ∷ after) ≡ ok (refused 1)
  unfolding main set_options start_fuzzing
  main_refuses argc before after opt optarg s e h = elim (Bool-cases (ltb argc 2)) [
    | inl few ↦ rw few
    | inr more ↦
        let (outcome, run, status, other) = set_option_refused opt optarg s h in
        rw
          (more, set_options-append before ((opt, optarg) ∷ after) initial_settings s e, run, ◌>>=◌)
          (ended outcome after status other)
  ]
