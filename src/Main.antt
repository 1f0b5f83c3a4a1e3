-- ===== src/Main.antt =====
-- fuzzer/main.c: the options, the seed, and the start of the strategy. `getopt` is an argument: the
-- options that it finds in `argv`, in their order, each with its `optarg`.
pub mod Options
pub mod Refusals
pub mod Connecting
use amqpgram.Base.{
  ℕ, zero, suc, ◌+◌, ◌%◌, Bool, true, false, not, List, [], ◌∷◌, Option, none, some, ltb, leb, ◌==◌,
  if◌then◌else◌, Bytes, length, str_eq,
}
use amqpgram.Base.Outcome.{Outcome, ok, fault, ◌>>=◌}
use amqpgram.CString.{strtol}
use amqpgram.Utils.{char_in_int}
use amqpgram.Strategy.{Round, fuzz_with_strategy}

-- The variables of `main`, and the globals that the options set.
pub record Settings : Type 0 where
  pub port : ℕ
  pub verbosity : ℕ
  pub fuzzing_debug : Bool
  pub grammar_decoding_debug : Bool
  pub packet_chaos : ℕ
  pub rule_chaos : ℕ
  pub seed : ℕ
  pub strat : ℕ
  pub stratval : ℕ

unfoldable pub initial_settings : Settings
initial_settings = record {
  port = 5672;
  verbosity = 0;
  fuzzing_debug = false;
  grammar_decoding_debug = false;
  packet_chaos = 0;
  rule_chaos = 0;
  seed = 4294967295;
  strat = b'0';
  stratval = 0;
}

-- Whether `main` goes on, returns, or exits.
pub data Parsed : Type 0 where
  parsed : Settings → Parsed
  returned exited : ℕ → Parsed

-- `strtol(optarg, &endptr, 10)`, as the pattern of a `long`; of NULL it faults.
unfoldable pub number : Option Bytes → Outcome ℕ
number none = fault
number (some optarg) = ok (strtol optarg 10)

-- The same as the pattern of an `int`.
unfoldable pub int_number : Option Bytes → Outcome ℕ
unfolding number
int_number optarg = number optarg >>= λ n. ok (n % 4294967296)

abbrev pub is_v : Option Bytes → Bool
is_v none = false
is_v (some optarg) = str_eq optarg (b'v' ∷ [])

-- The cases `P` and `R`; an `int` is between 0 and 4 if its pattern is at most 4.
unfoldable pub set_chaos : ℕ → ℕ → Settings → Parsed
set_chaos opt chaos s =
    if not (leb chaos 4)
    then returned 1
    else if opt == b'R'
    then parsed (record s { rule_chaos = chaos })
    else parsed (record s { packet_chaos = chaos })

-- The cases `n` and `t`.
unfoldable pub set_strat : ℕ → Option Bytes → Settings → Outcome Parsed
unfolding number
set_strat opt optarg s =
    if not (s.strat == b'0')
    then ok (exited 1)
    else number optarg >>= λ n. ok (parsed (record s { strat = opt; stratval = n }))

-- `switch (opt)`; an option that `getopt` does not know, `?`, is passed over.
unfoldable pub set_option : ℕ → Option Bytes → Settings → Outcome Parsed
unfolding int_number set_chaos set_strat
set_option opt optarg s =
    if opt == b'h'
    then ok (returned 1)
    else if opt == b'p'
    then (int_number optarg >>= λ n. ok (parsed (record s { port = n })))
    else if opt == b'v'
    then ok (
        parsed (record s {
          verbosity = if is_v optarg then 2 else 1;
          fuzzing_debug = true;
          grammar_decoding_debug = if is_v optarg then true else s.grammar_decoding_debug;
        }))
    else if opt == b'P'
    then (int_number optarg >>= λ chaos. ok (set_chaos opt chaos s))
    else if opt == b'R'
    then (int_number optarg >>= λ chaos. ok (set_chaos opt chaos s))
    else if opt == b's'
    then (int_number optarg >>= λ n. ok (parsed (record s { seed = n })))
    else if opt == b'n'
    then set_strat opt optarg s
    else if opt == b't'
    then set_strat opt optarg s
    else ok (parsed s)

-- `while ((opt = getopt(…)) != -1)`
unfoldable pub set_options : List (ℕ × Option Bytes) → Settings → Outcome Parsed
unfolding set_option
set_options [] s = ok (parsed s)
set_options ((opt, optarg) ∷ options) s = set_option opt optarg s >>= λ outcome. elim outcome [
  | parsed s' ↦ set_options options s'
  | returned status ↦ ok (returned status)
  | exited status ↦ ok (exited status)
]

-- What `getrandom` gives: four bytes, or the error ENOSYS, in which case the time is taken, or another.
pub data Entropy : Type 0 where
  random : Bytes → Entropy
  unsupported : ℕ → Entropy
  failed : Entropy

-- The seed that `srand` is given, if it is called.
unfoldable pub seed_rng : Entropy → ℕ → Outcome (Option ℕ)
seed_rng (random buffer) seed =
    if seed == 4294967295 then (char_in_int buffer 0 >>= λ n. ok (some n)) else ok (some seed)
seed_rng (unsupported time) seed =
    if seed == 4294967295 then ok (some (time % 4294967296)) else ok (some seed)
seed_rng failed seed = if seed == 4294967295 then ok none else ok (some seed)

-- The start of `fuzz_with_strategy`: `currval` and `stratval`, by the time and the counter, which was
-- just set to zero.
unfoldable pub begin_strategy : ℕ → ℕ → ℕ → ℕ × ℕ
begin_strategy strat stratval time =
    if strat == b't' then (time, time + stratval) else (0, stratval)

unfoldable pub run_strategy : (ℕ → ℕ × ℕ) → ℕ → ℕ → ℕ → ℕ → Outcome Round
unfolding begin_strategy
run_strategy instances fuel strat stratval time =
    let (currval, limit) = begin_strategy strat stratval time in
    fuzz_with_strategy instances fuel limit stratval 0 currval 0

-- What `main` comes to: it returns or exits before it connects, or it has fuzzed with these settings,
-- after `srand` of the seed if there is one, until the strategy ended so.
pub data Finish : Type 0 where
  refused : ℕ → Finish
  fuzzed : Settings → Option ℕ → Round → Finish

module _ (entropy : Entropy) (instances : Settings → ℕ → ℕ × ℕ) (fuel time : ℕ) where
  -- `main` behind its options. `instances` gives, by the settings, what each call of `fuzz` returns,
  -- and the packets behind it. What `seed_RNG` and `fuzz_with_strategy` return is not looked at.
  unfoldable pub start_fuzzing : Parsed → Outcome Finish
  unfolding seed_rng run_strategy
  start_fuzzing (parsed s) = seed_rng entropy s.seed >>= λ seed.
      run_strategy (instances s) fuel s.strat s.stratval time >>= λ round. ok (fuzzed s seed round)
  start_fuzzing (returned status) = ok (refused status)
  start_fuzzing (exited status) = ok (refused status)

  unfoldable pub main : ℕ → List (ℕ × Option Bytes) → Outcome Finish
  unfolding initial_settings set_options start_fuzzing
  main argc options =
      if ltb argc 2
      then ok (refused 1)
      else (set_options options initial_settings >>= start_fuzzing)
