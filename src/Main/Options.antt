-- ===== src/Main/Options.antt =====
-- What the options come to.
use amqpgram.Base.{
  ℕ, ◌%◌, ◌≡◌, ap, ◌≤◌, ◌⊎◌, refl, ◌∙◌, arith, Bool, true, false, not, List, [], ◌∷◌, ◌++◌, Option,
  none, some, leb, ◌==◌, ◌&&◌, ◌||◌, if◌then◌else◌, Bytes,
}
use amqpgram.Base.Outcome.{Outcome, ok, fault, stuck, ◌>>=◌, bind-eq-ok}
use amqpgram.CString.{strtol}
use amqpgram.Main.{
  Settings, initial_settings, Parsed, parsed, returned, exited, number, int_number, set_chaos,
  set_strat, set_option, set_options,
}

-- The value of the last option `opt`, or the one from before.
abbrev pub last_value : ℕ → List (ℕ × Option Bytes) → ℕ → ℕ
last_value opt [] value = value
last_value opt ((opt', none) ∷ options) value = last_value opt options value
last_value opt ((opt', some optarg) ∷ options) value =
    last_value opt options (if opt' == opt then strtol optarg 10 % 4294967296 else value)

-- What every list of options that is accepted leaves.
pub record Takes (options : List (ℕ × Option Bytes)) (s s' : Settings) : Type 0 where
  pub port : s'.port ≡ last_value b'p' options s.port
  pub packet_chaos : s'.packet_chaos ≡ last_value b'P' options s.packet_chaos
  pub rule_chaos : s'.rule_chaos ≡ last_value b'R' options s.rule_chaos
  pub seed : s'.seed ≡ last_value b's' options s.seed

pub record IsValid (s : Settings) : Type 0 where
  pub packet_chaos : s.packet_chaos ≤ 4
  pub rule_chaos : s.rule_chaos ≤ 4
  pub verbosity : s.verbosity ≤ 2
  pub strat : (s.strat ≡ b'0') ⊎ (s.strat ≡ b'n') ⊎ (s.strat ≡ b't')

set_option-Takes :
    (opt : ℕ) (optarg : Option Bytes) (s s' : Settings)
    → set_option opt optarg s ≡ ok (parsed s')
    → Takes ((opt, optarg) ∷ []) s s'
unfolding set_option int_number number set_chaos set_strat
set_option-Takes opt none s s' e = ground arith
set_option-Takes opt (some optarg) s s' e = ground arith

set_option-IsValid :
    (opt : ℕ) (optarg : Option Bytes) (s s' : Settings)
    → set_option opt optarg s ≡ ok (parsed s')
    → IsValid s
    → IsValid s'
unfolding set_option int_number number set_chaos set_strat
set_option-IsValid opt none s s' e v = ground arith
set_option-IsValid opt (some optarg) s s' e v = ground arith

last_value-cons :
    (opt : ℕ) (option : ℕ × Option Bytes) (options : List (ℕ × Option Bytes)) (value : ℕ)
    → last_value opt (option ∷ options) value
      ≡ last_value opt options (last_value opt (option ∷ []) value)
last_value-cons opt (opt', none) options value = refl
last_value-cons opt (opt', some optarg) options value = refl

Takes-cons :
    (option : ℕ × Option Bytes) (options : List (ℕ × Option Bytes)) (s s' s'' : Settings)
    → Takes (option ∷ []) s s'
    → Takes options s' s''
    → Takes (option ∷ options) s s''
Takes-cons option options s s' s'' first later = record {
  port = rw (last_value-cons b'p' option options s.port, ← first.port) later.port;
  packet_chaos =
      rw (last_value-cons b'P' option options s.packet_chaos, ← first.packet_chaos)
        later.packet_chaos;
  rule_chaos =
      rw (last_value-cons b'R' option options s.rule_chaos, ← first.rule_chaos) later.rule_chaos;
  seed = rw (last_value-cons b's' option options s.seed, ← first.seed) later.seed;
}

set_options-cons :
    (opt : ℕ) (optarg : Option Bytes) (options : List (ℕ × Option Bytes)) (s s' : Settings)
    → set_options ((opt, optarg) ∷ options) s ≡ ok (parsed s')
    → (s₁ : Settings) × (set_option opt optarg s ≡ ok (parsed s₁))
      × (set_options options s₁ ≡ ok (parsed s'))
unfolding set_options
set_options-cons opt optarg options s s' e =
    let (outcome, run, rest) = bind-eq-ok (set_option opt optarg s) _ e in goes_on outcome run rest
  where
    goes_on :
        (outcome : Parsed)
        → set_option opt optarg s ≡ ok outcome
        → ◌≡◌ {A = Outcome Parsed}
            (elim outcome [
              | parsed s₁ ↦ set_options options s₁
              | returned status ↦ ok (returned status)
              | exited status ↦ ok (exited status)
            ])
            (ok (parsed s'))
        → (s₁ : Settings) × (set_option opt optarg s ≡ ok (parsed s₁))
          × (set_options options s₁ ≡ ok (parsed s'))
    goes_on (parsed s₁) run rest = (s₁, run, rest)
    goes_on (returned status) run rest = cc
    goes_on (exited status) run rest = cc

set_options_lem :
    (options : List (ℕ × Option Bytes)) (s s' : Settings)
    → set_options options s ≡ ok (parsed s')
    → IsValid s
    → IsValid s' × Takes options s s'
unfolding set_options
set_options_lem [] s s' e v = ground arith
set_options_lem ((opt, optarg) ∷ options) s s' e v =
    let (s₁, run, rest) = set_options-cons opt optarg options s s' e in
    let (valid, takes) =
      set_options_lem options s₁ s' rest (set_option-IsValid opt optarg s s₁ run v) in
    (valid, Takes-cons (opt, optarg) options s s₁ s' (set_option-Takes opt optarg s s₁ run) takes)

set_options-run :
    (opt : ℕ) (optarg : Option Bytes) (options : List (ℕ × Option Bytes)) (s s₁ : Settings)
    → set_option opt optarg s ≡ ok (parsed s₁)
    → set_options ((opt, optarg) ∷ options) s ≡ set_options options s₁
unfolding set_options
set_options-run opt optarg options s s₁ run = rw (run, ◌>>=◌)

-- Options that are accepted leave the others to be read.
pub set_options-append :
    (before after : List (ℕ × Option Bytes)) (s s' : Settings)
    → set_options before s ≡ ok (parsed s')
    → set_options (before ++ after) s ≡ set_options after s'
unfolding set_options
set_options-append [] after s s' e =
    let same : s ≡ s' = ground (arith, e) in ap (set_options after) same
set_options-append ((opt, optarg) ∷ before) after s s' e =
    let (s₁, run, rest) = set_options-cons opt optarg before s s' e in
    set_options-run opt optarg (before ++ after) s s₁ run
    ∙ (set_options-append before after s₁ s' rest)

abbrev pub is_criterion : ℕ → Bool
is_criterion opt = opt == b'n' || opt == b't'

-- An option that may stand where a criterion was chosen before, or not.
abbrev pub is_accepted : Bool → ℕ × Option Bytes → Bool
is_accepted chosen (opt, none) =
    not
      (opt == b'h' || opt == b'p' || opt == b'P' || opt == b'R' || opt == b's' || is_criterion opt)
is_accepted chosen (opt, some optarg) =
    not (opt == b'h')
    && (not (opt == b'P' || opt == b'R') || leb (strtol optarg 10 % 4294967296) 4)
    && not (is_criterion opt && chosen)

-- Options of which none is refused: no `-h`, every level of chaos from 0 to 4, at most one criterion,
-- and an argument with every option that has one.
abbrev pub accepts : Bool → List (ℕ × Option Bytes) → Bool
accepts chosen [] = true
accepts chosen (option ∷ options) =
    is_accepted chosen option && accepts (chosen || is_criterion option.0) options

set_option-is_accepted :
    (opt : ℕ) (optarg : Option Bytes) (s : Settings) (outcome : Outcome Parsed)
    → is_accepted (not (s.strat == b'0')) (opt, optarg) ≡ true
    → set_option opt optarg s ≡ outcome
    → (s' : Settings) × (outcome ≡ ok (parsed s'))
      × (not (s'.strat == b'0') ≡ (not (s.strat == b'0') || is_criterion opt))
unfolding set_option int_number number set_chaos set_strat
set_option-is_accepted opt none s (ok (parsed s')) h e = (s', refl, ground arith)
set_option-is_accepted opt (some optarg) s (ok (parsed s')) h e = (s', refl, ground arith)
set_option-is_accepted opt none s (ok (returned n)) h e = absurd (ground arith)
set_option-is_accepted opt (some optarg) s (ok (returned n)) h e = absurd (ground arith)
set_option-is_accepted opt none s (ok (exited n)) h e = absurd (ground arith)
set_option-is_accepted opt (some optarg) s (ok (exited n)) h e = absurd (ground arith)
set_option-is_accepted opt none s fault h e = absurd (ground arith)
set_option-is_accepted opt (some optarg) s fault h e = absurd (ground arith)
set_option-is_accepted opt none s stuck h e = absurd (ground arith)
set_option-is_accepted opt (some optarg) s stuck h e = absurd (ground arith)

later_total :
    (opt : ℕ) (optarg : Option Bytes) (options : List (ℕ × Option Bytes)) (s s₁ : Settings)
    → set_option opt optarg s ≡ ok (parsed s₁)
    → (s' : Settings) × (set_options options s₁ ≡ ok (parsed s'))
    → (s' : Settings) × (set_options ((opt, optarg) ∷ options) s ≡ ok (parsed s'))
later_total opt optarg options s s₁ run (s', rest) =
    (s', set_options-run opt optarg options s s₁ run ∙ rest)

set_options_total :
    (options : List (ℕ × Option Bytes)) (s : Settings)
    → accepts (not (s.strat == b'0')) options ≡ true
    → (s' : Settings) × (set_options options s ≡ ok (parsed s'))
unfolding set_options
set_options_total [] s h = (s, refl)
set_options_total ((opt, optarg) ∷ options) s h =
    let (s₁, run, chosen) =
      set_option-is_accepted opt optarg s (set_option opt optarg s) (ground (arith, h)) refl in
    later_total opt optarg options s s₁ run
      (set_options_total options s₁ (rw chosen (ground (arith, h))))

-- Options of which none is refused are accepted: the levels of chaos are then at most 4 and the criterion
-- is none, -n or -t; and port, chaos and seed are each the value of the last option for it, as an `int`, or
-- the default.
pub set_options-accepts :
    (options : List (ℕ × Option Bytes))
    → accepts false options ≡ true
    → (s : Settings) × (set_options options initial_settings ≡ ok (parsed s))
      × IsValid s
      × Takes options initial_settings s
unfolding initial_settings
set_options-accepts options h =
    let (s, run) = set_options_total options initial_settings h in
    let (valid, takes) = set_options_lem options initial_settings s run (omega arith) in
    (s, run, valid, takes)
