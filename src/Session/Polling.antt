-- ===== src/Session/Polling.antt =====
-- fuzzer/AMQP.c: the loop of `listener`, which polls the socket until the connection ends.
use amqpgram.Base.{
  ℕ, ◌+◌, ◌≡◌, ◌≤◌, ◌<◌, refl, arith, Bool, true, false, Bool-cases, inl, inr, List, [], ◌∷◌, leb,
  ◌==◌, if◌then◌else◌, Bytes, All,
}
use amqpgram.Base.Outcome.{Outcome, ok, ◌>>=◌}
use amqpgram.Session.{Session, state_connection_closed, listener_round, listener_end}

-- What `poll` and then `recv` answer: an error of `poll`; nothing to read; an end or an error of
-- `recv`; or a message, with whether `errno`, which a success leaves as it was, is EAGAIN.
pub data Polled : Type 0 where
  failed silent closed : Polled
  received : Bool → Bytes → Polled

-- Whether the loop goes on, with how many polls were missed.
pub data Listening : Type 0 where
  goes_on : ℕ → Session → Listening
  ended : Session → Listening

-- What `poll` and `recv` lead to, in the body of the loop; `fuel` is for `parse_loop`.
unfoldable pub listener_body : ℕ → Polled → ℕ → Session → Outcome Listening
listener_body fuel failed missed_polls s = ok (ended (listener_end s))
listener_body fuel silent missed_polls s =
    if leb 10 (missed_polls + 1)
    then ok (ended (listener_end s))
    else ok (goes_on (missed_polls + 1) s)
listener_body fuel closed missed_polls s = ok (ended (listener_end s))
listener_body fuel (received true recvline) missed_polls s = ok (goes_on missed_polls s)
listener_body fuel (received false recvline) missed_polls s =
    listener_round fuel recvline s >>= λ s'. ok (goes_on missed_polls s')

-- The test of the loop comes first.
unfoldable pub listener_turn : ℕ → Polled → ℕ → Session → Outcome Listening
unfolding listener_body
listener_turn fuel polled missed_polls s =
    if s.current_state == state_connection_closed
    then ok (ended (listener_end s))
    else listener_body fuel polled missed_polls s

-- What a result of the body leads to, where `more` are the rounds behind it.
abbrev follow : (ℕ → Session → Outcome Listening) → Listening → Outcome Listening
follow more (ended s') = ok (ended s')
follow more (goes_on missed s') = more missed s'

-- The loop over what the socket answers, each with what the other thread does to the session before.
unfoldable pub listener : ℕ → List (Polled × (Session → Session)) → ℕ → Session → Outcome Listening
unfolding listener_turn
listener fuel [] missed_polls s = ok (goes_on missed_polls s)
listener fuel ((polled, meanwhile) ∷ answers) missed_polls s =
    listener_turn fuel polled missed_polls (meanwhile s) >>= follow (listener fuel answers)

-- How many polls found nothing to read.
abbrev pub silences : List (Polled × (Session → Session)) → ℕ
silences [] = 0
silences ((silent, meanwhile) ∷ answers) = silences answers + 1
silences ((failed, meanwhile) ∷ answers) = silences answers
silences ((closed, meanwhile) ∷ answers) = silences answers
silences ((received errno recvline, meanwhile) ∷ answers) = silences answers

-- A message that the listener takes from every session, with no fault.
abbrev pub IsTaken : ℕ → Polled × (Session → Session) → Type 0
IsTaken fuel (received errno recvline, meanwhile) =
    (s : Session) → (s' : Session) × (listener_round fuel recvline s ≡ ok s')
IsTaken fuel (failed, meanwhile) = Unit
IsTaken fuel (silent, meanwhile) = Unit
IsTaken fuel (closed, meanwhile) = Unit

-- The loop has ended, and told so.
abbrev pub Ends : Outcome Listening → Type 0
Ends result = (s : Session) × (result ≡ ok (ended s)) × (s.is_running ≡ false)

listener_body-Ends :
    (fuel : ℕ) (more : ℕ → Session → Outcome Listening) (rest : ℕ) (polled : Polled)
    (meanwhile : Session → Session) (missed_polls : ℕ) (s : Session)
    → ((missed : ℕ) (s' : Session) → missed < 10 → 10 ≤ missed + rest → Ends (more missed s'))
    → IsTaken fuel (polled, meanwhile)
    → missed_polls < 10
    → 10 ≤ missed_polls + (silences ((polled, meanwhile) ∷ []) + rest)
    → Ends (listener_body fuel polled missed_polls s >>= follow more)
unfolding listener_body listener_end
listener_body-Ends fuel more rest failed meanwhile missed_polls s h taken few many =
    (listener_end s, refl, refl)
listener_body-Ends fuel more rest closed meanwhile missed_polls s h taken few many =
    (listener_end s, refl, refl)
listener_body-Ends fuel more rest silent meanwhile missed_polls s h taken few many =
    elim (Bool-cases (leb 10 (missed_polls + 1))) [
      | inl tenth ↦ rw tenth (listener_end s, refl, refl)
      | inr fewer ↦ rw fewer (h (missed_polls + 1) s (ground (arith, fewer)) (omega arith))
    ]
listener_body-Ends fuel more rest (received true recvline) meanwhile missed_polls s h taken few
      many =
    h missed_polls s few (omega arith)
listener_body-Ends fuel more rest (received false recvline) meanwhile missed_polls s h taken few
      many =
    let (s', run) = taken s in rw run (h missed_polls s' few (omega arith))

silences-cons :
    (polled : Polled) (meanwhile : Session → Session)
    (answers : List (Polled × (Session → Session)))
    → silences ((polled, meanwhile) ∷ answers)
      ≡ silences ((polled, meanwhile) ∷ []) + silences answers
silences-cons failed meanwhile answers = omega arith
silences-cons silent meanwhile answers = omega arith
silences-cons closed meanwhile answers = omega arith
silences-cons (received errno recvline) meanwhile answers = omega arith

-- The listener ends by the tenth poll that finds nothing to read, counted over the whole connection
-- and whatever comes in between, if it takes each message with no fault.
pub listener-Ends :
    (fuel : ℕ) (answers : List (Polled × (Session → Session))) (missed_polls : ℕ) (s : Session)
    → All (IsTaken fuel) answers
    → missed_polls < 10
    → 10 ≤ missed_polls + silences answers
    → Ends (listener fuel answers missed_polls s)
unfolding listener
listener-Ends fuel [] missed_polls s taken few many = absurd (omega arith)
listener-Ends fuel ((polled, meanwhile) ∷ answers) missed_polls s (taken, later) few many =
    elim (Bool-cases ((meanwhile s).current_state == state_connection_closed)) [
      | inl over ↦ rw over (listener_end (meanwhile s), refl, unfold listener_end in refl)
      | inr open_yet ↦ rw open_yet (
          listener_body-Ends fuel (listener fuel answers) (silences answers) polled meanwhile
            missed_polls (meanwhile s)
            (λ missed s' few' many'. listener-Ends fuel answers missed s' later few' many') taken
            few (omega (arith, silences-cons polled meanwhile answers)))
    ]
