-- ===== src/Threads/Joining.antt =====
-- How often the threads are waited for.
use amqpgram.Base.{
  ℕ, zero, suc, ◌+◌, ◌%◌, ◌≡◌, ◌⊎◌, inl, inr, refl, arith, Bool, true, false, ◌||◌, ◌&&◌, ltb,
}
use amqpgram.Base.Outcome.{Outcome, ok, fault, ◌>>=◌, bind-eq-ok}
use amqpgram.Threads.{
  Sizes, Threads, Thread, listener, channel, join_channels, close_threads, check_and_close, fuzz,
}
use amqpgram.Threads.Creation.{first_thread}

-- `pthread_join` and `is_running` in a world: a thread that was joined may not be joined again, which
-- POSIX leaves undefined; and when the listener was joined it has ended, and the last that it did was to
-- clear `is_running`, which `fuzz` and the listener's start set, but no other thread.
pub record Joins (World : Type 0) : Type 1 where
  pub join : Thread → World → Outcome World
  pub is_running : World → Bool
  pub WasJoined : Thread → World → Type 0
  pub join-WasJoined : {t : Thread} {w w' : World} → join t w ≡ ok w' → WasJoined t w'
  pub keeps_joined :
      {t t' : Thread} {w w' : World} → WasJoined t w → join t' w ≡ ok w' → WasJoined t w'
  pub join_twice : {t : Thread} {w : World} → WasJoined t w → join t w ≡ fault
  pub join-listener : {w w' : World} → join listener w ≡ ok w' → is_running w' ≡ false
  pub keeps_stopped :
      {t : Thread} {w w' : World} → is_running w ≡ false → join t w ≡ ok w' → is_running w' ≡ false

or_true : (b : Bool) → (b || true) ≡ true
or_true true = refl
or_true false = refl

module _ {World : Type 0} (j : Joins World) where
  open j use {
    WasJoined, join, is_running, join-WasJoined, keeps_joined, join_twice, join-listener,
    keeps_stopped,
  }

  -- What the loop over the channels keeps.
  join_channels-keeps :
      (max_created_threads left i : ℕ) (t : Thread) (w w' : World)
      → WasJoined t w
      → is_running w ≡ false
      → join_channels join max_created_threads left i w ≡ ok w'
      → WasJoined t w' × (is_running w' ≡ false)
  unfolding join_channels
  join_channels-keeps max_created_threads zero i t w w' joined stopped run = ground arith
  join_channels-keeps max_created_threads (suc left) i t w w' joined stopped run =
      let (w₁, first, rest) = bind-eq-ok (join (channel i) w) _ run in
      join_channels-keeps max_created_threads left ((i + 1) % max_created_threads) t w₁ w'
        (keeps_joined joined first) (keeps_stopped stopped first) rest

  closed :
      (max_created_threads : ℕ) (w w' : World)
      → close_threads join max_created_threads w ≡ ok w'
      → WasJoined listener w' × (is_running w' ≡ false)
  unfolding close_threads
  closed max_created_threads w w' run =
      let (w₁, first, rest) = bind-eq-ok (join listener w) _ run in
      join_channels-keeps max_created_threads max_created_threads 0 listener w₁ w'
        (join-WasJoined first) (join-listener first) rest

  closes_twice :
      (max_created_threads : ℕ) (w w' : World)
      → close_threads join max_created_threads w ≡ ok w'
      → close_threads join max_created_threads w' ≡ fault
  unfolding close_threads
  closes_twice max_created_threads w w' run =
      let (joined, stopped) = closed max_created_threads w w' run in rw (join_twice joined, ◌>>=◌)

  -- With `-t` or `-n`, where the loop of `check_strat` returns and the threads are then joined, `fuzz`
  -- joins the listener, which has been joined, a second time.
  pub fuzz_joins_twice :
      (sizes : Sizes) (moves : ℕ → Bool) (by_time by_packets : Outcome ℕ) (strat current_val : ℕ)
      (t : Threads) (w w' : World)
      → (strat ≡ b't') × (by_time ≡ ok current_val) ⊎ (strat ≡ b'n') × (by_packets ≡ ok current_val)
      → close_threads join 1 w ≡ ok w'
      → fuzz join is_running sizes moves by_time by_packets strat t w ≡ fault
  unfolding fuzz check_and_close
  fuzz_joins_twice sizes moves by_time by_packets strat current_val t w w' (inl (e, returns)) run =
      let (joined, stopped) = closed 1 w w' run in
      let again = closes_twice 1 w w' run in
      rw (
        first_thread sizes moves (record t { max_created_threads = 0 }) refl,
        e,
        returns,
        run,
        stopped,
        or_true (ltb 0 current_val && ltb current_val 2147483648),
        again,
        ◌>>=◌,
      )
  fuzz_joins_twice sizes moves by_time by_packets strat current_val t w w' (inr (e, returns)) run =
      let (joined, stopped) = closed 1 w w' run in
      let again = closes_twice 1 w w' run in
      rw (
        first_thread sizes moves (record t { max_created_threads = 0 }) refl,
        e,
        returns,
        run,
        stopped,
        or_true (ltb 0 current_val && ltb current_val 2147483648),
        again,
        ◌>>=◌,
      )
