-- ===== src/Main/Connecting.antt =====
-- fuzzer/main.c: `connect_to_server`. What `socket`, `inet_pton` and `connect` answer are arguments.
use amqpgram.Base.{
  ℕ, ◌≡◌, ◌≢◌, refl, arith, Bool, true, false, ◌||◌, ◌&&◌, not, Option, none, some, List, [], ◌∷◌,
  ◌++◌, map, All, ◌==◌, if◌then◌else◌,
}
use amqpgram.Base.Outcome.{Outcome, ok, stuck, ◌>>=◌}

-- The values of `errno` that mean that `connect` goes on, of <errno.h>.
pub record ErrnoCodes : Type 0 where
  pub einprogress : ℕ
  pub ealready : ℕ

-- The descriptor, or `exit` with a status.
pub data Connected : Type 0 where
  connected exited : ℕ → Connected

abbrev pub is_empty : List ℕ → Bool
is_empty [] = true
is_empty (code ∷ others) = false

module _ (codes : ErrnoCodes) where
  unfoldable pub in_progress : ℕ → Bool
  in_progress errno = errno == codes.einprogress || errno == codes.ealready

  -- The loop, and the `errno` that it leaves. `answers` are those of the calls of `connect`, `none` for
  -- 0 and the `errno` of -1; success leaves `errno` as it was.
  unfoldable pub connect_loop : List (Option ℕ) → ℕ → Outcome ℕ
  unfolding in_progress
  connect_loop [] errno = stuck
  connect_loop (none ∷ answers) errno = ok errno
  connect_loop (some code ∷ answers) errno =
      let again = connect_loop answers code in if in_progress code then again else ok code

  -- `socket` is `none` for -1; `translated` is whether `inet_pton` took the address; `errno` is what
  -- earlier calls have left.
  unfoldable pub connect_to_server : Option ℕ → Bool → List (Option ℕ) → ℕ → Outcome Connected
  unfolding connect_loop
  connect_to_server none translated answers errno = ok (exited 2)
  connect_to_server (some sockfd) false answers errno = ok (exited 2)
  connect_to_server (some sockfd) true answers errno = connect_loop answers errno >>= λ left.
      ok (if left == 0 || in_progress left then connected sockfd else exited 3)

  -- The errors of a connection that goes on.
  abbrev pub ArePending : List ℕ → Type 0
  ArePending codes_before = All (λ code. in_progress code ≡ true) codes_before

  abbrev pub last_code : ℕ → List ℕ → ℕ
  last_code errno [] = errno
  last_code errno (code ∷ others) = last_code code others

  connect_loop_lem :
      (errno : ℕ) (pending : List ℕ) (answers : List (Option ℕ))
      → ArePending pending
      → connect_loop (map some pending ++ answers) errno
        ≡ connect_loop answers (last_code errno pending)
  unfolding connect_loop
  connect_loop_lem errno [] answers h = refl
  connect_loop_lem errno (code ∷ pending) answers (first, h) =
      rw first (connect_loop_lem code pending answers h)

  last_code-in_progress :
      (errno code : ℕ) (pending : List ℕ)
      → ArePending (code ∷ pending)
      → in_progress (last_code errno (code ∷ pending)) ≡ true
  last_code-in_progress errno code [] (first, h) = first
  last_code-in_progress errno code (second ∷ pending) (first, h) =
      last_code-in_progress code second pending h

  made :
      (sockfd errno : ℕ) (pending : List ℕ) (answers : List (Option ℕ))
      → ArePending pending
      → (connect_loop (none ∷ answers) (last_code errno pending) >>= λ left.
          ok (if left == 0 || in_progress left then connected sockfd else exited 3))
        ≡ ok (
            if is_empty pending && not (errno == 0 || in_progress errno)
            then exited 3
            else connected sockfd)
  unfolding connect_loop
  made sockfd errno [] answers h = ground arith
  made sockfd errno (first ∷ pending) answers h =
      rw (last_code-in_progress errno first pending h) (ground arith)

  -- After any number of calls of `connect` that find the connection in progress: an error other than
  -- that ends the program with the status 3; and where the connection is made, it is given up with the
  -- same status if it was made by the first call and an earlier call had left another `errno`.
  pub connect_to_server_lem :
      (sockfd errno code : ℕ) (pending : List ℕ) (answers : List (Option ℕ))
      → ArePending pending
      → in_progress code ≡ false
      → code ≢ 0
      → (connect_to_server (some sockfd) true (map some pending ++ some code ∷ answers) errno
          ≡ ok (exited 3))
        × (connect_to_server (some sockfd) true (map some pending ++ none ∷ answers) errno
            ≡ ok (
                if is_empty pending && not (errno == 0 || in_progress errno)
                then exited 3
                else connected sockfd))
  unfolding connect_to_server
  connect_to_server_lem sockfd errno code pending answers h other nonzero = (
    rw (connect_loop_lem errno pending (some code ∷ answers) h)
        (unfold connect_loop in rw other (ground arith)),
    rw (connect_loop_lem errno pending (none ∷ answers) h) (made sockfd errno pending answers h),
  )
