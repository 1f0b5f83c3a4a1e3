-- ===== src/Utils/Writing.antt =====
-- What the three writers leave in the buffer: the number, most significant byte first, in place
-- of the bytes that lay there, and nothing else changed.
use amqpgram.Base.{
  ℕ, zero, suc, ◌+◌, ◌-◌, ◌/◌, ◌%◌, ◌≡◌, refl, [], ◌∷◌, ◌++◌, length, Bytes, arith, ltb, Bool-cases,
  inl, inr, ◌<◌, le→ltb, lt→ltb, ltb→lt, ◌≤◌,
}
use amqpgram.Base.Outcome.{Outcome, ok, fault, stuck, ◌>>=◌, read, write}
use amqpgram.Base.Memory.{read-shift, write-shift, store-shift, store-append, behind, bind-behind}
use amqpgram.Utils.{le_bytes, swap_bytes, swap_loop, long_in_char, int_in_char, short_in_char}

bind-lift {ℓ} :
    {A : Type ℓ} (pre : Bytes) (m : Outcome A) (f g : A → Outcome Bytes)
    → ((a : A) → f a ≡ behind pre (g a))
    → (m >>= f) ≡ behind pre (m >>= g)
bind-lift pre (ok a) f g h = h a
bind-lift pre fault f g h = refl
bind-lift pre stuck f g h = refl

module _ (pre : Bytes) where
  swap_bytes-shift :
      (xs : Bytes) (k l i j : ℕ)
      → k ≡ length pre + i
      → l ≡ length pre + j
      → swap_bytes (pre ++ xs) k l ≡ behind pre (swap_bytes xs i j)
  unfolding swap_bytes
  swap_bytes-shift xs k l i j e e' =
      rw (read-shift pre xs k i e, read-shift pre xs l j e')
        (bind-lift pre (read xs i) _ _ λ temp. bind-lift pre (read xs j) _ _ λ last.
          rw (write-shift pre xs k i last e)
            (bind-behind pre (write xs i last) _ _ λ ys. write-shift pre ys l j temp e'))

  swap_loop-shift :
      (fuel : ℕ) (xs : Bytes) (k l i j : ℕ)
      → k ≡ length pre + i
      → l ≡ length pre + j
      → swap_loop fuel (pre ++ xs) k l ≡ behind pre (swap_loop fuel xs i j)
  unfolding swap_loop
  swap_loop-shift zero xs k l i j e e' = refl
  swap_loop-shift (suc fuel) xs k l i j e e' = elim (Bool-cases (ltb i j)) [
    | inl more ↦
        rw (more, lt→ltb k l (omega (arith, ltb→lt i j more)), swap_bytes-shift xs k l i j e e')
          (bind-behind pre (swap_bytes xs i j) _ _ λ ys.
            swap_loop-shift fuel ys (k + 1) (l - 1) (i + 1) (j - 1) (omega arith)
              (omega (arith, ltb→lt i j more)))
    | inr done ↦ rw (done, le→ltb k l (ground arith))
  ]

-- The bytes of a number of `n` bytes, most significant first.
abbrev pub be_bytes : ℕ → ℕ → Bytes
be_bytes zero v = []
be_bytes (suc n) v = be_bytes n (v / 256) ++ v % 256 ∷ []

-- Each writer, for any bytes `old` in the place of the number and any bytes around it, where the
-- stated length `n` of the buffer has room.
module _ (pre old post : Bytes) (v n : ℕ) where
  pub short_in_char_lem :
      length old ≡ 2
      → length pre + 2 ≤ n
      → short_in_char (pre ++ (old ++ post)) v (length pre) n ≡ ok (pre ++ (be_bytes 2 v ++ post))
  unfolding short_in_char
  short_in_char_lem o h =
      rw
        (
          le→ltb n (length pre + 2) h,
          store-shift pre (old ++ post) (le_bytes 2 v) (length pre) 0 (omega arith),
          store-append old (le_bytes 2 v) post o,
          swap_loop-shift pre 2 (le_bytes 2 v ++ post) (length pre) (length pre + 2 - 1) 0 1
              (omega arith) (omega arith),
        )
        (unfold swap_loop in refl)

  -- `int_in_char` puts the four bytes of `v`, most significant first, in the place of the four
  -- bytes that lie at the index, and leaves the bytes before and behind as they are, if the index
  -- and four are at most `n`.
  pub int_in_char_lem :
      length old ≡ 4
      → length pre + 4 ≤ n
      → int_in_char (pre ++ (old ++ post)) v (length pre) n ≡ ok (pre ++ (be_bytes 4 v ++ post))
  unfolding int_in_char
  int_in_char_lem o h =
      rw
        (
          le→ltb n (length pre + 4) h,
          store-shift pre (old ++ post) (le_bytes 4 v) (length pre) 0 (omega arith),
          store-append old (le_bytes 4 v) post o,
          swap_loop-shift pre 3 (le_bytes 4 v ++ post) (length pre) (length pre + 4 - 1) 0 3
              (omega arith) (omega arith),
        )
        (unfold swap_loop in refl)

  pub long_in_char_lem :
      length old ≡ 8
      → length pre + 8 ≤ n
      → long_in_char (pre ++ (old ++ post)) v (length pre) n ≡ ok (pre ++ (be_bytes 8 v ++ post))
  unfolding long_in_char
  long_in_char_lem o h =
      rw
        (
          le→ltb n (length pre + 8) h,
          store-shift pre (old ++ post) (le_bytes 8 v) (length pre) 0 (omega arith),
          store-append old (le_bytes 8 v) post o,
          swap_loop-shift pre 5 (le_bytes 8 v ++ post) (length pre) (length pre + 8 - 1) 0 7
              (omega arith) (omega arith),
        )
        (unfold swap_loop in refl)

-- Where the stated length has no room, the buffer stays as it is.
pub writers_no_room :
    (dst : Bytes) (v index n : ℕ)
    → (n < index + 2 → short_in_char dst v index n ≡ ok dst)
      × (n < index + 4 → int_in_char dst v index n ≡ ok dst)
      × (n < index + 8 → long_in_char dst v index n ≡ ok dst)
unfolding short_in_char int_in_char long_in_char
writers_no_room dst v index n = (
  λ h. rw (lt→ltb n (index + 2) h),
  λ h. rw (lt→ltb n (index + 4) h),
  λ h. rw (lt→ltb n (index + 8) h),
)
