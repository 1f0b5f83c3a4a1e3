-- ===== src/Utils/Reading.antt =====
-- What the three readers return, against the number that the bytes stand for.
use amqpgram.Base.{
  ℕ, ◌+◌, ◌-◌, ◌*◌, ◌/◌, ◌%◌, ◌^◌, ◌≡◌, ap, [], ◌∷◌, ◌++◌, length, Bytes, IsByte, arith, ltb, ◌<◌,
  ◌≤◌, if◌then◌else◌,
}
use amqpgram.Base.Outcome.{ok, ◌>>=◌}
use amqpgram.Base.Memory.{read-shift}
use amqpgram.Utils.{
  char_in_short, char_in_int, char_in_long, short_in_char, int_in_char, long_in_char,
}
use amqpgram.Utils.Writing.{short_in_char_lem, int_in_char_lem, long_in_char_lem}

-- The number that bytes stand for, most significant first.
abbrev pub be_value : ℕ → Bytes → ℕ
be_value acc [] = acc
be_value acc (b ∷ bs) = be_value (acc * 256 + b) bs

module _ (pre : Bytes) where
  pub char_in_short-shift :
      (xs : Bytes) (k i : ℕ) → k ≡ length pre + i → char_in_short (pre ++ xs) k ≡ char_in_short xs i
  unfolding char_in_short
  char_in_short-shift xs k i e =
      rw (read-shift pre xs k i e, read-shift pre xs (k + 1) (i + 1) (omega arith))

  pub char_in_int-shift :
      (xs : Bytes) (k i : ℕ) → k ≡ length pre + i → char_in_int (pre ++ xs) k ≡ char_in_int xs i
  unfolding char_in_int
  char_in_int-shift xs k i e =
      unfold char_in_short in
      rw (
        read-shift pre xs k i e,
        read-shift pre xs (k + 1) (i + 1) (omega arith),
        read-shift pre xs (k + 2) (i + 2) (omega arith),
        read-shift pre xs (k + 2 + 1) (i + 2 + 1) (omega arith),
      )

-- `char_in_int` returns the number that four bytes stand for, most significant first, if the
-- third byte is below 128; otherwise it returns that number less 65536, modulo 2 ^ 32.
pub char_in_int-be :
    (pre post : Bytes) (a b c d : ℕ)
    → IsByte a
    → IsByte b
    → IsByte c
    → IsByte d
    → char_in_int (pre ++ (a ∷ b ∷ c ∷ d ∷ post)) (length pre)
      ≡ ok (
          let v = be_value 0 (a ∷ b ∷ c ∷ d ∷ []) in
          if ltb c 128 then v else (v + 2 ^ 32 - 65536) % 2 ^ 32)
char_in_int-be pre post a b c d ha hb hc hd =
    rw (char_in_int-shift pre (a ∷ b ∷ c ∷ d ∷ post) (length pre) 0 (omega arith))
      (unfold char_in_int char_in_short in ground arith)

pub char_in_short-be :
    (pre post : Bytes) (a b : ℕ)
    → IsByte a
    → IsByte b
    → char_in_short (pre ++ (a ∷ b ∷ post)) (length pre) ≡ ok (be_value 0 (a ∷ b ∷ []))
char_in_short-be pre post a b ha hb =
    rw (char_in_short-shift pre (a ∷ b ∷ post) (length pre) 0 (omega arith))
      (unfold char_in_short in ground arith)

-- The third, fifth and seventh byte are below 128: no half is read as a negative number.
char_in_long-be :
    (pre post : Bytes) (a b c d e f g h : ℕ)
    → IsByte a
    → IsByte b
    → c < 128
    → IsByte d
    → e < 128
    → IsByte f
    → g < 128
    → IsByte h
    → char_in_long (pre ++ (a ∷ b ∷ c ∷ d ∷ e ∷ f ∷ g ∷ h ∷ post)) (length pre)
      ≡ ok (be_value 0 (a ∷ b ∷ c ∷ d ∷ e ∷ f ∷ g ∷ h ∷ []))
unfolding char_in_long
char_in_long-be pre post a b c d e f g h ha hb hc hd he hf hg hh =
    let all = a ∷ b ∷ c ∷ d ∷ e ∷ f ∷ g ∷ h ∷ post in
    rw
      (
        char_in_int-shift pre all (length pre) 0 (omega arith),
        char_in_int-shift pre all (length pre + 4) 4 (omega arith),
        char_in_int-be [] (e ∷ f ∷ g ∷ h ∷ post) a b c d ha hb (omega arith) hd,
        char_in_int-be (a ∷ b ∷ c ∷ d ∷ []) post e f g h (omega arith) hf (omega arith) hh,
      )
      (ground arith)

module _ (pre old post : Bytes) (v n : ℕ) where
  -- A `short` that `short_in_char` writes into a buffer with room for it is read back as it was.
  pub char_in_short-short_in_char :
      length old ≡ 2
      → length pre + 2 ≤ n
      → v < 2 ^ 16
      → (short_in_char (pre ++ (old ++ post)) v (length pre) n >>= λ dst.
          char_in_short dst (length pre))
        ≡ ok v
  char_in_short-short_in_char o h hv =
      rw
        (
          short_in_char_lem pre old post v n o h,
          char_in_short-be pre post (v / 256 % 256) (v % 256) (omega arith) (omega arith),
        )
        (ground arith)

  -- An `int` written by `int_in_char`, where there is room, is read back as it was, if bit 15 of it is
  -- clear, and as itself less 65536, modulo 2 ^ 32, if that bit is set.
  pub char_in_int-int_in_char :
      length old ≡ 4
      → length pre + 4 ≤ n
      → v < 2 ^ 32
      → (int_in_char (pre ++ (old ++ post)) v (length pre) n >>= λ dst.
          char_in_int dst (length pre))
        ≡ ok (if ltb (v / 2 ^ 8 % 2 ^ 8) 128 then v else (v + 2 ^ 32 - 2 ^ 16) % 2 ^ 32)
  char_in_int-int_in_char o h hv =
      rw
        (
          int_in_char_lem pre old post v n o h,
          char_in_int-be pre post (v / 256 / 256 / 256 % 256) (v / 256 / 256 % 256) (v / 256 % 256)
              (v % 256) (omega arith) (omega arith) (omega arith) (omega arith),
        )
        (ground arith)

  -- A `long` written by `long_in_char`, where there is room, is read back as it was, if its bits 15,
  -- 31 and 47 are clear.
  pub char_in_long-long_in_char :
      length old ≡ 8
      → length pre + 8 ≤ n
      → v < 2 ^ 64
      → v / 2 ^ 8 % 2 ^ 8 < 128
      → v / 2 ^ 24 % 2 ^ 8 < 128
      → v / 2 ^ 40 % 2 ^ 8 < 128
      → (long_in_char (pre ++ (old ++ post)) v (length pre) n >>= λ dst.
          char_in_long dst (length pre))
        ≡ ok v
  char_in_long-long_in_char o h hv h₁ h₂ h₃ =
      rw
        (
          long_in_char_lem pre old post v n o h,
          char_in_long-be pre post (v / 256 / 256 / 256 / 256 / 256 / 256 / 256 % 256)
              (v / 256 / 256 / 256 / 256 / 256 / 256 % 256) (v / 256 / 256 / 256 / 256 / 256 % 256)
              (v / 256 / 256 / 256 / 256 % 256) (v / 256 / 256 / 256 % 256) (v / 256 / 256 % 256)
              (v / 256 % 256) (v % 256) (omega arith) (omega arith) (omega arith) (omega arith)
              (omega arith) (omega arith) (omega arith) (omega arith),
        )
        (ap ok (omega arith))
