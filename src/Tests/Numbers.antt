-- ===== src/Tests/Numbers.antt =====
-- fuzzer/utils.c and the texts of grammar/grammar-parser.c at concrete inputs.
use amqpgram.Base.{replicate, ◌≡◌, refl, arith, [], ◌∷◌, Bytes}
use amqpgram.Base.Outcome.{ok, ◌>>=◌}
use amqpgram.Utils.{char_in_int, int_in_char}
use amqpgram.Utils.Reading.{char_in_int-int_in_char}

abbrev before : Bytes
before = 7 ∷ []

abbrev behind : Bytes
behind = 9 ∷ 8 ∷ []

-- Bit 15 of the number is set.
char_in_int-int_in_char_example :
    (int_in_char (7 ∷ 0 ∷ 0 ∷ 0 ∷ 0 ∷ 9 ∷ 8 ∷ []) 131072000 1 7 >>= λ dst. char_in_int dst 1)
    ≡ ok 131072000
char_in_int-int_in_char_example =
    char_in_int-int_in_char before (replicate 4 0) behind 131072000 7 refl (omega arith)
      (omega arith)
