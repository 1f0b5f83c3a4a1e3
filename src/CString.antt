-- ===== src/CString.antt =====
-- The calls of the C library on strings that grammar/grammar-parser.c and
-- grammar/packet-generator.c make, and `trim_string`. A string is the list of its bytes, with no
-- terminator written.
pub mod Trimming
pub mod Tokens
use amqpgram.Base.{
  ℕ, zero, suc, ◌+◌, ◌-◌, ◌*◌, ◌%◌, Bool, true, false, ◌&&◌, ◌||◌, not, List, [], ◌∷◌, ◌++◌, Option,
  none, some, ltb, leb, ◌==◌, if◌then◌else◌, Bytes, length, take, drop,
}
use amqpgram.Base.Outcome.{Outcome, ok, fault}

-- " \t\n\r"
abbrev pub is_blank : ℕ → Bool
is_blank c = c == b' ' || c == b'\t' || c == b'\n' || c == b'\r'

-- `strspn(str, " \t\n\r")`
unfoldable pub strspn : Bytes → ℕ
strspn [] = 0
strspn (c ∷ str) = if is_blank c then suc (strspn str) else 0

-- The byte at an index, and the terminator behind the last.
abbrev pub byte_at : Bytes → ℕ → ℕ
byte_at [] i = 0
byte_at (c ∷ str) zero = c
byte_at (c ∷ str) (suc i) = byte_at str i

-- The loop of `trim_string`: `stop` is one more than `end`, and `end > start` keeps the loop going.
unfoldable pub trim_end : Bytes → ℕ → ℕ → ℕ
trim_end str start zero = zero
trim_end str start (suc end) =
    let next = trim_end str start end in
    if ltb start end && is_blank (byte_at str end) then next else suc end

unfoldable pub trim_string : Bytes → Bytes
unfolding strspn trim_end
trim_string str =
    let start = strspn str in take (trim_end str start (length str) - start) (drop start str)

-- `strtok`: the delimiters at the front are skipped, and the token ends before the next. The rest
-- is what the next call with NULL reads; no token is NULL.
unfoldable pub token_end : ℕ → Bytes → Bytes × Bytes
token_end d [] = ([], [])
token_end d (c ∷ s) = let more = token_end d s in if c == d then ([], s) else (c ∷ more.0, more.1)

unfoldable pub strtok : ℕ → Bytes → Option (Bytes × Bytes)
strtok d [] = none
strtok d (c ∷ s) =
    let next = strtok d s in
    let (token, rest) = token_end d s in if c == d then next else some (c ∷ token, rest)

-- A digit's value in a base of at most 16, and 16 for what is no digit.
abbrev pub digit_value : ℕ → ℕ
digit_value c =
    if leb b'0' c && leb c b'9'
    then c - b'0'
    else if leb b'a' c && leb c b'f'
    then c - b'a' + 10
    else if leb b'A' c && leb c b'F'
    then c - b'A' + 10
    else 16

unfoldable pub digits_from : ℕ → ℕ → Bytes → ℕ
digits_from base acc [] = acc
digits_from base acc (c ∷ s) =
    let more = digits_from base (acc * base + digit_value c) s in
    if ltb (digit_value c) base then more else acc

-- A sign, and a prefix `0x` in base 16 that a digit follows. Base 0 reads the base off the prefix.
unfoldable pub strtol_magnitude : Bytes → ℕ → ℕ
unfolding digits_from
strtol_magnitude s base =
    let hexadecimal =
      byte_at s 0 == b'0'
      && (byte_at s 1 == b'x' || byte_at s 1 == b'X')
      && ltb (digit_value (byte_at s 2)) 16 in
    if base == 0
    then (if hexadecimal
        then digits_from 16 0 (drop 2 s)
        else if byte_at s 0 == b'0'
        then digits_from 8 0 s
        else digits_from 10 0 s)
    else if base == 16 && hexadecimal
    then digits_from 16 0 (drop 2 s)
    else digits_from base 0 s

-- `strtol(s, NULL, base)`, as the pattern of a `long`; out of range it is the nearest `long`.
unfoldable pub strtol : Bytes → ℕ → ℕ
unfolding strtol_magnitude strspn
strtol s base =
    let text = drop (strspn s) s in
    let largest : ℕ = 9223372036854775807 in
    let magnitude = strtol_magnitude text base in
    let after_sign = strtol_magnitude (drop 1 text) base in
    if byte_at text 0 == b'-'
    then (if ltb largest after_sign
        then suc largest
        else (18446744073709551616 - after_sign) % 18446744073709551616)
    else if byte_at text 0 == b'+'
    then (if ltb largest after_sign then largest else after_sign)
    else if ltb largest magnitude
    then largest
    else magnitude
