-- ===== src/CString/Tokens.antt =====
-- What `strtok` splits off.
use amqpgram.Base.{
  ℕ, ◌≡◌, ◌<◌, ◌≤◌, refl, arith, false, [], ◌∷◌, ◌++◌, some, Bytes, length, All, ◌==◌,
}
use amqpgram.CString.{token_end, strtok}

-- No byte of the text is the delimiter.
abbrev pub Lacks : ℕ → Bytes → Type 0
Lacks d s = All (λ c. (c == d) ≡ false) s

token_end_lem :
    (d : ℕ) (token rest : Bytes) → Lacks d token → token_end d (token ++ d ∷ rest) ≡ (token, rest)
unfolding token_end
token_end_lem d [] rest h = ground arith
token_end_lem d (c ∷ token) rest (hc, h) = rw (hc, token_end_lem d token rest h)

token_end_all : (d : ℕ) (token : Bytes) → Lacks d token → token_end d token ≡ (token, [])
unfolding token_end
token_end_all d [] h = refl
token_end_all d (c ∷ token) (hc, h) = rw (hc, token_end_all d token h)

-- A text that lacks the delimiter is split off before it.
pub strtok_lem :
    (d c : ℕ) (token rest : Bytes)
    → Lacks d (c ∷ token)
    → strtok d (c ∷ token ++ d ∷ rest) ≡ some (c ∷ token, rest)
unfolding strtok
strtok_lem d c token rest (hc, h) = rw (hc, token_end_lem d token rest h)

pub strtok_all :
    (d c : ℕ) (token : Bytes) → Lacks d (c ∷ token) → strtok d (c ∷ token) ≡ some (c ∷ token, [])
unfolding strtok
strtok_all d c token (hc, h) = rw (hc, token_end_all d token h)

length-token_end : (d : ℕ) (s : Bytes) → length (token_end d s).1 ≤ length s
unfolding token_end
length-token_end d [] = omega arith
length-token_end d (c ∷ s) = ground (arith, length-token_end d s)

-- What the next call reads is shorter.
pub length-strtok :
    (d : ℕ) (s : Bytes) {token rest : Bytes}
    → strtok d s ≡ some (token, rest)
    → length rest < length s
unfolding strtok
length-strtok d [] e = cc
length-strtok d (c ∷ s) {token} {rest} e =
    ground (arith, length-token_end d s, length-strtok d s {token = token} {rest = rest})
