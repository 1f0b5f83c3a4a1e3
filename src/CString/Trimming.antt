-- ===== src/CString/Trimming.antt =====
-- `trim_string` removes the blanks at both ends and nothing else.
use amqpgram.Base.{
  ℕ, zero, suc, ◌+◌, ◌-◌, ◌≡◌, ◌<◌, refl, ap, ◌∙◌, arith, true, false, [], ◌∷◌, ◌++◌, Bytes, length,
  length-append, All, take, drop, lt→ltb, ltb, Bool-cases, inl, inr,
}
use amqpgram.CString.{is_blank, strspn, byte_at, trim_end, trim_string}

abbrev pub IsBlank : ℕ → Type 0
IsBlank c = is_blank c ≡ true

abbrev pub IsNotBlank : ℕ → Type 0
IsNotBlank c = is_blank c ≡ false

strspn-blank :
    (pre : Bytes) (c : ℕ) (rest : Bytes)
    → All IsBlank pre
    → IsNotBlank c
    → strspn (pre ++ c ∷ rest) ≡ length pre
unfolding strspn
strspn-blank [] c rest p h = rw h
strspn-blank (x ∷ pre) c rest (px, p) h = rw (px, strspn-blank pre c rest p h)

strspn-All : (pre : Bytes) → All IsBlank pre → strspn pre ≡ length pre
unfolding strspn
strspn-All [] p = refl
strspn-All (x ∷ pre) (px, p) = rw (px, strspn-All pre p)

byte_at-append_right :
    (xs ys : Bytes) (k i : ℕ) → k ≡ length xs + i → byte_at (xs ++ ys) k ≡ byte_at ys i
byte_at-append_right [] ys k i e = let e' : k ≡ i = omega arith in rw e'
byte_at-append_right (x ∷ xs) ys zero i e = absurd (omega arith)
byte_at-append_right (x ∷ xs) ys (suc k) i e = byte_at-append_right xs ys k i (omega arith)

byte_at-append_left : (xs ys : Bytes) (i : ℕ) → i < length xs → byte_at (xs ++ ys) i ≡ byte_at xs i
byte_at-append_left [] ys i h = absurd (omega arith)
byte_at-append_left (x ∷ xs) ys zero h = refl
byte_at-append_left (x ∷ xs) ys (suc i) h = byte_at-append_left xs ys i (omega arith)

byte_at-IsBlank :
    (post : Bytes) (i : ℕ) → All IsBlank post → i < length post → IsBlank (byte_at post i)
byte_at-IsBlank [] i p h = absurd (omega arith)
byte_at-IsBlank (x ∷ post) zero (px, p) h = px
byte_at-IsBlank (x ∷ post) (suc i) (px, p) h = byte_at-IsBlank post i p (omega arith)

trim_end-blank :
    (str : Bytes) (start m k n : ℕ)
    → ((i : ℕ) → i < k → IsBlank (byte_at str (m + i)))
    → start < m
    → n ≡ m + k
    → trim_end str start n ≡ trim_end str start m
unfolding trim_end
trim_end-blank str start m zero n b h e = let e' : n ≡ m = omega arith in rw e'
trim_end-blank str start m (suc k) zero b h e = absurd (omega arith)
trim_end-blank str start m (suc k) (suc n) b h e =
    let e' : n ≡ m + k = omega arith in
    let blank : IsBlank (byte_at str n) = rw e' (b k (omega arith)) in
    rw (lt→ltb start n (omega arith), blank)
      (trim_end-blank str start m k n (λ i hi. b i (omega arith)) h e')

trim_end_stop :
    (str : Bytes) (start end : ℕ)
    → IsNotBlank (byte_at str end)
    → trim_end str start (suc end) ≡ suc end
unfolding trim_end
trim_end_stop str start end h = elim (Bool-cases (ltb start end)) [
  | inl more ↦ rw (more, h)
  | inr last ↦ rw last
]

drop-append : (xs ys : Bytes) → drop (length xs) (xs ++ ys) ≡ ys
drop-append [] ys = refl
drop-append (x ∷ xs) ys = drop-append xs ys

take-append : (xs ys : Bytes) → take (length xs) (xs ++ ys) ≡ xs
take-append [] ys = refl
take-append (x ∷ xs) ys = ap (◌∷◌ x) (take-append xs ys)

take-nil : (n : ℕ) → take {A = ℕ} n [] ≡ []
take-nil zero = refl
take-nil (suc n) = refl

drop_all : (xs : Bytes) → drop (length xs) xs ≡ []
drop_all [] = refl
drop_all (x ∷ xs) = drop_all xs

-- A text of blanks is trimmed to the empty string.
trim_string_blank : (str : Bytes) → All IsBlank str → trim_string str ≡ []
unfolding trim_string
trim_string_blank str p = rw (strspn-All str p, drop_all str) (take-nil _)

-- A text with blanks before it and behind it is trimmed to the text, if that does not begin or end
-- with a blank; blanks inside it stay.
pub trim_string_lem :
    (pre post : Bytes) (c : ℕ) (core : Bytes)
    → All IsBlank pre
    → All IsBlank post
    → IsNotBlank c
    → IsNotBlank (byte_at (c ∷ core) (length core))
    → trim_string (pre ++ (c ∷ core ++ post)) ≡ c ∷ core
unfolding trim_string
trim_string_lem pre post c core p q h l =
    let str = pre ++ (c ∷ core ++ post) in
    let start = length pre in
    let last = start + length core in
    let whole : length str ≡ suc last + length post =
      omega (arith, length-append pre (c ∷ core ++ post), length-append core post) in
    let stops : trim_end str start (length str) ≡ suc last =
      trim_end-blank str start (suc last) (length post) (length str)
        (λ i hi.
          rw
            (
              byte_at-append_right pre (c ∷ core ++ post) (suc last + i) (suc (length core) + i)
                  (omega arith),
              byte_at-append_right (c ∷ core) post (suc (length core) + i) i refl,
            )
            (byte_at-IsBlank post i q hi))
        (omega arith) whole
      ∙ trim_end_stop str start last (
          rw
            (
              byte_at-append_right pre (c ∷ core ++ post) last (length core) refl,
              byte_at-append_left (c ∷ core) post (length core) (omega arith),
            )
            l) in
    let count : suc last - start ≡ suc (length core) = omega arith in
    rw (strspn-blank pre c (core ++ post) p h, stops, count, drop-append pre (c ∷ core ++ post))
      (take-append (c ∷ core) post)
