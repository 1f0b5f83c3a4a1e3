-- ===== src/Base/Outcome.antt =====
-- What a call of C code comes to: a value; `fault`, where the code reads or writes outside an
-- object, dereferences NULL, divides by zero, overflows a signed integer or uses an uninitialised
-- variable; `stuck`, where the fuel that stands for its recursion has run out.
use mathlib.Core.Logic.{◌≢◌}
use Prim.Native.Nat.{ℕ, ◌+◌, zero, suc}
use mathlib.Core.Path.{◌≡◌, refl}
use mathlib.Core.List.{[], ◌∷◌}
use amqpgram.Base.Tests.{ltb, if◌then◌else◌}
use amqpgram.Base.Lists.{Bytes}

pub data Outcome {ℓ} (A : Type ℓ) : Type ℓ where
  ok : A → Outcome A
  fault : Outcome A
  stuck : Outcome A

infixl 5 ◌>>=◌
abbrev pub ◌>>=◌ {ℓ κ} : {A : Type ℓ} {B : Type κ} → Outcome A → (A → Outcome B) → Outcome B
ok a >>= f = f a
fault >>= f = fault
stuck >>= f = stuck

pub bind-eq-ok {ℓ κ} :
    {A : Type ℓ} {B : Type κ} {b : B} (m : Outcome A) (k : A → Outcome B) (run : m >>= k ≡ ok b)
    → (a : A) × (m ≡ ok a) × (k a ≡ ok b)
bind-eq-ok fault k run = cc
bind-eq-ok stuck k run = cc
bind-eq-ok (ok a) k run = (a, refl, run)

-- The sum of two `int`s that are not negative: signed overflow is undefined.
abbrev pub int_sum : ℕ → ℕ → Outcome ℕ
int_sum a b = if ltb (a + b) 2147483648 then ok (a + b) else fault

-- `src[i]`
abbrev pub read : Bytes → ℕ → Outcome ℕ
read [] i = fault
read (x ∷ xs) zero = ok x
read (x ∷ xs) (suc i) = read xs i

-- `dst[i] = v`
abbrev pub write : Bytes → ℕ → ℕ → Outcome Bytes
write [] i v = fault
write (x ∷ xs) zero v = ok (v ∷ xs)
write (x ∷ xs) (suc i) v = write xs i v >>= λ ys. ok (x ∷ ys)

-- The `n` bytes from `src + i` on, which `memcpy` reads.
abbrev pub load : Bytes → ℕ → ℕ → Outcome Bytes
load src zero zero = ok []
load [] zero (suc n) = fault
load (x ∷ xs) zero (suc n) = load xs zero n >>= λ ys. ok (x ∷ ys)
load [] (suc i) n = fault
load (x ∷ xs) (suc i) n = load xs i n

-- `memcpy(dst + i, bs, length of bs)`
abbrev pub store : Bytes → ℕ → Bytes → Outcome Bytes
store dst zero [] = ok dst
store [] zero (b ∷ bs) = fault
store (x ∷ xs) zero (b ∷ bs) = store xs zero bs >>= λ ys. ok (b ∷ ys)
store [] (suc i) bs = fault
store (x ∷ xs) (suc i) bs = store xs i bs >>= λ ys. ok (x ∷ ys)

pub bind-ne_stuck {ℓ κ} :
    {A : Type ℓ} {B : Type κ} (m : Outcome A) (f : A → Outcome B)
    → m ≢ stuck
    → ((a : A) → f a ≢ stuck)
    → m >>= f ≢ stuck
bind-ne_stuck (ok a) f h k = k a
bind-ne_stuck fault f h k = λ e. cc
bind-ne_stuck stuck f h k = absurd (h refl)
