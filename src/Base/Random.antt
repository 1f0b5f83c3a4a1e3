-- ===== src/Base/Random.antt =====
-- Code that calls `rand()`. After `srand` the calls return a fixed sequence of numbers, so a
-- program is a function of how many calls were made before it.
use mathlib.Core.Path.{◌≡◌, refl, ap}
use Prim.Native.Nat.{ℕ, ◌+◌}
use amqpgram.Base.Outcome.{Outcome, ok, fault, stuck}

abbrev pub Rand {ℓ} : Type ℓ → Type ℓ
Rand A = ℕ → Outcome (A × ℕ)

infixl 5 ◌>>=◌
abbrev pub ◌>>=◌ {ℓ κ} : {A : Type ℓ} {B : Type κ} → Rand A → (A → Rand B) → Rand B
◌>>=◌ m f k = elim (m k) [ ok (a, k') ↦ f a k' | fault ↦ fault | stuck ↦ stuck ]

abbrev pub pure {ℓ} : {A : Type ℓ} → A → Rand A
pure a k = ok (a, k)

abbrev pub lift {ℓ} : {A : Type ℓ} → Outcome A → Rand A
lift m k = elim m [ ok a ↦ ok (a, k) | fault ↦ fault | stuck ↦ stuck ]

-- `draws k` is what the call of `rand()` behind `k` earlier ones returns.
abbrev pub rand : (ℕ → ℕ) → Rand ℕ
rand draws k = ok (draws k, k + 1)

-- Inversion of a successful bind.
bind-eq-ok_cases {ℓ κ} :
    {A : Type ℓ} {B : Type κ} (o : Outcome (A × ℕ)) (f : A → Rand B) {p : B × ℕ}
    → ◌≡◌ {A = Outcome (B × ℕ)}
        (elim o [ ok (a, k') ↦ f a k' | fault ↦ fault | stuck ↦ stuck ])
        (ok p)
    → (a : A) × (k' : ℕ) × (o ≡ ok (a, k')) × (f a k' ≡ ok p)
bind-eq-ok_cases (ok (a, k')) f h = (a, k', refl, h)
bind-eq-ok_cases fault f h = cc
bind-eq-ok_cases stuck f h = cc

pub bind-eq-ok {ℓ κ} :
    {A : Type ℓ} {B : Type κ} (m : Rand A) (f : A → Rand B) (k : ℕ) {p : B × ℕ}
    → (m >>= f) k ≡ ok p
    → (a : A) × (k' : ℕ) × (m k ≡ ok (a, k')) × (f a k' ≡ ok p)
bind-eq-ok m f k h = bind-eq-ok_cases (m k) f h

pub bind-run {ℓ κ} :
    {A : Type ℓ} {B : Type κ} (m : Rand A) (f : A → Rand B) (k : ℕ) {a : A} {k' : ℕ}
    → m k ≡ ok (a, k')
    → (m >>= f) k ≡ f a k'
bind-run {B = B} m f k h =
    ap
      (λ o. elim o as (λ _. Outcome (B × ℕ)) [
        | ok (a, k') ↦ f a k'
        | fault ↦ fault
        | stuck ↦ stuck
      ])
      h

pub bind-fault {ℓ κ} :
    {A : Type ℓ} {B : Type κ} (m : Rand A) (f : A → Rand B) (k : ℕ)
    → m k ≡ fault
    → (m >>= f) k ≡ fault
bind-fault {B = B} m f k h =
    ap
      (λ o. elim o as (λ _. Outcome (B × ℕ)) [
        | ok (a, k') ↦ f a k'
        | fault ↦ fault
        | stuck ↦ stuck
      ])
      h

pub lift-eq-ok {ℓ} :
    {A : Type ℓ} (m : Outcome A) (k : ℕ) {a : A} {k' : ℕ} → lift m k ≡ ok (a, k') → m ≡ ok a
lift-eq-ok fault k e = cc
lift-eq-ok stuck k e = cc
lift-eq-ok (ok b) k e = cc
