-- ===== src/Base/Memory.antt =====
-- Reads and writes behind a prefix: each operation on `pre ++ xs` at an index past `pre` is the
-- operation on `xs`.
use amqpgram.Base.{ℕ, ◌≤◌, zero, suc, ◌+◌, ◌≡◌, refl, [], ◌∷◌, ◌++◌, length, Bytes, arith}
use amqpgram.Base.Outcome.{Outcome, ok, fault, stuck, ◌>>=◌, read, write, load, store, bind-eq-ok}

pub read-shift : (pre xs : Bytes) (k i : ℕ) → k ≡ length pre + i → read (pre ++ xs) k ≡ read xs i
read-shift [] xs k i e = let e' : k ≡ i = omega arith in rw e'
read-shift (x ∷ pre) xs zero i e = absurd (omega arith)
read-shift (x ∷ pre) xs (suc k) i e = read-shift pre xs k i (omega arith)

pub load-shift :
    (pre xs : Bytes) (k i n : ℕ) → k ≡ length pre + i → load (pre ++ xs) k n ≡ load xs i n
load-shift [] xs k i n e = let e' : k ≡ i = omega arith in rw e'
load-shift (x ∷ pre) xs zero i n e = absurd (omega arith)
load-shift (x ∷ pre) xs (suc k) i n e = load-shift pre xs k i n (omega arith)

-- A result put behind a prefix.
abbrev pub behind : Bytes → Outcome Bytes → Outcome Bytes
behind pre (ok ys) = ok (pre ++ ys)
behind pre fault = fault
behind pre stuck = stuck

behind-cons :
    (x : ℕ) (pre : Bytes) (m : Outcome Bytes)
    → (behind pre m >>= λ ys. ok (x ∷ ys)) ≡ behind (x ∷ pre) m
behind-cons x pre (ok ys) = refl
behind-cons x pre fault = refl
behind-cons x pre stuck = refl

behind-nil : (m : Outcome Bytes) → m ≡ behind [] m
behind-nil (ok ys) = refl
behind-nil fault = refl
behind-nil stuck = refl

pub write-shift :
    (pre xs : Bytes) (k i v : ℕ)
    → k ≡ length pre + i
    → write (pre ++ xs) k v ≡ behind pre (write xs i v)
write-shift [] xs k i v e = let e' : k ≡ i = omega arith in rw e' (behind-nil _)
write-shift (x ∷ pre) xs zero i v e = absurd (omega arith)
write-shift (x ∷ pre) xs (suc k) i v e =
    rw (write-shift pre xs k i v (omega arith)) (behind-cons x pre _)

pub store-shift :
    (pre xs bs : Bytes) (k i : ℕ)
    → k ≡ length pre + i
    → store (pre ++ xs) k bs ≡ behind pre (store xs i bs)
store-shift [] xs bs k i e = let e' : k ≡ i = omega arith in rw e' (behind-nil _)
store-shift (x ∷ pre) xs bs zero i e = absurd (omega arith)
store-shift (x ∷ pre) xs bs (suc k) i e =
    rw (store-shift pre xs bs k i (omega arith)) (behind-cons x pre _)

-- Bytes that lie where they are asked for are read.
pub load-append : (bs rest : Bytes) → load (bs ++ rest) 0 (length bs) ≡ ok bs
load-append [] rest = refl
load-append (x ∷ bs) rest = rw (load-append bs rest)

pub load-all : (bs : Bytes) → load bs 0 (length bs) ≡ ok bs
load-all [] = refl
load-all (x ∷ bs) = rw (load-all bs)

-- A copy over as many bytes as it brings.
pub store-append :
    (old new rest : Bytes) → length old ≡ length new → store (old ++ rest) 0 new ≡ ok (new ++ rest)
store-append [] [] rest e = refl
store-append [] (y ∷ new) rest e = absurd (omega arith)
store-append (x ∷ old) [] rest e = absurd (omega arith)
store-append (x ∷ old) (y ∷ new) rest e = rw (store-append old new rest (omega arith))

-- What follows an operation behind a prefix stays behind it.
pub bind-behind :
    (pre : Bytes) (m : Outcome Bytes) (f g : Bytes → Outcome Bytes)
    → ((ys : Bytes) → f (pre ++ ys) ≡ behind pre (g ys))
    → (behind pre m >>= f) ≡ behind pre (m >>= g)
bind-behind pre (ok ys) f g h = h ys
bind-behind pre fault f g h = refl
bind-behind pre stuck f g h = refl

-- A read at or behind the end faults.
pub read-fault : (xs : Bytes) (i : ℕ) → length xs ≤ i → read xs i ≡ fault
read-fault [] i h = refl
read-fault (x ∷ xs) zero h = absurd (omega arith)
read-fault (x ∷ xs) (suc i) h = read-fault xs i (omega arith)

pub load-length :
    (src : Bytes) (i n : ℕ) (bytes : Bytes) → load src i n ≡ ok bytes → length bytes ≡ n
load-length src zero zero bytes e = ground arith
load-length [] zero (suc n) bytes e = cc
load-length (x ∷ xs) zero (suc n) bytes e =
    let (others, loaded, same) = bind-eq-ok (load xs zero n) _ e in
    ground (arith, load-length xs zero n others loaded, same)
load-length [] (suc i) n bytes e = cc
load-length (x ∷ xs) (suc i) n bytes e = load-length xs i n bytes e
