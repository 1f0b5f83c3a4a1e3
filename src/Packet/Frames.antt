-- ===== src/Packet/Frames.antt =====
-- What the builders of frames write.
use amqpgram.Base.{
  ℕ, zero, suc, ◌+◌, ◌-◌, [], ◌∷◌, ◌++◌, some, ◌≡◌, ◌<◌, refl, ap, ◌∙◌, ◌⊎◌, inl, inr, arith,
  lt→ltb, Bytes, length, length-append,
}
use amqpgram.Base.Outcome.{Outcome, ok, fault, ◌>>=◌, load, store}
use amqpgram.Base.Memory.{load-append, store-append, store-shift, write-shift}
use amqpgram.Utils.Writing.{be_bytes, short_in_char_lem, int_in_char_lem}
use amqpgram.Packet.{amqp_frame, amqp_method_frame, copy_payload}

-- A buffer splits at any length.
pub split_at :
    (n k : ℕ) (xs : Bytes)
    → length xs ≡ n + k
    → (front : Bytes) × (back : Bytes) × (xs ≡ front ++ back)
      × (length front ≡ n)
      × (length back ≡ k)
split_at zero k xs e = ([], xs, refl, refl, omega arith)
split_at (suc n) k [] e = absurd (omega arith)
split_at (suc n) k (x ∷ xs) e =
    let (front, back, whole, lf, lb) = split_at n k xs (omega arith) in
    (x ∷ front, back, ap (◌∷◌ x) whole, ap suc lf, lb)

singleton : (xs : Bytes) → length xs ≡ 1 → (x : ℕ) × (xs ≡ x ∷ [])
singleton [] e = absurd (omega arith)
singleton (x ∷ []) e = (x, refl)
singleton (x ∷ y ∷ xs) e = absurd (omega arith)

regroup :
    (xs one rest two rest₂ four rest₄ old end : Bytes) (first last : ℕ)
    → xs ≡ one ++ rest
    → one ≡ first ∷ []
    → rest ≡ two ++ rest₂
    → rest₂ ≡ four ++ rest₄
    → rest₄ ≡ old ++ end
    → end ≡ last ∷ []
    → xs ≡ first ∷ (two ++ (four ++ (old ++ last ∷ [])))
regroup xs one rest two rest₂ four rest₄ old end first last e e₁ e₂ e₃ e₄ e₅ =
    e ∙ rw (e₁, e₂, e₃, e₄, e₅)

-- The seven bytes before a frame's contents, and the frame.
abbrev pub frame_head : ℕ → ℕ → ℕ → Bytes
frame_head kind channel size = kind ∷ (be_bytes 2 channel ++ be_bytes 4 size)

abbrev pub frame : ℕ → ℕ → Bytes → Bytes
frame kind channel payload = frame_head kind channel (length payload) ++ (payload ++ 0xce ∷ [])

-- A copy of more bytes than the buffer has faults.
store-fault : (dst bs : Bytes) → length dst < length bs → store dst 0 bs ≡ fault
store-fault dst [] h = absurd (omega arith)
store-fault [] (b ∷ bs) h = refl
store-fault (x ∷ dst) (b ∷ bs) h = rw (store-fault dst bs (omega arith))

length-load :
    (src : Bytes) (n : ℕ)
    → (load src 0 n ≡ fault) ⊎ ((bs : Bytes) × (load src 0 n ≡ ok bs) × (length bs ≡ n))
length-load src zero = inr ([], refl, refl)
length-load [] (suc n) = inl refl
length-load (x ∷ src) (suc n) = elim (length-load src n) [
  | inl bad ↦ inl (rw bad)
  | inr (bs, good, l) ↦ inr (x ∷ bs, rw good, ap suc l)
]

copy_faults :
    (head rest payload : Bytes) (n : ℕ) (f : Bytes → Outcome Bytes)
    → length head ≡ 4
    → length rest < n
    → (copy_payload (head ++ rest) (some payload) n >>= f) ≡ fault
unfolding copy_payload
copy_faults head rest payload n f l h = elim (length-load payload n) [
  | inl bad ↦ rw bad
  | inr (bs, good, lb) ↦
      rw (good, store-shift head rest bs 4 0 (omega arith), store-fault rest bs (omega arith))
]

module _ (malloc : ℕ → Bytes) where
  -- The run over a buffer whose parts are known.
  frame_fill :
      (kind channel first last : ℕ) (payload extra old_channel old_size old : Bytes)
      → length payload + 8 < 2147483648
      → malloc (length payload + 8) ≡ first ∷ (old_channel ++ (old_size ++ (old ++ last ∷ [])))
      → length old_channel ≡ 2
      → length old_size ≡ 4
      → length old ≡ length payload
      → amqp_frame malloc kind channel (length payload) (payload ++ extra)
        ≡ ok (frame kind channel payload)
  unfolding amqp_frame
  frame_fill kind channel first last payload extra old_channel old_size old h e l₂ l₄ l =
      let n = length payload in
      let head = frame_head kind channel n in
      rw (
        lt→ltb (n + 8) 2147483648 h,
        e,
        short_in_char_lem (kind ∷ []) old_channel (old_size ++ (old ++ last ∷ [])) channel (n + 8)
            l₂ (omega arith),
        int_in_char_lem (kind ∷ be_bytes 2 channel) old_size (old ++ last ∷ []) n (n + 8) l₄
            (omega arith),
        load-append payload extra,
        store-shift head (old ++ last ∷ []) payload 7 0 (omega arith),
        store-append old payload (last ∷ []) l,
        write-shift (head ++ payload) (last ∷ []) (n + 8 - 1) 0 0xce
            (omega (arith, length-append head payload)),
      )

module _ (malloc : ℕ → Bytes) (malloc_length : (n : ℕ) → length (malloc n) ≡ n) where
  -- `amqp_frame` gives the type, the channel and the size, most significant byte first, then the
  -- payload and the frame's end, whatever the allocated buffer held, if the payload's buffer holds
  -- as many bytes as the stated size and that size plus 8 is an `int`.
  pub amqp_frame_lem :
      (kind channel : ℕ) (payload extra : Bytes)
      → length payload + 8 < 2147483648
      → amqp_frame malloc kind channel (length payload) (payload ++ extra)
        ≡ ok (frame kind channel payload)
  amqp_frame_lem kind channel payload extra h =
      let n = length payload in
      let whole = malloc_length (n + 8) in
      let (one, rest, e, l, r) = split_at 1 (n + 7) (malloc (n + 8)) (omega arith) in
      let (old_channel, rest₂, e₂, l₂, r₂) = split_at 2 (n + 5) rest (omega arith) in
      let (old_size, rest₄, e₄, l₄, r₄) = split_at 4 (n + 1) rest₂ (omega arith) in
      let (old, end, e₅, l₅, r₅) = split_at n 1 rest₄ (omega arith) in
      let (first, one_is) = singleton one l in
      let (last, end_is) = singleton end r₅ in
      frame_fill malloc kind channel first last payload extra old_channel old_size old h
        (regroup _ one rest old_channel rest₂ old_size rest₄ old end first last e one_is e₂ e₄ e₅
          end_is)
        l₂ l₄ l₅

  -- A payload that is not NULL makes `amqp_method_frame` write behind its buffer: the copy is of
  -- four bytes more than the buffer has room for. So it faults on every such call, if `size + 4`
  -- is an `int`.
  pub amqp_method_frame_faults :
      (channel size class method : ℕ) (payload : Bytes)
      → size + 4 < 2147483648
      → amqp_method_frame malloc channel size class method (some payload) ≡ fault
  unfolding amqp_method_frame
  amqp_method_frame_faults channel size class method payload h =
      let whole = malloc_length (size + 4) in
      let (old, rest, e, l, r) = split_at 2 (size + 2) (malloc (size + 4)) (omega arith) in
      let (old₂, rest₂, e₂, l₂, r₂) = split_at 2 size rest (omega arith) in
      rw
        (
          lt→ltb (size + 4) 2147483648 h,
          e,
          short_in_char_lem [] old rest class (size + 4) l (omega arith),
          e₂,
          short_in_char_lem (be_bytes 2 class) old₂ rest₂ method (size + 4) l₂ (omega arith),
        )
        (copy_faults (be_bytes 2 class ++ be_bytes 2 method) rest₂ payload (size + 4) _
          (omega arith) (omega arith))
