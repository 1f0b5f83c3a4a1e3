-- ===== src/Session/Endings.antt =====
-- When the listener's loop over a message ends.
use amqpgram.Base.{
  Bool, true, false, leb, ◌||◌, str_eq, ℕ, zero, suc, ◌%◌, ◌≢◌, ◌⊎◌, inl, inr, refl, [], ◌∷◌,
  Bool-cases, not, ◌∙◌, ◌+◌, ◌≡◌, ◌<◌, arith, some, Bytes, length, ◌==◌, if◌then◌else◌,
}
use amqpgram.Base.Outcome.{Outcome, ok, fault, stuck, read, bind-eq-ok, bind-ne_stuck, load, ◌>>=◌}
use amqpgram.Packet.{
  PacketStruct, MethodStruct, empty_packet, type_method, type_none, break_packet, break_frame,
  break_method,
}
use amqpgram.Utils.{char_in_int, char_in_short}
use amqpgram.Session.{Session, accept_packet, parse_loop, listener_round}

abbrev ce_packet : PacketStruct
ce_packet = record empty_packet { frame_type = 0xce; channel = 0; size = 4294967289 }

-- A frame that begins with 0xce on channel 0 and has the size 0xfff9, which is read as -7, is never
-- left: the loop of the listener puts its packet into place for ever, whatever the fuel.
pub listener_round_endless :
    (fuel : ℕ) (rest : Bytes) (s : Session)
    → listener_round fuel (0xce ∷ 0 ∷ 0 ∷ 0 ∷ 0 ∷ 0xff ∷ 0xf9 ∷ rest) s ≡ stuck
unfolding listener_round parse_loop accept_packet break_packet break_frame char_in_int char_in_short
listener_round_endless zero rest s = refl
listener_round_endless (suc fuel) rest s =
    listener_round_endless fuel rest (record s { channel_packet = some ce_packet })

read_bound : (xs : Bytes) (i : ℕ) {v : ℕ} → read xs i ≡ ok v → i < length xs
read_bound [] i e = cc
read_bound (x ∷ xs) zero e = omega arith
read_bound (x ∷ xs) (suc i) e = omega (arith, read_bound xs i e)

read_first : (x : ℕ) (xs : Bytes) (i : ℕ) {v : ℕ} → i ≡ 0 → read (x ∷ xs) i ≡ ok v → x ≡ v
read_first x xs zero h e = ground (arith, e)
read_first x xs (suc i) h e = absurd (omega arith)

-- The end of `break_frame`: either nothing is reported, or the end mark was found.
marked :
    (kind channel size last : ℕ) (method : Outcome MethodStruct) (packet : PacketStruct)
    → (let result = record empty_packet { frame_type = kind; channel = channel; size = size } in
        if not (last == 0xce)
        then ok empty_packet
        else if kind == type_method
        then (method >>= λ payload. ok (record result { method_payload = some payload }))
        else ok result)
      ≡ ok packet
    → (packet.frame_type ≡ type_none) ⊎ ((last ≡ 0xce) × (packet.size ≡ size))
marked kind channel size last (ok payload) packet e = ground (arith, e)
marked kind channel size last fault packet e = ground (arith, e)
marked kind channel size last stuck packet e = ground (arith, e)

sized :
    (first : ℕ) (recvline : Bytes) (packet : PacketStruct) (size last : ℕ)
    → first ≢ 0xce
    → length recvline < 2147483647
    → read (first ∷ recvline) ((7 + size) % 4294967296) ≡ ok last
    → (packet.frame_type ≡ type_none) ⊎ ((last ≡ 0xce) × (packet.size ≡ size))
    → (packet.frame_type ≡ type_none)
      ⊎ ((0 < (packet.size + 7) % 4294967296) × ((packet.size + 7) % 4294967296 < 2147483648))
sized first recvline packet size last h l e (inl none_there) = inl none_there
sized first recvline packet size last h l e (inr (mark, same)) =
    let within = read_bound (first ∷ recvline) ((7 + size) % 4294967296) e in
    inr (
      elim (Bool-cases ((7 + size) % 4294967296 == 0)) [
        | inl start ↦
            absurd (h (read_first first recvline ((7 + size) % 4294967296) (ground arith) e ∙ mark))
        | inr more ↦ ground arith
      ],
      omega arith,
    )

-- Where the end mark was found, the packet's size leads to a place within the message, and not to
-- its first byte.
break_frame_size :
    (first : ℕ) (recvline : Bytes) (packet : PacketStruct)
    → first ≢ 0xce
    → length recvline < 2147483647
    → break_frame (first ∷ recvline) ≡ ok packet
    → (packet.frame_type ≡ type_none)
      ⊎ ((0 < (packet.size + 7) % 4294967296) × ((packet.size + 7) % 4294967296 < 2147483648))
unfolding break_frame
break_frame_size first recvline packet h l e =
    let (channel, e₁, r₁) = bind-eq-ok (char_in_short (first ∷ recvline) 1) _ e in
    let (size, e₂, r₂) = bind-eq-ok (char_in_int (first ∷ recvline) 3) _ r₁ in
    let (last, e₃, r₃) = bind-eq-ok (read (first ∷ recvline) ((7 + size) % 4294967296)) _ r₂ in
    sized first recvline packet size last h l e₃
      (marked first channel size last (break_method (first ∷ recvline) size) packet r₃)

read-ne_stuck : (xs : Bytes) (i : ℕ) → read xs i ≢ stuck
read-ne_stuck [] i = λ e. cc
read-ne_stuck (x ∷ xs) zero = λ e. cc
read-ne_stuck (x ∷ xs) (suc i) = read-ne_stuck xs i

load-ne_stuck : (xs : Bytes) (i n : ℕ) → load xs i n ≢ stuck
load-ne_stuck xs zero zero = λ e. cc
load-ne_stuck [] zero (suc n) = λ e. cc
load-ne_stuck (x ∷ xs) zero (suc n) =
    bind-ne_stuck (load xs zero n) _ (load-ne_stuck xs zero n) (λ ys e. cc)
load-ne_stuck [] (suc i) n = λ e. cc
load-ne_stuck (x ∷ xs) (suc i) n = load-ne_stuck xs i n

char_in_short-ne_stuck : (xs : Bytes) (i : ℕ) → char_in_short xs i ≢ stuck
unfolding char_in_short
char_in_short-ne_stuck xs i =
    bind-ne_stuck (read xs i) _ (read-ne_stuck xs i)
      λ high. bind-ne_stuck (read xs (i + 1)) _ (read-ne_stuck xs (i + 1)) (λ low e. cc)

char_in_int-ne_stuck : (xs : Bytes) (i : ℕ) → char_in_int xs i ≢ stuck
unfolding char_in_int
char_in_int-ne_stuck xs i =
    bind-ne_stuck (char_in_short xs i) _ (char_in_short-ne_stuck xs i) λ high.
      bind-ne_stuck (char_in_short xs (i + 2)) _ (char_in_short-ne_stuck xs (i + 2)) (λ low e. cc)

break_method-ne_stuck : (packet : Bytes) (size : ℕ) → break_method packet size ≢ stuck
unfolding break_method
break_method-ne_stuck packet size =
    bind-ne_stuck (char_in_short packet 7) _ (char_in_short-ne_stuck packet 7) λ class_id.
      bind-ne_stuck (char_in_short packet 9) _ (char_in_short-ne_stuck packet 9) λ method_id.
        bind-ne_stuck (load packet 11 ((size + 4294967292) % 4294967296)) _
          (load-ne_stuck packet 11 ((size + 4294967292) % 4294967296)) (λ bytes e. cc)

break_frame-ne_stuck : (packet : Bytes) → break_frame packet ≢ stuck
unfolding break_frame
break_frame-ne_stuck packet = bind-ne_stuck (read packet 0) _ (read-ne_stuck packet 0) λ kind.
    bind-ne_stuck (char_in_short packet 1) _ (char_in_short-ne_stuck packet 1) λ channel.
      bind-ne_stuck (char_in_int packet 3) _ (char_in_int-ne_stuck packet 3) λ size.
        bind-ne_stuck (read packet ((7 + size) % 4294967296)) _
          (read-ne_stuck packet ((7 + size) % 4294967296))
          λ last. ground (
            arith,
            break_method-ne_stuck packet size,
            bind-ne_stuck {B = PacketStruct} (break_method packet size)
                (λ method. ok (record empty_packet {
                  frame_type = kind;
                  channel = channel;
                  size = size;
                  method_payload = some method;
                }))
                (break_method-ne_stuck packet size) (λ method e. cc),
          )

if-ne_stuck {ℓ} :
    {A : Type ℓ} (c : Bool) (x y : Outcome A)
    → (c ≡ true → x ≢ stuck)
    → (c ≡ false → y ≢ stuck)
    → (if c then x else y) ≢ stuck
if-ne_stuck true x y h h' = h refl
if-ne_stuck false x y h h' = h' refl

bind-ne_stuck_at {ℓ κ} :
    {A : Type ℓ} {B : Type κ} (m : Outcome A) (f : A → Outcome B)
    → m ≢ stuck
    → ((a : A) → m ≡ ok a → f a ≢ stuck)
    → m >>= f ≢ stuck
bind-ne_stuck_at (ok a) f h g = g a refl
bind-ne_stuck_at fault f h g = λ e. cc
bind-ne_stuck_at stuck f h g = absurd (h refl)

accept_packet-ne_stuck : (packet : PacketStruct) (s : Session) → accept_packet packet s ≢ stuck
unfolding accept_packet
accept_packet-ne_stuck packet s = ground arith

-- What the listener needs of a packet to end.
abbrev Advances : PacketStruct → Type 0
Advances packet =
    (packet.frame_type ≡ type_none)
    ⊎ ((0 < (packet.size + 7) % 4294967296) × ((packet.size + 7) % 4294967296 < 2147483648))

no_round :
    (packet : PacketStruct)
    → (packet.frame_type == type_none) ≡ false
    → ((packet.size + 7) % 4294967296 == 0 || leb 2147483648 ((packet.size + 7) % 4294967296))
      ≡ true
    → Advances packet
    → ⊥
no_round packet kept again h = ground (arith, h)

break_packet_ends :
    (first : ℕ) (recvline : Bytes)
    → first ≢ 0xce
    → length recvline < 2147483647
    → (break_packet (first ∷ recvline) ≢ stuck)
      × ((packet : PacketStruct) → break_packet (first ∷ recvline) ≡ ok packet → Advances packet)
unfolding break_packet
break_packet_ends first recvline h l = (
  bind-ne_stuck (load (first ∷ recvline) 0 4) _ (load-ne_stuck (first ∷ recvline) 0 4) (λ magic.
      if-ne_stuck (str_eq magic (b'A' ∷ b'M' ∷ b'Q' ∷ b'P' ∷ [])) _ _
        (λ e.
          bind-ne_stuck (load (first ∷ recvline) 0 8) _ (load-ne_stuck (first ∷ recvline) 0 8)
            (λ header e. cc))
        (λ e. break_frame-ne_stuck (first ∷ recvline))),
  (λ packet e.
      let (magic, run, rest) = bind-eq-ok (load (first ∷ recvline) 0 4) _ e in
      elim (Bool-cases (str_eq magic (b'A' ∷ b'M' ∷ b'Q' ∷ b'P' ∷ []))) [
        | inl amqp ↦
            let (header, run', last) =
              bind-eq-ok (load (first ∷ recvline) 0 8) _ (rw amqp at rest) in
            let none_sized : packet.size ≡ 0 = ground (arith, last) in inr (omega arith)
        | inr other ↦ break_frame_size first recvline packet h l (rw other at rest)
      ]),
)

-- Where a message does not begin with 0xce, and its buffer has less than 2 ^ 31 bytes, the listener's
-- loop over it ends in the second round at the latest: it takes the first frame, or frees it, or
-- faults.
pub listener_round-ne_stuck :
    (fuel first : ℕ) (recvline : Bytes) (s : Session)
    → first ≢ 0xce
    → length recvline < 2147483647
    → listener_round (suc (suc fuel)) (first ∷ recvline) s ≢ stuck
unfolding listener_round parse_loop accept_packet
listener_round-ne_stuck fuel first recvline s h l =
    let (returns, advances) = break_packet_ends first recvline h l in
    bind-ne_stuck_at (break_packet (first ∷ recvline)) _ returns λ packet e.
      if-ne_stuck (packet.frame_type == type_none) _ _ (λ freed e'. cc)
        λ kept. bind-ne_stuck (accept_packet packet s) _ (accept_packet-ne_stuck packet s) λ s'.
          if-ne_stuck
            ((packet.size + 7) % 4294967296 == 0 || leb 2147483648 ((packet.size + 7) % 4294967296))
            _ _ (λ again. absurd (no_round packet kept again (advances packet e))) (λ done e'. cc)
