-- ===== src/Packet/Scanning.antt =====
-- The two scans for the end mark 0xce, and the joining of packets.
use amqpgram.Base.{
  ℕ, suc, ◌+◌, ◌-◌, [], ◌∷◌, ◌++◌, ◌==◌, ◌≡◌, ◌<◌, refl, ap, ◌∙◌, sym, arith, lt→ltb, Bool, true,
  false, if◌then◌else◌, Bytes, length, length-append, Bool-cases, inl, inr,
}
use mathlib.Core.List.{append_assoc}
use amqpgram.Base.Outcome.{ok, load}
use amqpgram.Base.Memory.{read-shift, load-shift, load-append}
use amqpgram.Utils.Writing.{be_bytes}
use amqpgram.Packet.{
  type_method, count_arguments, get_arguments, verify_from, verify_length, packet_length,
  packet_append,
}
use amqpgram.Packet.Frames.{frame_head, frame}
use amqpgram.Packet.Breaking.{read_size}

abbrev pub contains : ℕ → Bytes → Bool
contains b [] = false
contains b (x ∷ xs) = if x == b then true else contains b xs

-- The bytes before the first `b`.
abbrev pub before : ℕ → Bytes → Bytes
before b [] = []
before b (x ∷ xs) = if x == b then [] else x ∷ before b xs

verify_from_lem :
    (front body : Bytes) (last : ℕ) (rest : Bytes) (index : ℕ)
    → index ≡ length front
    → verify_from (length body) (front ++ (body ++ last ∷ rest)) index
      ≡ ok (if contains 0xce body then 2 else if last == 0xce then 0 else 1)
unfolding verify_from
verify_from_lem front [] last rest index e =
    rw (read-shift front (last ∷ rest) index 0 (omega arith)) (ground arith)
verify_from_lem front (x ∷ body) last rest index e =
    let later = rw (append_assoc front (x ∷ []) (body ++ last ∷ rest)) at (
      verify_from_lem (front ++ x ∷ []) body last rest (index + 1)
        (omega (arith, length-append front (x ∷ [])))) in
    rw (read-shift front (x ∷ (body ++ last ∷ rest)) index 0 (omega arith)) (ground (arith, later))

-- `verify_length` returns 2 if the end mark 0xce lies among the `length` bytes behind the seven of
-- the frame's head, 0 if it lies right behind them and not among them, and 1 otherwise.
pub verify_length_lem :
    (head body : Bytes) (last : ℕ) (rest : Bytes)
    → length head ≡ 7
    → verify_length (head ++ (body ++ last ∷ rest)) (length body)
      ≡ ok (if contains 0xce body then 2 else if last == 0xce then 0 else 1)
unfolding verify_length
verify_length_lem head body last rest h = verify_from_lem head body last rest 7 (sym h)

count_arguments_lem :
    (front arguments rest : Bytes) (counted : ℕ)
    → 11 + counted ≡ length front
    → count_arguments (length arguments) (front ++ (arguments ++ rest)) counted
      ≡ ok (counted + length (before 0xce arguments))
unfolding count_arguments
count_arguments_lem front [] rest counted e = ap ok (omega arith)
count_arguments_lem front (x ∷ arguments) rest counted e =
    let later = rw (append_assoc front (x ∷ []) (arguments ++ rest)) at (
      count_arguments_lem (front ++ x ∷ []) arguments rest (counted + 1)
        (omega (arith, length-append front (x ∷ [])))) in
    rw (read-shift front (x ∷ (arguments ++ rest)) (11 + counted) 0 (omega arith))
      (ground (arith, later))

load-before :
    (b : ℕ) (arguments rest : Bytes)
    → load (arguments ++ rest) 0 (length (before b arguments)) ≡ ok (before b arguments)
load-before b [] rest = refl
load-before b (x ∷ arguments) rest = elim (Bool-cases (x == b)) [
  | inl here ↦ rw here
  | inr later ↦ rw later (rw (load-before b arguments rest))
]

-- `get_arguments` returns the arguments of a method's frame up to their first byte 0xce, and all
-- of them only if they hold no such byte; the size is below 32768.
pub get_arguments_lem :
    (channel class method : ℕ) (arguments rest : Bytes)
    → length arguments + 4 < 32768
    → get_arguments
        (frame type_method channel (be_bytes 2 class ++ (be_bytes 2 method ++ arguments)) ++ rest)
      ≡ ok (before 0xce arguments)
unfolding get_arguments
get_arguments_lem channel class method arguments rest h =
    let n = length arguments in
    let head = frame_head type_method channel (n + 4) ++ (be_bytes 2 class ++ be_bytes 2 method) in
    let four : suc (suc (suc (suc n))) ≡ n + 4 = omega arith in
    let zero : 0 + length (before 0xce arguments) ≡ length (before 0xce arguments) = omega arith in
    let back : n + 4 - 4 ≡ n = omega arith in
    rw
      (
        four,
        append_assoc arguments (0xce ∷ []) rest,
        read_size type_method channel (n + 4)
            (be_bytes 2 class ++ (be_bytes 2 method ++ (arguments ++ 0xce ∷ rest))) (omega arith),
        lt→ltb (n + 4) 32768 h,
        lt→ltb (n + 4) 2147483648 (omega arith),
        back,
        count_arguments_lem head arguments (0xce ∷ rest) 0 refl,
        load-shift head (arguments ++ 0xce ∷ rest) 11 0 (0 + length (before 0xce arguments)) refl,
      )
      (rw zero (load-before 0xce arguments (0xce ∷ rest)))

module _ (kind channel : ℕ) (payload rest : Bytes) (small : length payload < 32768) where
  packet_length-frame : packet_length (frame kind channel payload ++ rest) ≡ ok (length payload + 8)
  unfolding packet_length
  packet_length-frame =
      let n = length payload in
      rw (
        read_size kind channel n ((payload ++ 0xce ∷ []) ++ rest) (omega arith),
        lt→ltb n 32768 small,
        lt→ltb n 2147483648 (omega arith),
        lt→ltb (n + 8) 2147483648 (omega arith),
      )

  load-frame :
      load (frame kind channel payload ++ rest) 0 (length payload + 8)
      ≡ ok (frame kind channel payload)
  load-frame =
      let n = length payload in
      let whole : length (frame kind channel payload) ≡ n + 8 =
        omega (arith, length-append payload (0xce ∷ [])) in
      ap (load (frame kind channel payload ++ rest) 0) (sym whole)
      ∙ load-append (frame kind channel payload) rest

-- Two frames are joined one behind the other, whatever lies behind each, if their sizes are below 32768.
pub packet_append_lem :
    (kind kind' channel channel' : ℕ) (payload payload' rest rest' : Bytes)
    → length payload < 32768
    → length payload' < 32768
    → packet_append (frame kind channel payload ++ rest) (frame kind' channel' payload' ++ rest')
      ≡ ok (frame kind channel payload ++ frame kind' channel' payload')
packet_append_lem kind kind' channel channel' payload payload' rest rest' h h' =
    unfold packet_append in
    rw (
      packet_length-frame kind channel payload rest h,
      packet_length-frame kind' channel' payload' rest' h',
      lt→ltb (length payload + 8 + (length payload' + 8)) 2147483648 (omega arith),
      load-frame kind channel payload rest h,
      load-frame kind' channel' payload' rest' h',
    )
