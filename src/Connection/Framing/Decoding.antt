-- ===== src/Connection/Framing/Decoding.antt =====
-- What the rule of a method decodes to, whatever the rules of its payload and its length are.
use amqpgram.Base.{ℕ, zero, suc, ◌≡◌, ◌∙◌, sym, ap, subst, arith, [], ◌∷◌, ◌++◌, some, Bytes}
use amqpgram.Base.Outcome.{ok}
use amqpgram.Base.Random.{Rand, bind-eq-ok}
use amqpgram.Base.Text.{codes}
use amqpgram.CString.{strtok, token_end, strtol}
use amqpgram.Terminals.{count_occurrences, decode_terminal_symbol}
use amqpgram.Grammar.Table.{HashTable}
use amqpgram.Grammar.Lookup.{Grammar, Environment}
use amqpgram.Generator.{parse_element, decode_rule}
use amqpgram.Generator.Repetition.{elements_plain}
use amqpgram.Generator.Rules.{decode_rule-string}
use amqpgram.Connection.{call}
use amqpgram.Connection.Methods.{HasFraming, element, decode-channel, decode-frame_end}

-- The type METHOD, the channel 0, any bytes, and the end mark.
abbrev pub IsFramed : Bytes → Type 0
IsFramed packet = (inner : Bytes) × (packet ≡ (1 ∷ 0 ∷ 0 ∷ inner) ++ 206 ∷ [])

-- The first of the elements, and the others.
elements_plain-first :
    (element : Bytes → Rand Bytes) (fields : ℕ) (token rest result : Bytes) (k : ℕ) (p : Bytes)
    (k' : ℕ)
    → elements_plain element (suc fields) (some (token, rest)) result k ≡ ok (p, k')
    → (bytes : Bytes) × (k₁ : ℕ) × (element token k ≡ ok (bytes, k₁))
      × (elements_plain element fields (strtok b' ' rest) (result ++ bytes) k₁ ≡ ok (p, k'))
unfolding elements_plain
elements_plain-first element fields token rest result k p k' e = bind-eq-ok (element token) _ k e

join-IsFramed :
    (kind properties payload end size p : Bytes)
    → kind ≡ 1 ∷ []
    → properties ≡ 0 ∷ 0 ∷ size
    → end ≡ 206 ∷ []
    → ((kind ++ properties) ++ payload) ++ end ≡ p
    → IsFramed p
join-IsFramed kind properties payload end size p one zeroth mark joined =
    let framed : Bytes → Bytes → Bytes → Bytes = λ x y z. ((x ++ y) ++ payload) ++ z in
    (
      size ++ payload,
      sym joined
          ∙ ap (λ x. framed x properties end) one
          ∙ ap (λ y. framed (1 ∷ []) y end) zeroth
          ∙ ap (λ z. framed (1 ∷ []) (0 ∷ 0 ∷ size) z) mark,
    )

module _ (draws : ℕ → ℕ) (H : HashTable) (g : Grammar H) (env : Environment H)
    (h : HasFraming H (g ∷ env)) where
  abbrev Decodes : ℕ → Bytes → ℕ → Bytes → ℕ → Type 0
  Decodes n rule k p k' = decode_rule draws H (call draws) n rule (g ∷ env) k ≡ ok (p, k')

  only-channel :
      (n k : ℕ) (p : Bytes) (k' : ℕ) → Decodes n (codes "channel") k p k' → p ≡ 0 ∷ 0 ∷ []
  unfolding decode_rule
  only-channel zero k p k' e = cc
  only-channel (suc n) k p k' e =
      let same = sym (decode-channel draws H g env k h n) ∙ e in ground (arith, same)

  only-frame_end :
      (n k : ℕ) (p : Bytes) (k' : ℕ) → Decodes n (codes "frame-end") k p k' → p ≡ 206 ∷ []
  unfolding decode_rule
  only-frame_end zero k p k' e = cc
  only-frame_end (suc n) k p k' e =
      let same = sym (decode-frame_end draws H g env k h n) ∙ e in ground (arith, same)

  frame_properties-channel :
      (n k : ℕ) (p : Bytes) (k' : ℕ)
      → Decodes n (codes "frame-properties") k p k'
      → (size : Bytes) × (p ≡ 0 ∷ 0 ∷ size)
  unfolding decode_rule strtok token_end elements_plain count_occurrences parse_element
      decode_terminal_symbol strtol
  frame_properties-channel zero k p k' e = cc
  frame_properties-channel (suc n) k p k' e =
      let run =
        sym (
          decode_rule-string draws H (call draws) n (codes "frame-properties") g env k
            (codes "channel payload-size") h.frame_properties)
        ∙ e in
      let (channel, k₁, first, e₁) =
        elements_plain-first (element draws H g env k h n) 1 (codes "channel")
          (codes "payload-size") [] k p k' run in
      let (size, k₂, second, last) =
        elements_plain-first (element draws H g env k h n) 0 (codes "payload-size") [] channel k₁ p
          k' e₁ in
      let zeroth = only-channel n k channel k₁ first in
      let joined : channel ++ size ≡ p = ground (arith, last) in
      (size, sym joined ∙ ap (λ (front : Bytes). front ++ size) zeroth)

  method_frame-IsFramed :
      (n k : ℕ) (p : Bytes) (k' : ℕ) → Decodes n (codes "method-frame") k p k' → IsFramed p
  unfolding decode_rule strtok token_end elements_plain count_occurrences parse_element
      decode_terminal_symbol strtol
  method_frame-IsFramed zero k p k' e = cc
  method_frame-IsFramed (suc n) k p k' e =
      let run =
        sym (
          decode_rule-string draws H (call draws) n (codes "method-frame") g env k
            (codes "%d1 frame-properties method-payload frame-end") h.method_frame)
        ∙ e in
      let el = element draws H g env k h n in
      let (kind, k₁, first, e₁) =
        elements_plain-first el 3 (codes "%d1") (codes "frame-properties method-payload frame-end")
          [] k p k' run in
      let (properties, k₂, second, e₂) =
        elements_plain-first el 2 (codes "frame-properties") (codes "method-payload frame-end") kind
          k₁ p k' e₁ in
      let (payload, k₃, third, e₃) =
        elements_plain-first el 1 (codes "method-payload") (codes "frame-end") (kind ++ properties)
          k₂ p k' e₂ in
      let (end, k₄, fourth, last) =
        elements_plain-first el 0 (codes "frame-end") [] ((kind ++ properties) ++ payload) k₃ p k'
          e₃ in
      let one : kind ≡ 1 ∷ [] = ground (arith, first) in
      let (size, zeroth) = frame_properties-channel n k₁ properties k₂ second in
      let mark = only-frame_end n k₃ end k₄ fourth in
      let joined : ((kind ++ properties) ++ payload) ++ end ≡ p = ground (arith, last) in
      join-IsFramed kind properties payload end size p one zeroth mark joined

  -- Whatever the rules of the length and of the payload are, and the dice: where the rule of a method
  -- decodes, its bytes are framed.
  pub method-IsFramed :
      (n k : ℕ) (p : Bytes) (k' : ℕ) → Decodes n (codes "method") k p k' → IsFramed p
  unfolding decode_rule strtok token_end elements_plain count_occurrences parse_element
      decode_terminal_symbol strtol
  method-IsFramed zero k p k' e = cc
  method-IsFramed (suc n) k p k' e =
      let run =
        sym (
          decode_rule-string draws H (call draws) n (codes "method") g env k (codes "method-frame")
            h.method)
        ∙ e in
      let (frame, k₁, first, last) =
        elements_plain-first (element draws H g env k h n) 0 (codes "method-frame") [] [] k p k'
          run in
      let same : frame ≡ p = ground (arith, last) in
      subst IsFramed same (method_frame-IsFramed n k frame k₁ first)
