-- ===== src/Connection/Framing/Packets.antt =====
-- The packets of the five builders of fuzzer/Connection.c, whatever RULE_CHAOS is.
use amqpgram.Base.{ℕ, ◌≡◌, refl, ◌∙◌, ap, subst, [], ◌∷◌, Option, none, Bytes, replicate}
use amqpgram.Base.Outcome.{ok, fault, stuck}
use amqpgram.Base.Random.{Rand, lift, ◌>>=◌, bind-eq-ok}
use amqpgram.Base.Text.{codes}
use amqpgram.Packet.{MethodStruct}
use amqpgram.Utils.{int_in_char, short_in_char}
use amqpgram.Grammar.{copy_grammar_entry_t}
use amqpgram.Grammar.Table.{HashTable}
use amqpgram.Grammar.Lookup.{
  Grammar, Environment, create_grammar, environment_lookup, grammar_lookup, new_environment,
}
use amqpgram.Connection.{
  decode, node_in, tune_limits, reply_with, set_rule, set_bytes, set_length, finish_method,
  connection_start_ok, connection_tune_ok, connection_open, connection_close, connection_close_ok,
}
use amqpgram.Connection.Interface.{Reply}
use amqpgram.Connection.Methods.{HasFraming}
use amqpgram.Connection.Framing.{
  IsApart, Spares, Sparing, set_rule-Sparing, set_bytes-Sparing, set_length-Sparing,
}
use amqpgram.Connection.Framing.Decoding.{IsFramed, method-IsFramed}

-- The methods that the fuzzer sends.
pub data Method : Type 0 where
  start_ok : Method
  tune_ok : Option MethodStruct → Method
  open_method : Method
  close_method : Method
  close_ok : Method

-- What a run returns is framed.
abbrev Framing : Rand Bytes → Type 0
Framing run = (k : ℕ) (p : Bytes) (k' : ℕ) → run k ≡ ok (p, k') → IsFramed p

-- What a builder returns has a framed packet.
abbrev Frames : Rand Reply → Type 0
Frames builder =
    (k : ℕ) (reply : Reply) (k' : ℕ) → builder k ≡ ok (reply, k') → IsFramed reply.packet

after :
    {A : Type 0} (run : Rand A) (next : A → Rand Bytes)
    → ((a : A) → Framing (next a))
    → Framing (run >>= next)
after run next framed k p k' e =
    let (a, k₁, first, last) = bind-eq-ok run next k e in framed a k₁ p k' last

reply_with-Frames :
    (state response : ℕ) (builder : Rand Bytes)
    → Framing builder
    → Frames (reply_with state response builder)
unfolding reply_with
reply_with-Frames state response builder framed k reply k' e =
    let (p, k₁, first, last) = bind-eq-ok builder _ k e in
    let same : p ≡ reply.packet =
      ap (λ o. elim o as (λ _. Bytes) [ ok (r, _) ↦ r.packet | fault ↦ [] | stuck ↦ [] ]) last in
    subst IsFramed same (framed k p k₁ first)

module _ (H : HashTable) where
  create-Spares : Spares H (create_grammar H)
  unfolding create_grammar
  create-Spares =
      let none_of = H.lookup-new_table in
      (none_of _, (none_of _, (none_of _, (none_of _, (none_of _, tt)))))

  absent-environment_lookup :
      (g : Grammar H) (env : Environment H) (j : Bytes)
      → H.lookup g j ≡ none
      → environment_lookup H (g ∷ env) j ≡ environment_lookup H env j
  unfolding environment_lookup grammar_lookup copy_grammar_entry_t
  absent-environment_lookup g env j absent = rw absent refl

  spared-HasFraming :
      (g : Grammar H) (env : Environment H) → Spares H g → HasFraming H env → HasFraming H (g ∷ env)
  spared-HasFraming g env (s₁, (s₂, (s₃, (s₄, (s₅, _))))) h = record {
    method = absent-environment_lookup g env _ s₁ ∙ h.method;
    method_frame = absent-environment_lookup g env _ s₂ ∙ h.method_frame;
    frame_properties = absent-environment_lookup g env _ s₃ ∙ h.frame_properties;
    channel = absent-environment_lookup g env _ s₄ ∙ h.channel;
    frame_end = absent-environment_lookup g env _ s₅ ∙ h.frame_end;
  }

  changing :
      (change : Rand (Grammar H)) (next : Grammar H → Rand Bytes)
      → Sparing H change
      → ((g : Grammar H) → Spares H g → Framing (next g))
      → Framing (change >>= next)
  changing change next spares framed k p k' e =
      let (g, k₁, first, last) = bind-eq-ok change next k e in
      framed g (spares k k₁ g first) k₁ p k' last

module _ (draws : ℕ → ℕ) (H : HashTable) (rule_chaos fuel : ℕ) (env : Environment H)
    (h : HasFraming H env) where
  finish_method-Framing :
      (g : Grammar H) → Spares H g → Framing (finish_method draws H rule_chaos fuel env g)
  unfolding finish_method decode new_environment
  finish_method-Framing g s =
      changing H _ _
        (set_length-Sparing draws H rule_chaos fuel env (codes "method-payload")
          (codes "payload-size") g refl refl s)
        λ g' s'. method-IsFramed draws H g' env (spared-HasFraming H g' env s' h) fuel

  abbrev set : Bytes → Bytes → Grammar H → Rand (Grammar H)
  set = set_rule draws H rule_chaos fuel env

  setting :
      (rule text : Bytes) (g : Grammar H) (next : Grammar H → Rand Bytes)
      → IsApart rule
      → Spares H g
      → ((g' : Grammar H) → Spares H g' → Framing (next g'))
      → Framing (set rule text g >>= next)
  setting rule text g next a s =
      changing H (set rule text g) next
        (set_rule-Sparing draws H rule_chaos fuel env rule text g a s)

  named :
      (id properties : Bytes) (next : Grammar H → Rand Bytes)
      → ((g : Grammar H) → Spares H g → Framing (next g))
      → Framing (
          set (codes "method-id") id (create_grammar H) >>= λ g.
          set (codes "method-properties") properties g >>= next)
  named id properties next framed =
      setting (codes "method-id") id (create_grammar H) _ refl (create-Spares H)
        λ g s. setting (codes "method-properties") properties g next refl s framed

  connection_close_ok-Frames : Frames (connection_close_ok draws H rule_chaos fuel env)
  unfolding connection_close_ok
  connection_close_ok-Frames =
      reply_with-Frames 7 1 _
        (named (codes "m51-method-id") (codes "m51-method-properties") _ finish_method-Framing)

  connection_open-Frames : Frames (connection_open draws H rule_chaos fuel env)
  unfolding connection_open
  connection_open-Frames = reply_with-Frames 4 1 _ (
      named (codes "m40-method-id") (codes "m40-method-properties") _
        λ g s. setting (codes "virtual-host") (codes "%x01.2F") g _ refl s finish_method-Framing)

  connection_close-Frames : Frames (connection_close draws H rule_chaos fuel env)
  unfolding connection_close
  connection_close-Frames = reply_with-Frames 7 1 _ (
      named (codes "m50-method-id") (codes "m50-method-properties") _ λ g s.
        setting (codes "reply-code") (codes "%x00.C8") g _ refl s λ g s.
          setting (codes "reply-text") (codes "%x03.32.30.30") g _ refl s λ g s.
            setting (codes "m50-class-id-val") (codes "%x00.00") g _ refl s λ g s.
              setting (codes "m50-method-id-val") (codes "%x00.00") g _ refl s
                finish_method-Framing)

  measuring :
      (rule_to_decode length_rule : Bytes) (g : Grammar H) (next : Grammar H → Rand Bytes)
      → IsApart rule_to_decode
      → IsApart length_rule
      → Spares H g
      → ((g' : Grammar H) → Spares H g' → Framing (next g'))
      → Framing (set_length draws H rule_chaos fuel env rule_to_decode length_rule g >>= next)
  measuring rule_to_decode length_rule g next a a' s =
      changing H (set_length draws H rule_chaos fuel env rule_to_decode length_rule g) next
        (set_length-Sparing draws H rule_chaos fuel env rule_to_decode length_rule g a a' s)

  connection_start_ok-Frames : Frames (connection_start_ok draws H rule_chaos fuel env)
  unfolding connection_start_ok
  connection_start_ok-Frames = reply_with-Frames 1 1 _ (
      named (codes "m11-method-id") (codes "m11-method-properties") _ λ g s.
        measuring (codes "client-properties-payload") (codes "client-properties-length") g _ refl
          refl s
          λ g s. setting (codes "authcid") (codes "\"username\"") g _ refl s λ g s.
            setting (codes "passwd") (codes "\"password\"") g _ refl s λ g s.
              measuring (codes "message") (codes "message-length") g _ refl refl s
                finish_method-Framing)

  bytes_setting :
      (rule bytes : Bytes) (size : ℕ) (g : Grammar H) (next : Grammar H → Rand Bytes)
      → IsApart rule
      → Spares H g
      → ((g' : Grammar H) → Spares H g' → Framing (next g'))
      → Framing (set_bytes draws H rule_chaos fuel env rule bytes size g >>= next)
  bytes_setting rule bytes size g next a s =
      changing H (set_bytes draws H rule_chaos fuel env rule bytes size g) next
        (set_bytes-Sparing draws H rule_chaos fuel env rule bytes size g a s)

  connection_tune_ok-Frames :
      (method_data : Option MethodStruct)
      → Frames (connection_tune_ok draws H rule_chaos fuel env method_data)
  unfolding connection_tune_ok
  connection_tune_ok-Frames method_data = reply_with-Frames 3 0 _ (
      after (tune_limits draws fuel method_data) _ λ (channel_max, frame_max).
        after (lift (node_in draws H rule_chaos fuel 1 (create_grammar H) env)) _ λ environment.
          named (codes "m31-method-id") (codes "m31-method-properties") _ λ g s.
            after (lift (int_in_char (replicate 4 0) frame_max 0 4)) _ λ frame_max_char.
              bytes_setting (codes "frame-max") frame_max_char 4 g _ refl s λ g s.
                after (lift (short_in_char (replicate 2 0) channel_max 0 2)) _ λ channel_max_char.
                  bytes_setting (codes "channel-max") channel_max_char 2 g _ refl s
                    finish_method-Framing)

  -- The builder of a packet, by its method.
  abbrev pub build : Method → Rand Reply
  build start_ok = connection_start_ok draws H rule_chaos fuel env
  build (tune_ok method_data) = connection_tune_ok draws H rule_chaos fuel env method_data
  build open_method = connection_open draws H rule_chaos fuel env
  build close_method = connection_close draws H rule_chaos fuel env
  build close_ok = connection_close_ok draws H rule_chaos fuel env

  -- At every RULE_CHAOS and whatever the dice, where the environment has the framing rules of the grammar
  -- files, each packet that a builder returns begins with the type METHOD and the channel 0 and ends with
  -- the mark 0xCE.
  pub build-IsFramed :
      (method : Method) (k : ℕ) (reply : Reply) (k' : ℕ)
      → build method k ≡ ok (reply, k')
      → IsFramed reply.packet
  build-IsFramed start_ok = connection_start_ok-Frames
  build-IsFramed (tune_ok method_data) = connection_tune_ok-Frames method_data
  build-IsFramed open_method = connection_open-Frames
  build-IsFramed close_method = connection_close-Frames
  build-IsFramed close_ok = connection_close_ok-Frames
