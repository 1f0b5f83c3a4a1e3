-- ===== src/Connection/Replies.antt =====
-- What the builders send where RULE_CHAOS is 0 and the environment has the rules of
-- abnf/grammar-spec, abnf/grammar-connection and abnf/grammar-abnf.
pub mod Payloads
pub mod Closing
pub mod Login
pub mod Starting
use amqpgram.Base.{
  ℕ, suc, ◌+◌, ◌≡◌, refl, ◌∙◌, List, [], ◌∷◌, ◌++◌, Option, none, some, Bytes, length,
}
use amqpgram.Base.Outcome.{Outcome, ok}
use amqpgram.Base.Random.{Rand, bind-run}
use amqpgram.Base.Text.{codes}
use amqpgram.CString.{strtok, token_end, strtol}
use amqpgram.Terminals.{count_occurrences, decode_terminal_symbol}
use amqpgram.Packet.{type_method}
use amqpgram.Packet.Frames.{frame}
use amqpgram.Grammar.{GrammarEntry}
use amqpgram.Grammar.Entries.{string_value}
use amqpgram.Grammar.Table.{HashTable}
use amqpgram.Grammar.Lookup.{Grammar, Environment, environment_lookup}
use amqpgram.Generator.{parse_element, decode_rule}
use amqpgram.Generator.Tokens.{tokens_of, decode_rule-elements}
use amqpgram.Connection.{call, decode, reply_with, finish_method}
use amqpgram.Connection.Interface.{Reply}
use amqpgram.Connection.Methods.{HasFraming, finish_method_lem}
use amqpgram.Connection.Replacing.{overridden, Answers, found}

-- What a builder leaves and gives that ends with the frame of a method with this payload.
abbrev pub Gives : Rand Reply → ℕ → ℕ → Bytes → ℕ → ℕ → Type 0
Gives builder state response payload k k' =
    builder k
    ≡ ok (
      record {
        next_state = state;
        response_expected = response;
        packet = frame type_method 0 payload;
      },
      k',
    )

pub replied :
    (state response : ℕ) (builder : Rand Bytes) (payload : Bytes) (k k' : ℕ)
    → builder k ≡ ok (frame type_method 0 payload, k')
    → Gives (reply_with state response builder) state response payload k k'
unfolding reply_with
replied state response builder payload k k' run = bind-run builder _ k run

module _ (H : HashTable) where
  -- A rule of the environment, and its text.
  abbrev pub Says : Environment H → Bytes → Bytes → Type 0
  Says env rule text = environment_lookup H env rule ≡ ok (some (string_value text))

  -- The rules that every method needs.
  pub record HasPayload (env : Environment H) : Type 0 where
    pub framing : HasFraming H env
    pub method_payload :
        Says env (codes "method-payload") (codes "class-id method-id method-properties")
    pub class_id : Says env (codes "class-id") (codes "%x00.0A")

-- Replacements that leave a rule alone.
abbrev pub Keeps : List (Bytes × GrammarEntry) → Bytes → Type 0
Keeps rules j = (answer : Outcome (Option GrammarEntry)) → overridden rules j answer ≡ answer

module _ (draws : ℕ → ℕ) (H : HashTable) (env : Environment H) {g : Grammar H}
    {rules : List (Bytes × GrammarEntry)} (a : Answers draws H env g rules) where
  pub framing_kept :
      HasFraming H env
      → Keeps rules (codes "method")
      → Keeps rules (codes "method-frame")
      → Keeps rules (codes "frame-properties")
      → Keeps rules (codes "channel")
      → Keeps rules (codes "frame-end")
      → HasFraming H (g ∷ env)
  framing_kept f k₁ k₂ k₃ k₄ k₅ = record {
    method = found draws H env a (codes "method") f.method ∙ k₁ _;
    method_frame = found draws H env a (codes "method-frame") f.method_frame ∙ k₂ _;
    frame_properties = found draws H env a (codes "frame-properties") f.frame_properties ∙ k₃ _;
    channel = found draws H env a (codes "channel") f.channel ∙ k₄ _;
    frame_end = found draws H env a (codes "frame-end") f.frame_end ∙ k₅ _;
  }

  -- A builder that has replaced rules ends with the frame of its payload.
  pub finished :
      (payload : Bytes) (n k k' : ℕ)
      → HasFraming H (g ∷ env)
      → decode draws H 0 (suc (suc (suc (suc n)))) (codes "method-payload") (g ∷ env) k
        ≡ ok (payload, k')
      → finish_method draws H 0 (suc (suc (suc (suc n)))) env g k
        ≡ ok (frame type_method 0 payload, k')
  finished payload n k k' framing run =
      finish_method_lem draws H g env payload n k k' a.well_formed framing run

  abbrev pub decoder : ℕ → Bytes → Rand Bytes
  decoder n rule = decode_rule draws H (call draws) n rule (g ∷ env)

  abbrev pub element : ℕ → Bytes → Rand Bytes
  element n e = parse_element draws (decoder n) (suc (length e)) e

  -- A rule with one element.
  pub single :
      (rule s bytes : Bytes) (n k k' : ℕ)
      → Says H (g ∷ env) rule s
      → tokens_of s ≡ s ∷ []
      → element n s k ≡ ok (bytes, k')
      → decoder (suc n) rule k ≡ ok (bytes, k')
  single rule s bytes n k k' says split run =
      decode_rule-elements draws H (call draws) n g env rule s ((s, bytes) ∷ []) k k' says split
        (k', run, refl)

  -- The payload, where the rules that the methods replace decode to `id` and `properties`.
  pub payload_run :
      (id properties : Bytes) (n k k' : ℕ)
      → Says H (g ∷ env) (codes "method-payload") (codes "class-id method-id method-properties")
      → Says H (g ∷ env) (codes "class-id") (codes "%x00.0A")
      → decoder (suc (suc n)) (codes "method-id") k ≡ ok (id, k)
      → decoder (suc (suc n)) (codes "method-properties") k ≡ ok (properties, k')
      → decode draws H 0 (suc (suc (suc n))) (codes "method-payload") (g ∷ env) k
        ≡ ok ((0 ∷ 10 ∷ id) ++ properties, k')
  unfolding decode tokens_of parse_element strtok token_end count_occurrences decode_terminal_symbol
      strtol
  payload_run id properties n k k' payload class_id id_run properties_run =
      decode_rule-elements draws H (call draws) (suc (suc n)) g env (codes "method-payload")
        (codes "class-id method-id method-properties")
        ((codes "class-id", 0 ∷ 10 ∷ [])
          ∷ (codes "method-id", id)
          ∷ (codes "method-properties", properties)
          ∷ [])
        k k' payload refl
        (
          k,
          single (codes "class-id") (codes "%x00.0A") (0 ∷ 10 ∷ []) (suc n) k k class_id refl refl,
          (k, id_run, (k', properties_run, refl)),
        )
