-- ===== src/Grammar/Parser/Rules.antt =====
-- What the reader of rules makes of a line and of a value; and it ends on every file.
use amqpgram.Base.{
  ℕ, zero, suc, ◌≡◌, ◌≢◌, ◌<◌, refl, arith, false, List, [], ◌∷◌, ◌++◌, none, some, Bytes, length,
  length-append, map, All, str_eq, str_eq_refl, Option-cases, inl, inr,
}
use amqpgram.Base.Outcome.{ok, stuck, ◌>>=◌}
use amqpgram.CString.{trim_string, strtok}
use amqpgram.CString.Tokens.{Lacks, strtok_lem, strtok_all, length-strtok}
use amqpgram.Grammar.{string_array, new_grammar_entry_t}
use amqpgram.Grammar.Entries.{string_value, array_value, copy_strings-all}
use amqpgram.Grammar.Table.{HashTable}
use amqpgram.Grammar.Lookup.{Grammar, grammar_insert}
use amqpgram.Grammar.Parser.{collect_alternatives, parse_value, populate_line}

-- A text that may stand between two slashes.
abbrev pub IsAlternative : Bytes → Type 0
IsAlternative [] = ⊥
IsAlternative (c ∷ s) = Lacks b'/' (c ∷ s)

-- The alternatives with a slash between each and the next.
abbrev pub join : Bytes → List Bytes → Bytes
join first [] = first
join first (second ∷ others) = first ++ b'/' ∷ join second others

strtok-join_more :
    (first rest : Bytes)
    → IsAlternative first
    → strtok b'/' (first ++ b'/' ∷ rest) ≡ some (first, rest)
strtok-join_more [] rest h = absurd h
strtok-join_more (c ∷ s) rest h = strtok_lem b'/' c s rest h

strtok-join_last : (first : Bytes) → IsAlternative first → strtok b'/' first ≡ some (first, [])
strtok-join_last [] h = absurd h
strtok-join_last (c ∷ s) h = strtok_all b'/' c s h

length-IsAlternative : (s : Bytes) → IsAlternative s → 0 < length s
length-IsAlternative [] h = absurd h
length-IsAlternative (c ∷ s) h = omega arith

collect_none : (fuel : ℕ) → collect_alternatives (suc fuel) [] ≡ ok []
unfolding collect_alternatives strtok
collect_none fuel = refl

collect_lem :
    (first : Bytes) (others : List Bytes) (fuel : ℕ)
    → IsAlternative first
    → All IsAlternative others
    → length (join first others) < fuel
    → collect_alternatives fuel (join first others) ≡ ok (map trim_string (first ∷ others))
unfolding collect_alternatives
collect_lem first others zero h hs room = absurd (omega arith)
collect_lem first [] (suc zero) h hs room = absurd (omega (arith, length-IsAlternative first h))
collect_lem first [] (suc (suc fuel)) h hs room =
    rw (strtok-join_last first h, collect_alternatives) (rw (collect_none fuel))
collect_lem first (second ∷ others) (suc fuel) h (h₂, hs) room = rw (
  strtok-join_more first (join second others) h,
  collect_alternatives,
  collect_lem second others fuel h₂ hs
      (omega (arith, length-append first (b'/' ∷ join second others))),
)

str_eq-longer : (s rest : Bytes) (c : ℕ) → str_eq s (s ++ c ∷ rest) ≡ false
str_eq-longer [] rest c = refl
str_eq-longer (x ∷ s) rest c = ground (arith, str_eq-longer s rest c)

-- A value with no slash is one string.
pub parse_value_single :
    (value : Bytes) → IsAlternative value → parse_value value ≡ ok (string_value value)
unfolding parse_value
parse_value_single value h =
    rw (strtok-join_last value h, parse_value)
      (rw (str_eq_refl value) (unfold new_grammar_entry_t in refl))

pub copied-array :
    (array : List Bytes)
    → new_grammar_entry_t string_array none (some array) (length array) none
      ≡ ok (array_value array)
unfolding new_grammar_entry_t
copied-array array = rw (copy_strings-all array)

-- A value of two or more alternatives with slashes between them is the array of the alternatives,
-- each trimmed, in their order; an alternative is not empty and holds no slash.
pub parse_value-join :
    (first second : Bytes) (others : List Bytes)
    → IsAlternative first
    → IsAlternative second
    → All IsAlternative others
    → parse_value (join first (second ∷ others))
      ≡ ok (array_value (map trim_string (first ∷ second ∷ others)))
unfolding parse_value
parse_value-join first second others h h₂ hs = rw (
  strtok-join_more first (join second others) h,
  parse_value,
  str_eq-longer first (join second others) b'/',
  collect_lem second others (suc (length (join second others))) h₂ hs (omega arith),
  copied-array (map trim_string (first ∷ second ∷ others)),
)

-- A line `key = value ; remark` adds the trimmed key with what its trimmed value is parsed to, if
-- the key is not empty and has no `=`, and the value is not empty and has no `;`.
pub populate_line_lem :
    (H : HashTable) (grammar : Grammar H) (k v : ℕ) (key value remark : Bytes)
    → Lacks b'=' (k ∷ key)
    → Lacks b';' (v ∷ value)
    → populate_line H grammar (k ∷ key ++ b'=' ∷ (v ∷ value ++ b';' ∷ remark)) ≡ (
        parse_value (trim_string (v ∷ value)) >>= λ entry.
        ok (grammar_insert H grammar (trim_string (k ∷ key)) (some entry)))
unfolding populate_line
populate_line_lem H grammar k v key value remark hk hv =
    rw (strtok_lem b'=' k key (v ∷ value ++ b';' ∷ remark) hk, populate_line)
      (rw (strtok_lem b';' v value remark hv, populate_line))

-- The alternatives are collected before the fuel runs out.
pub collect_ne_stuck :
    (fuel : ℕ) (rest : Bytes) → length rest < fuel → collect_alternatives fuel rest ≢ stuck
unfolding collect_alternatives
collect_ne_stuck zero rest h = absurd (omega arith)
collect_ne_stuck (suc fuel) rest h = elim (Option-cases (strtok b'/' rest)) [
  | inl end ↦ rw (end, collect_alternatives) (λ e. cc)
  | inr ((token, rest'), more) ↦
      rw (more, collect_alternatives)
        (ground (arith, collect_ne_stuck fuel rest' (omega (arith, length-strtok b'/' rest more))))
]
