-- ===== src/Grammar/Table.antt =====
-- GLib's hash table, which is not part of the repository: the operations that the program uses,
-- with what GLib's manual says of them; and a list of pairs that has these properties.
use amqpgram.Base.{
  ◌≡◌, refl, Bool, false, ◌||◌, List, [], ◌∷◌, Option, none, if◌then◌else◌, Bytes, str_eq,
  str_eq_refl, str_eq→eq, arith, Bool-cases, inl, inr,
}
use amqpgram.Grammar.{GrammarEntry}

abbrev pub member : Bytes → List Bytes → Bool
member k [] = false
member k (j ∷ js) = str_eq j k || member k js

-- A value is a pointer, and `lookup` answers NULL for a key that is missing. Keys are compared
-- as strings.
pub record HashTable : Type 1 where
  pub Table : Type 0
  pub new_table : Table
  pub lookup : Table → Bytes → Option GrammarEntry
  pub insert : Table → Bytes → Option GrammarEntry → Table
  pub has : Table → Bytes → Bool
  pub keys : Table → List Bytes
  pub lookup-new_table : (k : Bytes) → lookup new_table k ≡ none
  pub lookup-insert :
      (t : Table) (k : Bytes) (v : Option GrammarEntry) (j : Bytes)
      → lookup (insert t k v) j ≡ (if str_eq k j then v else lookup t j)
  pub has-lookup : (t : Table) (k : Bytes) → has t k ≡ false → lookup t k ≡ none
  pub member-keys : (t : Table) (k : Bytes) → member k (keys t) ≡ has t k

abbrev pub Pairs : Type 0
Pairs = List (Bytes × Option GrammarEntry)

abbrev pub lookup_pairs : Pairs → Bytes → Option GrammarEntry
lookup_pairs [] k = none
lookup_pairs ((j, v) ∷ t) k = if str_eq j k then v else lookup_pairs t k

-- The key that is there stays; only its value is replaced.
abbrev pub insert_pairs : Pairs → Bytes → Option GrammarEntry → Pairs
insert_pairs [] k v = (k, v) ∷ []
insert_pairs ((j, w) ∷ t) k v = if str_eq j k then (j, v) ∷ t else (j, w) ∷ insert_pairs t k v

abbrev pub has_pairs : Pairs → Bytes → Bool
has_pairs [] k = false
has_pairs ((j, v) ∷ t) k = str_eq j k || has_pairs t k

abbrev pub keys_pairs : Pairs → List Bytes
keys_pairs [] = []
keys_pairs ((j, v) ∷ t) = j ∷ keys_pairs t

pub lookup-insert_pairs :
    (t : Pairs) (k : Bytes) (v : Option GrammarEntry) (j : Bytes)
    → lookup_pairs (insert_pairs t k v) j ≡ (if str_eq k j then v else lookup_pairs t j)
lookup-insert_pairs [] k v j = refl
lookup-insert_pairs ((i, w) ∷ t) k v j = elim (Bool-cases (str_eq i k)) [
  | inl same ↦ rw (same, str_eq→eq i k same) (ground arith)
  | inr other ↦
      rw (other, lookup-insert_pairs t k v j)
        (elim (Bool-cases (str_eq k j)) [
          | inl here ↦ rw (← str_eq→eq k j here, other, str_eq_refl k)
          | inr there ↦ rw there
        ])
]

pub has-lookup_pairs : (t : Pairs) (k : Bytes) → has_pairs t k ≡ false → lookup_pairs t k ≡ none
has-lookup_pairs [] k h = refl
has-lookup_pairs ((j, v) ∷ t) k h = ground (arith, has-lookup_pairs t k)

pub member-keys_pairs : (t : Pairs) (k : Bytes) → member k (keys_pairs t) ≡ has_pairs t k
member-keys_pairs [] k = refl
member-keys_pairs ((j, v) ∷ t) k = rw (member-keys_pairs t k)

abbrev pub pair_table : HashTable
pair_table = record {
  Table = Pairs;
  new_table = [];
  lookup = lookup_pairs;
  insert = insert_pairs;
  has = has_pairs;
  keys = keys_pairs;
  lookup-new_table = λ k. refl;
  lookup-insert = lookup-insert_pairs;
  has-lookup = has-lookup_pairs;
  member-keys = member-keys_pairs;
}
