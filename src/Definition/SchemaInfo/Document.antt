-- ===== src/Definition/SchemaInfo/Document.antt =====
-- The dicts and lists of a schema, read by the keys of the Avro specification.
use pulsar_client_python.Base.{
  ℕ, zero, suc, ◌+◌, ◌≤◌, String, ◌≡◌, refl, Bool, true, false, Option, none, some, List, [], ◌∷◌,
  str_eq, if◌then◌else◌, arith,
}
use pulsar_client_python.Python.Value.{Value, Values, Entries, nil, cons, end, entry}
use pulsar_client_python.Definition.SchemaInfo.{
  Avro, Columns, word, enum_of, array_of, map_of, record_of, no_columns, column, texts, to_value,
  column_values,
}

-- `d[key]`
unfoldable find_key : String → Entries → Option Value
find_key key end = none
find_key key (entry (Value.str k) v d) = if str_eq key k then some v else find_key key d
find_key key (entry _ _ d) = find_key key d

abbrev as_text : Option Value → Option String
as_text (some (Value.str s)) = some s
as_text _ = none

abbrev text_at : String → Entries → Option String
text_at key d = as_text (find_key key d)

infixl 51 ◌>>=◌
abbrev ◌>>=◌ {ℓ κ} : {A : Type ℓ} {B : Type κ} → Option A → (A → Option B) → Option B
none >>= f = none
some a >>= f = f a

unfoldable read_texts : Values → Option (List String)
read_texts nil = some []
read_texts (cons (Value.str s) vs) = do ss ← read_texts vs; some (s ∷ ss)
read_texts (cons _ _) = none

abbrev texts_of : Option Value → Option (List String)
texts_of (some (Value.list vs)) = read_texts vs
texts_of _ = none

module _ (parse : Value → Option Avro) where
  -- A list of "null" and a type is that type with `None` allowed.
  abbrev read_type : Value → Option (Bool × Avro)
  read_type (Value.list (cons (Value.str s) (cons t nil))) =
      if str_eq s "null" then (do a ← parse t; some (true, a)) else none
  read_type t = do a ← parse t; some (false, a)

  unfoldable read_fields : Values → Option Columns
  unfolding find_key
  read_fields nil = some no_columns
  read_fields (cons (Value.dict d) vs) = do
    name ← text_at "name" d
    t ← find_key "type" d
    (nullable, a) ← read_type t
    columns ← read_fields vs
    some (column name nullable (find_key "default" d) a columns)
  read_fields (cons _ _) = none

  -- A dict, by its 'type'.
  unfoldable read_complex : String → Entries → Option Avro
  unfolding find_key read_texts read_fields
  read_complex kind d =
      if str_eq kind "enum"
      then (do
        name ← text_at "name" d
        symbols ← texts_of (find_key "symbols" d)
        some (enum_of name symbols))
      else if str_eq kind "array"
      then (do items ← find_key "items" d; a ← parse items; some (array_of a))
      else if str_eq kind "map"
      then (do values ← find_key "values" d; a ← parse values; some (map_of a))
      else if str_eq kind "record"
      then (do
        name ← text_at "name" d
        fields ← fields_of (find_key "fields" d)
        some (record_of name (text_at "namespace" d) fields))
      else none
    where
      fields_of : Option Value → Option Columns
      fields_of (some (Value.list vs)) = read_fields vs
      fields_of _ = none

-- A reader of schemas that are no larger than the number says.
unfoldable pub parse : ℕ → Value → Option Avro
unfolding read_complex find_key
parse zero v = none
parse (suc n) (Value.str s) = some (word s)
parse (suc n) (Value.dict d) = do kind ← text_at "type" d; read_complex (parse n) kind d
parse (suc n) _ = none

abbrev mutual
  pub size : Avro → ℕ
  size (word _) = 1
  size (enum_of _ _) = 1
  size (array_of a) = suc (size a)
  size (map_of a) = suc (size a)
  size (record_of _ _ columns) = suc (size_columns columns)

  size_columns : Columns → ℕ
  size_columns no_columns = 0
  size_columns (column _ _ _ a columns) = size a + size_columns columns

read_texts-texts : (ss : List String) → read_texts (texts ss) ≡ some ss
unfolding read_texts texts
read_texts-texts [] = refl
read_texts-texts (s ∷ ss) = rw (read_texts-texts ss) refl

size_pos : (a : Avro) → 1 ≤ size a
size_pos (word _) = omega arith
size_pos (enum_of _ _) = omega arith
size_pos (array_of a) = omega arith
size_pos (map_of a) = omega arith
size_pos (record_of _ _ rest) = omega arith

-- Only a type that allows null is a list.
read_type-to_value :
    (read : Value → Option Avro) (a : Avro)
    → read_type read (to_value a) ≡ (read (to_value a) >>= λ b. some (false, b))
unfolding to_value
read_type-to_value read (word _) = refl
read_type-to_value read (enum_of _ _) = refl
read_type-to_value read (array_of a) = refl
read_type-to_value read (map_of a) = refl
read_type-to_value read (record_of _ _ rest) = refl

mutual
  unfolding parse to_value str_eq

  parse-to_value' : (n : ℕ) (a : Avro) → size a ≤ n → parse n (to_value a) ≡ some a
  parse-to_value' zero a h = absurd (omega (arith, size_pos a))
  parse-to_value' (suc n) (word s) h = refl
  parse-to_value' (suc n) (enum_of name symbols) h = rw (read_texts-texts symbols) refl
  parse-to_value' (suc n) (array_of a) h = rw (parse-to_value' n a (omega arith)) refl
  parse-to_value' (suc n) (map_of a) h = rw (parse-to_value' n a (omega arith)) refl
  parse-to_value' (suc n) (record_of name none columns) h =
      rw (read_fields-column_values n columns (omega arith)) refl
  parse-to_value' (suc n) (record_of name (some namespace) columns) h =
      rw (read_fields-column_values n columns (omega arith)) refl

  read_fields-column_values :
      (n : ℕ) (columns : Columns)
      → size_columns columns ≤ n
      → read_fields (parse n) (column_values columns) ≡ some columns
  read_fields-column_values n no_columns h = refl
  read_fields-column_values n (column name true none a rest) h =
      rw (parse-to_value' n a (omega arith))
        (rw (read_fields-column_values n rest (omega arith)) refl)
  read_fields-column_values n (column name true (some d) a rest) h =
      rw (parse-to_value' n a (omega arith))
        (rw (read_fields-column_values n rest (omega arith)) refl)
  read_fields-column_values n (column name false none a rest) h =
      rw (read_type-to_value (parse n) a) (
        rw (parse-to_value' n a (omega arith))
          (rw (read_fields-column_values n rest (omega arith)) refl))
  read_fields-column_values n (column name false (some d) a rest) h =
      rw (read_type-to_value (parse n) a) (
        rw (parse-to_value' n a (omega arith))
          (rw (read_fields-column_values n rest (omega arith)) refl))

-- The dict of a schema, read by the keys of the Avro specification, is the schema: the names,
-- namespaces and symbols, the fields in their order, which of them take `None` and which have a
-- default, and what it is. A number that is at least the size of the schema is enough for the reader.
pub parse-to_value : (n : ℕ) (a : Avro) → size a ≤ n → parse n (to_value a) ≡ some a
parse-to_value n a h = parse-to_value' n a h
