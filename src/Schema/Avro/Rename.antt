-- ===== src/Schema/Avro/Rename.antt =====
-- The name of the reader schema in the writer schema, which `_decode_bytes` sets
-- (pulsar/schema/schema_avro.py).
use pulsar_client_python.Base.{
  ◌≡◌, refl, ap, some, str_eq, str_eq_refl, arith, inl, inr, Option-cases, Bool-cases,
}
use pulsar_client_python.Python.Result.{ok}
use pulsar_client_python.Python.Value.{Value, Entries, end, entry}
use pulsar_client_python.Schema.Avro.{get_name, put_name, rename}

put_name-put_name : (name : Value) (d : Entries) → put_name name (put_name name d) ≡ put_name name d
unfolding put_name
put_name-put_name name end = rw (str_eq_refl "name") refl
put_name-put_name name (entry (Value.str k) v d) = elim (Bool-cases (str_eq k "name")) [
  | inl e ↦ rw (e, put_name, e) refl
  | inr e ↦ rw (e, put_name, e, put_name-put_name name d) refl
]
put_name-put_name name (entry k v d) = ap (λ (r : Entries). entry k v r) (put_name-put_name name d)

-- Setting the name again changes nothing.
pub rename-rename :
    (reader writer renamed : Value)
    → rename reader writer ≡ ok renamed
    → rename reader renamed ≡ ok renamed
unfolding rename
rename-rename (Value.dict reader) (Value.dict writer) renamed h =
    elim (Option-cases (get_name reader)) [
      | inl e ↦ ground arith
      | inr (name, e) ↦
          let is : Value.dict (put_name name writer) ≡ renamed = ground arith in
          rw (← is, rename, e)
            (ap (λ (d : Entries). ok (Value.dict d)) (put_name-put_name name writer))
    ]
rename-rename reader writer renamed h = ground arith

put_name-get_name : (d : Entries) (name : Value) → get_name d ≡ some name → put_name name d ≡ d
unfolding get_name put_name
put_name-get_name end name h = cc
put_name-get_name (entry (Value.str k) v d) name h = elim (Bool-cases (str_eq k "name")) [
  | inl e ↦ let is : v ≡ name = ground arith in rw (e, is) refl
  | inr e ↦
      let later : get_name d ≡ some name = ground arith in
      rw (e, put_name-get_name d name later) refl
]
put_name-get_name (entry k v d) name h =
    ap (λ (r : Entries). entry k v r) (put_name-get_name d name h)

pub rename_self :
    (schema : Entries) (name : Value)
    → get_name schema ≡ some name
    → rename (Value.dict schema) (Value.dict schema) ≡ ok (Value.dict schema)
unfolding rename
rename_self schema name h =
    rw (h, rename) (ap (λ (d : Entries). ok (Value.dict d)) (put_name-get_name schema name h))
