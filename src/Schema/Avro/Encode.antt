-- ===== src/Schema/Avro/Encode.antt =====
-- How `AvroSchema` encodes a record or a dict (pulsar/schema/schema_avro.py).
use pulsar_client_python.Base.{none, some}
use pulsar_client_python.Python.Result.{Result, raise, value_error, ◌>>◌}
use pulsar_client_python.Python.Utf8.{Bytes}
use pulsar_client_python.Python.Value.{
  Value, Values, Entries, Attributes, Options, PyType, end, entry, nil, cons, bare, attribute,
  class_ident, options,
}
use pulsar_client_python.Schema.Plain.{validate_object_type}
use pulsar_client_python.Schema.Avro.{AvroState, Externals}

unfoldable mutual
  -- `_get_serialized_value`: a member of an `Enum` is written by its name, and a record as the dict of
  -- all its attributes.
  pub serialized : Value → Value
  serialized (Value.member m) = Value.str m.name
  serialized (Value.object _ o a) = Value.dict (with_options o (serialized_attributes a))
  serialized (Value.list xs) = Value.list (serialized_items xs)
  serialized (Value.dict d) = Value.dict (serialized_entries d)
  serialized v = v

  pub serialized_items : Values → Values
  serialized_items nil = nil
  serialized_items (cons x xs) = cons (serialized x) (serialized_items xs)

  -- `encode_dict`
  pub serialized_entries : Entries → Entries
  serialized_entries end = end
  serialized_entries (entry k v d) = entry k (serialized v) (serialized_entries d)

  pub serialized_attributes : Attributes → Entries
  serialized_attributes bare = end
  serialized_attributes (attribute k v a) =
      entry (Value.str k) (serialized v) (serialized_attributes a)

  -- The options stand in `__dict__` in front of the attributes.
  pub with_options : Options → Entries → Entries
  with_options (options d rd r) rest = entry (Value.str "_required_default") (serialized rd) (
      entry (Value.str "_default") (serialized d)
        (entry (Value.str "_required") (serialized r) rest))

-- `encode`
unfoldable pub encode : Externals → AvroState → Value → Result Bytes
unfolding serialized validate_object_type
encode x s v = elim s.record_class [
  | some c ↦ do
    validate_object_type (PyType.record_type (class_ident c)) v
    x.write_datum s.reader_schema (serialized v)
  | none ↦ elim v [
    | Value.dict d ↦ x.write_datum s.reader_schema (Value.dict d)
    | _ ↦ raise value_error
  ]
]
