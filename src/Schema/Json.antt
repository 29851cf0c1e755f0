-- ===== src/Schema/Json.antt =====
-- `JsonSchema` (pulsar/schema/schema.py). `json.dumps` makes texts of trees of texts, numbers, lists and
-- dicts, and calls `_get_serialized_value` for the rest; `jsonable` is the tree that it writes.
pub mod Stored
pub mod Atoms
pub mod Arguments
pub mod Objects
pub mod RoundTrip
use pulsar_client_python.Base.{
  String, Bool, true, false, List, [], ◌∷◌, contains, if◌then◌else◌, ◌≡◌,
}
use pulsar_client_python.Python.Result.{
  Result, ok, raise, type_error, unicode_error, ◌>>=◌, ◌>>◌, or_raise,
}
use pulsar_client_python.Python.Utf8.{Bytes, decode}
use pulsar_client_python.Python.Value.{
  Literal, Value, Values, Entries, Attributes, RecordClass, nil, cons, end, entry, bare, attribute,
  PyType, class_ident,
}
use pulsar_client_python.Definition.Record.{keywords, construct}
use pulsar_client_python.Schema.Plain.{validate_object_type}

abbrev pub reserved : List String
reserved = "_default" ∷ "_required" ∷ "_required_default" ∷ []

abbrev pub literal : Literal → Value
literal (Literal.int n) = Value.int n
literal (Literal.str s) = Value.str s

-- The `json` module, as far as the tree does not show it: how a key of a dict that is no text is written,
-- the text of a tree as UTF-8, and the tree that such bytes are read as.
pub record JsonText : Type 0 where
  pub key_text : Value → Result String
  pub dumps : Value → Bytes
  pub loads : Bytes → Result Value

abbrev json_key : JsonText → Value → Result String
json_key json (Value.str s) = ok s
json_key json k = json.key_text k

module _ (json : JsonText) where
  unfoldable mutual
    -- `json.dumps` with `default=_get_serialized_value`.
    pub jsonable : Value → Result Value
    jsonable Value.null = ok Value.null
    jsonable (Value.bool b) = ok (Value.bool b)
    jsonable (Value.int n) = ok (Value.int n)
    jsonable (Value.float bits) = ok (Value.float bits)
    jsonable (Value.str s) = ok (Value.str s)
    jsonable (Value.bytes b) = do s ← or_raise (decode b) unicode_error; ok (Value.str s)
    jsonable (Value.list xs) = do ys ← jsonable_items xs; ok (Value.list ys)
    jsonable (Value.dict d) = do e ← jsonable_entries d; ok (Value.dict e)
    jsonable (Value.member m) = ok (literal m.value)
    jsonable (Value.object _ _ a) = do d ← jsonable_attributes a; ok (Value.dict d)

    pub jsonable_items : Values → Result Values
    jsonable_items nil = ok nil
    jsonable_items (cons x xs) = do y ← jsonable x; ys ← jsonable_items xs; ok (cons y ys)

    pub jsonable_entries : Entries → Result Entries
    jsonable_entries end = ok end
    jsonable_entries (entry k v d) = do
      s ← json_key json k
      w ← jsonable v
      e ← jsonable_entries d
      ok (entry (Value.str s) w e)

    -- The copy of `__dict__` behind `remove_reserved_key`: the three options and any attribute of such
    -- a name are left out.
    pub jsonable_attributes : Attributes → Result Entries
    jsonable_attributes bare = ok end
    jsonable_attributes (attribute k v a) =
        let rest = jsonable_attributes a in
        if contains k reserved
        then rest
        else do w ← jsonable v; e ← rest; ok (entry (Value.str k) w e)

  -- `JsonSchema.encode`
  unfoldable pub json_encode : RecordClass → Value → Result Bytes
  unfolding validate_object_type
  json_encode c v = do
    validate_object_type (PyType.record_type (class_ident c)) v
    tree ← jsonable v
    ok (json.dumps tree)

  -- `self._record_cls(**tree)`
  unfoldable pub from_tree : RecordClass → Value → Result Value
  from_tree c (Value.dict d) = do kwargs ← keywords d; construct c kwargs
  from_tree c _ = raise type_error

  -- `JsonSchema.decode`
  unfoldable pub json_decode : RecordClass → Bytes → Result Value
  unfolding from_tree
  json_decode c b = do tree ← json.loads b; from_tree c tree
