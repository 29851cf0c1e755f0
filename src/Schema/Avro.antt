-- ===== src/Schema/Avro.antt =====
-- `AvroSchema` (pulsar/schema/schema_avro.py): the cache of writer schemas, and how a message is decoded.
-- What `fastavro`, the `json` module and the native client do is a parameter.
pub mod Cache
pub mod Decode
pub mod Encode
pub mod Stored
pub mod Objects
pub mod RoundTrip
pub mod Downloads
pub mod Rename
pub mod Memo
pub mod Results
pub mod Delivered
pub mod Threads
use pulsar_client_python.Base.{
  String, ◌≡◌, Bool, true, false, Option, none, some, List, [], ◌∷◌, ◌++◌, str_eq, if◌then◌else◌,
}
use pulsar_client_python.Base.Int.{ℤ, int_eq}
use pulsar_client_python.Python.Result.{
  Result, ok, raise, attribute_error, runtime_error, type_error, value_error, assertion_error,
  ◌>>=◌, ◌>>◌, raise_if,
}
use pulsar_client_python.Python.Utf8.{Bytes}
use pulsar_client_python.Python.Value.{
  Value, Values, Entries, Attributes, Options, RecordClass, PyType, end, entry, nil, cons, bare,
  attribute, is_none, class_ident, options,
}
use pulsar_client_python.Definition.Record.{keywords, construct}
use pulsar_client_python.Schema.Plain.{validate_object_type}

-- A dict of Python, in the order of insertion, by the test of its keys.
module _ {K V : Type 0} (same : K → K → Bool) where
  unfoldable pub get : K → List (K × V) → Option V
  get k [] = none
  get k ((j, v) ∷ d) = if same k j then some v else get k d

  unfoldable pub put : K → V → List (K × V) → List (K × V)
  put k v [] = (k, v) ∷ []
  put k v ((j, w) ∷ d) = if same k j then (j, v) ∷ d else (j, w) ∷ put k v d

abbrev pub Versions : Type 0
Versions = List (ℤ × Value)

-- The attribute `_client`, which only `attach_client` sets.
pub data ClientAttribute : Type 0 where
  unset : ClientAttribute
  attached : Bool → ClientAttribute

-- The attributes of an `AvroSchema`, with the calls of `get_schema_info` that it has made. `attached
-- false` is `_client = None`.
pub record AvroState : Type 0 where
  pub record_class : Option RecordClass
  pub reader_schema : Value
  pub writer_schemas : List (String × Versions)
  pub client : ClientAttribute
  pub downloads : List (String × ℤ)

-- What `get_schema_info` returns: whether the type of the schema is AVRO, and its text.
pub record SchemaInfo : Type 0 where
  pub is_avro : Bool
  pub definition : String

pub record Externals : Type 0 where
  pub get_schema_info : String → ℤ → Result SchemaInfo
  pub loads : String → Result Value
  -- `fastavro.schemaless_reader(buffer, writer_schema, reader_schema)`
  pub read_datum : Bytes → Value → Value → Result Value
  -- `fastavro.schemaless_writer(buffer, schema, datum)`
  pub write_datum : Value → Value → Result Bytes
  -- `_pulsar.SchemaInfo(schema_type, schema_name, json.dumps(schema_definition, indent=True))`
  pub make_schema_info : Value → Result (Unit {0})

abbrev pub Action : Type 0 → Type 0
Action A = AvroState → Result A × AvroState

-- `self._writer_schemas.get(topic)`, an empty dict if there is none.
unfoldable pub versions_of : String → List (String × Versions) → Versions
unfolding get
versions_of topic d = elim (get str_eq topic d) [ none ↦ [] | some versions ↦ versions ]

-- The first two lines of `_get_writer_schema`.
unfoldable pub touch : String → List (String × Versions) → List (String × Versions)
unfolding get put
touch topic d = elim (get str_eq topic d) [ none ↦ put str_eq topic [] d | some _ ↦ d ]

-- `self._writer_schemas[topic].get(version)`; a `None` that is stored is as none.
abbrev found : Option Value → Option Value
found none = none
found (some v) = if is_none v then none else some v

unfoldable pub cached : String → ℤ → List (String × Versions) → Option Value
unfolding versions_of get
cached topic version d = found (get int_eq version (versions_of topic d))

-- `self._writer_schemas[topic][version] = schema`
unfoldable pub store : String → ℤ → Value → List (String × Versions) → List (String × Versions)
unfolding put versions_of
store topic version schema d = put str_eq topic (put int_eq version schema (versions_of topic d)) d

-- The schema that a download is parsed to.
unfoldable pub parse_info : Externals → Result SchemaInfo → Result Value
parse_info x r = do
  info ← r
  raise_if (if info.is_avro then false else true) runtime_error
  x.loads info.definition

abbrev keep_download : String → ℤ → Result Value → AvroState → Result Value × AvroState
keep_download topic version (raise e) s = (raise e, s)
keep_download topic version (ok schema) s =
    (ok schema, record s { writer_schemas = store topic version schema s.writer_schemas })

-- The download, behind the miss of the cache.
unfoldable pub download : Externals → String → ℤ → Action Value
unfolding parse_info store
download x topic version s =
    keep_download topic version (parse_info x (x.get_schema_info topic version))
      (record s { downloads = (topic, version) ∷ s.downloads })

-- What a miss does, by the client.
abbrev miss : Externals → String → ℤ → ClientAttribute → Action Value
miss x topic version unset s = (raise attribute_error, s)
miss x topic version (attached false) s = (ok s.reader_schema, s)
miss x topic version (attached true) s = download x topic version s

-- `_get_writer_schema`
unfoldable pub get_writer_schema : Externals → String → ℤ → Action Value
unfolding touch cached download
get_writer_schema x topic version s =
    let touched = record s { writer_schemas = touch topic s.writer_schemas } in
    elim (cached topic version touched.writer_schemas) [
      | some schema ↦ (ok schema, touched)
      | none ↦ miss x topic version s.client touched
    ]

-- `d['name']`, of a dict.
unfoldable pub get_name : Entries → Option Value
get_name end = none
get_name (entry (Value.str k) v d) = if str_eq k "name" then some v else get_name d
get_name (entry _ _ d) = get_name d

unfoldable pub put_name : Value → Entries → Entries
put_name v end = entry (Value.str "name") v end
put_name v (entry (Value.str k) w d) =
    if str_eq k "name" then entry (Value.str k) v d else entry (Value.str k) w (put_name v d)
put_name v (entry k w d) = entry k w (put_name v d)

-- `writer_schema['name'] = reader_schema['name']`: the writer schema that the name leaves. Neither value
-- needs to be a dict with a name; `KeyError` and `TypeError` are not told apart.
unfoldable pub rename : Value → Value → Result Value
unfolding get_name put_name
rename (Value.dict reader) (Value.dict writer) = elim (get_name reader) [
  | none ↦ raise type_error
  | some name ↦ ok (Value.dict (put_name name writer))
]
rename reader writer = raise type_error

-- What the datum is turned into: a record of the class, if there is one.
unfoldable pub as_record : Option RecordClass → Value → Result Value
as_record none d = ok d
as_record (some c) (Value.dict d) = do kwargs ← keywords d; construct c kwargs
as_record (some c) _ = raise type_error

-- `_decode_bytes`, by the reader schema and a writer schema.
unfoldable pub decode_bytes : Externals → AvroState → Bytes → Value → Result Value
unfolding rename as_record
decode_bytes x s b writer = do
  renamed ← rename s.reader_schema writer
  d ← x.read_datum b renamed s.reader_schema
  as_record s.record_class d

-- `decode`
unfoldable pub decode : Externals → AvroState → Bytes → Result Value
unfolding decode_bytes
decode x s b = decode_bytes x s b s.reader_schema

-- The cached dict is the writer schema itself, so the name is set in the cache too.
abbrev pub renamed_in_cache : String → ℤ → Value → AvroState → AvroState
renamed_in_cache topic version writer s = elim (cached topic version s.writer_schemas) [
  | none ↦ s
  | some _ ↦ elim (rename s.reader_schema writer) [
    | raise _ ↦ s
    | ok renamed ↦ record s { writer_schemas = store topic version renamed s.writer_schemas }
  ]
]

abbrev pub or_else : Result Value → Result Value → Result Value
or_else (ok v) other = ok v
or_else (raise _) other = other

-- The `try` block, and the decoding by the reader schema alone if it raises.
abbrev pub decode_fetched :
    Externals → String → ℤ → Bytes → Result Value × AvroState → Result Value × AvroState
decode_fetched x topic version b (raise _, s) = (decode x s b, s)
decode_fetched x topic version b (ok writer, s) =
    (or_else (decode_bytes x s b writer) (decode x s b), renamed_in_cache topic version writer s)

-- `decode_message`, of a message with this topic, schema version and content.
unfoldable pub decode_message : Externals → String → ℤ → Bytes → Action Value
unfolding get_writer_schema decode
decode_message x topic version b s = elim s.client [
  | unset ↦ (raise attribute_error, s)
  | attached present ↦
      if present
      then decode_fetched x topic version b (get_writer_schema x topic version s)
      else (decode x s b, s)
]

-- The state that `AvroSchema.__init__` leaves, behind `Schema.__init__`.
abbrev pub new_avro : Option RecordClass → Value → AvroState
new_avro c schema = record {
  record_class = c;
  reader_schema = schema;
  writer_schemas = [];
  client = unset;
  downloads = [];
}

-- `AvroSchema.__init__`: the record class, with the schema that it stands for, or a definition alone.
-- `Schema.__init__` dumps the schema and makes the native `SchemaInfo`; either may raise.
unfoldable pub init_avro : Externals → Option (RecordClass × Value) → Value → Result AvroState
init_avro x none definition =
    if is_none definition
    then raise assertion_error
    else (do x.make_schema_info definition; ok (new_avro none definition))
init_avro x (some (c, schema)) definition = do
  x.make_schema_info schema
  ok (new_avro (some c) schema)

-- `attach_client`
unfoldable pub attach_client : Bool → AvroState → AvroState
attach_client present s = record s { client = attached present }
