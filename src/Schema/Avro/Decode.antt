-- ===== src/Schema/Avro/Decode.antt =====
-- How `decode_message` ends, whatever the client and the cache do.
use pulsar_client_python.Base.{String, ◌≡◌, ◌∙◌, ap, Bool, true, false, arith, inl, inr}
use pulsar_client_python.Base.Int.{ℤ}
use pulsar_client_python.Python.Result.{Result, ok, raise, attribute_error, Result-cases}
use pulsar_client_python.Python.Utf8.{Bytes}
use pulsar_client_python.Python.Value.{Value}
use pulsar_client_python.Schema.Avro.{
  AvroState, Externals, unset, attached, get_writer_schema, download, parse_info, decode_bytes,
  decode, decode_fetched, decode_message,
}

-- No step of the search for a writer schema touches what the reader decodes by.
pub get_writer_schema-reader :
    (x : Externals) (topic : String) (version : ℤ) (s : AvroState)
    → ((get_writer_schema x topic version s).1.reader_schema ≡ s.reader_schema)
      × ((get_writer_schema x topic version s).1.record_class ≡ s.record_class)
unfolding get_writer_schema download
get_writer_schema-reader x topic version s =
    elim (Result-cases (parse_info x (x.get_schema_info topic version))) [
      | inl (schema, p) ↦ ground arith
      | inr (error, p) ↦ ground arith
    ]

pub decode-get_writer_schema :
    (x : Externals) (topic : String) (version : ℤ) (b : Bytes) (s : AvroState)
    → decode x (get_writer_schema x topic version s).1 b ≡ decode x s b
unfolding decode
decode-get_writer_schema x topic version b s =
    let (schema, class) = get_writer_schema-reader x topic version s in rw (schema, class)

abbrev Succeeds : Result Value → Type 0
Succeeds r = (v : Value) × (r ≡ ok v)

decode_fetched_total :
    (x : Externals) (topic : String) (version : ℤ) (b : Bytes) (r : Result Value) (s : AvroState)
    (v : Value)
    → decode x s b ≡ ok v
    → Succeeds (decode_fetched x topic version b (r, s)).0
decode_fetched_total x topic version b (raise e) s v h = (v, h)
decode_fetched_total x topic version b (ok writer) s v h =
    elim (Result-cases (decode_bytes x s b writer)) [
      | inl (w, e) ↦ (w, rw e)
      | inr (error, e) ↦ (v, rw e h)
    ]

pub decode_message-fetched :
    (x : Externals) (topic : String) (version : ℤ) (b : Bytes) (s : AvroState)
    → s.client ≡ attached true
    → decode_message x topic version b s
      ≡ decode_fetched x topic version b (get_writer_schema x topic version s)
unfolding decode_message
decode_message-fetched x topic version b s c = simp (c, decode_message)

-- A message that the reader schema alone can decode is always decoded, if a client is attached, `None`
-- included: no error of the download, of the schema that it brings or of the decoding by it is raised.
pub decode_message_total :
    (x : Externals) (topic : String) (version : ℤ) (b : Bytes) (s : AvroState) (present : Bool)
    (v : Value)
    → s.client ≡ attached present
    → decode x s b ≡ ok v
    → (w : Value) × ((decode_message x topic version b s).0 ≡ ok w)
unfolding decode_message
decode_message_total x topic version b s true v c h =
    let (w, e) =
      decode_fetched_total x topic version b (get_writer_schema x topic version s).0
        (get_writer_schema x topic version s).1 v
        (decode-get_writer_schema x topic version b s ∙ h) in
    (w, ap (λ r. r.0) (decode_message-fetched x topic version b s c) ∙ e)
decode_message_total x topic version b s false v c h = (v, rw (c, decode_message) h)

-- An instance that no client was attached to cannot decode a message: the test for a client that is
-- `None` raises `AttributeError`, for the attribute is not there.
pub decode_message-unset :
    (x : Externals) (topic : String) (version : ℤ) (b : Bytes) (s : AvroState)
    → s.client ≡ unset
    → decode_message x topic version b s ≡ (raise attribute_error, s)
unfolding decode_message
decode_message-unset x topic version b s c = simp (c, decode_message)
