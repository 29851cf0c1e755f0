-- ===== src/Client/Delivery.antt =====
-- Producers and consumers with the schemas that they have: what `Producer._build_msg` encodes a
-- content by, and `Message.value` a message (pulsar/__init__.py, pulsar/schema/schema.py,
-- pulsar/schema/schema_avro.py).
pub mod Plain
pub mod Json
pub mod Avro
use pulsar_client_python.Base.{ℕ, ◌≡◌, refl, ◌∙◌, sym, ap, Option, some, List, inl, inr}
use pulsar_client_python.Python.Result.{
  Result, ok, raise, type_error, attribute_error, ◌>>=◌, >>=-eq-ok, Result-cases,
}
use pulsar_client_python.Python.Utf8.{Bytes}
use pulsar_client_python.Python.Value.{Value, RecordClass}
use pulsar_client_python.Schema.Plain.{bytes_encode, bytes_decode, string_encode, string_decode}
use pulsar_client_python.Schema.Json.{JsonText, json_encode, json_decode}
use pulsar_client_python.Schema.Avro.{AvroState, Externals, decode_message}
use pulsar_client_python.Schema.Avro.Encode.{encode}
use pulsar_client_python.Schema.Avro.Results.{Message}
use pulsar_client_python.Schema.Avro.Threads.{set_at}
use pulsar_client_python.Client.Argument.{Arg, Kind}
use pulsar_client_python.Client.Native.{Setting, setting, Accepts}
use pulsar_client_python.Client.Producer.{MessageArgs, build_msg, hand_over, send}
use pulsar_client_python.Client.Producer.Message.{build_msg-Carries}
use pulsar_client_python.Client.Consumer.Registry.{Handle, MessageHandle, value, receive}
use pulsar_client_python.Client.Consumer.Registry.Messages.{value-receive}

-- An instance of a subclass of `Schema`.
pub data SchemaObject : Type 0 where
  bytes_schema string_schema : SchemaObject
  json_schema : RecordClass → SchemaObject
  avro_schema : AvroState → SchemaObject

-- The schemas, by the identity that they have as an argument.
abbrev pub Schemas : Type 0
Schemas = ℕ → SchemaObject

-- The bytes that `BytesSchema.encode` returns.
abbrev bytes_of : Value → Result Bytes
bytes_of (Value.bytes b) = ok b
bytes_of _ = raise type_error

module _ (x : Externals) (json : JsonText) where
  -- `encode`, by the class of the schema.
  unfoldable pub encode_by : SchemaObject → Value → Result Bytes
  encode_by bytes_schema v = do w ← bytes_encode v; bytes_of w
  encode_by string_schema v = string_encode v
  encode_by (json_schema c) v = json_encode json c v
  encode_by (avro_schema s) v = encode x s v

  -- `decode_message`, by the class of the schema: that of `Schema`, or that of `AvroSchema`, which
  -- changes the schema.
  unfoldable pub decode_by : SchemaObject → Message → Result Value × SchemaObject
  decode_by bytes_schema m = (bytes_decode (Value.bytes m.content), bytes_schema)
  decode_by string_schema m = (string_decode m.content, string_schema)
  decode_by (json_schema c) m = (json_decode json c m.content, json_schema c)
  decode_by (avro_schema s) m =
      let (r, s') = decode_message x m.topic m.version m.content s in (r, avro_schema s')

  -- `self._schema.encode(content)`, as the first argument of the checks of `_build_msg`.
  unfoldable pub encode_data : Schemas → Arg → Value → Result Arg
  unfolding encode_by
  encode_data schemas (Arg.object Kind.schema i) content = do
    b ← encode_by (schemas i) content
    ok (Arg.bytes b)
  encode_data schemas a content = raise attribute_error

  -- `self._schema.decode_message(self._message)`, where `seen` is what a native message says of itself:
  -- `topic_name()`, `int_schema_version()` and `data()`.
  unfoldable pub decode_data : (ℕ → Message) → Schemas → Arg → ℕ → Result Value × Schemas
  unfolding decode_by set_at
  decode_data seen schemas (Arg.object Kind.schema i) native =
      let (r, k) = decode_by (schemas i) (seen native) in (r, set_at i k schemas)
  decode_data seen schemas a native = (raise attribute_error, schemas)

  abbrev pub decoded : Schemas → Result (Result Value × Schemas) → Result Value × Schemas
  decoded schemas (raise e) = (raise e, schemas)
  decoded schemas (ok outcome) = outcome

  -- `Message.value`, with the schemas that it leaves.
  unfoldable pub message_value : (ℕ → Message) → MessageHandle → Schemas → Result Value × Schemas
  unfolding decode_data
  message_value seen m schemas =
      decoded schemas (value (λ schema native. ok (decode_data seen schemas schema native)) m)

  -- The content that arrives is the one that the schema of the producer encoded.
  pub encode-send {ℓ} :
      {N : Type ℓ} (accepts : Accepts) (native_send : List Setting → N → Result ℕ × N) (before : N)
      (schemas : Schemas) (i : ℕ) (schema : Arg) (content : Value) (m : MessageArgs) (id : ℕ)
      (b : Bytes)
      → schema ≡ Arg.object Kind.schema i
      → (send accepts (encode_data schemas schema) native_send content m before).0 ≡ ok id
      → ((msg : List Setting)
          → (native_send msg before).0 ≡ ok id
          → setting "content" msg ≡ some (Arg.bytes b))
      → encode_by (schemas i) content ≡ ok b
  unfolding send encode_data
  encode-send accepts native_send before schemas i schema content m id b is sent delivered =
      elim (Result-cases (build_msg accepts (encode_data schemas schema) content m)) [
        | inr (e, built) ↦ let fails = rw built at sent in cc
        | inl (msg, built) ↦
            let acknowledged = rw built at sent in
            let (body, encoded, _, holds) =
              build_msg-Carries accepts (encode_data schemas schema) content m msg built in
            let by_schema = sym (ap (λ (a : Arg). encode_data schemas a content) is) ∙ encoded in
            let (b', e, wrapped) = >>=-eq-ok (encode_by (schemas i) content) _ by_schema in
            let one : some body ≡ some (Arg.bytes b) =
              cc (holds.content, delivered msg acknowledged) in
            let same : b' ≡ b = cc in rw (← same) e
      ]

  -- A message that was received is decoded by the schema of the consumer.
  pub message_value-receive :
      (native_receive : ℕ → Option Arg → Result ℕ) (seen : ℕ → Message) (schemas : Schemas) (i : ℕ)
      (h : Handle) (timeout : Arg) (got : MessageHandle)
      → h.schema ≡ some (Arg.object Kind.schema i)
      → receive native_receive h timeout ≡ ok got
      → message_value seen got schemas
        ≡ (let (r, k) = decode_by (schemas i) (seen got.native) in (r, set_at i k schemas))
  unfolding message_value decode_data
  message_value-receive native_receive seen schemas i h timeout got own received =
      rw
        (value-receive (λ schema native. ok (decode_data seen schemas schema native)) native_receive
          h timeout (Arg.object Kind.schema i) got own received)
        refl
