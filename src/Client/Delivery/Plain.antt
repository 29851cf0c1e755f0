-- ===== src/Client/Delivery/Plain.antt =====
-- A text or bytes from a producer to a consumer that both have a `StringSchema`, or both a `BytesSchema`.
use pulsar_client_python.Base.{ℕ, ◌≡◌, sym, ap, ◌∙◌, Option, some, List, arith}
use pulsar_client_python.Python.Result.{Result, ok}
use pulsar_client_python.Python.Value.{Value, is_instance_of}
use pulsar_client_python.Schema.Plain.{bytes_encode, bytes_decode, string_decode-encode}
use pulsar_client_python.Schema.Avro.{Externals}
use pulsar_client_python.Schema.Avro.Results.{Message}
use pulsar_client_python.Schema.Json.{JsonText}
use pulsar_client_python.Client.Argument.{Arg, Kind}
use pulsar_client_python.Client.Native.{Setting, setting, Accepts}
use pulsar_client_python.Client.Producer.{MessageArgs, ProducerHandle, send}
use pulsar_client_python.Client.Consumer.Registry.{Handle, MessageHandle, receive}
use pulsar_client_python.Client.Delivery.{
  SchemaObject, bytes_schema, string_schema, Schemas, encode_by, decode_by, encode_data,
  message_value, encode-send, message_value-receive,
}

-- The schemas that need no class.
abbrev pub IsPlain : SchemaObject → Type 0
IsPlain bytes_schema = Unit
IsPlain string_schema = Unit
IsPlain _ = ⊥

decode_by-encode_by :
    (x : Externals) (json : JsonText) (k : SchemaObject) (v : Value) (m : Message)
    → IsPlain k
    → encode_by x json k v ≡ ok m.content
    → (decode_by x json k m).0 ≡ ok v
unfolding encode_by decode_by bytes_encode bytes_decode is_instance_of
decode_by-encode_by x json bytes_schema (Value.bytes b) m plain h = ground arith
decode_by-encode_by x json bytes_schema v m plain h = ground arith
decode_by-encode_by x json string_schema v m plain h = string_decode-encode v m.content h
decode_by-encode_by x json k v m plain h = absurd plain

-- What is sent by a producer and received by a consumer, with a timeout or without, that both have a
-- `BytesSchema` or both a `StringSchema`, the same object or another, comes back from `Message.value`
-- as it was given to `send`, if the broker delivers the content of the message that it acknowledged
-- as `id` when it was sent.
pub value-send_plain {ℓ} :
    {N : Type ℓ} (x : Externals) (json : JsonText) (k : SchemaObject) (v : Value)
    (accepts : Accepts) (native_send : List Setting → N → Result ℕ × N) (before : N)
    (native_receive : ℕ → Option Arg → Result ℕ) (seen : ℕ → Message) (schemas : Schemas) (i j : ℕ)
    (p : ProducerHandle) (m : MessageArgs) (id : ℕ) (h : Handle) (timeout : Arg)
    (got : MessageHandle)
    → IsPlain k
    → p.schema ≡ Arg.object Kind.schema i
    → schemas i ≡ k
    → h.schema ≡ some (Arg.object Kind.schema j)
    → schemas j ≡ k
    → (send accepts (encode_data x json schemas p.schema) native_send v m before).0 ≡ ok id
    → receive native_receive h timeout ≡ ok got
    → ((msg : List Setting)
        → (native_send msg before).0 ≡ ok id
        → setting "content" msg ≡ some (Arg.bytes (seen got.native).content))
    → (message_value x json seen got schemas).0 ≡ ok v
value-send_plain x json k v accepts native_send before native_receive seen schemas i j p m id h
      timeout got plain of_producer producers own consumers sent received delivered =
    let encoded =
      encode-send x json accepts native_send before schemas i p.schema v m id
        (seen got.native).content of_producer sent delivered in
    ap (λ r. r.0)
      (message_value-receive x json native_receive seen schemas j h timeout got own received)
    ∙ ap (λ (o : SchemaObject). (decode_by x json o (seen got.native)).0) consumers
    ∙ decode_by-encode_by x json k v (seen got.native) plain
        (sym (ap (λ (o : SchemaObject). encode_by x json o v) producers) ∙ encoded)
