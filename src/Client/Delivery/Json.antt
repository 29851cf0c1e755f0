-- ===== src/Client/Delivery/Json.antt =====
-- A record from a producer to a consumer that have the `JsonSchema` of its class.
use pulsar_client_python.Base.{ℕ, ◌≡◌, refl, sym, ap, ◌∙◌, Option, some, List}
use pulsar_client_python.Python.Result.{Result, ok}
use pulsar_client_python.Python.Value.{Value, Attributes, RecordClass}
use pulsar_client_python.Schema.Avro.{Externals}
use pulsar_client_python.Schema.Avro.Results.{Message}
use pulsar_client_python.Schema.Json.{JsonText, json_encode, json_decode, jsonable}
use pulsar_client_python.Schema.Json.Stored.{plain, IsStored, IsJson}
use pulsar_client_python.Schema.Json.RoundTrip.{json_decode-encode}
use pulsar_client_python.Client.Argument.{Arg, Kind}
use pulsar_client_python.Client.Native.{Setting, setting, Accepts}
use pulsar_client_python.Client.Producer.{MessageArgs, ProducerHandle, send}
use pulsar_client_python.Client.Consumer.Registry.{Handle, MessageHandle, receive}
use pulsar_client_python.Client.Delivery.{
  Schemas, json_schema, encode_by, decode_by, encode_data, message_value, encode-send,
  message_value-receive,
}

encode_by-json :
    (x : Externals) (json : JsonText) (schemas : Schemas) (i : ℕ) (c : RecordClass) (v : Value)
    → schemas i ≡ json_schema c
    → encode_by x json (schemas i) v ≡ json_encode json c v
unfolding encode_by
encode_by-json x json schemas i c v is = rw is refl

decode_by-json :
    (x : Externals) (json : JsonText) (schemas : Schemas) (i : ℕ) (c : RecordClass) (m : Message)
    → schemas i ≡ json_schema c
    → (decode_by x json (schemas i) m).0 ≡ json_decode json c m.content
unfolding decode_by
decode_by-json x json schemas i c m is = rw is refl

-- A record whose attributes are stored as `IsStored` says is sent by a producer and received by a
-- consumer, with a timeout or without, where the schema of each is a `JsonSchema` of the class of the
-- record, the same or another: `Message.value`, by the schema that the message got from the consumer,
-- is the same record. The broker is assumed to deliver the content of the message that it acknowledged
-- as `id` when it was sent, and the `json` module to read back the tree that it is given for this
-- record, which is one of JSON.
pub value-send {ℓ} :
    {N : Type ℓ} (x : Externals) (json : JsonText) (c : RecordClass) (a : Attributes)
    (accepts : Accepts) (native_send : List Setting → N → Result ℕ × N) (before : N)
    (native_receive : ℕ → Option Arg → Result ℕ) (seen : ℕ → Message) (schemas : Schemas) (i j : ℕ)
    (p : ProducerHandle) (m : MessageArgs) (id : ℕ) (h : Handle) (timeout : Arg)
    (got : MessageHandle)
    → ((tree : Value)
        → jsonable json (Value.object c plain a) ≡ ok tree
        → IsJson tree
        → json.loads (json.dumps tree) ≡ ok tree)
    → IsStored c a
    → p.schema ≡ Arg.object Kind.schema i
    → schemas i ≡ json_schema c
    → h.schema ≡ some (Arg.object Kind.schema j)
    → schemas j ≡ json_schema c
    → (send accepts
        (encode_data x json schemas p.schema)
        native_send
        (Value.object c plain a)
        m
        before).0
      ≡ ok id
    → receive native_receive h timeout ≡ ok got
    → ((msg : List Setting)
        → (native_send msg before).0 ≡ ok id
        → setting "content" msg ≡ some (Arg.bytes (seen got.native).content))
    → (message_value x json seen got schemas).0 ≡ ok (Value.object c plain a)
value-send x json c a accepts native_send before native_receive seen schemas i j p m id h timeout
      got reads stored of_producer producers own consumers sent received delivered =
    let v = Value.object c plain a in
    let encoded =
      sym (encode_by-json x json schemas i c v producers)
      ∙ encode-send x json accepts native_send before schemas i p.schema v m id
          (seen got.native).content of_producer sent delivered in
    let (b, e, back) = json_decode-encode json c a reads stored in
    let same : b ≡ (seen got.native).content = cc in
    ap (λ r. r.0)
      (message_value-receive x json native_receive seen schemas j h timeout got own received)
    ∙ decode_by-json x json schemas j c (seen got.native) consumers
    ∙ (rw (← same) back)
