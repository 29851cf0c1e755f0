-- ===== src/Client/Delivery/Avro.antt =====
-- Records from a producer to a consumer that have an `AvroSchema` of their class: one message after
-- another, with the cache of writer schemas (pulsar/__init__.py, pulsar/schema/schema_avro.py).
use pulsar_client_python.Base.{ℕ, ◌≡◌, Option, some, List, [], ◌∷◌}
use pulsar_client_python.Python.Result.{Result, ok}
use pulsar_client_python.Python.Value.{Value, Attributes, RecordClass}
use pulsar_client_python.Schema.Json.{JsonText}
use pulsar_client_python.Schema.Json.Stored.{plain}
use pulsar_client_python.Schema.Avro.{AvroState, Externals, parse_info}
use pulsar_client_python.Schema.Avro.Stored.{IsStored}
use pulsar_client_python.Schema.Avro.Results.{Message}
use pulsar_client_python.Schema.Avro.Delivered.{Sent, IsSchema}
use pulsar_client_python.Client.Argument.{Arg}
use pulsar_client_python.Client.Native.{Setting, setting, Accepts}
use pulsar_client_python.Client.Producer.{MessageArgs, ProducerHandle, send}
use pulsar_client_python.Client.Consumer.Registry.{Handle, MessageHandle, receive}
use pulsar_client_python.Client.Delivery.{Schemas, encode_data, message_value}

-- The values of messages, read one after another.
unfoldable pub values :
    Externals → JsonText → (ℕ → Message) → List MessageHandle → Schemas → List (Result Value)
values x json seen [] schemas = []
values x json seen (m ∷ ms) schemas =
    let (r, schemas') = message_value x json seen m schemas in r ∷ values x json seen ms schemas'

-- A record on its way: how it is sent and received, with what the native client does at each time.
pub record Trip (N : Type 0) : Type 0 where
  pub attributes : Attributes
  pub args : MessageArgs
  pub id : ℕ
  pub native_send : List Setting → N → Result ℕ × N
  pub before : N
  pub timeout : Arg
  pub native_receive : ℕ → Option Arg → Result ℕ
  pub got : MessageHandle

-- The record with the message that was received.
abbrev pub as_sent : {N : Type 0} → (ℕ → Message) → Trip N → Sent
as_sent seen t = record { attributes = t.attributes; message = seen t.got.native }

-- The record is sent and arrives: `native_send` acknowledges the message as `id`, and what is received
-- has its content. The client fails on its schema version or answers with the schema, up to its name.
pub record IsTrip {N : Type 0} (x : Externals) (json : JsonText) (s : AvroState) (c : RecordClass)
    (accepts : Accepts) (seen : ℕ → Message) (schemas : Schemas) (p : ProducerHandle) (h : Handle)
    (t : Trip N) : Type 0 where
  pub stored : IsStored c t.attributes
  pub sent :
      (send accepts
        (encode_data x json schemas p.schema)
        t.native_send
        (Value.object c plain t.attributes)
        t.args
        t.before).0
      ≡ ok t.id
  pub received : receive t.native_receive h t.timeout ≡ ok t.got
  pub carried :
      (msg : List Setting)
      → (t.native_send msg t.before).0 ≡ ok t.id
      → setting "content" msg ≡ some (Arg.bytes (seen t.got.native).content)
  pub answered :
      IsSchema s.reader_schema
        (parse_info x (x.get_schema_info (seen t.got.native).topic (seen t.got.native).version))
