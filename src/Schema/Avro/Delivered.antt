-- ===== src/Schema/Avro/Delivered.antt =====
-- Records that are encoded, and decoded as messages with the cache of writer schemas.
use pulsar_client_python.Base.{◌≡◌}
use pulsar_client_python.Python.Result.{Result, ok, raise}
use pulsar_client_python.Python.Value.{Value, Attributes, RecordClass}
use pulsar_client_python.Schema.Json.Stored.{plain}
use pulsar_client_python.Schema.Avro.{AvroState, Externals, parse_info, rename}
use pulsar_client_python.Schema.Avro.Encode.{encode, serialized}
use pulsar_client_python.Schema.Avro.Stored.{datum, IsStored}
use pulsar_client_python.Schema.Avro.Results.{Message}

-- A record that was sent, with its message.
pub record Sent : Type 0 where
  pub attributes : Attributes
  pub message : Message

-- An answer is the schema, up to its name.
abbrev pub IsSchema : Value → Result Value → Type 0
IsSchema schema (raise _) = Unit
IsSchema schema (ok answer) = rename schema answer ≡ ok schema

-- The message holds the encoded record, and the client fails on its version or has the same schema.
abbrev pub IsSent : Externals → AvroState → RecordClass → Sent → Type 0
IsSent x s c d =
    IsStored c d.attributes
    × (encode x s (Value.object c plain d.attributes) ≡ ok d.message.content)
    × IsSchema s.reader_schema (parse_info x (x.get_schema_info d.message.topic d.message.version))

-- `fastavro` reads back what it wrote for this record, without the keys that the schema has no place
-- for.
abbrev pub IsReadBack : Externals → AvroState → RecordClass → Sent → Type 0
IsReadBack x s c d =
    x.write_datum s.reader_schema (serialized (Value.object c plain d.attributes))
      ≡ ok d.message.content
    → x.read_datum d.message.content s.reader_schema s.reader_schema
      ≡ ok (datum (Value.object c plain d.attributes))
