-- ===== src/Tests/AvroRecords.antt =====
-- A sample record through the Avro codec.
use pulsar_client_python.Base.{some}
use pulsar_client_python.Python.Result.{ok}
use pulsar_client_python.Python.Value.{Value}
use pulsar_client_python.Schema.Json.Stored.{plain}
use pulsar_client_python.Schema.Avro.{AvroState, Externals}
use pulsar_client_python.Schema.Avro.Stored.{datum}
use pulsar_client_python.Tests.Records.{drawing, sketch}
use pulsar_client_python.Tests.Codecs.{externals, schema_of_point}

abbrev schema_of_drawing : AvroState
schema_of_drawing = record schema_of_point { record_class = some drawing }

-- A `fastavro` that is known at the sketch alone.
abbrev fastavro : Externals
fastavro = record externals { read_datum = λ _ _ _. ok (datum (Value.object drawing plain sketch)) }
