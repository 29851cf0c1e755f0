-- ===== src/Schema/Decoded.antt =====
-- What a record holds that `JsonSchema` or `AvroSchema` decoded, whatever the bytes are.
use pulsar_client_python.Python.Result.{Result}
use pulsar_client_python.Python.Value.{Value}
