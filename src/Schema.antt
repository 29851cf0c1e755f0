-- ===== src/Schema.antt =====
-- The codecs of messages: pulsar/schema/schema.py and pulsar/schema/schema_avro.py.
pub mod Plain
pub mod Json
pub mod Avro
pub mod Decoded
