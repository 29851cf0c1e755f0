-- ===== src/Definition.antt =====
-- pulsar/schema/definition.py: the declarations of fields, the records that are made of them, and the
-- Avro schema that a class of records stands for.
pub mod Field
pub mod Record
pub mod SchemaInfo
pub mod Store
