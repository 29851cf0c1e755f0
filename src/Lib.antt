-- ===== src/Lib.antt =====
-- The Python client of Apache Pulsar.
--
-- The package wraps a native client. Its own logic has two parts. The schema package
-- (pulsar/schema) declares classes of records, validates what their instances hold, generates the
-- Avro schema of a class and encodes and decodes values as bytes, texts, JSON and Avro. The API
-- (pulsar/__init__.py) checks the arguments of a call, turns them into a configuration for the
-- native client, and keeps the consumers and readers that are open. The two meet where a producer
-- encodes a message by its schema, where a consumer's message is decoded by it, and where a client
-- is attached to a schema.
--
-- - Base: texts, numbers, lists and options; the integers of Base/Int are those of Python.
-- - Python: what of the language the source uses. Python/Value has the values, with the classes
--   and fields that they carry, Python/Result the exceptions, Python/Utf8 the codec of texts,
--   which is executable.
-- - Definition: pulsar/schema/definition.py. Definition/Field is `Field` and its subclasses:
--   `validate` is `validate_type`, `default` is `default()`, `make_field` is `__init__`.
--   Definition/Record is `Record` and `RecordMeta`: `construct` is `Record.__init__`,
--   `set_attribute` is `__setattr__`, `get_fields` is `_get_fields`, `equal` of
--   Definition/Record/Equality is `__eq__`. Definition/SchemaInfo is `schema_info`: the set
--   `defined_names` is passed on from call to call; Definition/SchemaInfo/Sorting is about
--   `_sorted_fields`. In all of these an instance is a value; Definition/Store has instances at
--   addresses, where those of a class share the sub-record of a field that is not given: `make` is
--   `Record.__init__`, `write` is `__setattr__`. Definition/Field/Typed says what type a field
--   promises, Definition/Field/Element what an `Array`, a `Map` or a `CustomEnum` does with a
--   class or another object in place of what it is to be declared with,
--   Definition/SchemaInfo/Document reads the dict of a schema back.
-- - Schema: Schema/Plain and Schema/Json are pulsar/schema/schema.py, Schema/Avro is
--   pulsar/schema/schema_avro.py. The `json` module and `fastavro` are parameters; `jsonable` is
--   the tree that is handed to the former. The state of an `AvroSchema` is passed on; it records
--   the downloads that were made, and Schema/Avro/Downloads counts them over a sequence of
--   messages. Schema/Avro/Memo has the decoder without a cache, Schema/Avro/Results and
--   Schema/Avro/Delivered are about sequences of messages. Schema/Avro/Threads has threads that
--   decode with one `AvroSchema` at the same time: each reads and writes the shared dicts in
--   steps, and the schedule is any list of turns. Schema/Avro/Stored has the part of a record that
--   Avro keeps, Schema/Decoded what a record holds that was decoded.
-- - Client: pulsar/__init__.py. Client/Argument has the arguments and `_check_type`, Client/Native
--   the calls on a configuration of the native module, which may refuse a value (`Accepts`).
--   Client/Init is `Client.__init__`, with the loggers, Client/Producer is `create_producer`,
--   `send` and `_build_msg`, Client/Consumer is the configuration of `subscribe` and
--   `create_reader`, and Client/Consumer/Registry the list `_consumers` with `close`, `receive`,
--   `batch_receive` and the wrapper of listeners; Client/Consumer/DeadLetter is
--   `ConsumerDeadLetterPolicy`. The state of a client comes back from a method that raises, too;
--   Client/Consumer/Registry/History has sequences of these calls, and Client/Producer/Session
--   those of a producer, with `flush` and `close`.
--   Client/Consumer/KeyShared is `ConsumerKeySharedPolicy`, Client/Consumer/Requests has
--   `acknowledge` and the methods that ask something of the native consumer, Client/Consumer/Batch
--   has `MessageBatch`, Client/MessageId `MessageId`, Client/Authentication the authentication
--   providers and `CryptoKeyReader`. Client/Delivery composes a producer and a consumer that have
--   schemas of any class: `encode_data` encodes by the schema of the producer, and `message_value`,
--   which is `Message.value`, decodes by the schema that the message got from the consumer. What
--   the broker does is a parameter. Client/Delivery/Plain is about one message with a `BytesSchema`
--   or a `StringSchema`, Client/Delivery/Json about one with a `JsonSchema`, Client/Delivery/Avro
--   about sequences of messages with an `AvroSchema` and its cache.
-- - Functions: Functions/Serde is `IdentitySerDe` and `PickleSerDe` of pulsar/functions/serde.py.
--   `pickle` and the texts of numbers are parameters.
-- - Tests: samples, with the theorems at them.
--
-- Every function is total: recursion is on the structure of values, fields and lists. Fuel is used
-- by the reader of Definition/SchemaInfo/Document alone, where the size of the schema is enough.
-- Of an exception its class is kept, not its message. A text is a list of Unicode scalar values. A
-- float is its 64 bits. The native client (src/*.cc), `json`, `fastavro` and `certifi` are
-- parameters. Not modelled: the getters of messages, the policy for batch receiving, the
-- interfaces of pulsar/functions, methods that do nothing but call the native object, as `close`
-- and `shutdown` of `Client` do, and record fields with the name of an option of the instance:
-- `_default`, `_required` and `_required_default`, which `__setattr__` sets without validation.
pub mod Base
pub mod Python
pub mod Definition
pub mod Schema
pub mod Client
pub mod Functions
pub mod Tests
