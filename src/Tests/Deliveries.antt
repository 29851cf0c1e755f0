-- ===== src/Tests/Deliveries.antt =====
-- A sample record, sent by a producer and received by a consumer.
use pulsar_client_python.Base.{ℕ, ◌≡◌, refl, true, Option, some, List, [], ◌∷◌, str_eq}
use pulsar_client_python.Python.Result.{Result, ok, raise, foreign}
use pulsar_client_python.Python.Utf8.{decode, encode}
use pulsar_client_python.Python.Value.{Value, is_instance_of}
use pulsar_client_python.Schema.Json.{json_encode, jsonable}
use pulsar_client_python.Schema.Json.Stored.{plain}
use pulsar_client_python.Client.Argument.{Arg, Kind, is_instance, run_checks, truthy}
use pulsar_client_python.Client.Native.{
  Setting, setting, configure, properties_calls, property_calls, set_each,
}
use pulsar_client_python.Client.Producer.{send, message_checks, message_settings}
use pulsar_client_python.Client.Consumer.Registry.{Handle, receive}
use pulsar_client_python.Client.Delivery.{
  Schemas, string_schema, json_schema, message_value, encode_data, encode_by,
}
use pulsar_client_python.Client.Delivery.Json.{value-send}
use pulsar_client_python.Client.Delivery.Plain.{value-send_plain}
use pulsar_client_python.Schema.Plain.{string_encode}
use pulsar_client_python.Tests.AvroDeliveries.{echo, echo-content}
use pulsar_client_python.Schema.Avro.Results.{Message}
use pulsar_client_python.Base.{suc, zero}
use pulsar_client_python.Base.Int.{pos}
use pulsar_client_python.Tests.AvroMessages.{numbers}
use pulsar_client_python.Client.Producer.{ProducerHandle}
use pulsar_client_python.Tests.Records.{drawing, sketch}
use pulsar_client_python.Tests.Codecs.{json, sketch_written, sketch-IsStored}
use pulsar_client_python.Tests.Producers.{takes_all, message_args}

-- A broker that takes messages with an empty content only, and gives each the id 1.
abbrev acknowledged : Option Arg → Result ℕ
acknowledged (some (Arg.bytes [])) = ok 1
acknowledged _ = raise foreign

-- It counts what it is given.
abbrev broker : List Setting → ℕ → Result ℕ × ℕ
broker msg n = (acknowledged (setting "content" msg), suc n)

acknowledged-content : (o : Option Arg) → acknowledged o ≡ ok 1 → o ≡ some (Arg.bytes [])
acknowledged-content (some (Arg.bytes [])) h = refl
acknowledged-content o h = cc

-- The first schema is one of texts, all others are of drawings.
schemas : Schemas
schemas zero = string_schema
schemas (suc _) = json_schema drawing

abbrev producer : ProducerHandle
producer = record { id = 5; schema = Arg.object Kind.schema 2 }

abbrev consumer : Handle
consumer = record {
  id = 0;
  native = 7;
  has_client = true;
  schema = some (Arg.object Kind.schema 3);
}

abbrev empty_message : ℕ → Message
empty_message _ = record { topic = "t"; version = pos 0; content = [] }

value-send_example :
    (message_value numbers json empty_message
      (record { native = 8; schema = some (Arg.object Kind.schema 3) })
      schemas).0
    ≡ ok (Value.object drawing plain sketch)
unfolding send json_encode is_instance_of jsonable str_eq decode encode run_checks message_checks
    is_instance configure message_settings properties_calls property_calls set_each truthy setting
    receive schemas encode_data encode_by
value-send_example =
    value-send numbers json drawing sketch takes_all broker 0 (λ _ _. ok 8) empty_message schemas 2
      3 producer message_args 1 consumer Arg.none
      (record { native = 8; schema = some (Arg.object Kind.schema 3) })
      (λ tree e _. cc (sketch_written, e)) sketch-IsStored refl refl refl refl refl refl
      (λ msg e. acknowledged-content (setting "content" msg) e)

-- A broker that takes the byte 104 only, in a message with that byte.
abbrev letter_broker : List Setting → ℕ → Result ℕ × ℕ
letter_broker msg n = (echo 104 (setting "content" msg), suc n)

abbrev letter : ℕ → Message
letter _ = record { topic = "t"; version = pos 0; content = 104 ∷ [] }

abbrev text_producer : ProducerHandle
text_producer = record { id = 6; schema = Arg.object Kind.schema 0 }

abbrev text_consumer : Handle
text_consumer = record {
  id = 1;
  native = 8;
  has_client = true;
  schema = some (Arg.object Kind.schema 0);
}

value-send_plain_example :
    (message_value numbers json letter
      (record { native = 9; schema = some (Arg.object Kind.schema 0) })
      schemas).0
    ≡ ok (Value.str "h")
unfolding send is_instance_of str_eq decode encode run_checks message_checks is_instance configure
    message_settings properties_calls property_calls set_each truthy setting receive schemas
    encode_data encode_by string_encode echo
value-send_plain_example =
    value-send_plain numbers json string_schema (Value.str "h") takes_all letter_broker 0
      (λ _ _. ok 9) letter schemas 0 0 text_producer message_args 104 text_consumer Arg.none
      (record { native = 9; schema = some (Arg.object Kind.schema 0) }) tt refl refl refl refl refl
      refl (λ msg e. echo-content 104 (setting "content" msg) e)
