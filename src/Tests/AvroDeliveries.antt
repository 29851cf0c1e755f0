-- ===== src/Tests/AvroDeliveries.antt =====
-- Sample records, sent by a producer and received by a consumer with one `AvroSchema`.
use pulsar_client_python.Base.{
  ℕ, zero, suc, ◌≡◌, refl, true, Option, some, [], ◌∷◌, if◌then◌else◌, ◌==◌, ==_iff, inl, inr,
  Bool-cases, arith,
}
use pulsar_client_python.Base.Int.{pos}
use pulsar_client_python.Python.Result.{Result, ok, raise, foreign}
use pulsar_client_python.Python.Value.{Value}
use pulsar_client_python.Schema.Avro.{attach_client}
use pulsar_client_python.Schema.Avro.Results.{Message}
use pulsar_client_python.Client.Argument.{Arg, Kind}
use pulsar_client_python.Client.Native.{setting}
use pulsar_client_python.Client.Consumer.Registry.{Handle, MessageHandle}
use pulsar_client_python.Client.Producer.{ProducerHandle}
use pulsar_client_python.Client.Delivery.{Schemas, string_schema, avro_schema}
use pulsar_client_python.Client.Delivery.Avro.{Trip}
use pulsar_client_python.Tests.AvroMessages.{count, counters}
use pulsar_client_python.Tests.Producers.{message_args}

-- A broker that takes the message with the one byte only, and gives it that number.
unfoldable pub echo : ℕ → Option Arg → Result ℕ
echo n (some (Arg.bytes (k ∷ []))) = if k == n then ok n else raise foreign
echo n _ = raise foreign

pub echo-content : (n : ℕ) (o : Option Arg) → echo n o ≡ ok n → o ≡ some (Arg.bytes (n ∷ []))
unfolding echo
echo-content n (some (Arg.bytes (k ∷ []))) h = elim (Bool-cases (k == n)) [
  | inl e ↦ rw ((==_iff k n).0 e) refl
  | inr e ↦ ground arith
]
echo-content n o h = cc

abbrev counting : Arg
counting = Arg.object Kind.schema 4

-- Schema 0 is one of texts; all others are the `AvroSchema` of counters.
schemas : Schemas
schemas zero = string_schema
schemas (suc _) = avro_schema (attach_client true counters)

abbrev producer : ProducerHandle
producer = record { id = 5; schema = Arg.object Kind.schema 3 }

abbrev consumer : Handle
consumer = record { id = 0; native = 7; has_client = true; schema = some counting }

abbrev received : ℕ → MessageHandle
received n = record { native = n; schema = some counting }

-- Every message has a schema version of its own.
abbrev seen : ℕ → Message
seen n = record { topic = "t"; version = pos n; content = n ∷ [] }

-- The native producer counts what it is given.
abbrev trip : ℕ → Trip ℕ
trip n = record {
  attributes = count (pos n);
  args = message_args;
  id = n;
  native_send = λ msg k. (echo n (setting "content" msg), suc k);
  before = 0;
  timeout = Arg.none;
  native_receive = λ _ _. ok n;
  got = received n;
}
