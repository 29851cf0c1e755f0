-- ===== src/Tests/Producers.antt =====
-- Samples for clients, producers and messages (pulsar/__init__.py).
use pulsar_client_python.Base.{ℕ, ◌≡◌, refl, true, false, ◌&&◌, List, [], ◌∷◌, All, str_eq}
use mathlib.Core.Logic.{◌↔◌}
use pulsar_client_python.Base.Int.{pos}
use pulsar_client_python.Python.Result.{Result, ok}
use pulsar_client_python.Client.Argument.{
  Kind, Arg, must, ArgType, Passes, run_checks, run_checks_iff, end, pair, is_instance, truthy,
}
use pulsar_client_python.Client.Native.{
  Setting, Accepts, configure, properties_calls, property_calls, set_each,
}
use pulsar_client_python.Client.Producer.{
  ProducerArgs, MessageArgs, producer_checks, producer_settings, create_producer, message_checks,
  message_settings, build_msg,
}
use pulsar_client_python.Client.Producer.Message.{Carries, build_msg-Carries}
use pulsar_client_python.Client.Producer.Create.{
  Configures, producer_settings-Configures, create_producer_ok, IsTyped,
}
use pulsar_client_python.Client.Authentication.{NativeCreate}
use pulsar_client_python.Client.Init.{ClientArgs, logger_settings}
use pulsar_client_python.Client.Init.Tls.{
  client_settings, TlsConfiguration, client_settings-TlsConfiguration,
}

abbrev number : ℕ → Arg
number n = Arg.int (pos n)

abbrev pub takes_all : Accepts
takes_all _ = true

-- `send(b'hi', {'k': 'v'}, ordering_key='o', sequence_id=4)`
abbrev pub message_args : MessageArgs
message_args = record {
  properties = Arg.dict (pair (Arg.str "k") (Arg.str "v") end);
  partition_key = Arg.none;
  ordering_key = Arg.str "o";
  sequence_id = number 4;
  replication_clusters = Arg.none;
  disable_replication = Arg.bool false;
  event_timestamp = Arg.none;
  deliver_at = Arg.none;
  deliver_after = Arg.none;
}

abbrev content : Arg
content = Arg.bytes (104 ∷ 105 ∷ [])

build_msg-Carries_example :
    (body : Arg) × ((λ (a : Arg). ok a) content ≡ ok body)
    × All Passes (message_checks body message_args)
    × Carries body message_args (message_settings content message_args)
unfolding build_msg run_checks message_checks is_instance configure message_settings
    properties_calls property_calls set_each truthy str_eq
build_msg-Carries_example =
    build_msg-Carries takes_all (λ (a : Arg). ok a) content message_args
      (message_settings content message_args) refl

run_checks_iff_example :
    (run_checks (must ArgType.int_type (number 3) ∷ []) ≡ ok tt)
    ↔ All Passes (must ArgType.int_type (number 3) ∷ [])
run_checks_iff_example = run_checks_iff (must ArgType.int_type (number 3) ∷ [])

-- The arguments of `create_producer('topic')`, with batching.
abbrev producer_args : ProducerArgs
producer_args = record {
  topic = Arg.str "topic";
  producer_name = Arg.none;
  schema = Arg.object Kind.schema 1;
  initial_sequence_id = Arg.none;
  send_timeout_millis = number 30000;
  compression_type = Arg.object Kind.compression_type 0;
  max_pending_messages = number 1000;
  max_pending_messages_across_partitions = number 50000;
  block_if_queue_full = Arg.bool false;
  batching_enabled = Arg.bool true;
  batching_max_messages = number 1000;
  batching_max_allowed_size_in_bytes = number 131072;
  batching_max_publish_delay_ms = number 10;
  chunking_enabled = Arg.bool false;
  message_routing_mode = Arg.object Kind.routing_mode 2;
  lazy_start_partitioned_producers = Arg.bool false;
  properties = Arg.none;
  batching_type = Arg.object Kind.batching_type 0;
  encryption_key = Arg.none;
  crypto_key_reader = Arg.none;
  access_mode = Arg.object Kind.access_mode 0;
}

abbrev creates : Arg → List Setting → Result ℕ
creates _ _ = ok 40

create_producer_ok_example :
    IsTyped producer_args
    × ((truthy producer_args.batching_enabled && truthy producer_args.chunking_enabled) ≡ false)
    × (creates producer_args.topic (producer_settings producer_args) ≡ ok 40)
    × (Arg.object Kind.schema 1 ≡ producer_args.schema)
unfolding create_producer run_checks producer_checks is_instance configure producer_settings
    set_each truthy properties_calls
create_producer_ok_example =
    create_producer_ok takes_all creates producer_args
      (record { id = 40; schema = Arg.object Kind.schema 1 }) refl

producer_settings-Configures_example : Configures producer_args (producer_settings producer_args)
producer_settings-Configures_example = producer_settings-Configures producer_args

abbrev chunking_too : ProducerArgs
chunking_too = record producer_args { chunking_enabled = Arg.bool true }

-- The arguments of `Client('pulsar+ssl://broker:6651')`.
abbrev client_args : ClientArgs
client_args = record {
  service_url = Arg.str "pulsar+ssl://broker:6651";
  authentication = Arg.none;
  operation_timeout_seconds = number 30;
  io_threads = number 1;
  message_listener_threads = number 1;
  concurrent_lookup_requests = number 50000;
  log_conf_file_path = Arg.none;
  use_tls = Arg.bool false;
  tls_trust_certs_file_path = Arg.none;
  tls_allow_insecure_connection = Arg.bool false;
  tls_validate_hostname = Arg.bool false;
  logger = Arg.none;
  connection_timeout_ms = number 10000;
  listener_name = Arg.none;
}

abbrev certificates : Arg
certificates = Arg.str "/etc/ca.pem"

abbrev connects : Arg → List Setting → Result ℕ
connects _ _ = ok 5

client_settings-TlsConfiguration_example :
    TlsConfiguration certificates client_args (client_settings certificates client_args [])
unfolding logger_settings
client_settings-TlsConfiguration_example =
    client_settings-TlsConfiguration certificates client_args [] refl

-- A native module that makes one provider after another.
abbrev makes : NativeCreate
makes _ _ = ok 9
