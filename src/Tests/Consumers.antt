-- ===== src/Tests/Consumers.antt =====
-- Samples for the consumers and readers of a client (pulsar/__init__.py).
use pulsar_client_python.Base.{
  inr, ℕ, List, ◌≡◌, refl, true, false, none, some, [], ◌∷◌, ◌++◌, All, arith, ◌==◌, if◌then◌else◌,
  ◌≤◌,
}
use pulsar_client_python.Base.Int.{pos}
use pulsar_client_python.Python.Result.{Result, ok, raise, attribute_error, value_error}
use pulsar_client_python.Client.Argument.{Kind, Arg, Pairs, nil, is_instance, run_checks, truthy}
use pulsar_client_python.Client.Native.{
  Setting, set, setting, configure, properties_calls, set_each,
}
use pulsar_client_python.Client.Consumer.{
  ConsumerArgs, ReaderArgs, consumer_checks, consumer_settings, reader_settings,
  dead_letter_settings, topic_of,
}
use pulsar_client_python.Client.Consumer.DeadLetter.{
  below_one, dead_letter_policy, dead_letter_policy_ok, policy_settings, present,
}
use pulsar_client_python.Client.Consumer.Batch.{parse_from, value-bare_message}
use pulsar_client_python.Client.Consumer.Reader.{ConfiguresReader, reader_settings-ConfiguresReader}
use pulsar_client_python.Client.Consumer.Configuration.{Configures, consumer_settings-Configures}
use pulsar_client_python.Client.Consumer.Registry.{
  Handle, ClientState, NativeClient, open_consumer, subscribe, create_reader, contains_id, close,
  MessageHandle, value,
}
use pulsar_client_python.Client.Consumer.Registry.Invariant.{
  IsRegistry, new_client, Reach-IsRegistry, here, next, subscribes, reads, closes,
}
use pulsar_client_python.Client.Consumer.Registry.Closing.{close_removes, close-close}

abbrev number : ℕ → Arg
number n = Arg.int (pos n)

abbrev text_schema : Arg
text_schema = Arg.object Kind.schema 1

-- The arguments of `subscribe('topic', 'sub', schema=StringSchema())`.
abbrev pub consumer_args : ConsumerArgs
consumer_args = record {
  topic = Arg.str "topic";
  subscription_name = Arg.str "sub";
  consumer_type = Arg.object Kind.consumer_type 0;
  schema = text_schema;
  message_listener = Arg.none;
  receiver_queue_size = number 1000;
  max_total_receiver_queue_size_across_partitions = number 50000;
  consumer_name = Arg.none;
  unacked_messages_timeout_ms = Arg.none;
  broker_consumer_stats_cache_time_ms = number 30000;
  negative_ack_redelivery_delay_ms = number 60000;
  is_read_compacted = Arg.bool false;
  properties = Arg.none;
  pattern_auto_discovery_period = number 60;
  initial_position = Arg.object Kind.initial_position 0;
  crypto_key_reader = Arg.none;
  replicate_subscription_state_enabled = Arg.bool false;
  max_pending_chunked_message = number 10;
  auto_ack_oldest_chunked_message_on_queue_full = Arg.bool false;
  start_message_id_inclusive = Arg.bool false;
  batch_receive_policy = Arg.none;
  key_shared_policy = Arg.none;
  batch_index_ack_enabled = Arg.bool false;
  regex_subscription_mode = Arg.object Kind.regex_mode 0;
  dead_letter_policy = Arg.none;
}

abbrev pub reader_args : ReaderArgs
reader_args = record {
  topic = Arg.str "topic";
  start_message_id = Arg.object Kind.message_id 0;
  schema = text_schema;
  reader_listener = Arg.none;
  receiver_queue_size = number 1000;
  reader_name = Arg.none;
  subscription_role_prefix = Arg.none;
  is_read_compacted = Arg.bool false;
  crypto_key_reader = Arg.none;
  start_message_id_inclusive = Arg.bool false;
}

-- A native client that takes every call.
abbrev pub client : NativeClient
client = record { accepts = λ _. true; subscribe = λ _ _ _. ok 70; create_reader = λ _ _ _. ok 71 }

abbrev pub closes_well : ℕ → Result (Unit {0})
closes_well _ = ok tt

-- A client with one consumer.
abbrev one_consumer : ClientState
one_consumer = record { consumers = 0 ∷ []; next = 1; attached = text_schema ∷ [] }

abbrev pub consumer : Handle
consumer = record { id = 0; native = 70; has_client = true; schema = some text_schema }

subscribed : (subscribe client consumer_args new_client).1 ≡ one_consumer
unfolding subscribe open_consumer run_checks consumer_checks is_instance configure consumer_settings
    set_each truthy properties_calls dead_letter_settings topic_of
subscribed = refl

one_consumer-IsRegistry : IsRegistry one_consumer
unfolding contains_id
one_consumer-IsRegistry = record { distinct = (refl, tt); below = (omega arith, tt) }

Reach-IsRegistry_example :
    IsRegistry
      (close closes_well consumer
        (create_reader client reader_args (subscribe client consumer_args new_client).1).1).1
Reach-IsRegistry_example =
    Reach-IsRegistry client
      (close closes_well consumer
        (create_reader client reader_args (subscribe client consumer_args new_client).1).1).1
      (next
        (next (next here (subscribes consumer_args new_client))
          (reads reader_args (subscribe client consumer_args new_client).1))
        (closes closes_well consumer
          (create_reader client reader_args (subscribe client consumer_args new_client).1).1))

close_removes_example :
    ((close closes_well consumer one_consumer).0 ≡ ok tt)
    × (contains_id 0 (close closes_well consumer one_consumer).1.consumers
        ≡ (if 0 == 0 then false else contains_id 0 (0 ∷ [])))
unfolding contains_id
close_removes_example =
    close_removes closes_well consumer one_consumer 0 one_consumer-IsRegistry refl refl refl

close-close_example :
    close closes_well consumer (close closes_well consumer one_consumer).1
    ≡ (raise value_error, (close closes_well consumer one_consumer).1)
close-close_example =
    close-close closes_well closes_well consumer one_consumer one_consumer-IsRegistry refl refl refl

value-bare_message_example :
    All
      (λ (m : MessageHandle). value (λ _ _. ok Arg.none) m ≡ raise attribute_error)
      (record { native = 8; schema = none } ∷ record { native = 9; schema = none } ∷ [])
unfolding parse_from
value-bare_message_example =
    value-bare_message (λ _ _. ok Arg.none) (λ _. ok []) consumer (λ _ _ b. ok b) (λ b. ok b) []
      (number 0) (8 ∷ 9 ∷ [])
      (record { native = 8; schema = none } ∷ record { native = 9; schema = none } ∷ []) (inr refl)

-- The arguments of a subscription with properties and a dead letter policy.
abbrev pub policy_args : ConsumerArgs
policy_args = record consumer_args {
  properties = Arg.dict (Pairs.pair (Arg.str "owner") (Arg.str "me") Pairs.end);
  dead_letter_policy = Arg.object Kind.dead_letter_policy 3;
}

consumer_settings-Configures_example : Configures policy_args (
    consumer_settings policy_args
    ++ (set "dead_letter_policy" (Arg.native (Arg.object Kind.dead_letter_policy 3)) ∷ []))
unfolding dead_letter_settings
consumer_settings-Configures_example =
    consumer_settings-Configures policy_args
      (set "dead_letter_policy" (Arg.native (Arg.object Kind.dead_letter_policy 3)) ∷ []) refl

-- The arguments of a reader with a name.
abbrev named_reader : ReaderArgs
named_reader = record reader_args { reader_name = Arg.str "tail" }

reader_settings-ConfiguresReader_example :
    ConfiguresReader named_reader (reader_settings named_reader)
reader_settings-ConfiguresReader_example = reader_settings-ConfiguresReader named_reader

dead_letter_policy_ok_example :
    (1 ≤ 3)
    × (setting "maxRedeliverCount" (policy_settings (number 3) (Arg.str "dlq") Arg.none)
        ≡ some (number 3))
    × (setting "deadLetterTopic" (policy_settings (number 3) (Arg.str "dlq") Arg.none)
        ≡ present (Arg.str "dlq"))
    × (setting "initialSubscriptionName" (policy_settings (number 3) (Arg.str "dlq") Arg.none)
        ≡ present Arg.none)
unfolding below_one dead_letter_policy policy_settings configure
dead_letter_policy_ok_example =
    dead_letter_policy_ok (λ _. true) (number 3) (Arg.str "dlq") Arg.none
      (policy_settings (number 3) (Arg.str "dlq") Arg.none) refl

abbrev sticky_policy : List Setting
sticky_policy =
    set "set_key_shared_mode" (Arg.object Kind.sticky 0)
    ∷ set "set_allow_out_of_order_delivery" (Arg.bool false)
    ∷ set "set_sticky_ranges" (Arg.list nil)
    ∷ []
