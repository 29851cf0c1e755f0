-- ===== src/Client/Producer.antt =====
-- `Client.create_producer`, `Producer.send`, `Producer.send_async` and `Producer._build_msg`
-- (pulsar/__init__.py).
pub mod Message
pub mod Create
pub mod Session
use pulsar_client_python.Base.{
  ℕ, ◌≡◌, String, Bool, true, false, not, ◌&&◌, List, [], ◌∷◌, ◌++◌, if◌then◌else◌,
}
use pulsar_client_python.Python.Result.{Result, ok, raise, value_error, ◌>>=◌, ◌>>◌, raise_if}
use pulsar_client_python.Client.Argument.{
  Kind, Arg, native, truthy, ArgType, bool_type, int_type, str_type, bytes_type, list_type,
  dict_type, timedelta_type, instance_of, Check, must, may, run_checks,
}
use pulsar_client_python.Client.Native.{
  Setting, set, property, optional, optionally, set_each, properties_calls, Accepts, configure,
}

-- The arguments of `create_producer`.
pub record ProducerArgs : Type 0 where
  pub topic : Arg
  pub producer_name : Arg
  pub schema : Arg
  pub initial_sequence_id : Arg
  pub send_timeout_millis : Arg
  pub compression_type : Arg
  pub max_pending_messages : Arg
  pub max_pending_messages_across_partitions : Arg
  pub block_if_queue_full : Arg
  pub batching_enabled : Arg
  pub batching_max_messages : Arg
  pub batching_max_allowed_size_in_bytes : Arg
  pub batching_max_publish_delay_ms : Arg
  pub chunking_enabled : Arg
  pub message_routing_mode : Arg
  pub lazy_start_partitioned_producers : Arg
  pub properties : Arg
  pub batching_type : Arg
  pub encryption_key : Arg
  pub crypto_key_reader : Arg
  pub access_mode : Arg

unfoldable pub producer_checks : ProducerArgs → List Check
producer_checks p =
    must str_type p.topic
    ∷ may str_type p.producer_name
    ∷ must (instance_of Kind.schema) p.schema
    ∷ may int_type p.initial_sequence_id
    ∷ must int_type p.send_timeout_millis
    ∷ must (instance_of Kind.compression_type) p.compression_type
    ∷ must int_type p.max_pending_messages
    ∷ must int_type p.max_pending_messages_across_partitions
    ∷ must bool_type p.block_if_queue_full
    ∷ must bool_type p.batching_enabled
    ∷ must int_type p.batching_max_messages
    ∷ must int_type p.batching_max_allowed_size_in_bytes
    ∷ must int_type p.batching_max_publish_delay_ms
    ∷ must bool_type p.chunking_enabled
    ∷ may dict_type p.properties
    ∷ must (instance_of Kind.batching_type) p.batching_type
    ∷ may str_type p.encryption_key
    ∷ may (instance_of Kind.crypto_key_reader) p.crypto_key_reader
    ∷ must bool_type p.lazy_start_partitioned_producers
    ∷ must (instance_of Kind.access_mode) p.access_mode
    ∷ []

-- The calls on `_pulsar.ProducerConfiguration()`.
unfoldable pub producer_settings : ProducerArgs → List Setting
producer_settings p =
    set "send_timeout_millis" p.send_timeout_millis
    ∷ set "compression_type" p.compression_type
    ∷ set "max_pending_messages" p.max_pending_messages
    ∷ set "max_pending_messages_across_partitions" p.max_pending_messages_across_partitions
    ∷ set "block_if_queue_full" p.block_if_queue_full
    ∷ set "batching_enabled" p.batching_enabled
    ∷ set "batching_max_messages" p.batching_max_messages
    ∷ set "batching_max_allowed_size_in_bytes" p.batching_max_allowed_size_in_bytes
    ∷ set "batching_max_publish_delay_ms" p.batching_max_publish_delay_ms
    ∷ set "partitions_routing_mode" p.message_routing_mode
    ∷ set "batching_type" p.batching_type
    ∷ set "chunking_enabled" p.chunking_enabled
    ∷ set "lazy_start_partitioned_producers" p.lazy_start_partitioned_producers
    ∷ set "access_mode" p.access_mode
    ∷ (set_each (
          optionally "producer_name" p.producer_name
          ∷ optionally "initial_sequence_id" p.initial_sequence_id
          ∷ [])
        ++ (properties_calls p.properties
            ++ (set "schema" (native p.schema)
                ∷ set_each (
                    optionally "encryption_key" p.encryption_key
                    ∷ optional "crypto_key_reader" p.crypto_key_reader (native p.crypto_key_reader)
                    ∷ []))))

pub record ProducerHandle : Type 0 where
  pub id : ℕ
  pub schema : Arg

module _ (accepts : Accepts) (native_create : Arg → List Setting → Result ℕ) where
  -- `Client.create_producer`
  unfoldable pub create_producer : ProducerArgs → Result ProducerHandle
  create_producer p = do
    run_checks (producer_checks p)
    configure accepts (producer_settings p)
    raise_if (truthy p.batching_enabled && truthy p.chunking_enabled) value_error
    id ← native_create p.topic (producer_settings p)
    ok (record { id = id; schema = p.schema })

-- The arguments of `send`, besides the content.
pub record MessageArgs : Type 0 where
  pub properties : Arg
  pub partition_key : Arg
  pub ordering_key : Arg
  pub sequence_id : Arg
  pub replication_clusters : Arg
  pub disable_replication : Arg
  pub event_timestamp : Arg
  pub deliver_at : Arg
  pub deliver_after : Arg

unfoldable pub message_checks : Arg → MessageArgs → List Check
message_checks body m =
    must bytes_type body
    ∷ may dict_type m.properties
    ∷ may str_type m.partition_key
    ∷ may str_type m.ordering_key
    ∷ may int_type m.sequence_id
    ∷ may list_type m.replication_clusters
    ∷ must bool_type m.disable_replication
    ∷ may int_type m.event_timestamp
    ∷ may int_type m.deliver_at
    ∷ may timedelta_type m.deliver_after
    ∷ []

-- The calls on `_pulsar.MessageBuilder()`.
unfoldable pub message_settings : Arg → MessageArgs → List Setting
message_settings body m =
    set "content" body
    ∷ (properties_calls m.properties
        ++ set_each (
            optionally "partition_key" m.partition_key
            ∷ optionally "ordering_key" m.ordering_key
            ∷ optionally "sequence_id" m.sequence_id
            ∷ optionally "replication_clusters" m.replication_clusters
            ∷ optionally "disable_replication" m.disable_replication
            ∷ optionally "event_timestamp" m.event_timestamp
            ∷ optionally "deliver_at" m.deliver_at
            ∷ optionally "deliver_after" m.deliver_after
            ∷ []))

-- A message that was built is given to the native producer, whose state comes back.
abbrev pub hand_over {κ μ} :
    {B : Type κ} {S : Type μ}
    → (List Setting → S → Result B × S)
    → Result (List Setting)
    → S
    → Result B × S
hand_over native_send (raise e) s = (raise e, s)
hand_over native_send (ok msg) s = native_send msg s

module _ {ℓ} {A : Type ℓ} (accepts : Accepts) (encode : A → Result Arg) where
  -- `Producer._build_msg`: the message is what the builder was told.
  unfoldable pub build_msg : A → MessageArgs → Result (List Setting)
  build_msg content m = do
    body ← encode content
    run_checks (message_checks body m)
    configure accepts (message_settings body m)
    ok (message_settings body m)

  -- `Producer.send`
  unfoldable pub send {κ μ} :
      {B : Type κ} {S : Type μ}
      → (List Setting → S → Result B × S)
      → A
      → MessageArgs
      → S
      → Result B × S
  unfolding build_msg
  send native_send content m s = hand_over native_send (build_msg content m) s

  -- `Producer.send_async`
  unfoldable pub send_async {κ μ} :
      {B : Type κ} {S : Type μ}
      → (List Setting → Arg → S → Result B × S)
      → A
      → Arg
      → MessageArgs
      → S
      → Result B × S
  unfolding build_msg
  send_async native_send_async content callback m s =
      hand_over (λ msg. native_send_async msg callback) (build_msg content m) s
