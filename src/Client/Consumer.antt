-- ===== src/Client/Consumer.antt =====
-- `Client.subscribe` and `Client.create_reader` (pulsar/__init__.py): the checks and the configuration.
pub mod Registry
pub mod Configuration
pub mod Reader
pub mod DeadLetter
pub mod KeyShared
pub mod Requests
pub mod Batch
use pulsar_client_python.Base.{
  ℕ, ◌≡◌, String, Bool, true, false, List, [], ◌∷◌, ◌++◌, if◌then◌else◌,
}
use pulsar_client_python.Python.Result.{
  Result, ok, raise, value_error, attribute_error, ◌>>=◌, ◌>>◌,
}
use pulsar_client_python.Client.Argument.{
  Kind, Arg, Args, native, listener, truthy, bool_type, int_type, str_type, dict_type, instance_of,
  Check, must, may, run_checks,
}
use pulsar_client_python.Client.Native.{
  Setting, set, optional, optionally, set_each, properties_calls, Accepts, configure,
}

-- The arguments of `subscribe`.
pub record ConsumerArgs : Type 0 where
  pub topic : Arg
  pub subscription_name : Arg
  pub consumer_type : Arg
  pub schema : Arg
  pub message_listener : Arg
  pub receiver_queue_size : Arg
  pub max_total_receiver_queue_size_across_partitions : Arg
  pub consumer_name : Arg
  pub unacked_messages_timeout_ms : Arg
  pub broker_consumer_stats_cache_time_ms : Arg
  pub negative_ack_redelivery_delay_ms : Arg
  pub is_read_compacted : Arg
  pub properties : Arg
  pub pattern_auto_discovery_period : Arg
  pub initial_position : Arg
  pub crypto_key_reader : Arg
  pub replicate_subscription_state_enabled : Arg
  pub max_pending_chunked_message : Arg
  pub auto_ack_oldest_chunked_message_on_queue_full : Arg
  pub start_message_id_inclusive : Arg
  pub batch_receive_policy : Arg
  pub key_shared_policy : Arg
  pub batch_index_ack_enabled : Arg
  pub regex_subscription_mode : Arg
  pub dead_letter_policy : Arg

unfoldable pub consumer_checks : ConsumerArgs → List Check
consumer_checks c =
    must str_type c.subscription_name
    ∷ must (instance_of Kind.consumer_type) c.consumer_type
    ∷ must (instance_of Kind.schema) c.schema
    ∷ must int_type c.receiver_queue_size
    ∷ must int_type c.max_total_receiver_queue_size_across_partitions
    ∷ may str_type c.consumer_name
    ∷ may int_type c.unacked_messages_timeout_ms
    ∷ must int_type c.broker_consumer_stats_cache_time_ms
    ∷ must int_type c.negative_ack_redelivery_delay_ms
    ∷ must int_type c.pattern_auto_discovery_period
    ∷ must bool_type c.is_read_compacted
    ∷ may dict_type c.properties
    ∷ must (instance_of Kind.initial_position) c.initial_position
    ∷ may (instance_of Kind.crypto_key_reader) c.crypto_key_reader
    ∷ must int_type c.max_pending_chunked_message
    ∷ must bool_type c.auto_ack_oldest_chunked_message_on_queue_full
    ∷ must bool_type c.start_message_id_inclusive
    ∷ may (instance_of Kind.batch_receive_policy) c.batch_receive_policy
    ∷ may (instance_of Kind.key_shared_policy) c.key_shared_policy
    ∷ must bool_type c.batch_index_ack_enabled
    ∷ must (instance_of Kind.regex_mode) c.regex_subscription_mode
    ∷ []

-- The calls on `_pulsar.ConsumerConfiguration()`, but that for the dead letter policy.
unfoldable pub consumer_settings : ConsumerArgs → List Setting
consumer_settings c =
    set "consumer_type" c.consumer_type
    ∷ set "regex_subscription_mode" c.regex_subscription_mode
    ∷ set "read_compacted" c.is_read_compacted
    ∷ (set_each (
          optional "message_listener" c.message_listener (listener c.message_listener c.schema)
          ∷ [])
        ++ (set "receiver_queue_size" c.receiver_queue_size
            ∷ set "max_total_receiver_queue_size_across_partitions"
                c.max_total_receiver_queue_size_across_partitions
            ∷ (set_each (
                  optionally "consumer_name" c.consumer_name
                  ∷ optionally "unacked_messages_timeout_ms" c.unacked_messages_timeout_ms
                  ∷ [])
                ++ (set "negative_ack_redelivery_delay_ms" c.negative_ack_redelivery_delay_ms
                    ∷ set "broker_consumer_stats_cache_time_ms"
                        c.broker_consumer_stats_cache_time_ms
                    ∷ (properties_calls c.properties
                        ++ (set "subscription_initial_position" c.initial_position
                            ∷ set "schema" (native c.schema)
                            ∷ (set_each (
                                  optional "crypto_key_reader" c.crypto_key_reader
                                    (native c.crypto_key_reader)
                                  ∷ [])
                                ++ (set "replicate_subscription_state_enabled"
                                      c.replicate_subscription_state_enabled
                                    ∷ set "max_pending_chunked_message"
                                        c.max_pending_chunked_message
                                    ∷ set "auto_ack_oldest_chunked_message_on_queue_full"
                                        c.auto_ack_oldest_chunked_message_on_queue_full
                                    ∷ set "start_message_id_inclusive" c.start_message_id_inclusive
                                    ∷ (set_each (
                                          optional "batch_receive_policy" c.batch_receive_policy
                                            (native c.batch_receive_policy)
                                          ∷ optional "key_shared_policy" c.key_shared_policy
                                              (native c.key_shared_policy)
                                          ∷ [])
                                        ++ (set "batch_index_ack_enabled" c.batch_index_ack_enabled
                                            ∷ []))))))))))

-- `if dead_letter_policy: conf.dead_letter_policy(dead_letter_policy.policy())`. The argument is not
-- checked before: the other policies have a `policy` too, which the native call may refuse, and an
-- object of any other class has none.
unfoldable pub dead_letter_settings : Arg → Result (List Setting)
dead_letter_settings (Arg.object Kind.dead_letter_policy i) =
    ok (set "dead_letter_policy" (native (Arg.object Kind.dead_letter_policy i)) ∷ [])
dead_letter_settings (Arg.object Kind.batch_receive_policy i) =
    ok (set "dead_letter_policy" (native (Arg.object Kind.batch_receive_policy i)) ∷ [])
dead_letter_settings (Arg.object Kind.key_shared_policy i) =
    ok (set "dead_letter_policy" (native (Arg.object Kind.key_shared_policy i)) ∷ [])
dead_letter_settings a = if truthy a then raise attribute_error else ok []

-- What is subscribed to.
pub data Topic : Type 0 where
  one : String → Topic
  many : Args → Topic
  -- `topic.pattern`
  matching : Arg → Topic

unfoldable pub topic_of : Arg → Result Topic
topic_of (Arg.str s) = ok (one s)
topic_of (Arg.list ts) = ok (many ts)
topic_of (Arg.object Kind.pattern i) = ok (matching (native (Arg.object Kind.pattern i)))
topic_of a = raise value_error

-- The arguments of `create_reader`.
pub record ReaderArgs : Type 0 where
  pub topic : Arg
  pub start_message_id : Arg
  pub schema : Arg
  pub reader_listener : Arg
  pub receiver_queue_size : Arg
  pub reader_name : Arg
  pub subscription_role_prefix : Arg
  pub is_read_compacted : Arg
  pub crypto_key_reader : Arg
  pub start_message_id_inclusive : Arg

-- `if isinstance(start_message_id, MessageId): start_message_id = start_message_id._msg_id`. The native
-- id inside a `MessageId` has the identity of the wrapper.
unfoldable pub native_id : Arg → Arg
native_id (Arg.object Kind.message_id i) = Arg.object Kind.native_message_id i
native_id a = a

unfoldable pub reader_checks : ReaderArgs → List Check
reader_checks r =
    must str_type r.topic
    ∷ must (instance_of Kind.native_message_id) (native_id r.start_message_id)
    ∷ must (instance_of Kind.schema) r.schema
    ∷ must int_type r.receiver_queue_size
    ∷ may str_type r.reader_name
    ∷ may str_type r.subscription_role_prefix
    ∷ must bool_type r.is_read_compacted
    ∷ may (instance_of Kind.crypto_key_reader) r.crypto_key_reader
    ∷ must bool_type r.start_message_id_inclusive
    ∷ []

-- The calls on `_pulsar.ReaderConfiguration()`.
unfoldable pub reader_settings : ReaderArgs → List Setting
reader_settings r =
    set_each
      (optional "reader_listener" r.reader_listener (listener r.reader_listener r.schema) ∷ [])
    ++ (set "receiver_queue_size" r.receiver_queue_size
        ∷ (set_each (
              optionally "reader_name" r.reader_name
              ∷ optionally "subscription_role_prefix" r.subscription_role_prefix
              ∷ [])
            ++ (set "schema" (native r.schema)
                ∷ set "read_compacted" r.is_read_compacted
                ∷ (set_each (
                      optional "crypto_key_reader" r.crypto_key_reader (native r.crypto_key_reader)
                      ∷ [])
                    ++ (set "start_message_id_inclusive" r.start_message_id_inclusive ∷ [])))))
