-- ===== src/Client/Consumer/Configuration.antt =====
-- The configuration of a consumer, and an argument that has no effect.
use mathlib.Core.Path.{subst}
use mathlib.Core.List.{append-nil}
use pulsar_client_python.Base.{
  ◌≡◌, sym, ◌∙◌, true, none, some, List, [], ◌∷◌, ◌++◌, str_eq, if◌then◌else◌, arith,
}
use pulsar_client_python.Python.Result.{ok}
use pulsar_client_python.Client.Argument.{
  Arg, native, listener, truthy, is_instance, int_type, run_checks,
}
use pulsar_client_python.Client.Native.{Setting, optional, set_each, setting, properties_of}
use pulsar_client_python.Client.Native.Laws.{
  given, config_laws, properties_of-append, properties_of-set_each, properties_of-properties_calls,
  items,
}
use pulsar_client_python.Client.Producer.Message.{when_given}
use pulsar_client_python.Client.Consumer.{
  ConsumerArgs, consumer_checks, consumer_settings, dead_letter_settings,
}
use pulsar_client_python.Client.Consumer.Registry.{NativeClient, open_consumer}

-- Two calls of `subscribe` that differ in the period of the discovery of topics alone, an int in both,
-- ask the same of the native client and end the same: the period is checked and passed on to nobody.
pub open_consumer-pattern_auto_discovery_period :
    (n : NativeClient) (c : ConsumerArgs) (p q : Arg)
    → is_instance p int_type ≡ true
    → is_instance q int_type ≡ true
    → open_consumer n (record c { pattern_auto_discovery_period = p })
      ≡ open_consumer n (record c { pattern_auto_discovery_period = q })
unfolding open_consumer consumer_checks consumer_settings run_checks
open_consumer-pattern_auto_discovery_period n c p q hp hq = rw hp (rw hq)

-- The configuration of a consumer: each option that is always set, and each that is set if it is given.
pub record Configures (c : ConsumerArgs) (conf : List Setting) : Type 0 where
  pub consumer_type : setting "consumer_type" conf ≡ some c.consumer_type
  pub regex_subscription_mode :
      setting "regex_subscription_mode" conf ≡ some c.regex_subscription_mode
  pub read_compacted : setting "read_compacted" conf ≡ some c.is_read_compacted
  pub receiver_queue_size : setting "receiver_queue_size" conf ≡ some c.receiver_queue_size
  pub max_total_receiver_queue_size_across_partitions :
      setting "max_total_receiver_queue_size_across_partitions" conf
      ≡ some c.max_total_receiver_queue_size_across_partitions
  pub negative_ack_redelivery_delay_ms :
      setting "negative_ack_redelivery_delay_ms" conf ≡ some c.negative_ack_redelivery_delay_ms
  pub broker_consumer_stats_cache_time_ms :
      setting "broker_consumer_stats_cache_time_ms" conf
      ≡ some c.broker_consumer_stats_cache_time_ms
  pub subscription_initial_position :
      setting "subscription_initial_position" conf ≡ some c.initial_position
  pub replicate_subscription_state_enabled :
      setting "replicate_subscription_state_enabled" conf
      ≡ some c.replicate_subscription_state_enabled
  pub max_pending_chunked_message :
      setting "max_pending_chunked_message" conf ≡ some c.max_pending_chunked_message
  pub auto_ack_oldest_chunked_message_on_queue_full :
      setting "auto_ack_oldest_chunked_message_on_queue_full" conf
      ≡ some c.auto_ack_oldest_chunked_message_on_queue_full
  pub start_message_id_inclusive :
      setting "start_message_id_inclusive" conf ≡ some c.start_message_id_inclusive
  pub batch_index_ack_enabled :
      setting "batch_index_ack_enabled" conf ≡ some c.batch_index_ack_enabled
  pub schema : setting "schema" conf ≡ some (native c.schema)
  pub message_listener :
      setting "message_listener" conf
      ≡ (if truthy c.message_listener then some (listener c.message_listener c.schema) else none)
  pub consumer_name : setting "consumer_name" conf ≡ when_given c.consumer_name
  pub unacked_messages_timeout_ms :
      setting "unacked_messages_timeout_ms" conf ≡ when_given c.unacked_messages_timeout_ms
  pub crypto_key_reader :
      setting "crypto_key_reader" conf
      ≡ (if truthy c.crypto_key_reader then some (native c.crypto_key_reader) else none)
  pub batch_receive_policy :
      setting "batch_receive_policy" conf
      ≡ (if truthy c.batch_receive_policy then some (native c.batch_receive_policy) else none)
  pub key_shared_policy :
      setting "key_shared_policy" conf
      ≡ (if truthy c.key_shared_policy then some (native c.key_shared_policy) else none)
  pub dead_letter_policy :
      setting "dead_letter_policy" conf
      ≡ (if truthy c.dead_letter_policy then some (native c.dead_letter_policy) else none)
  pub properties : properties_of conf ≡ items c.properties
  pub no_discovery_period : setting "pattern_auto_discovery_period" conf ≡ none

abbrev policy_calls : Arg → List Setting
policy_calls a = set_each (optional "dead_letter_policy" a (native a) ∷ [])

-- What the argument is, is not checked; if it has a policy, that is set if the argument is given.
dead_letter_settings-policy_calls :
    (a : Arg) (dead : List Setting) → dead_letter_settings a ≡ ok dead → dead ≡ policy_calls a
unfolding dead_letter_settings set_each truthy
dead_letter_settings-policy_calls (Arg.object k i) dead h = ground arith
dead_letter_settings-policy_calls a dead h = ground arith

properties_of-consumer_settings :
    (c : ConsumerArgs) → properties_of (consumer_settings c) ≡ items c.properties
unfolding consumer_settings properties_of
properties_of-consumer_settings c =
    simp (properties_of-append, properties_of-set_each, properties_of-properties_calls, append-nil)

policy_calls-Configures :
    (c : ConsumerArgs) → Configures c (consumer_settings c ++ policy_calls c.dead_letter_policy)
unfolding consumer_settings setting str_eq given
policy_calls-Configures c = record {
  consumer_type = simp config_laws;
  regex_subscription_mode = simp config_laws;
  read_compacted = simp config_laws;
  receiver_queue_size = simp config_laws;
  max_total_receiver_queue_size_across_partitions = simp config_laws;
  negative_ack_redelivery_delay_ms = simp config_laws;
  broker_consumer_stats_cache_time_ms = simp config_laws;
  subscription_initial_position = simp config_laws;
  replicate_subscription_state_enabled = simp config_laws;
  max_pending_chunked_message = simp config_laws;
  auto_ack_oldest_chunked_message_on_queue_full = simp config_laws;
  start_message_id_inclusive = simp config_laws;
  batch_index_ack_enabled = simp config_laws;
  schema = simp config_laws;
  message_listener = simp config_laws;
  consumer_name = simp config_laws;
  unacked_messages_timeout_ms = simp config_laws;
  crypto_key_reader = simp config_laws;
  batch_receive_policy = simp config_laws;
  key_shared_policy = simp config_laws;
  dead_letter_policy = simp config_laws;
  properties =
      properties_of-append (consumer_settings c) _
      ∙ rw
          (properties_of-set_each
            (optional "dead_letter_policy" c.dead_letter_policy (native c.dead_letter_policy) ∷ []))
          (append-nil _ ∙ properties_of-consumer_settings c);
  no_discovery_period = simp config_laws;
}

-- The configuration that `subscribe` asks for: after all calls each option that is always set has the
-- value of its argument. Each option that is set under an `if`, the dead letter policy among them, is
-- set exactly if `if` takes the argument for given, so not for 0 or an empty text. The properties are
-- those of the argument in their order, and the period of the discovery of topics is not set at all.
pub consumer_settings-Configures :
    (c : ConsumerArgs) (dead : List Setting)
    → dead_letter_settings c.dead_letter_policy ≡ ok dead
    → Configures c (consumer_settings c ++ dead)
consumer_settings-Configures c dead h =
    subst (λ (calls : List Setting). Configures c (consumer_settings c ++ calls))
      (sym (dead_letter_settings-policy_calls c.dead_letter_policy dead h))
      (policy_calls-Configures c)
