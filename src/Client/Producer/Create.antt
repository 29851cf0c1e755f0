-- ===== src/Client/Producer/Create.antt =====
-- What `create_producer` asks of the native client.
use mathlib.Core.List.{append-nil}
use pulsar_client_python.Base.{
  ℕ, ◌≡◌, refl, sym, ◌∙◌, ap, String, true, false, ◌&&◌, ◌||◌, none, some, List, [], ◌∷◌, ◌++◌, All,
  str_eq, if◌then◌else◌, arith,
}
use pulsar_client_python.Base.Int.{pos}
use pulsar_client_python.Python.Result.{Result, ok, raise, value_error, >>=-eq-ok, raise_if}
use pulsar_client_python.Client.Argument.{
  Kind, Arg, native, truthy, is_instance, is_none, ArgType, bool_type, int_type, str_type,
  dict_type, instance_of, Passes, run_checks, run_checks_iff,
}
use pulsar_client_python.Client.Native.{
  Setting, set, Optional, optional, optionally, set_each, properties_calls, setting, properties_of,
  Accepts, configure,
}
use pulsar_client_python.Client.Native.Laws.{
  given, or_later, setting-append, setting-set_each, setting-properties_calls, properties_of-append,
  properties_of-set_each, properties_of-properties_calls, items,
}
use pulsar_client_python.Client.Producer.Message.{when_given}
use pulsar_client_python.Client.Producer.{
  ProducerArgs, ProducerHandle, producer_checks, producer_settings, create_producer,
}

-- The configuration of a producer: each option that is always set, and each that is set if it is given.
pub record Configures (p : ProducerArgs) (conf : List Setting) : Type 0 where
  pub send_timeout_millis : setting "send_timeout_millis" conf ≡ some p.send_timeout_millis
  pub compression_type : setting "compression_type" conf ≡ some p.compression_type
  pub max_pending_messages : setting "max_pending_messages" conf ≡ some p.max_pending_messages
  pub max_pending_messages_across_partitions :
      setting "max_pending_messages_across_partitions" conf
      ≡ some p.max_pending_messages_across_partitions
  pub block_if_queue_full : setting "block_if_queue_full" conf ≡ some p.block_if_queue_full
  pub batching_enabled : setting "batching_enabled" conf ≡ some p.batching_enabled
  pub batching_max_messages : setting "batching_max_messages" conf ≡ some p.batching_max_messages
  pub batching_max_allowed_size_in_bytes :
      setting "batching_max_allowed_size_in_bytes" conf ≡ some p.batching_max_allowed_size_in_bytes
  pub batching_max_publish_delay_ms :
      setting "batching_max_publish_delay_ms" conf ≡ some p.batching_max_publish_delay_ms
  pub partitions_routing_mode : setting "partitions_routing_mode" conf ≡ some p.message_routing_mode
  pub batching_type : setting "batching_type" conf ≡ some p.batching_type
  pub chunking_enabled : setting "chunking_enabled" conf ≡ some p.chunking_enabled
  pub lazy_start_partitioned_producers :
      setting "lazy_start_partitioned_producers" conf ≡ some p.lazy_start_partitioned_producers
  pub access_mode : setting "access_mode" conf ≡ some p.access_mode
  pub schema : setting "schema" conf ≡ some (native p.schema)
  pub producer_name : setting "producer_name" conf ≡ when_given p.producer_name
  pub initial_sequence_id : setting "initial_sequence_id" conf ≡ when_given p.initial_sequence_id
  pub encryption_key : setting "encryption_key" conf ≡ when_given p.encryption_key
  pub crypto_key_reader :
      setting "crypto_key_reader" conf
      ≡ (if truthy p.crypto_key_reader then some (native p.crypto_key_reader) else none)
  pub properties : properties_of conf ≡ items p.properties

abbrev names_given : ProducerArgs → List Optional
names_given p =
    optionally "producer_name" p.producer_name
    ∷ optionally "initial_sequence_id" p.initial_sequence_id
    ∷ []

abbrev keys_given : ProducerArgs → List Optional
keys_given p =
    optionally "encryption_key" p.encryption_key
    ∷ optional "crypto_key_reader" p.crypto_key_reader (native p.crypto_key_reader)
    ∷ []

-- The calls behind those that are always made.
abbrev later_calls : ProducerArgs → List Setting
later_calls p =
    set_each (names_given p)
    ++ (properties_calls p.properties ++ (set "schema" (native p.schema) ∷ set_each (keys_given p)))

if_or_later :
    (a v : Arg)
    → or_later (or_later (if truthy a then some v else none) none) none
      ≡ (if truthy a then some v else none)
if_or_later a v = ground arith

setting-later_calls :
    (name : String) (p : ProducerArgs)
    → setting name (later_calls p)
      ≡ or_later
          (or_later
            (if str_eq name "schema"
              then elim (given name (keys_given p)) [
                | some later ↦ some later
                | none ↦ some (native p.schema)
              ]
              else given name (keys_given p))
            none)
          (given name (names_given p))
unfolding setting
setting-later_calls name p =
    setting-append name (set_each (names_given p)) _
    ∙ rw
        (setting-append name (properties_calls p.properties)
          (set "schema" (native p.schema) ∷ set_each (keys_given p)))
        (rw (setting-properties_calls name p.properties)
          (rw (setting-set_each name (names_given p)) (rw (setting-set_each name (keys_given p)))))

-- The configuration that `create_producer` asks for: after all calls each option that is always set
-- has the value of its argument, the schema and the key reader that of what the argument wraps. The
-- name, the initial sequence id, the encryption key and the key reader are set exactly if `if` takes
-- the argument for given: not if it is `None`, an empty text or, for the sequence id, 0. The properties
-- are those of the argument in their order.
pub producer_settings-Configures : (p : ProducerArgs) → Configures p (producer_settings p)
unfolding producer_settings setting str_eq properties_of given
producer_settings-Configures p = record {
  send_timeout_millis = rw (setting-later_calls "send_timeout_millis" p);
  compression_type = rw (setting-later_calls "compression_type" p);
  max_pending_messages = rw (setting-later_calls "max_pending_messages" p);
  max_pending_messages_across_partitions =
      rw (setting-later_calls "max_pending_messages_across_partitions" p);
  block_if_queue_full = rw (setting-later_calls "block_if_queue_full" p);
  batching_enabled = rw (setting-later_calls "batching_enabled" p);
  batching_max_messages = rw (setting-later_calls "batching_max_messages" p);
  batching_max_allowed_size_in_bytes =
      rw (setting-later_calls "batching_max_allowed_size_in_bytes" p);
  batching_max_publish_delay_ms = rw (setting-later_calls "batching_max_publish_delay_ms" p);
  partitions_routing_mode = rw (setting-later_calls "partitions_routing_mode" p);
  batching_type = rw (setting-later_calls "batching_type" p);
  chunking_enabled = rw (setting-later_calls "chunking_enabled" p);
  lazy_start_partitioned_producers = rw (setting-later_calls "lazy_start_partitioned_producers" p);
  access_mode = rw (setting-later_calls "access_mode" p);
  schema = rw (setting-later_calls "schema" p);
  producer_name = rw (setting-later_calls "producer_name" p);
  initial_sequence_id = rw (setting-later_calls "initial_sequence_id" p);
  encryption_key =
      rw (setting-later_calls "encryption_key" p) (if_or_later p.encryption_key p.encryption_key);
  crypto_key_reader =
      rw (setting-later_calls "crypto_key_reader" p)
        (if_or_later p.crypto_key_reader (native p.crypto_key_reader));
  properties =
      properties_of-append (set_each (names_given p)) _
      ∙ rw (properties_of-set_each (names_given p)) (
          properties_of-append (properties_calls p.properties) _
          ∙ rw (properties_of-set_each (keys_given p))
              (append-nil _ ∙ properties_of-properties_calls p.properties));
}

abbrev pub IsA : ArgType → Arg → Type 0
IsA t a = is_instance a t ≡ true

abbrev pub IsNoneOrA : ArgType → Arg → Type 0
IsNoneOrA t a = (is_none a || is_instance a t) ≡ true

-- The types that the documentation gives the arguments, but for `message_routing_mode`.
pub record IsTyped (p : ProducerArgs) : Type 0 where
  pub topic : IsA str_type p.topic
  pub producer_name : IsNoneOrA str_type p.producer_name
  pub schema : IsA (instance_of Kind.schema) p.schema
  pub initial_sequence_id : IsNoneOrA int_type p.initial_sequence_id
  pub send_timeout_millis : IsA int_type p.send_timeout_millis
  pub compression_type : IsA (instance_of Kind.compression_type) p.compression_type
  pub max_pending_messages : IsA int_type p.max_pending_messages
  pub max_pending_messages_across_partitions : IsA int_type p.max_pending_messages_across_partitions
  pub block_if_queue_full : IsA bool_type p.block_if_queue_full
  pub batching_enabled : IsA bool_type p.batching_enabled
  pub batching_max_messages : IsA int_type p.batching_max_messages
  pub batching_max_allowed_size_in_bytes : IsA int_type p.batching_max_allowed_size_in_bytes
  pub batching_max_publish_delay_ms : IsA int_type p.batching_max_publish_delay_ms
  pub chunking_enabled : IsA bool_type p.chunking_enabled
  pub properties : IsNoneOrA dict_type p.properties
  pub batching_type : IsA (instance_of Kind.batching_type) p.batching_type
  pub encryption_key : IsNoneOrA str_type p.encryption_key
  pub crypto_key_reader : IsNoneOrA (instance_of Kind.crypto_key_reader) p.crypto_key_reader
  pub lazy_start_partitioned_producers : IsA bool_type p.lazy_start_partitioned_producers
  pub access_mode : IsA (instance_of Kind.access_mode) p.access_mode

checked-IsTyped : (p : ProducerArgs) → All Passes (producer_checks p) → IsTyped p
unfolding producer_checks
checked-IsTyped p h = record {
  topic = h.0;
  producer_name = h.1.0;
  schema = h.1.1.0;
  initial_sequence_id = h.1.1.1.0;
  send_timeout_millis = h.1.1.1.1.0;
  compression_type = h.1.1.1.1.1.0;
  max_pending_messages = h.1.1.1.1.1.1.0;
  max_pending_messages_across_partitions = h.1.1.1.1.1.1.1.0;
  block_if_queue_full = h.1.1.1.1.1.1.1.1.0;
  batching_enabled = h.1.1.1.1.1.1.1.1.1.0;
  batching_max_messages = h.1.1.1.1.1.1.1.1.1.1.0;
  batching_max_allowed_size_in_bytes = h.1.1.1.1.1.1.1.1.1.1.1.0;
  batching_max_publish_delay_ms = h.1.1.1.1.1.1.1.1.1.1.1.1.0;
  chunking_enabled = h.1.1.1.1.1.1.1.1.1.1.1.1.1.0;
  properties = h.1.1.1.1.1.1.1.1.1.1.1.1.1.1.0;
  batching_type = h.1.1.1.1.1.1.1.1.1.1.1.1.1.1.1.0;
  encryption_key = h.1.1.1.1.1.1.1.1.1.1.1.1.1.1.1.1.0;
  crypto_key_reader = h.1.1.1.1.1.1.1.1.1.1.1.1.1.1.1.1.1.0;
  lazy_start_partitioned_producers = h.1.1.1.1.1.1.1.1.1.1.1.1.1.1.1.1.1.1.0;
  access_mode = h.1.1.1.1.1.1.1.1.1.1.1.1.1.1.1.1.1.1.1.0;
}

-- A producer is created only from arguments of the documented types, with batching and chunking not both
-- enabled, by a native call with the topic and the configuration; it keeps the schema it was given.
-- Of the type of `message_routing_mode` nothing is said.
pub create_producer_ok :
    (accepts : Accepts) (native_create : Arg → List Setting → Result ℕ) (p : ProducerArgs)
    (handle : ProducerHandle)
    → create_producer accepts native_create p ≡ ok handle
    → IsTyped p
      × ((truthy p.batching_enabled && truthy p.chunking_enabled) ≡ false)
      × (native_create p.topic (producer_settings p) ≡ ok handle.id)
      × (handle.schema ≡ p.schema)
unfolding create_producer
create_producer_ok accepts native_create p handle h =
    let (_, checked, h₁) = >>=-eq-ok (run_checks (producer_checks p)) _ h in
    let (_, accepted, h₂) = >>=-eq-ok (configure accepts (producer_settings p)) _ h₁ in
    let (_, separate, h₃) =
      >>=-eq-ok (raise_if (truthy p.batching_enabled && truthy p.chunking_enabled) value_error) _
        h₂ in
    let (id, created, h₄) = >>=-eq-ok (native_create p.topic (producer_settings p)) _ h₃ in
    let e : ◌≡◌ {A = ProducerHandle} (record { id = id; schema = p.schema }) handle = cc in
    (
      checked-IsTyped p ((run_checks_iff (producer_checks p)).0 checked),
      ground arith,
      created ∙ ap (λ (made : ProducerHandle). ok made.id) e,
      sym (ap (λ (made : ProducerHandle). made.schema) e),
    )

-- Arguments of the documented types, whose configuration the native module takes, with batching and
-- chunking both enabled are refused by a `ValueError`, whatever the native client would do.
pub create_producer-batching_chunking :
    (accepts : Accepts) (native_create : Arg → List Setting → Result ℕ) (p : ProducerArgs)
    → All Passes (producer_checks p)
    → configure accepts (producer_settings p) ≡ ok tt
    → truthy p.batching_enabled ≡ true
    → truthy p.chunking_enabled ≡ true
    → create_producer accepts native_create p ≡ raise value_error
unfolding create_producer
create_producer-batching_chunking accepts native_create p checked accepted b c =
    rw ((run_checks_iff (producer_checks p)).1 checked) (rw accepted (rw b (rw c)))

-- An initial sequence id of 0 is lost: the producer is the one that is created when none is given.
pub create_producer-zero_sequence_id :
    (accepts : Accepts) (native_create : Arg → List Setting → Result ℕ) (p : ProducerArgs)
    → create_producer accepts native_create (record p { initial_sequence_id = Arg.int (pos 0) })
      ≡ create_producer accepts native_create (record p { initial_sequence_id = Arg.none })
unfolding create_producer producer_checks producer_settings run_checks set_each truthy is_instance
create_producer-zero_sequence_id accepts native_create p = refl
