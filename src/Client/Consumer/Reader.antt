-- ===== src/Client/Consumer/Reader.antt =====
-- The configuration that `create_reader` asks for (pulsar/__init__.py).
use pulsar_client_python.Base.{◌≡◌, none, some, List, str_eq, if◌then◌else◌}
use pulsar_client_python.Client.Argument.{truthy, native, listener}
use pulsar_client_python.Client.Native.{Setting, setting}
use pulsar_client_python.Client.Native.Laws.{config_laws, given}
use pulsar_client_python.Client.Producer.Message.{when_given}
use pulsar_client_python.Client.Consumer.{ReaderArgs, reader_settings}

pub record ConfiguresReader (r : ReaderArgs) (conf : List Setting) : Type 0 where
  pub receiver_queue_size : setting "receiver_queue_size" conf ≡ some r.receiver_queue_size
  pub read_compacted : setting "read_compacted" conf ≡ some r.is_read_compacted
  pub start_message_id_inclusive :
      setting "start_message_id_inclusive" conf ≡ some r.start_message_id_inclusive
  pub schema : setting "schema" conf ≡ some (native r.schema)
  pub reader_name : setting "reader_name" conf ≡ when_given r.reader_name
  pub subscription_role_prefix :
      setting "subscription_role_prefix" conf ≡ when_given r.subscription_role_prefix
  pub reader_listener :
      setting "reader_listener" conf
      ≡ (if truthy r.reader_listener then some (listener r.reader_listener r.schema) else none)
  pub crypto_key_reader :
      setting "crypto_key_reader" conf
      ≡ (if truthy r.crypto_key_reader then some (native r.crypto_key_reader) else none)

-- The configuration that `create_reader` asks for: after all calls each option that is always set has
-- the value of its argument, and each option that is set under an `if` has its value exactly if `if`
-- takes the argument for given, so not for `None` or an empty text.
pub reader_settings-ConfiguresReader : (r : ReaderArgs) → ConfiguresReader r (reader_settings r)
unfolding reader_settings setting str_eq given
reader_settings-ConfiguresReader r = record {
  receiver_queue_size = simp config_laws;
  read_compacted = simp config_laws;
  start_message_id_inclusive = simp config_laws;
  schema = simp config_laws;
  reader_name = simp config_laws;
  subscription_role_prefix = simp config_laws;
  reader_listener = simp config_laws;
  crypto_key_reader = simp config_laws;
}
