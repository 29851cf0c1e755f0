-- ===== src/Client/Init.antt =====
-- `Client.__init__` (pulsar/__init__.py): the configuration of the native client.
pub mod Tls
pub mod Loggers
use text.Mathlib.Text.{starts_with}
use pulsar_client_python.Base.{
  ◌≡◌, String, Bool, true, false, ◌||◌, List, [], ◌∷◌, ◌++◌, if◌then◌else◌,
}
use pulsar_client_python.Python.Result.{Result, ok, raise, value_error, ◌>>=◌, ◌>>◌}
use pulsar_client_python.Client.Argument.{
  Kind, Arg, native, truthy, bool_type, int_type, str_type, instance_of, Check, must, may,
  run_checks,
}
use pulsar_client_python.Client.Native.{
  Setting, set, optional, optionally, set_each, Accepts, configure,
}

pub record ClientArgs : Type 0 where
  pub service_url : Arg
  pub authentication : Arg
  pub operation_timeout_seconds : Arg
  pub io_threads : Arg
  pub message_listener_threads : Arg
  pub concurrent_lookup_requests : Arg
  pub log_conf_file_path : Arg
  pub use_tls : Arg
  pub tls_trust_certs_file_path : Arg
  pub tls_allow_insecure_connection : Arg
  pub tls_validate_hostname : Arg
  pub logger : Arg
  pub connection_timeout_ms : Arg
  pub listener_name : Arg

unfoldable pub client_checks : ClientArgs → List Check
client_checks c =
    must str_type c.service_url
    ∷ may (instance_of Kind.authentication) c.authentication
    ∷ must int_type c.operation_timeout_seconds
    ∷ must int_type c.connection_timeout_ms
    ∷ must int_type c.io_threads
    ∷ must int_type c.message_listener_threads
    ∷ must int_type c.concurrent_lookup_requests
    ∷ may str_type c.log_conf_file_path
    ∷ must bool_type c.use_tls
    ∷ may str_type c.tls_trust_certs_file_path
    ∷ must bool_type c.tls_allow_insecure_connection
    ∷ must bool_type c.tls_validate_hostname
    ∷ may str_type c.listener_name
    ∷ []

-- The calls before the logger is looked at.
unfoldable pub first_settings : ClientArgs → List Setting
first_settings c =
    set_each (optional "authentication" c.authentication (native c.authentication) ∷ [])
    ++ (set "operation_timeout_seconds" c.operation_timeout_seconds
        ∷ set "connection_timeout" c.connection_timeout_ms
        ∷ set "io_threads" c.io_threads
        ∷ set "message_listener_threads" c.message_listener_threads
        ∷ set "concurrent_lookup_requests" c.concurrent_lookup_requests
        ∷ [])

-- The call for the logger. What is passed on is made of the logger: a function that logs through it, its
-- level, or its level and file.
unfoldable pub logger_settings : Arg → Result (List Setting)
logger_settings Arg.none = ok []
logger_settings (Arg.object Kind.python_logger i) =
    ok (set "logger" (native (Arg.object Kind.python_logger i)) ∷ [])
logger_settings (Arg.object Kind.console_logger i) =
    ok (set "console_logger" (native (Arg.object Kind.console_logger i)) ∷ [])
logger_settings (Arg.object Kind.file_logger i) =
    ok (set "file_logger" (native (Arg.object Kind.file_logger i)) ∷ [])
logger_settings a = raise value_error

-- `service_url.startswith(…)`
unfoldable pub url_starts_with : String → Arg → Bool
url_starts_with prefix (Arg.str url) = starts_with url prefix
url_starts_with prefix _ = false

-- The test whether the connection is to be encrypted.
unfoldable pub wants_tls : ClientArgs → Bool
unfolding url_starts_with
wants_tls c =
    truthy c.use_tls
    || (url_starts_with "pulsar+ssl://" c.service_url || url_starts_with "https://" c.service_url)

-- The calls behind the logger. `certificates` is `certifi.where()`.
unfoldable pub last_settings : Arg → ClientArgs → List Setting
last_settings certificates c =
    set_each (
      optionally "listener_name" c.listener_name
      ∷ optional "use_tls" (Arg.bool (wants_tls c)) (Arg.bool true)
      ∷ [])
    ++ (set "tls_trust_certs_file_path"
          (if truthy c.tls_trust_certs_file_path then c.tls_trust_certs_file_path else certificates)
        ∷ set "tls_allow_insecure_connection" c.tls_allow_insecure_connection
        ∷ set "tls_validate_hostname" c.tls_validate_hostname
        ∷ [])

module _ {ℓ} {A : Type ℓ} (accepts : Accepts) (certificates : Arg)
    (native_client : Arg → List Setting → Result A) where
  -- `Client.__init__`, up to the native client that it keeps.
  unfoldable pub init_client : ClientArgs → Result A
  init_client c = do
    run_checks (client_checks c)
    configure accepts (first_settings c)
    logging ← logger_settings c.logger
    configure accepts (logging ++ last_settings certificates c)
    native_client c.service_url (first_settings c ++ (logging ++ last_settings certificates c))
