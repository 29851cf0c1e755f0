-- ===== src/Client/Init/Tls.antt =====
-- When the connection of a client is encrypted, and by which certificates it is checked.
use pulsar_client_python.Base.{
  ◌≡◌, refl, String, true, false, ◌||◌, none, some, List, ◌++◌, All, str_eq, if◌then◌else◌, arith,
}
use pulsar_client_python.Python.Result.{Result, ok, >>=-eq-ok}
use pulsar_client_python.Client.Argument.{Arg, truthy, Passes, run_checks, run_checks_iff}
use pulsar_client_python.Client.Native.{Setting, setting, Accepts, configure}
use pulsar_client_python.Client.Native.Laws.{given, config_laws}
use pulsar_client_python.Client.Init.{
  ClientArgs, client_checks, first_settings, logger_settings, wants_tls, url_starts_with,
  last_settings, init_client,
}

-- The calls of `__init__`, in order, if the logger is one of those that are known.
abbrev pub client_settings : Arg → ClientArgs → List Setting → List Setting
client_settings certificates c logging =
    first_settings c ++ (logging ++ last_settings certificates c)

-- A client comes into being only from arguments of the documented types and with a known logger, by one
-- native call with the service url and the configuration.
pub init_client_ok {ℓ} :
    {A : Type ℓ} (accepts : Accepts) (certificates : Arg)
    (native_client : Arg → List Setting → Result A) (c : ClientArgs) (made : A)
    → init_client accepts certificates native_client c ≡ ok made
    → All Passes (client_checks c)
      × ((logging : List Setting) × (logger_settings c.logger ≡ ok logging)
          × (native_client c.service_url (client_settings certificates c logging) ≡ ok made))
unfolding init_client
init_client_ok accepts certificates native_client c made h =
    let (_, checked, h₁) = >>=-eq-ok (run_checks (client_checks c)) _ h in
    let (_, first, h₂) = >>=-eq-ok (configure accepts (first_settings c)) _ h₁ in
    let (logging, known, h₃) = >>=-eq-ok (logger_settings c.logger) _ h₂ in
    let (_, last, h₄) =
      >>=-eq-ok (configure accepts (logging ++ last_settings certificates c)) _ h₃ in
    ((run_checks_iff (client_checks c)).0 checked, (logging, known, h₄))

logger_setting :
    (name : String) (a : Arg) (logging : List Setting)
    → str_eq name "logger" ≡ false
    → str_eq name "console_logger" ≡ false
    → str_eq name "file_logger" ≡ false
    → logger_settings a ≡ ok logging
    → setting name logging ≡ none
unfolding logger_settings setting
logger_setting name a logging l c f h = ground arith

-- TLS, and what the native client is told of it.
pub record TlsConfiguration (certificates : Arg) (c : ClientArgs) (conf : List Setting)
    : Type 0 where
  pub use_tls : setting "use_tls" conf ≡ (
      if truthy c.use_tls
        || (url_starts_with "pulsar+ssl://" c.service_url
            || url_starts_with "https://" c.service_url)
      then some (Arg.bool true)
      else none)
  pub trusted :
      setting "tls_trust_certs_file_path" conf
      ≡ some
          (if truthy c.tls_trust_certs_file_path then c.tls_trust_certs_file_path else certificates)
  pub allow_insecure :
      setting "tls_allow_insecure_connection" conf ≡ some c.tls_allow_insecure_connection
  pub validate_hostname : setting "tls_validate_hostname" conf ≡ some c.tls_validate_hostname

-- With any logger that is known: TLS is asked for exactly when `use_tls` is true or the service url
-- begins with pulsar+ssl:// or https://; certificates to trust are always named, those of `certifi` if
-- none are given; the two options of the check of certificates are passed on as they are.
pub client_settings-TlsConfiguration :
    (certificates : Arg) (c : ClientArgs) (logging : List Setting)
    → logger_settings c.logger ≡ ok logging
    → TlsConfiguration certificates c (client_settings certificates c logging)
unfolding wants_tls first_settings last_settings setting str_eq given truthy
client_settings-TlsConfiguration certificates c logging h = record {
  use_tls = simp (config_laws, logger_setting "use_tls" c.logger logging refl refl refl h);
  trusted = simp config_laws;
  allow_insecure = simp config_laws;
  validate_hostname = simp config_laws;
}
