-- ===== src/Client/Authentication.antt =====
-- The authentication providers and `CryptoKeyReader` (pulsar/__init__.py): the arguments are checked and
-- handed to the native module.
pub mod Requests
use pulsar_client_python.Base.{
  ℕ, ◌≡◌, refl, Bool, true, false, not, ◌||◌, List, [], ◌∷◌, All, if◌then◌else◌, arith,
}
use pulsar_client_python.Python.Result.{Result, ok, raise, value_error, ◌>>◌, raise_if}
use pulsar_client_python.Client.Argument.{
  Arg, Kind, ArgType, str_type, instance_of, is_instance, is_none, Check, must, Passes, run_checks,
  run_checks_iff, run_checks_fail,
}

-- The functions of the native module that make a provider: `create` of the class of that name, and the
-- constructor of `CryptoKeyReader`.
pub data Factory : Type 0 where
  library_factory tls_factory token_factory athenz_factory oauth2_factory basic_factory : Factory
  key_reader_factory : Factory

-- `callable(a)`
abbrev pub is_callable : Arg → Bool
is_callable (Arg.listener _ _) = true
is_callable a = is_instance a (instance_of Kind.callable)

abbrev pub NativeCreate : Type 0
NativeCreate = Factory → List Arg → Result ℕ

module _ (native_create : NativeCreate) where
  -- `Authentication.__init__`
  unfoldable pub authentication : Arg → Arg → Result ℕ
  authentication path params = do
    run_checks (must str_type path ∷ must str_type params ∷ [])
    native_create library_factory (path ∷ params ∷ [])

  -- `AuthenticationTLS.__init__`
  unfoldable pub authentication_tls : Arg → Arg → Result ℕ
  authentication_tls certificate_path private_key_path = do
    run_checks (must str_type certificate_path ∷ must str_type private_key_path ∷ [])
    native_create tls_factory (certificate_path ∷ private_key_path ∷ [])

  -- `AuthenticationToken.__init__`
  unfoldable pub authentication_token : Arg → Result ℕ
  authentication_token token = do
    raise_if (not (is_instance token str_type || is_callable token)) value_error
    native_create token_factory (token ∷ [])

  -- `AuthenticationAthenz.__init__`
  unfoldable pub authentication_athenz : Arg → Result ℕ
  authentication_athenz auth_params_string = do
    run_checks (must str_type auth_params_string ∷ [])
    native_create athenz_factory (auth_params_string ∷ [])

  -- `AuthenticationOauth2.__init__`
  unfoldable pub authentication_oauth2 : Arg → Result ℕ
  authentication_oauth2 auth_params_string = do
    run_checks (must str_type auth_params_string ∷ [])
    native_create oauth2_factory (auth_params_string ∷ [])

  -- `AuthenticationBasic.__init__`
  unfoldable pub authentication_basic : Arg → Arg → Arg → Arg → Result ℕ
  authentication_basic username password method auth_params_string =
      if is_none auth_params_string
      then (do
        run_checks (must str_type username ∷ must str_type password ∷ must str_type method ∷ [])
        native_create basic_factory (username ∷ password ∷ method ∷ []))
      else (do
        run_checks (must str_type auth_params_string ∷ [])
        native_create basic_factory (auth_params_string ∷ []))

  -- `CryptoKeyReader.__init__`
  unfoldable pub crypto_key_reader : Arg → Arg → Result ℕ
  crypto_key_reader public_key_path private_key_path = do
    run_checks (must str_type public_key_path ∷ must str_type private_key_path ∷ [])
    native_create key_reader_factory (public_key_path ∷ private_key_path ∷ [])

-- A call of one of the constructors.
pub data Provider : Type 0 where
  library tls key_reader : Arg → Arg → Provider
  token athenz oauth2 : Arg → Provider
  basic : Arg → Arg → Arg → Arg → Provider

unfoldable pub create : NativeCreate → Provider → Result ℕ
unfolding authentication authentication_tls authentication_token authentication_athenz
    authentication_oauth2 authentication_basic crypto_key_reader
create native_create (library path params) = authentication native_create path params
create native_create (tls certificate key) = authentication_tls native_create certificate key
create native_create (key_reader public private) = crypto_key_reader native_create public private
create native_create (token t) = authentication_token native_create t
create native_create (athenz params) = authentication_athenz native_create params
create native_create (oauth2 params) = authentication_oauth2 native_create params
create native_create (basic username password method params) =
    authentication_basic native_create username password method params
