-- ===== src/Client/Authentication/Requests.antt =====
-- What the constructors of the authentication providers ask of the native module.
use pulsar_client_python.Base.{Bool, true, ◌||◌, ◌&&◌, List, [], ◌∷◌}
use pulsar_client_python.Client.Argument.{Arg, str_type, is_instance}
use pulsar_client_python.Client.Authentication.{
  Factory, library_factory, tls_factory, token_factory, athenz_factory, oauth2_factory,
  basic_factory, key_reader_factory, is_callable, Provider, library, tls, key_reader, token, athenz,
  oauth2, basic,
}

-- The function and its arguments. A text with all parameters goes before a name and a password.
abbrev pub request : Provider → Factory × List Arg
request (library path params) = (library_factory, path ∷ params ∷ [])
request (tls certificate key) = (tls_factory, certificate ∷ key ∷ [])
request (key_reader public private) = (key_reader_factory, public ∷ private ∷ [])
request (token t) = (token_factory, t ∷ [])
request (athenz params) = (athenz_factory, params ∷ [])
request (oauth2 params) = (oauth2_factory, params ∷ [])
request (basic username password method Arg.none) =
    (basic_factory, username ∷ password ∷ method ∷ [])
request (basic username password method params) = (basic_factory, params ∷ [])

-- Every argument is a text; a token may be a function.
abbrev pub is_allowed : Factory → Arg → Bool
is_allowed token_factory a = is_instance a str_type || is_callable a
is_allowed _ a = is_instance a str_type

abbrev pub are_allowed : Factory → List Arg → Bool
are_allowed f [] = true
are_allowed f (a ∷ rest) = is_allowed f a && are_allowed f rest
