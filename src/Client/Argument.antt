-- ===== src/Client/Argument.antt =====
-- The arguments of the API, and `_check_type`, `_check_type_or_none` (pulsar/__init__.py).
use pulsar_client_python.Base.{
  ℕ, ◌≡◌, refl, String, Bool, true, false, not, ◌&&◌, ◌||◌, List, [], ◌∷◌, All, str_eq, arith, ◌↔◌,
  ◌≢◌,
}
use pulsar_client_python.Base.Int.{ℤ, pos, int_eq}
use pulsar_client_python.Python.Utf8.{Bytes}
use pulsar_client_python.Python.Result.{Result, ok, raise, value_error, ◌>>◌, raise_if}

-- The classes of the package and of `_pulsar` whose instances are arguments. A subclass of
-- `Authentication` or of `Schema` counts as that class.
pub data Kind : Type 0 where
  authentication crypto_key_reader schema : Kind
  compression_type batching_type access_mode routing_mode : Kind
  consumer_type initial_position regex_mode : Kind
  batch_receive_policy key_shared_policy dead_letter_policy : Kind
  message_id native_message_id : Kind
  python_logger console_logger file_logger log_level : Kind
  callable pattern message : Kind
  -- the members of `KeySharedMode`
  auto_split sticky : Kind

pub same_kind : Discrete Kind
same_kind = hlevel

mutual
  pub data Arg : Type 0 where
    none : Arg
    bool : Bool → Arg
    int : ℤ → Arg
    str : String → Arg
    bytes : Bytes → Arg
    list : Args → Arg
    dict : Pairs → Arg
    -- a `timedelta`, in microseconds
    timedelta : ℤ → Arg
    -- an instance, by its identity
    object : Kind → ℕ → Arg
    -- what a wrapper holds of the native module: `auth`, `cryptoKeyReader`, `_msg_id`, `policy()`,
    -- `schema_info()`
    native : Arg → Arg
    -- `_listener_wrapper(listener, schema)`
    listener : Arg → Arg → Arg

  pub data Args : Type 0 where
    nil : Args
    cons : Arg → Args → Args

  pub data Pairs : Type 0 where
    end : Pairs
    pair : Arg → Arg → Pairs → Pairs

-- `if a:`
unfoldable pub truthy : Arg → Bool
truthy none = false
truthy (bool b) = b
truthy (int n) = not (int_eq n (pos 0))
truthy (str s) = not (str_eq s "")
truthy (bytes b) = elim b [ [] ↦ false | _ ∷ _ ↦ true ]
truthy (list xs) = elim xs [ nil ↦ false | cons _ _ ↦ true ]
truthy (dict d) = elim d [ end ↦ false | pair _ _ _ ↦ true ]
truthy (timedelta t) = not (int_eq t (pos 0))
truthy (object _ _) = true
truthy (native _) = true
truthy (listener _ _) = true

-- The second argument of `isinstance`.
pub data ArgType : Type 0 where
  bool_type int_type str_type bytes_type list_type dict_type timedelta_type : ArgType
  instance_of : Kind → ArgType

-- `isinstance(a, t)`. A `bool` is an `int`.
unfoldable pub is_instance : Arg → ArgType → Bool
unfolding same_kind
is_instance (bool _) bool_type = true
is_instance (bool _) int_type = true
is_instance (int _) int_type = true
is_instance (str _) str_type = true
is_instance (bytes _) bytes_type = true
is_instance (list _) list_type = true
is_instance (dict _) dict_type = true
is_instance (timedelta _) timedelta_type = true
is_instance (object k _) (instance_of j) = elim (same_kind k j) [ yes _ ↦ true | no _ ↦ false ]
is_instance _ _ = false

abbrev pub is_none : Arg → Bool
is_none none = true
is_none _ = false

-- `_check_type`
unfoldable pub check_type : ArgType → Arg → Result (Unit {0})
check_type t a = raise_if (not (is_instance a t)) value_error

-- `_check_type_or_none`
unfoldable pub check_type_or_none : ArgType → Arg → Result (Unit {0})
check_type_or_none t a = raise_if (not (is_none a) && not (is_instance a t)) value_error

-- One of the calls that a method begins with.
pub data Check : Type 0 where
  must may : ArgType → Arg → Check

unfoldable pub run_check : Check → Result (Unit {0})
unfolding check_type check_type_or_none
run_check (must t a) = check_type t a
run_check (may t a) = check_type_or_none t a

-- The calls in turn: the first argument of a wrong type ends the method.
unfoldable pub run_checks : List Check → Result (Unit {0})
unfolding run_check
run_checks [] = ok tt
run_checks (c ∷ cs) = do run_check c; run_checks cs

-- The argument of a check has its type, or is `None` where that is allowed.
abbrev pub Passes : Check → Type 0
Passes (must t a) = is_instance a t ≡ true
Passes (may t a) = (is_none a || is_instance a t) ≡ true

-- The checks that a method begins with all succeed exactly if each argument has its type, or is `None`
-- where that is allowed.
pub run_checks_iff : (cs : List Check) → (run_checks cs ≡ ok tt) ↔ All Passes cs
unfolding run_checks
run_checks_iff [] = (λ h. tt, λ h. refl)
run_checks_iff (must t a ∷ cs) =
    let (to, from) = run_checks_iff cs in (λ h. ground arith, λ h. ground arith)
run_checks_iff (may t a ∷ cs) =
    let (to, from) = run_checks_iff cs in (λ h. ground arith, λ h. ground arith)

-- A check fails with no other exception than `ValueError`.
pub run_checks_fail : (cs : List Check) → run_checks cs ≢ ok tt → run_checks cs ≡ raise value_error
unfolding run_checks
run_checks_fail [] h = absurd (h refl)
run_checks_fail (must t a ∷ cs) h = let ih = run_checks_fail cs in ground arith
run_checks_fail (may t a ∷ cs) h = let ih = run_checks_fail cs in ground arith
