-- ===== src/Client/Consumer/DeadLetter.antt =====
-- `ConsumerDeadLetterPolicy` (pulsar/__init__.py).
use pulsar_client_python.Base.{
  ◌≡◌, refl, ap, Bool, true, false, not, Option, none, some, List, [], ◌∷◌, ◌++◌, String, str_eq,
  if◌then◌else◌, arith, Bool-cases, inl, inr, sym, ◌∙◌, ◌≤◌,
}
use pulsar_client_python.Base.Int.{pos, lt_one}
use pulsar_client_python.Python.Result.{
  Result, ok, raise, ◌>>=◌, ◌>>◌, raise_if, >>=-eq-ok, type_error, value_error,
}
use pulsar_client_python.Client.Argument.{Arg, is_none}
use pulsar_client_python.Client.Native.{Setting, set, Accepts, configure, setting}

-- `max_redeliver_count is None or max_redeliver_count < 1`: only numbers are compared with one.
unfoldable pub below_one : Arg → Result Bool
below_one Arg.none = ok true
below_one (Arg.int n) = ok (lt_one n)
below_one (Arg.bool b) = ok (not b)
below_one a = raise type_error

-- `if a is not None: builder.name(a)`
abbrev pub unless_none : String → Arg → List Setting
unless_none name a = if is_none a then [] else set name a ∷ []

-- The calls on `DeadLetterPolicyBuilder()`.
unfoldable pub policy_settings : Arg → Arg → Arg → List Setting
policy_settings count topic subscription =
    set "maxRedeliverCount" count
    ∷ (unless_none "deadLetterTopic" topic ++ unless_none "initialSubscriptionName" subscription)

module _ (accepts : Accepts) where
  -- `ConsumerDeadLetterPolicy.__init__`: the policy is what the builder was told.
  unfoldable pub dead_letter_policy : Arg → Arg → Arg → Result (List Setting)
  dead_letter_policy count topic subscription = do
    low ← below_one count
    raise_if low value_error
    configure accepts (policy_settings count topic subscription)
    ok (policy_settings count topic subscription)

-- An option that is `None` is not set.
abbrev pub present : Arg → Option Arg
present a = if is_none a then none else some a

-- A number that is at least one, as Python compares it: `True` is.
abbrev pub IsPositive : Arg → Type 0
IsPositive (Arg.int (pos n)) = 1 ≤ n
IsPositive (Arg.bool b) = b ≡ true
IsPositive _ = ⊥

below_one-IsPositive : (count : Arg) → below_one count ≡ ok false → IsPositive count
unfolding below_one
below_one-IsPositive count h = ground arith

policy_settings_hold :
    (count topic subscription : Arg)
    → (setting "maxRedeliverCount" (policy_settings count topic subscription) ≡ some count)
      × (setting "deadLetterTopic" (policy_settings count topic subscription) ≡ present topic)
      × (setting "initialSubscriptionName" (policy_settings count topic subscription)
          ≡ present subscription)
unfolding policy_settings setting str_eq
policy_settings_hold count topic subscription = elim (Bool-cases (is_none topic)) [
  | inl e ↦ elim (Bool-cases (is_none subscription)) [
    | inl d ↦ (rw (e, d) refl, rw (e, d) refl, rw (e, d) refl)
    | inr d ↦ (rw (e, d) refl, rw (e, d) refl, rw (e, d) refl)
  ]
  | inr e ↦ elim (Bool-cases (is_none subscription)) [
    | inl d ↦ (rw (e, d) refl, rw (e, d) refl, rw (e, d) refl)
    | inr d ↦ (rw (e, d) refl, rw (e, d) refl, rw (e, d) refl)
  ]
]

-- A policy comes into being only with a number of redeliveries that is at least one; it holds that
-- number, and the topic and the name of the subscription exactly if they are not `None`.
pub dead_letter_policy_ok :
    (accepts : Accepts) (count topic subscription : Arg) (policy : List Setting)
    → dead_letter_policy accepts count topic subscription ≡ ok policy
    → IsPositive count
      × (setting "maxRedeliverCount" policy ≡ some count)
      × (setting "deadLetterTopic" policy ≡ present topic)
      × (setting "initialSubscriptionName" policy ≡ present subscription)
unfolding dead_letter_policy
dead_letter_policy_ok accepts count topic subscription policy h =
    let (low, compared, h₁) = >>=-eq-ok (below_one count) _ h in
    let (_, passed, h₂) = >>=-eq-ok (raise_if low value_error) _ h₁ in
    let (_, accepted, h₃) =
      >>=-eq-ok (configure accepts (policy_settings count topic subscription)) _ h₂ in
    let e : policy_settings count topic subscription ≡ policy = cc in
    let least : low ≡ false = ground arith in
    let (number, dead_topic, name) = policy_settings_hold count topic subscription in
    (
      below_one-IsPositive count (compared ∙ ap (λ (b : Bool). ok b) least),
      ap (setting "maxRedeliverCount") (sym e) ∙ number,
      ap (setting "deadLetterTopic") (sym e) ∙ dead_topic,
      ap (setting "initialSubscriptionName") (sym e) ∙ name,
    )
