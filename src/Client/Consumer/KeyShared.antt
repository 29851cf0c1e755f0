-- ===== src/Client/Consumer/KeyShared.antt =====
-- `ConsumerKeySharedPolicy` (pulsar/__init__.py).
use pulsar_client_python.Base.{
  ◌≡◌, refl, ap, sym, ◌∙◌, Bool, true, false, ◌&&◌, List, ◌∷◌, some, str_eq, arith, Bool-cases, inl,
  inr,
}
use pulsar_client_python.Python.Result.{Result, ok, ◌>>◌, raise_if, >>=-eq-ok, value_error}
use pulsar_client_python.Client.Argument.{Arg, Kind, is_none}
use pulsar_client_python.Client.Native.{Setting, set, Accepts, configure, setting}
use pulsar_client_python.Client.Consumer.DeadLetter.{unless_none, present}

-- `mode == KeySharedMode.Sticky`
unfoldable pub is_sticky : Arg → Bool
is_sticky (Arg.object Kind.sticky _) = true
is_sticky _ = false

-- The calls on `KeySharedPolicy()`.
unfoldable pub key_shared_settings : Arg → Arg → Arg → List Setting
key_shared_settings mode out_of_order ranges =
    set "set_key_shared_mode" mode
    ∷ set "set_allow_out_of_order_delivery" out_of_order
    ∷ unless_none "set_sticky_ranges" ranges

module _ (accepts : Accepts) where
  -- `ConsumerKeySharedPolicy.__init__`: the policy is what it was told.
  unfoldable pub key_shared_policy : Arg → Arg → Arg → Result (List Setting)
  key_shared_policy mode out_of_order ranges = do
    raise_if (is_sticky mode && is_none ranges) value_error
    configure accepts (key_shared_settings mode out_of_order ranges)
    ok (key_shared_settings mode out_of_order ranges)

key_shared_settings_hold :
    (mode out_of_order ranges : Arg)
    → (setting "set_key_shared_mode" (key_shared_settings mode out_of_order ranges) ≡ some mode)
      × (setting "set_allow_out_of_order_delivery" (key_shared_settings mode out_of_order ranges)
          ≡ some out_of_order)
      × (setting "set_sticky_ranges" (key_shared_settings mode out_of_order ranges)
          ≡ present ranges)
unfolding key_shared_settings setting str_eq
key_shared_settings_hold mode out_of_order ranges = elim (Bool-cases (is_none ranges)) [
  | inl e ↦ (rw e refl, rw e refl, rw e refl)
  | inr e ↦ (rw e refl, rw e refl, rw e refl)
]

-- A policy comes into being only with ranges if the mode is sticky; it holds the mode and the order of
-- delivery, and the ranges exactly if they are not `None`.
pub key_shared_policy_ok :
    (accepts : Accepts) (mode out_of_order ranges : Arg) (policy : List Setting)
    → key_shared_policy accepts mode out_of_order ranges ≡ ok policy
    → ((is_sticky mode && is_none ranges) ≡ false)
      × (setting "set_key_shared_mode" policy ≡ some mode)
      × (setting "set_allow_out_of_order_delivery" policy ≡ some out_of_order)
      × (setting "set_sticky_ranges" policy ≡ present ranges)
unfolding key_shared_policy
key_shared_policy_ok accepts mode out_of_order ranges policy h =
    let (_, passed, h₁) = >>=-eq-ok (raise_if (is_sticky mode && is_none ranges) value_error) _ h in
    let (_, accepted, h₂) =
      >>=-eq-ok (configure accepts (key_shared_settings mode out_of_order ranges)) _ h₁ in
    let e : key_shared_settings mode out_of_order ranges ≡ policy = cc in
    let (by_mode, by_order, by_ranges) = key_shared_settings_hold mode out_of_order ranges in
    (
      ground arith,
      ap (setting "set_key_shared_mode") (sym e) ∙ by_mode,
      ap (setting "set_allow_out_of_order_delivery") (sym e) ∙ by_order,
      ap (setting "set_sticky_ranges") (sym e) ∙ by_ranges,
    )
