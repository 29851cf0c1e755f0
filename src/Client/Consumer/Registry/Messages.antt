-- ===== src/Client/Consumer/Registry/Messages.antt =====
-- What the messages of `receive` and of `batch_receive` can be asked for.
use pulsar_client_python.Base.{ℕ, ◌≡◌, refl, Option, some, List, [], ◌∷◌, map, All, arith}
use mathlib.Core.Path.{subst}
use pulsar_client_python.Python.Result.{Result, ok, raise, attribute_error, >>=-eq-ok}
use pulsar_client_python.Client.Argument.{Arg}
use pulsar_client_python.Client.Consumer.Registry.{
  Handle, MessageHandle, value, receive, batch_receive, bare_message,
}

pub bare_messages {ℓ} :
    {A : Type ℓ} (decode_message : Arg → ℕ → Result A) (msgs : List ℕ)
    → All
        (λ (m : MessageHandle). value decode_message m ≡ raise attribute_error)
        (map bare_message msgs)
unfolding value
bare_messages decode_message [] = tt
bare_messages decode_message (m ∷ msgs) = (refl, bare_messages decode_message msgs)

-- No message that `batch_receive` returns can be decoded: `value` raises `AttributeError` on each, for
-- the schema was not set.
pub value-batch_receive {ℓ} :
    {A : Type ℓ} (decode_message : Arg → ℕ → Result A) (native_batch : ℕ → Result (List ℕ))
    (h : Handle) (batch : List MessageHandle)
    → batch_receive native_batch h ≡ ok batch
    → All (λ (m : MessageHandle). value decode_message m ≡ raise attribute_error) batch
unfolding batch_receive
value-batch_receive decode_message native_batch h batch e =
    let (msgs, received, made) = >>=-eq-ok (native_batch h.native) _ e in
    let p : map bare_message msgs ≡ batch = cc in
    subst (All (λ (m : MessageHandle). value decode_message m ≡ raise attribute_error)) p
      (bare_messages decode_message msgs)

-- A message that `receive` returns, with a timeout or without, is decoded by the schema of the
-- consumer, if the consumer has one.
pub value-receive {ℓ} :
    {A : Type ℓ} (decode_message : Arg → ℕ → Result A) (native_receive : ℕ → Option Arg → Result ℕ)
    (h : Handle) (timeout schema : Arg) (m : MessageHandle)
    → h.schema ≡ some schema
    → receive native_receive h timeout ≡ ok m
    → value decode_message m ≡ decode_message schema m.native
unfolding receive value
value-receive decode_message native_receive h Arg.none schema m own e = ground arith
value-receive decode_message native_receive h timeout schema m own e = ground arith
