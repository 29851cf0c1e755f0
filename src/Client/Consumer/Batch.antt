-- ===== src/Client/Consumer/Batch.antt =====
-- `MessageBatch` (pulsar/__init__.py), and what the messages of a batch can be asked for.
use pulsar_client_python.Base.{ℕ, ◌≡◌, ◌⊎◌, inl, inr, List, map, All}
use mathlib.Core.Path.{subst}
use pulsar_client_python.Python.Utf8.{Bytes}
use pulsar_client_python.Python.Result.{
  Result, ok, raise, attribute_error, type_error, ◌>>=◌, >>=-eq-ok,
}
use pulsar_client_python.Client.Argument.{Arg}
use pulsar_client_python.Client.Consumer.Registry.{
  Handle, MessageHandle, value, batch_receive, bare_message,
}
use pulsar_client_python.Client.Consumer.Registry.Messages.{bare_messages, value-batch_receive}

-- What a message id is given as: a native one, a `MessageId`, which holds a native one, or anything else.
pub data GivenId : Type 0 where
  native_id wrapped_id : ℕ → GivenId
  no_id : Arg → GivenId

unfoldable pub native_id_of : GivenId → Result ℕ
native_id_of (native_id i) = ok i
native_id_of (wrapped_id i) = ok i
native_id_of (no_id _) = raise type_error

module _ {B : Type 0} where
  -- `MessageBatch.with_message_id`, with the native batch that is left.
  unfoldable pub with_message_id : (ℕ → B → Result B) → GivenId → B → Result B
  unfolding native_id_of
  with_message_id native_with id batch = do i ← native_id_of id; native_with i batch

  -- `MessageBatch.parse_from`: the native batch parses and has the messages.
  unfoldable pub parse_from :
      (Bytes → Arg → B → Result B)
      → (B → Result (List ℕ))
      → Bytes
      → Arg
      → B
      → Result (List MessageHandle)
  parse_from native_parse messages content size batch = do
    parsed ← native_parse content size batch
    msgs ← messages parsed
    ok (map bare_message msgs)

  -- No message of a batch can be decoded, whether `batch_receive` of a consumer returned the batch or
  -- `parse_from`: `value` raises `AttributeError` on each, for the schema was not set.
  pub value-bare_message {ℓ} :
      {A : Type ℓ} (decode_message : Arg → ℕ → Result A) (native_batch : ℕ → Result (List ℕ))
      (h : Handle) (native_parse : Bytes → Arg → B → Result B) (messages : B → Result (List ℕ))
      (content : Bytes) (size : Arg) (batch : B) (got : List MessageHandle)
      → (batch_receive native_batch h ≡ ok got)
        ⊎ (parse_from native_parse messages content size batch ≡ ok got)
      → All (λ (m : MessageHandle). value decode_message m ≡ raise attribute_error) got
  unfolding parse_from
  value-bare_message decode_message native_batch h native_parse messages content size batch got
        (inl e) =
      value-batch_receive decode_message native_batch h got e
  value-bare_message decode_message native_batch h native_parse messages content size batch got
        (inr e) =
      let (parsed, _, e₁) = >>=-eq-ok (native_parse content size batch) _ e in
      let (msgs, _, e₂) = >>=-eq-ok (messages parsed) _ e₁ in
      let p : map bare_message msgs ≡ got = cc in
      subst (All (λ (m : MessageHandle). value decode_message m ≡ raise attribute_error)) p
        (bare_messages decode_message msgs)
