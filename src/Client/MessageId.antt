-- ===== src/Client/MessageId.antt =====
-- `MessageId` (pulsar/__init__.py), which holds a native message id.
use pulsar_client_python.Base.{ℕ, ◌≡◌, refl}
use pulsar_client_python.Python.Utf8.{Bytes}
use pulsar_client_python.Python.Result.{Result, ok, ◌>>=◌}
use pulsar_client_python.Client.Argument.{Arg}
use pulsar_client_python.Client.Consumer.Batch.{GivenId, wrapped_id, native_id, with_message_id}

pub data Part : Type 0 where
  partition ledger_id entry_id batch_index : Part

-- `_pulsar.MessageId`
pub record NativeIds : Type 0 where
  pub create : Arg → Arg → Arg → Arg → Result ℕ
  pub part : Part → ℕ → Result Arg
  pub serialize : ℕ → Result Bytes
  pub deserialize : Bytes → Result ℕ

module _ (n : NativeIds) where
  -- `MessageId.__init__`: the instance, by what it holds.
  unfoldable pub message_id : Arg → Arg → Arg → Arg → Result ℕ
  message_id p l e b = n.create p l e b

  -- `ledger_id`, `entry_id`, `batch_index` and `partition`
  abbrev pub part_of : Part → ℕ → Result Arg
  part_of p held = n.part p held

  -- `MessageId.serialize`
  abbrev pub serialize_id : ℕ → Result Bytes
  serialize_id held = n.serialize held

  -- `MessageId.deserialize`, which returns a native message id.
  unfoldable pub deserialize_id : Bytes → Result GivenId
  deserialize_id b = do i ← n.deserialize b; ok (native_id i)

  -- What `deserialize` makes of the bytes of a `MessageId` is taken by `MessageBatch.with_message_id` for
  -- that `MessageId`, if the native module reads back the bytes that it wrote for it.
  pub with_message_id-deserialize :
      {B : Type 0} (native_with : ℕ → B → Result B) (held : ℕ) (b : Bytes) (batch : B)
      → (n.serialize held ≡ ok b → n.deserialize b ≡ ok held)
      → serialize_id held ≡ ok b
      → (deserialize_id b >>= λ i. with_message_id native_with i batch)
        ≡ with_message_id native_with (wrapped_id held) batch
  unfolding deserialize_id with_message_id
  with_message_id-deserialize native_with held b batch reads written = rw (reads written) refl
