-- ===== src/Client/Consumer/Registry.antt =====
-- The consumers and readers that a client keeps in `_consumers` (pulsar/__init__.py): how they are opened
-- and closed, and the methods of `Consumer`, `Reader` and `Message` that use what the wrapper keeps. A
-- reader is kept like a consumer. The wrapper's state comes back when a method raises, too.
pub mod Invariant
pub mod Closing
pub mod Messages
pub mod History
use pulsar_client_python.Base.{
  ℕ, suc, ◌≡◌, String, Bool, true, false, Option, none, some, List, [], ◌∷◌, ◌++◌, map,
  if◌then◌else◌, ◌==◌,
}
use pulsar_client_python.Python.Result.{
  Result, ok, raise, value_error, attribute_error, ◌>>=◌, ◌>>◌,
}
use pulsar_client_python.Client.Argument.{Arg, Kind, run_checks, check_type, int_type, str_type}
use pulsar_client_python.Client.Native.{Setting, Accepts, configure}
use pulsar_client_python.Client.Consumer.{
  ConsumerArgs, consumer_checks, consumer_settings, dead_letter_settings, Topic, topic_of,
  ReaderArgs, reader_checks, reader_settings, native_id,
}

-- A `Consumer` or a `Reader`: its identity, the native object, and the attributes `_client` and
-- `_schema`, which an object that a listener is called with does not have.
pub record Handle : Type 0 where
  pub id : ℕ
  pub native : ℕ
  pub has_client : Bool
  pub schema : Option Arg

-- `_consumers`, the identity of the next object, and the schemas that `attach_client` was called on.
pub record ClientState : Type 0 where
  pub consumers : List ℕ
  pub next : ℕ
  pub attached : List Arg

abbrev pub Action : Type 0 → Type 0
Action A = ClientState → Result A × ClientState

-- A call of the native client, by the arguments of the wrapper: the object that it opens.
pub record NativeClient : Type 0 where
  pub accepts : Accepts
  pub subscribe : Topic → Arg → List Setting → Result ℕ
  pub create_reader : Arg → Arg → List Setting → Result ℕ

-- The end of `subscribe` and of `create_reader`: the new object is one of the client's.
abbrev pub register : Result ℕ → Arg → Action Handle
register (raise e) schema s = (raise e, s)
register (ok native) schema s = (
  ok (record { id = s.next; native = native; has_client = true; schema = some schema }),
  record s {
    consumers = s.consumers ++ s.next ∷ [];
    next = suc s.next;
    attached = schema ∷ s.attached;
  },
)

-- `Client.subscribe`, up to the native consumer.
unfoldable pub open_consumer : NativeClient → ConsumerArgs → Result ℕ
open_consumer n c = do
  run_checks (consumer_checks c)
  configure n.accepts (consumer_settings c)
  dead_letter ← dead_letter_settings c.dead_letter_policy
  configure n.accepts dead_letter
  topic ← topic_of c.topic
  n.subscribe topic c.subscription_name (consumer_settings c ++ dead_letter)

-- `Client.subscribe`
unfoldable pub subscribe : NativeClient → ConsumerArgs → Action Handle
unfolding open_consumer
subscribe n c s = register (open_consumer n c) c.schema s

-- `Client.create_reader`, up to the native reader.
unfoldable pub open_reader : NativeClient → ReaderArgs → Result ℕ
open_reader n r = do
  run_checks (reader_checks r)
  configure n.accepts (reader_settings r)
  n.create_reader r.topic (native_id r.start_message_id) (reader_settings r)

-- `Client.create_reader`
unfoldable pub create_reader : NativeClient → ReaderArgs → Action Handle
unfolding open_reader
create_reader n r s = register (open_reader n r) r.schema s

-- `Client.get_topic_partitions`
abbrev pub get_topic_partitions {ℓ} : {A : Type ℓ} → (Arg → Result A) → Arg → Result A
get_topic_partitions native_partitions topic = do check_type str_type topic; native_partitions topic

unfoldable pub contains_id : ℕ → List ℕ → Bool
contains_id i [] = false
contains_id i (j ∷ js) = if i == j then true else contains_id i js

-- `list.remove`: the first one goes.
unfoldable pub remove : ℕ → List ℕ → List ℕ
remove i [] = []
remove i (j ∷ js) = if i == j then js else j ∷ remove i js

-- `self._client._consumers.remove(self)`
unfoldable pub unregister : Handle → Action (Unit {0})
unfolding contains_id remove
unregister h s =
    if h.has_client
    then (if contains_id h.id s.consumers
        then (ok tt, record s { consumers = remove h.id s.consumers })
        else (raise value_error, s))
    else (raise attribute_error, s)

-- `Consumer.close`: the native object is closed first.
unfoldable pub close : (ℕ → Result (Unit {0})) → Handle → Action (Unit {0})
unfolding unregister
close native_close h s = elim (native_close h.native) [
  | raise e ↦ (raise e, s)
  | ok _ ↦ unregister h s
]

-- `Reader.close`
abbrev pub close_reader : (ℕ → Result (Unit {0})) → Handle → Action (Unit {0})
close_reader native_close h = close native_close h

-- The consumer that `_listener_wrapper` makes for a call of the listener.
abbrev pub listener_consumer : ℕ → ℕ → Handle
listener_consumer id native = record { id = id; native = native; has_client = false; schema = none }

-- A `Message`: the native message, and the attribute `_schema` if it was set.
pub record MessageHandle : Type 0 where
  pub native : ℕ
  pub schema : Option Arg

-- `Message.value`
unfoldable pub value {ℓ} : {A : Type ℓ} → (Arg → ℕ → Result A) → MessageHandle → Result A
value decode_message m = elim m.schema [
  | none ↦ raise attribute_error
  | some schema ↦ decode_message schema m.native
]

-- `self._schema`
abbrev own_schema : Handle → Result Arg
own_schema h = elim h.schema [ none ↦ raise attribute_error | some schema ↦ ok schema ]

-- `Consumer.receive`: with no timeout, or with one.
unfoldable pub receive : (ℕ → Option Arg → Result ℕ) → Handle → Arg → Result MessageHandle
receive native_receive h Arg.none = do
  msg ← native_receive h.native none
  schema ← own_schema h
  ok (record { native = msg; schema = some schema })
receive native_receive h timeout = do
  check_type int_type timeout
  msg ← native_receive h.native (some timeout)
  schema ← own_schema h
  ok (record { native = msg; schema = some schema })

-- `Reader.read_next`
abbrev pub read_next : (ℕ → Option Arg → Result ℕ) → Handle → Arg → Result MessageHandle
read_next native_read h timeout = receive native_read h timeout

-- A message of `Consumer.batch_receive`, or of `MessageBatch.parse_from`
abbrev pub bare_message : ℕ → MessageHandle
bare_message msg = record { native = msg; schema = none }

unfoldable pub batch_receive : (ℕ → Result (List ℕ)) → Handle → Result (List MessageHandle)
batch_receive native_batch h = do msgs ← native_batch h.native; ok (map bare_message msgs)

-- The message that `_listener_wrapper` passes to the listener.
abbrev pub listener_message : Arg → ℕ → MessageHandle
listener_message schema msg = record { native = msg; schema = some schema }
