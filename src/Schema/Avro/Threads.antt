-- ===== src/Schema/Avro/Threads.antt =====
-- `decode_message` of one `AvroSchema` in several threads, as the listeners of consumers call it: the
-- threads take turns between the accesses to the dicts that they share.
--
-- A dict that is shared is an object. Every thread makes at most one dict of versions and one writer
-- schema, so both are named by the number of the thread. Thread `i` decodes `messages i`; one that
-- decodes several messages is several threads here, whose turns are one after another. The `AvroState`
-- has what does not change: the class, the reader schema and the client.
pub mod Invariant
pub mod Dicts
pub mod Safety
pub mod Running
pub mod Turns
use pulsar_client_python.Base.{
  ℕ, zero, suc, ◌+◌, ◌≡◌, String, true, false, Option, none, some, List, [], ◌∷◌, str_eq,
  if◌then◌else◌, ◌==◌,
}
use pulsar_client_python.Base.Int.{ℤ, int_eq}
use pulsar_client_python.Python.Result.{Result, ok, raise, attribute_error, ◌>>=◌}
use pulsar_client_python.Python.Utf8.{Bytes}
use pulsar_client_python.Python.Value.{Value, is_none}
use pulsar_client_python.Schema.Avro.{
  AvroState, ClientAttribute, unset, attached, Externals, get, put, parse_info, rename, as_record,
  or_else, decode,
}
use pulsar_client_python.Schema.Avro.Results.{Message}

-- `f`, but `v` at `i`
unfoldable pub set_at {ℓ} : {A : Type ℓ} → ℕ → A → (ℕ → A) → ℕ → A
set_at i v f j = if i == j then v else f j

-- The dict `_writer_schemas`, the dicts of versions that stand in it or did, and the writer schemas
-- that were parsed so far.
pub record Shared : Type 0 where
  pub topics : List (String × ℕ)
  pub versions : ℕ → List (ℤ × ℕ)
  pub schemas : ℕ → Option Value

-- Where a thread is.
pub data Place : Type 0 where
  -- at `if self._client is None` of `decode_message`
  starting : Place
  -- at `if self._writer_schemas.get(topic) is None`
  entering : Place
  -- at `self._writer_schemas[topic] = dict()`
  missing : Place
  -- at `self._writer_schemas[topic]` in front of `.get(version)`
  touched : Place
  -- at `.get(version)` of this dict
  looking : ℕ → Place
  -- at `if self._client is None` of `_get_writer_schema`
  missed : Place
  -- at `self._client.get_schema_info(topic, version)`, with what is made of it
  fetching : Place
  -- at `self._writer_schemas[topic]` in front of `[version] = writer_schema`
  fetched : Place
  -- at `[version] = writer_schema` of this dict
  storing : ℕ → Place
  -- at `writer_schema['name'] = reader_schema['name']` of this schema
  naming : ℕ → Place
  -- at `fastavro.schemaless_reader(buffer, writer_schema, reader_schema)` of this schema
  reading : ℕ → Place
  done : Result Value → Place

pub record Threads : Type 0 where
  pub places : ℕ → Place
  pub shared : Shared

-- Every thread is about to begin, with an empty cache.
abbrev pub new_threads : Threads
new_threads = record {
  places = λ _. starting;
  shared = record { topics = []; versions = λ _. []; schemas = λ _. none };
}

module _ (x : Externals) (s : AvroState) (messages : ℕ → Message) where
  -- The `except` block.
  abbrev pub by_reader : ℕ → Place
  by_reader i = done (decode x s (messages i).content)

  -- `schemaless_reader` by a writer schema that has the reader's name, and the record.
  abbrev pub read_with : ℕ → Value → Result Value
  read_with i writer = do
    d ← x.read_datum (messages i).content writer s.reader_schema
    as_record s.record_class d

  -- Where the answer of `.get(version)` leads; a schema that is `None` is as none.
  unfoldable pub looked : Option ℕ → (ℕ → Option Value) → Place
  looked none schemas = missed
  looked (some a) schemas = elim (schemas a) [
    | none ↦ missed
    | some schema ↦ if is_none schema then missed else naming a
  ]

  -- `decode_message` goes on if a client is attached that is not `None`; the attribute is not there if
  -- none was attached, and the test stands outside of the `try` block.
  unfoldable pub started : ClientAttribute → ℕ → Place
  started unset i = done (raise attribute_error)
  started (attached false) i = by_reader i
  started (attached true) i = entering

  -- Without a client `_get_writer_schema` returns the reader schema.
  unfoldable pub asked : ClientAttribute → ℕ → Place
  asked unset i = by_reader i
  asked (attached false) i = by_reader i
  asked (attached true) i = fetching

  abbrev pub place_of : ℕ → Option ℕ → (ℕ → Place) → Place
  place_of i none there = by_reader i
  place_of i (some k) there = there k

  abbrev pub make_schema : ℕ → Result Value → Shared → Place × Shared
  make_schema i (raise _) h = (by_reader i, h)
  make_schema i (ok schema) h = (fetched, record h { schemas = set_at i (some schema) h.schemas })

  abbrev pub set_name : ℕ → ℕ → Result Value → Shared → Place × Shared
  set_name i a (raise _) h = (by_reader i, h)
  set_name i a (ok renamed) h =
      (reading a, record h { schemas = set_at a (some renamed) h.schemas })

  -- The next step of thread `i`, which is at this place.
  unfoldable pub step : ℕ → Place → Shared → Place × Shared
  unfolding looked set_at started asked
  step i starting h = (started s.client i, h)
  step i entering h =
      (elim (get str_eq (messages i).topic h.topics) [ none ↦ missing | some _ ↦ touched ], h)
  step i missing h = (
    touched,
    record h {
      topics = put str_eq (messages i).topic i h.topics;
      versions = set_at i [] h.versions;
    },
  )
  step i touched h = (place_of i (get str_eq (messages i).topic h.topics) looking, h)
  step i (looking k) h = (looked (get int_eq (messages i).version (h.versions k)) h.schemas, h)
  step i missed h = (asked s.client i, h)
  step i fetching h =
      make_schema i (parse_info x (x.get_schema_info (messages i).topic (messages i).version)) h
  step i fetched h = (place_of i (get str_eq (messages i).topic h.topics) storing, h)
  step i (storing k) h = (
    naming i,
    record h { versions = set_at k (put int_eq (messages i).version i (h.versions k)) h.versions },
  )
  step i (naming a) h = elim (h.schemas a) [
    | none ↦ (by_reader i, h)
    | some schema ↦ set_name i a (rename s.reader_schema schema) h
  ]
  step i (reading a) h = (
    elim (h.schemas a) [
      | none ↦ by_reader i
      | some schema ↦ done (or_else (read_with i schema) (decode x s (messages i).content))
    ],
    h,
  )
  step i (done r) h = (done r, h)

  -- The threads take their turns as the schedule says.
  unfoldable pub run : List ℕ → Threads → Threads
  unfolding step set_at
  run [] t = t
  run (i ∷ is) t =
      let (p, h) = step i (t.places i) t.shared in
      run is (record { places = set_at i p t.places; shared = h })

-- How often a thread has its turn.
unfoldable pub turns : ℕ → List ℕ → ℕ
turns i [] = 0
turns i (j ∷ js) = (if j == i then 1 else 0) + turns i js
