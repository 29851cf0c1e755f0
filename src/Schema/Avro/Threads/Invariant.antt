-- ===== src/Schema/Avro/Threads/Invariant.antt =====
-- What holds of the shared dicts and of every thread between two steps.
use pulsar_client_python.Base.{ℕ, ◌≡◌, false, none, some, str_eq, ◌==◌, String}
use pulsar_client_python.Base.Int.{ℤ, int_eq}
use pulsar_client_python.Python.Result.{ok}
use pulsar_client_python.Python.Value.{Value}
use pulsar_client_python.Schema.Avro.{AvroState, Externals, get, rename}
use pulsar_client_python.Schema.Avro.Memo.{uncached, Answers}
use pulsar_client_python.Schema.Avro.Results.{Message}
use pulsar_client_python.Schema.Avro.Threads.{
  Shared, Place, starting, entering, missing, touched, looking, missed, fetching, fetched, storing,
  naming, reading, done,
}

module _ (x : Externals) (s : AvroState) (messages : ℕ → Message) where
  -- There is a dict of versions for the topic of the thread.
  abbrev pub Has : Shared → ℕ → Type 0
  Has h i = (k : ℕ) × (get str_eq (messages i).topic h.topics ≡ some k)

  -- The thread made a schema, which is what the client answers for its message, up to the name.
  abbrev pub Made : Shared → ℕ → Type 0
  Made h a =
      (v : Value) × (h.schemas a ≡ some v)
      × Answers x s.reader_schema (messages a).topic (messages a).version v

  -- The schema has the name of the reader schema.
  abbrev pub Named : Shared → ℕ → Type 0
  Named h a = (v : Value) × (h.schemas a ≡ some v) × (rename s.reader_schema v ≡ ok v)

  abbrev pub IsFor : ℕ → ℕ → Type 0
  IsFor i a =
      ((messages a).topic ≡ (messages i).topic) × ((messages a).version ≡ (messages i).version)

  -- Dicts of versions stand under their topics and schemas under their versions.
  pub record IsSound (h : Shared) : Type 0 where
    pub topics : (t : String) (k : ℕ) → get str_eq t h.topics ≡ some k → (messages k).topic ≡ t
    pub versions :
        (k : ℕ) (v : ℤ) (a : ℕ)
        → get int_eq v (h.versions k) ≡ some a
        → ((messages a).topic ≡ (messages k).topic) × ((messages a).version ≡ v) × Made h a

  abbrev pub IsAt : Shared → ℕ → Place → Type 0
  IsAt h i starting = h.schemas i ≡ none
  IsAt h i entering = h.schemas i ≡ none
  IsAt h i missing = h.schemas i ≡ none
  IsAt h i touched = (h.schemas i ≡ none) × Has h i
  IsAt h i (looking k) = (h.schemas i ≡ none) × Has h i × ((messages k).topic ≡ (messages i).topic)
  IsAt h i missed = (h.schemas i ≡ none) × Has h i
  IsAt h i fetching = (h.schemas i ≡ none) × Has h i
  IsAt h i fetched = Has h i × Made h i
  IsAt h i (storing k) = Made h i × ((messages k).topic ≡ (messages i).topic)
  IsAt h i (naming a) = IsFor i a × Made h a
  IsAt h i (reading a) = IsFor i a × Made h a × Named h a
  IsAt h i (done r) = r ≡ uncached x s (messages i).topic (messages i).version (messages i).content

  -- What a step of thread `i` does to the dicts takes nothing from the other threads.
  pub record Extends (i : ℕ) (h h' : Shared) : Type 0 where
    pub has : (j : ℕ) → Has h j → Has h' j
    pub made : (a : ℕ) → Made h a → Made h' a
    pub named : (a : ℕ) → Named h a → Named h' a
    pub fresh : (j : ℕ) → (i == j) ≡ false → h.schemas j ≡ none → h'.schemas j ≡ none

  pub Extends-same : (i : ℕ) (h : Shared) → Extends i h h
  Extends-same i h = record {
    has = λ j p. p;
    made = λ a p. p;
    named = λ a p. p;
    fresh = λ j n p. p;
  }

  pub IsAt-Extends :
      (i j : ℕ) (h h' : Shared) (p : Place)
      → (i == j) ≡ false
      → Extends i h h'
      → IsAt h j p
      → IsAt h' j p
  IsAt-Extends i j h h' starting n e at = e.fresh j n at
  IsAt-Extends i j h h' entering n e at = e.fresh j n at
  IsAt-Extends i j h h' missing n e at = e.fresh j n at
  IsAt-Extends i j h h' touched n e (at, has) = (e.fresh j n at, e.has j has)
  IsAt-Extends i j h h' (looking k) n e (at, has, same) = (e.fresh j n at, e.has j has, same)
  IsAt-Extends i j h h' missed n e (at, has) = (e.fresh j n at, e.has j has)
  IsAt-Extends i j h h' fetching n e (at, has) = (e.fresh j n at, e.has j has)
  IsAt-Extends i j h h' fetched n e (has, made) = (e.has j has, e.made j made)
  IsAt-Extends i j h h' (storing k) n e (made, same) = (e.made j made, same)
  IsAt-Extends i j h h' (naming a) n e (own, made) = (own, e.made a made)
  IsAt-Extends i j h h' (reading a) n e (own, made, named) = (own, e.made a made, e.named a named)
  IsAt-Extends i j h h' (done r) n e at = at
