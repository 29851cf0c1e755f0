-- ===== src/Schema/Avro/Memo.antt =====
-- The cache of writer schemas changes no result: a decoder that asks the client anew for each message
-- returns the same.
use pulsar_client_python.Base.{
  String, ◌≡◌, refl, ◌∙◌, sym, true, ◌&&◌, some, List, str_eq, str_eq_iff, arith, inl, inr,
  Option-cases, Bool-cases,
}
use pulsar_client_python.Base.Int.{ℤ, int_eq, int_eq_iff}
use pulsar_client_python.Python.Result.{Result, Error, ok, raise, Result-cases}
use pulsar_client_python.Python.Utf8.{Bytes}
use pulsar_client_python.Python.Value.{Value}
use pulsar_client_python.Schema.Avro.{
  Versions, AvroState, Externals, attached, touch, cached, store, parse_info, get_writer_schema,
  rename, renamed_in_cache, or_else, decode_bytes, download, decode, decode_fetched, decode_message,
}
use pulsar_client_python.Schema.Avro.Rename.{rename-rename}
use pulsar_client_python.Schema.Avro.Cache.{
  cached-touch, cached-store, hit, miss_attached, download-ok, download-raise,
}
use pulsar_client_python.Schema.Avro.Decode.{decode_message-fetched, get_writer_schema-reader}

module _ (x : Externals) where
  -- Without the cache: the client is asked, and the message is decoded by its answer or, if that fails,
  -- by the reader schema alone.
  unfoldable pub uncached : AvroState → String → ℤ → Bytes → Result Value
  uncached s topic version b = elim (parse_info x (x.get_schema_info topic version)) [
    | raise _ ↦ decode x s b
    | ok writer ↦ or_else (decode_bytes x s b writer) (decode x s b)
  ]

  -- A schema is what the client answers, up to the name that is set in it.
  abbrev pub Answers : Value → String → ℤ → Value → Type 0
  Answers reader t v schema =
      (answer : Value) × (parse_info x (x.get_schema_info t v) ≡ ok answer)
      × (rename reader schema ≡ rename reader answer)

  -- Every schema that is cached is one.
  abbrev pub IsMemo : Value → List (String × Versions) → Type 0
  IsMemo reader d =
      (t : String) (v : ℤ) (schema : Value) → cached t v d ≡ some schema → Answers reader t v schema

  touch-IsMemo :
      (reader : Value) (topic : String) (d : List (String × Versions))
      → IsMemo reader d
      → IsMemo reader (touch topic d)
  touch-IsMemo reader topic d memo t v schema h =
      memo t v schema (sym (cached-touch t topic v d) ∙ h)

  store-IsMemo :
      (reader : Value) (d : List (String × Versions)) (topic : String) (version : ℤ)
      (schema : Value)
      → IsMemo reader d
      → Answers reader topic version schema
      → IsMemo reader (store topic version schema d)
  store-IsMemo reader d topic version schema memo answers t v found h =
      let stored = sym (cached-store t topic v version schema d) ∙ h in
      elim (Bool-cases (str_eq t topic && int_eq v version)) [
        | inl e ↦
            let p : t ≡ topic = ground (arith, str_eq_iff t topic) in
            let q : v ≡ version = ground (arith, int_eq_iff v version) in
            let same : found ≡ schema = ground arith in rw (p, q, same) answers
        | inr e ↦ let old : cached t v d ≡ some found = ground arith in memo t v found old
      ]

  -- A call for a writer schema fails if the client does, and otherwise has what the client answers.
  abbrev Corresponds : Value → String → ℤ → Result Value → Type 0
  Corresponds reader t v (raise _) =
      (error : Error) × (parse_info x (x.get_schema_info t v) ≡ raise error)
  Corresponds reader t v (ok schema) = Answers reader t v schema

  get_writer_schema-IsMemo :
      (topic : String) (version : ℤ) (s : AvroState)
      → s.client ≡ attached true
      → IsMemo s.reader_schema s.writer_schemas
      → Corresponds s.reader_schema topic version (get_writer_schema x topic version s).0
        × IsMemo s.reader_schema (get_writer_schema x topic version s).1.writer_schemas
  get_writer_schema-IsMemo topic version s c memo =
      let touched = touch-IsMemo s.reader_schema topic s.writer_schemas memo in
      elim (Option-cases (cached topic version s.writer_schemas)) [
        | inr (schema, e) ↦
            rw (hit x topic version s schema e) (memo topic version schema e, touched)
        | inl e ↦ elim (Result-cases (parse_info x (x.get_schema_info topic version))) [
          | inl (new, p) ↦
              let answers : Answers s.reader_schema topic version new = (new, p, refl) in
              rw (miss_attached x topic version s e c ∙ download-ok x topic version _ new p) (
                answers,
                store-IsMemo s.reader_schema (touch topic s.writer_schemas) topic version new
                    touched answers,
              )
          | inr (error, p) ↦
              rw (miss_attached x topic version s e c ∙ download-raise x topic version _ error p)
                ((error, p), touched)
        ]
      ]

  pub decode_bytes-rename :
      (s : AvroState) (b : Bytes) (schema answer : Value)
      → rename s.reader_schema schema ≡ rename s.reader_schema answer
      → decode_bytes x s b schema ≡ decode_bytes x s b answer
  unfolding decode_bytes
  decode_bytes-rename s b schema answer h = rw h refl

  decode_fetched-uncached :
      (topic : String) (version : ℤ) (b : Bytes) (s : AvroState) (r : Result Value)
      → Corresponds s.reader_schema topic version r
      → (decode_fetched x topic version b (r, s)).0 ≡ uncached s topic version b
  unfolding uncached
  decode_fetched-uncached topic version b s (raise e) (error, p) = rw (p, uncached) refl
  decode_fetched-uncached topic version b s (ok schema) (answer, p, q) =
      rw (p, uncached) (rw (decode_bytes-rename s b schema answer q) refl)

  -- The state that a call leaves decodes as the one before.
  pub record Keeps (s s' : AvroState) : Type 0 where
    pub client : s'.client ≡ s.client
    pub reader : s'.reader_schema ≡ s.reader_schema
    pub class : s'.record_class ≡ s.record_class
    pub memo : IsMemo s'.reader_schema s'.writer_schemas

  pub uncached-Keeps :
      (topic : String) (version : ℤ) (b : Bytes) (s s' : AvroState)
      → Keeps s s'
      → uncached s' topic version b ≡ uncached s topic version b
  unfolding uncached decode_bytes decode
  uncached-Keeps topic version b s s' k = rw (k.reader, k.class) refl

  renamed_in_cache-IsMemo :
      (topic : String) (version : ℤ) (writer : Value) (s : AvroState)
      → Answers s.reader_schema topic version writer
      → IsMemo s.reader_schema s.writer_schemas
      → Keeps s (renamed_in_cache topic version writer s)
  renamed_in_cache-IsMemo topic version writer s (answer, p, q) memo =
      let same : Keeps s s = record { client = refl; reader = refl; class = refl; memo = memo } in
      elim (Option-cases (cached topic version s.writer_schemas)) [
        | inl e ↦ rw (e, renamed_in_cache) same
        | inr (old, e) ↦ elim (Result-cases (rename s.reader_schema writer)) [
          | inr (error, r) ↦ rw (e, r, renamed_in_cache) same
          | inl (renamed, r) ↦
              rw (e, r, renamed_in_cache)
                (record {
                  client = refl;
                  reader = refl;
                  class = refl;
                  memo =
                      store-IsMemo s.reader_schema s.writer_schemas topic version renamed memo
                        (answer, p, rename-rename s.reader_schema writer renamed r ∙ (sym r ∙ q));
                })
        ]
      ]

  decode_fetched-Keeps :
      (topic : String) (version : ℤ) (b : Bytes) (s : AvroState) (r : Result Value)
      → Corresponds s.reader_schema topic version r
      → IsMemo s.reader_schema s.writer_schemas
      → Keeps s (decode_fetched x topic version b (r, s)).1
  decode_fetched-Keeps topic version b s (raise e) h memo = record {
    client = refl;
    reader = refl;
    class = refl;
    memo = memo;
  }
  decode_fetched-Keeps topic version b s (ok writer) h memo =
      renamed_in_cache-IsMemo topic version writer s h memo

  get_writer_schema-client :
      (topic : String) (version : ℤ) (s : AvroState)
      → (get_writer_schema x topic version s).1.client ≡ s.client
  unfolding get_writer_schema download
  get_writer_schema-client topic version s =
      elim (Result-cases (parse_info x (x.get_schema_info topic version))) [
        | inl (schema, p) ↦ ground arith
        | inr (error, p) ↦ ground arith
      ]

  get_writer_schema-Keeps :
      (topic : String) (version : ℤ) (s : AvroState)
      → s.client ≡ attached true
      → IsMemo s.reader_schema s.writer_schemas
      → Keeps s (get_writer_schema x topic version s).1
  get_writer_schema-Keeps topic version s c memo = record {
    client = get_writer_schema-client topic version s;
    reader = (get_writer_schema-reader x topic version s).0;
    class = (get_writer_schema-reader x topic version s).1;
    memo =
        rw (get_writer_schema-reader x topic version s).0
          (get_writer_schema-IsMemo topic version s c memo).1;
  }

  Keeps-trans : {s s' s'' : AvroState} → Keeps s s' → Keeps s' s'' → Keeps s s''
  Keeps-trans p q = record {
    client = q.client ∙ p.client;
    reader = q.reader ∙ p.reader;
    class = q.class ∙ p.class;
    memo = q.memo;
  }

  pub decode_message-uncached :
      (topic : String) (version : ℤ) (b : Bytes) (s : AvroState)
      → s.client ≡ attached true
      → IsMemo s.reader_schema s.writer_schemas
      → ((decode_message x topic version b s).0 ≡ uncached s topic version b)
        × Keeps s (decode_message x topic version b s).1
  decode_message-uncached topic version b s c memo =
      let kept = get_writer_schema-Keeps topic version s c memo in
      let (corresponds, _) = get_writer_schema-IsMemo topic version s c memo in
      let s' = (get_writer_schema x topic version s).1 in
      let r = (get_writer_schema x topic version s).0 in
      let corresponds' : Corresponds s'.reader_schema topic version r =
        rw kept.reader corresponds in
      rw (decode_message-fetched x topic version b s c) (
        decode_fetched-uncached topic version b s' r corresponds'
            ∙ uncached-Keeps topic version b s s' kept,
        Keeps-trans kept (decode_fetched-Keeps topic version b s' r corresponds' kept.memo),
      )
