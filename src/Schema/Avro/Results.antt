-- ===== src/Schema/Avro/Results.antt =====
-- What a sequence of messages is decoded to.
use pulsar_client_python.Base.{
  String, ◌≡◌, refl, ◌∙◌, ap, sym, Bool-cases, inl, inr, true, Option, none, some, List, [], ◌∷◌,
  map,
}
use pulsar_client_python.Base.Int.{ℤ}
use pulsar_client_python.Python.Result.{Result, ok, >>=-eq-ok}
use pulsar_client_python.Python.Utf8.{Bytes}
use pulsar_client_python.Python.Value.{Value, RecordClass, is_none}
use pulsar_client_python.Schema.Avro.{
  Versions, AvroState, Externals, attached, cached, decode_bytes, decode, decode_message, init_avro,
  new_avro, attach_client,
}
use pulsar_client_python.Schema.Avro.Memo.{
  uncached, IsMemo, uncached-Keeps, decode_message-uncached,
}

-- A message, as the decoder sees it.
pub record Message : Type 0 where
  pub topic : String
  pub version : ℤ
  pub content : Bytes

-- What the messages are decoded to, one after another, by the same instance.
unfoldable pub results : Externals → List Message → AvroState → List (Result Value)
results x [] s = []
results x (m ∷ ms) s =
    let (r, s') = decode_message x m.topic m.version m.content s in r ∷ results x ms s'

results-IsMemo :
    (x : Externals) (ms : List Message) (s : AvroState)
    → s.client ≡ attached true
    → IsMemo x s.reader_schema s.writer_schemas
    → results x ms s ≡ map (λ (m : Message). uncached x s m.topic m.version m.content) ms
unfolding results
results-IsMemo x [] s c memo = refl
results-IsMemo x (m ∷ ms) s c memo =
    let (first, kept) = decode_message-uncached x m.topic m.version m.content s c memo in
    let rest =
      results-IsMemo x ms (decode_message x m.topic m.version m.content s).1 (kept.client ∙ c)
        kept.memo in
    let same =
      ap (λ (f : Message → Result Value). map f ms)
        (λ i n.
          uncached-Keeps x n.topic n.version n.content s
            (decode_message x m.topic m.version m.content s).1 kept i) in
    rw first (
      ap (λ (rs : List (Result Value)). uncached x s m.topic m.version m.content ∷ rs)
        (rest ∙ same))

-- What an `AvroSchema` of a class is made to.
pub init_avro-class :
    (x : Externals) (c : RecordClass) (schema definition : Value) (s : AvroState)
    → init_avro x (some (c, schema)) definition ≡ ok s
    → new_avro (some c) schema ≡ s
unfolding init_avro
init_avro-class x c schema definition s h =
    let (_, _, e) = >>=-eq-ok (x.make_schema_info schema) _ h in cc

init_avro-empty :
    (x : Externals) (c : Option (RecordClass × Value)) (definition : Value) (s : AvroState)
    → init_avro x c definition ≡ ok s
    → s.writer_schemas ≡ []
unfolding init_avro
init_avro-empty x none definition s h = elim (Bool-cases (is_none definition)) [
  | inl e ↦ let h' = rw e at h in cc
  | inr e ↦
      let h' = rw e at h in
      let (_, _, made) = >>=-eq-ok (x.make_schema_info definition) _ h' in
      let same : new_avro none definition ≡ s = cc in
      sym (ap (λ (t : AvroState). t.writer_schemas) same)
]
init_avro-empty x (some (c, schema)) definition s h =
    sym (ap (λ (t : AvroState). t.writer_schemas) (init_avro-class x c schema definition s h))

-- Nothing is cached at first.
empty-IsMemo :
    (x : Externals) (reader : Value) (d : List (String × Versions)) → d ≡ [] → IsMemo x reader d
unfolding cached
empty-IsMemo x reader d e t v schema h =
    let nothing : cached t v d ≡ none = rw (e, cached) refl in cc

-- Whatever sequence of messages a new `AvroSchema` with a client attached decodes: if the client answers
-- the same to the same question, each result, errors included, is that of a decoder without a
-- cache, which asks the client for the schema of every message.
pub results-uncached :
    (x : Externals) (c : Option (RecordClass × Value)) (definition : Value) (s : AvroState)
    (ms : List Message)
    → init_avro x c definition ≡ ok s
    → results x ms (attach_client true s)
      ≡ map (λ (m : Message). uncached x s m.topic m.version m.content) ms
unfolding attach_client uncached decode decode_bytes
results-uncached x c definition s ms h =
    results-IsMemo x ms (attach_client true s) refl
      (empty-IsMemo x s.reader_schema s.writer_schemas (init_avro-empty x c definition s h))
