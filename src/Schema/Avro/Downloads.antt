-- ===== src/Schema/Avro/Downloads.antt =====
-- How many downloads a sequence of messages costs.
use pulsar_client_python.Base.{
  ℕ, ◌+◌, ◌≤◌, String, ◌≡◌, refl, ◌∙◌, ap, Bool, true, false, not, ◌&&◌, Option, none, some, List,
  [], ◌∷◌, str_eq, str_eq_iff, if◌then◌else◌, arith, inl, inr, Option-cases,
}
use pulsar_client_python.Base.Int.{ℤ, int_eq, int_eq_iff}
use pulsar_client_python.Python.Result.{Result, ok, raise, Result-cases}
use pulsar_client_python.Python.Utf8.{Bytes}
use pulsar_client_python.Python.Value.{Value, is_none}
use pulsar_client_python.Schema.Avro.{
  Versions, AvroState, Externals, attached, touch, cached, store, parse_info, get_writer_schema,
  get_name, rename, renamed_in_cache, decode_fetched, decode_message,
}
use pulsar_client_python.Schema.Avro.Cache.{
  cached-touch, cached-store, hit, miss_attached, download-ok, download-raise,
}
use pulsar_client_python.Schema.Avro.Decode.{decode_message-fetched}

-- A message, with what the client and the decoder would answer while it is decoded.
pub record Arrival : Type 1 where
  pub externals : Externals
  pub topic : String
  pub version : ℤ
  pub content : Bytes

-- The state that one message after another leaves.
unfoldable pub decode_all : List Arrival → AvroState → AvroState
decode_all [] s = s
decode_all (m ∷ ms) s = decode_all ms (decode_message m.externals m.topic m.version m.content s).1

abbrev same_schema : String → ℤ → String → ℤ → Bool
same_schema t v topic version = str_eq t topic && int_eq v version

-- How often a schema is among those that were downloaded.
unfoldable pub times : String → ℤ → List (String × ℤ) → ℕ
times t v [] = 0
times t v ((topic, version) ∷ ds) = (if same_schema t v topic version then 1 else 0) + times t v ds

-- The client answers with a schema that is kept: of type AVRO, and no JSON null.
abbrev pub is_usable : Result Value → Bool
is_usable (raise _) = false
is_usable (ok schema) = not (is_none schema)

abbrev wasted : String → ℤ → Arrival → ℕ
wasted t v m =
    if same_schema t v m.topic m.version
    then (if is_usable (parse_info m.externals (m.externals.get_schema_info m.topic m.version))
        then 0
        else 1)
    else 0

-- How many messages of the schema meet a client that has no usable answer.
unfoldable pub failures : String → ℤ → List Arrival → ℕ
failures t v [] = 0
failures t v (m ∷ ms) = wasted t v m + failures t v ms

worth : Option Value → ℕ
worth none = 0
worth (some _) = 1

abbrev known : String → ℤ → List (String × Versions) → ℕ
known t v d = worth (cached t v d)

-- What is downloaded more is known more, or wasted.
record Pays (t : String) (v : ℤ) (s s' : AvroState) (waste : ℕ) : Type 0 where
  paid :
      times t v s'.downloads + known t v s.writer_schemas
      ≤ times t v s.downloads + known t v s'.writer_schemas + waste
  client : s'.client ≡ s.client

hit-Pays :
    (t : String) (v : ℤ) (topic : String) (s : AvroState) (waste : ℕ)
    → Pays t v s (record s { writer_schemas = touch topic s.writer_schemas }) waste
hit-Pays t v topic s waste = record {
  paid = rw (ap worth (cached-touch t topic v s.writer_schemas)) (omega arith);
  client = refl;
}

known-store :
    (t topic : String) (v version : ℤ) (schema : Value) (d : List (String × Versions))
    → known t v (store topic version schema d)
      ≡ (if same_schema t v topic version then (if is_none schema then 0 else 1) else known t v d)
unfolding worth
known-store t topic v version schema d =
    ap worth (cached-store t topic v version schema d) ∙ ground arith

known-missed :
    (t topic : String) (v version : ℤ) (d : List (String × Versions))
    → cached topic version d ≡ none
    → same_schema t v topic version ≡ true
    → known t v d ≡ 0
unfolding worth
known-missed t topic v version d e h =
    let p : t ≡ topic = ground (arith, str_eq_iff t topic) in
    let q : v ≡ version = ground (arith, int_eq_iff v version) in rw (p, q, e)

get_writer_schema-Pays :
    (t : String) (v : ℤ) (m : Arrival) (s : AvroState)
    → s.client ≡ attached true
    → Pays t v s (get_writer_schema m.externals m.topic m.version s).1 (wasted t v m)
unfolding times
get_writer_schema-Pays t v m s c = elim (Option-cases (cached m.topic m.version s.writer_schemas)) [
  | inr (schema, e) ↦
      rw (hit m.externals m.topic m.version s schema e) (hit-Pays t v m.topic s (wasted t v m))
  | inl e ↦
      elim (Result-cases (parse_info m.externals (m.externals.get_schema_info m.topic m.version))) [
        | inl (new, p) ↦
            rw
              (miss_attached m.externals m.topic m.version s e c
                ∙ download-ok m.externals m.topic m.version _ new p)
              (record {
                paid = ground (
                  arith,
                  known-store t m.topic v m.version new (touch m.topic s.writer_schemas),
                  cached-touch t m.topic v s.writer_schemas,
                  known-missed t m.topic v m.version s.writer_schemas e,
                );
                client = refl;
              })
        | inr (error, p) ↦
            rw
              (miss_attached m.externals m.topic m.version s e c
                ∙ download-raise m.externals m.topic m.version _ error p)
              (record {
                paid = ground (
                  arith,
                  cached-touch t m.topic v s.writer_schemas,
                  known-missed t m.topic v m.version s.writer_schemas e,
                );
                client = refl;
              })
      ]
]

worth-le-one : (o : Option Value) → worth o ≤ 1
unfolding worth
worth-le-one none = omega arith
worth-le-one (some v) = omega arith

-- Only a dict takes the name.
rename-not_none :
    (reader writer renamed : Value) → rename reader writer ≡ ok renamed → is_none renamed ≡ false
unfolding rename
rename-not_none (Value.dict reader) (Value.dict writer) renamed h =
    elim (Option-cases (get_name reader)) [ inl e ↦ ground arith | inr (name, e) ↦ ground arith ]
rename-not_none reader writer renamed h = ground arith

store-Pays :
    (t topic : String) (v version : ℤ) (schema : Value) (s : AvroState)
    → is_none schema ≡ false
    → Pays t v s (record s { writer_schemas = store topic version schema s.writer_schemas }) 0
store-Pays t topic v version schema s h = record {
  paid = ground (
    arith,
    known-store t topic v version schema s.writer_schemas,
    worth-le-one (cached t v s.writer_schemas),
  );
  client = refl;
}

-- Setting the name in the cached schema forgets nothing.
renamed-Pays :
    (t topic : String) (v version : ℤ) (writer : Value) (s : AvroState)
    → Pays t v s (renamed_in_cache topic version writer s) 0
renamed-Pays t topic v version writer s =
    elim (Option-cases (cached topic version s.writer_schemas)) [
      | inl e ↦ rw (e, renamed_in_cache) (record { paid = omega arith; client = refl })
      | inr (old, e) ↦ elim (Result-cases (rename s.reader_schema writer)) [
        | inl (renamed, p) ↦
            rw (e, p, renamed_in_cache)
              (store-Pays t topic v version renamed s
                (rename-not_none s.reader_schema writer renamed p))
        | inr (error, p) ↦
            rw (e, p, renamed_in_cache) (record { paid = omega arith; client = refl })
      ]
    ]

Pays-trans :
    {t : String} {v : ℤ} {s s' s'' : AvroState} {waste : ℕ}
    → Pays t v s s' waste
    → Pays t v s' s'' 0
    → Pays t v s s'' waste
Pays-trans p q = record { paid = omega (arith, p.paid, q.paid); client = q.client ∙ p.client }

decode_fetched-Pays :
    (t : String) (v : ℤ) (m : Arrival) (r : Result Value) (s s' : AvroState) (waste : ℕ)
    → Pays t v s s' waste
    → Pays t v s (decode_fetched m.externals m.topic m.version m.content (r, s')).1 waste
decode_fetched-Pays t v m (raise e) s s' waste p = p
decode_fetched-Pays t v m (ok writer) s s' waste p =
    Pays-trans p (renamed-Pays t m.topic v m.version writer s')

decode_message-Pays :
    (t : String) (v : ℤ) (m : Arrival) (s : AvroState)
    → s.client ≡ attached true
    → Pays t v s (decode_message m.externals m.topic m.version m.content s).1 (wasted t v m)
decode_message-Pays t v m s c =
    rw (decode_message-fetched m.externals m.topic m.version m.content s c) (
      decode_fetched-Pays t v m (get_writer_schema m.externals m.topic m.version s).0 s
        (get_writer_schema m.externals m.topic m.version s).1 (wasted t v m)
        (get_writer_schema-Pays t v m s c))

decode_all-Pays :
    (t : String) (v : ℤ) (ms : List Arrival) (s : AvroState)
    → s.client ≡ attached true
    → Pays t v s (decode_all ms s) (failures t v ms)
unfolding decode_all failures
decode_all-Pays t v [] s c = record { paid = omega arith; client = refl }
decode_all-Pays t v (m ∷ ms) s c =
    let p = decode_message-Pays t v m s c in
    let q =
      decode_all-Pays t v ms (decode_message m.externals m.topic m.version m.content s).1
        (p.client ∙ c) in
    record { paid = omega (arith, p.paid, q.paid); client = q.client ∙ p.client }

-- However many messages an `AvroSchema` with a client attached decodes, and whatever the client and the
-- decoder answer each time: a schema, by its topic and version, is downloaded at most once, and once
-- more for each message of that schema on which the client has no usable answer.
pub times-decode_all :
    (t : String) (v : ℤ) (ms : List Arrival) (s : AvroState)
    → s.client ≡ attached true
    → times t v (decode_all ms s).downloads ≤ times t v s.downloads + 1 + failures t v ms
times-decode_all t v ms s c =
    let p = decode_all-Pays t v ms s c in
    omega (arith, p.paid, worth-le-one (cached t v (decode_all ms s).writer_schemas))
