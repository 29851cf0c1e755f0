-- ===== src/Schema/Avro/Cache.antt =====
-- The cache of writer schemas: each is downloaded when it is first asked for, and kept.
use pulsar_client_python.Base.{
  String, ◌≡◌, refl, ◌∙◌, ap, true, false, ◌&&◌, none, some, List, [], ◌∷◌, str_eq, str_eq_iff,
  str_eq_refl, if◌then◌else◌, arith, inl, inr, Option-cases,
}
use pulsar_client_python.Base.Int.{ℤ, int_eq, int_eq_iff}
use pulsar_client_python.Python.Result.{Result, Error, ok, raise, Result-cases}
use pulsar_client_python.Python.Value.{Value, is_none}
use pulsar_client_python.Schema.Avro.{
  get, put, Versions, AvroState, Externals, attached, versions_of, touch, cached, store, parse_info,
  download, get_writer_schema,
}

module _ {V : Type 0} where
  pub get-put_text :
      (k j : String) (v : V) (d : List (String × V))
      → get str_eq k (put str_eq j v d) ≡ (if str_eq k j then some v else get str_eq k d)
  unfolding get put
  get-put_text k j v [] = refl
  get-put_text k j v ((i, w) ∷ d) =
      ground (arith, str_eq_iff k j, str_eq_iff j i, str_eq_iff k i, get-put_text k j v d)

  pub get-put_int :
      (k j : ℤ) (v : V) (d : List (ℤ × V))
      → get int_eq k (put int_eq j v d) ≡ (if int_eq k j then some v else get int_eq k d)
  unfolding get put
  get-put_int k j v [] = refl
  get-put_int k j v ((i, w) ∷ d) =
      ground (arith, int_eq_iff k j, int_eq_iff j i, int_eq_iff k i, get-put_int k j v d)

versions_of-touch :
    (t topic : String) (d : List (String × Versions))
    → versions_of t (touch topic d) ≡ versions_of t d
unfolding versions_of touch
versions_of-touch t topic d = elim (Option-cases (get str_eq topic d)) [
  | inl e ↦ ground (arith, get-put_text {V = Versions} t topic [] d, str_eq_iff t topic)
  | inr (v, e) ↦ ground arith
]

touch-touch : (t : String) (d : List (String × Versions)) → touch t (touch t d) ≡ touch t d
unfolding touch
touch-touch t d = elim (Option-cases (get str_eq t d)) [
  | inl e ↦ ground (arith, get-put_text {V = Versions} t t [] d, str_eq_refl t)
  | inr (v, e) ↦ ground arith
]

touch-store :
    (t : String) (v : ℤ) (s : Value) (d : List (String × Versions))
    → touch t (store t v s d) ≡ store t v s d
unfolding touch store
touch-store t v s d =
    ground (arith, get-put_text t t (put int_eq v s (versions_of t d)) d, str_eq_refl t)

pub cached-touch :
    (t topic : String) (v : ℤ) (d : List (String × Versions))
    → cached t v (touch topic d) ≡ cached t v d
unfolding cached
cached-touch t topic v d = rw (versions_of-touch t topic d)

versions_of-store :
    (t topic : String) (version : ℤ) (s : Value) (d : List (String × Versions))
    → versions_of t (store topic version s d)
      ≡ (if str_eq t topic then put int_eq version s (versions_of topic d) else versions_of t d)
unfolding versions_of store
versions_of-store t topic version s d =
    ground (arith, get-put_text t topic (put int_eq version s (versions_of topic d)) d)

-- A schema that is stored is found under its topic and version, and nothing else changes.
pub cached-store :
    (t topic : String) (v version : ℤ) (s : Value) (d : List (String × Versions))
    → cached t v (store topic version s d) ≡ (
        if str_eq t topic && int_eq v version
        then (if is_none s then none else some s)
        else cached t v d)
unfolding cached
cached-store t topic v version s d = ground (
  arith,
  versions_of-store t topic version s d,
  str_eq_iff t topic,
  get-put_int v version s (versions_of topic d),
)

cached-store_self :
    (t : String) (v : ℤ) (s : Value) (d : List (String × Versions))
    → is_none s ≡ false
    → cached t v (store t v s d) ≡ some s
cached-store_self t v s d h =
    cached-store t t v v s d ∙ rw (str_eq_refl t) (rw ((int_eq_iff v v).1 refl) (rw h))

-- A schema that is in the cache is returned, with no download.
pub hit :
    (x : Externals) (topic : String) (version : ℤ) (s : AvroState) (schema : Value)
    → cached topic version s.writer_schemas ≡ some schema
    → get_writer_schema x topic version s
      ≡ (ok schema, record s { writer_schemas = touch topic s.writer_schemas })
unfolding get_writer_schema
hit x topic version s schema e =
    let f : cached topic version (touch topic s.writer_schemas) ≡ some schema =
      cached-touch topic topic version s.writer_schemas ∙ e in
    rw (f, get_writer_schema) refl

-- What a call leaves in the cache: the schemas of before, and what it downloaded.
pub miss_attached :
    (x : Externals) (topic : String) (version : ℤ) (s : AvroState)
    → cached topic version s.writer_schemas ≡ none
    → s.client ≡ attached true
    → get_writer_schema x topic version s
      ≡ download x topic version (record s { writer_schemas = touch topic s.writer_schemas })
unfolding get_writer_schema
miss_attached x topic version s e c =
    let f : cached topic version (touch topic s.writer_schemas) ≡ none =
      cached-touch topic topic version s.writer_schemas ∙ e in
    rw (f, get_writer_schema) (rw c)

pub download-ok :
    (x : Externals) (topic : String) (version : ℤ) (s : AvroState) (schema : Value)
    → parse_info x (x.get_schema_info topic version) ≡ ok schema
    → download x topic version s ≡ (
      ok schema,
      record s {
        writer_schemas = store topic version schema s.writer_schemas;
        downloads = (topic, version) ∷ s.downloads;
      },
    )
unfolding download
download-ok x topic version s schema e = rw (e, download) refl

pub download-raise :
    (x : Externals) (topic : String) (version : ℤ) (s : AvroState) (error : Error)
    → parse_info x (x.get_schema_info topic version) ≡ raise error
    → download x topic version s
      ≡ (raise error, record s { downloads = (topic, version) ∷ s.downloads })
unfolding download
download-raise x topic version s error e = rw (e, download) refl

-- With a client attached, a call for a writer schema that is not cached makes one download, and a call
-- for one that is cached makes none.
pub downloads-get_writer_schema :
    (x : Externals) (topic : String) (version : ℤ) (s : AvroState)
    → s.client ≡ attached true
    → (get_writer_schema x topic version s).1.downloads
      ≡ (elim (cached topic version s.writer_schemas) [
        | none ↦ (topic, version) ∷ s.downloads
        | some _ ↦ s.downloads
      ])
downloads-get_writer_schema x topic version s c =
    elim (Option-cases (cached topic version s.writer_schemas)) [
      | inl e ↦ rw (miss_attached x topic version s e c) (
          rw e (elim (Result-cases (parse_info x (x.get_schema_info topic version))) [
            | inl (schema, p) ↦ rw (download-ok x topic version _ schema p)
            | inr (error, p) ↦ rw (download-raise x topic version _ error p)
          ]))
      | inr (schema, e) ↦ rw (hit x topic version s schema e) (rw e)
    ]

-- What a call for a schema leaves in the cache.
abbrev after : String → ℤ → Result Value → List (String × Versions) → List (String × Versions)
after topic version (ok schema) d = store topic version schema (touch topic d)
after topic version (raise _) d = touch topic d

cached-after :
    (t topic : String) (v version : ℤ) (r : Result Value) (d : List (String × Versions))
    (schema : Value)
    → cached topic version d ≡ none
    → cached t v d ≡ some schema
    → cached t v (after topic version r d) ≡ some schema
cached-after t topic v version (raise _) d schema e h = cached-touch t topic v d ∙ h
cached-after t topic v version (ok new) d schema e h = ground (
  arith,
  cached-store t topic v version new (touch topic d),
  cached-touch t topic v d,
  str_eq_iff t topic,
  int_eq_iff v version,
)

-- With a client attached, the cache forgets nothing: a schema that is cached under some topic and
-- version is still, and is the same, after any call for a writer schema, also one that raises.
pub cached-get_writer_schema :
    (x : Externals) (t topic : String) (v version : ℤ) (s : AvroState) (schema : Value)
    → s.client ≡ attached true
    → cached t v s.writer_schemas ≡ some schema
    → cached t v (get_writer_schema x topic version s).1.writer_schemas ≡ some schema
cached-get_writer_schema x t topic v version s schema c h =
    elim (Option-cases (cached topic version s.writer_schemas)) [
      | inl e ↦
          rw (miss_attached x topic version s e c)
            (elim (Result-cases (parse_info x (x.get_schema_info topic version))) [
              | inl (new, p) ↦
                  rw (download-ok x topic version _ new p)
                    (cached-after t topic v version (ok new) s.writer_schemas schema e h)
              | inr (error, p) ↦
                  rw (download-raise x topic version _ error p)
                    (cached-touch t topic v s.writer_schemas ∙ h)
            ])
      | inr (old, e) ↦
          rw (hit x topic version s old e) (cached-touch t topic v s.writer_schemas ∙ h)
    ]

again :
    (x : Externals) (topic : String) (version : ℤ) (s : AvroState) (schema : Value)
    → cached topic version s.writer_schemas ≡ some schema
    → touch topic s.writer_schemas ≡ s.writer_schemas
    → get_writer_schema x topic version s ≡ (ok schema, s)
again x topic version s schema e touched =
    hit x topic version s schema e
    ∙ ap (λ (d : List (String × Versions)). (ok schema, record s { writer_schemas = d })) touched

-- With a client attached, a writer schema other than `None` that a call returned is returned by the
-- next call for the same topic and version, from the cache: whatever the client would answer then,
-- nothing is downloaded and nothing changes.
pub get_writer_schema-again :
    (x y : Externals) (topic : String) (version : ℤ) (s : AvroState) (schema : Value)
    → s.client ≡ attached true
    → is_none schema ≡ false
    → (get_writer_schema x topic version s).0 ≡ ok schema
    → get_writer_schema y topic version (get_writer_schema x topic version s).1
      ≡ (ok schema, (get_writer_schema x topic version s).1)
get_writer_schema-again x y topic version s schema c present h =
    elim (Option-cases (cached topic version s.writer_schemas)) [
      | inl e ↦ elim (Result-cases (parse_info x (x.get_schema_info topic version))) [
        | inl (new, p) ↦
            let q = miss_attached x topic version s e c ∙ download-ok x topic version _ new p in
            let same : new ≡ schema = cc (ap (λ r. r.0) q) in
            rw (q, same)
              (again y topic version _ schema
                (cached-store_self topic version schema (touch topic s.writer_schemas) present)
                (touch-store topic version schema (touch topic s.writer_schemas)))
        | inr (error, p) ↦
            let q =
              miss_attached x topic version s e c ∙ download-raise x topic version _ error p in
            cc (ap (λ r. r.0) q)
      ]
      | inr (old, e) ↦
          let q = hit x topic version s old e in
          let same : old ≡ schema = cc (ap (λ r. r.0) q) in
          rw q (
            again y topic version _ schema
              (cached-touch topic topic version s.writer_schemas ∙ e ∙ ap some same)
              (touch-touch topic s.writer_schemas))
    ]
