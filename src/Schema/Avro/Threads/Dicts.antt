-- ===== src/Schema/Avro/Threads/Dicts.antt =====
-- What the writes to the shared dicts keep.
use pulsar_client_python.Base.{
  ℕ, ◌≡◌, refl, sym, ◌∙◌, true, false, none, some, [], str_eq, str_eq_iff, str_eq_refl, ap, List,
  ◌==◌, ==_iff, arith, inl, inr, Bool-cases,
}
use pulsar_client_python.Base.Int.{ℤ, int_eq, int_eq_iff}
use pulsar_client_python.Python.Result.{ok}
use pulsar_client_python.Python.Value.{Value}
use pulsar_client_python.Schema.Avro.{AvroState, Externals, get, put, rename}
use pulsar_client_python.Schema.Avro.Cache.{get-put_text, get-put_int}
use pulsar_client_python.Schema.Avro.Memo.{Answers}
use pulsar_client_python.Schema.Avro.Results.{Message}
use pulsar_client_python.Schema.Avro.Threads.{set_at, Shared}
use pulsar_client_python.Schema.Avro.Threads.Invariant.{Has, Made, Named, IsSound, Extends}

pub set_at-same {ℓ} :
    {A : Type ℓ} (i j : ℕ) (v : A) (f : ℕ → A) → (i == j) ≡ true → set_at i v f j ≡ v
unfolding set_at
set_at-same i j v f e = rw e refl

pub set_at-other {ℓ} :
    {A : Type ℓ} (i j : ℕ) (v : A) (f : ℕ → A) → (i == j) ≡ false → set_at i v f j ≡ f j
unfolding set_at
set_at-other i j v f e = rw e refl

module _ (x : Externals) (s : AvroState) (messages : ℕ → Message) where
  -- A dict of versions is made for the topic of the thread.
  abbrev pub with_dict : ℕ → Shared → Shared
  with_dict i h = record h {
    topics = put str_eq (messages i).topic i h.topics;
    versions = set_at i [] h.versions;
  }

  pub with_dict-Has :
      (i j : ℕ) (h : Shared) → Has x s messages h j → Has x s messages (with_dict i h) j
  with_dict-Has i j h (k, e) = elim (Bool-cases (str_eq (messages j).topic (messages i).topic)) [
    | inl same ↦
        (i, rw (get-put_text (messages j).topic (messages i).topic i h.topics) (rw same refl))
    | inr other ↦
        (k, rw (get-put_text (messages j).topic (messages i).topic i h.topics) (rw other e))
  ]

  pub with_dict-own : (i : ℕ) (h : Shared) → Has x s messages (with_dict i h) i
  with_dict-own i h = (
    i,
    rw (get-put_text (messages i).topic (messages i).topic i h.topics)
        (rw (str_eq_refl (messages i).topic) refl),
  )

  pub with_dict-Extends : (i : ℕ) (h : Shared) → Extends x s messages i h (with_dict i h)
  with_dict-Extends i h = record {
    has = λ j p. with_dict-Has i j h p;
    made = λ a p. p;
    named = λ a p. p;
    fresh = λ j n p. p;
  }

  pub with_dict-IsSound :
      (i : ℕ) (h : Shared) → IsSound x s messages h → IsSound x s messages (with_dict i h)
  unfolding get
  with_dict-IsSound i h sound = record {
    topics = λ t k e. ground (
      arith,
      get-put_text t (messages i).topic i h.topics,
      str_eq_iff t (messages i).topic,
      sound.topics t k,
    );
    versions = λ k v a e. elim (Bool-cases (i == k)) [
      | inl own ↦
          let nothing : get int_eq v [] ≡ some a =
            ap (λ (d : List (ℤ × ℕ)). get int_eq v d) (sym (set_at-same i k [] h.versions own))
            ∙ e in
          cc
      | inr other ↦ sound.versions k v a (
          ap (λ (d : List (ℤ × ℕ)). get int_eq v d) (sym (set_at-other i k [] h.versions other))
          ∙ e)
    ];
  }

  -- A schema is made, or its name is set.
  abbrev pub with_schema : ℕ → Value → Shared → Shared
  with_schema a v h = record h { schemas = set_at a (some v) h.schemas }

  module _ (i a : ℕ) (w : Value) (h : Shared)
      (answers : Answers x s.reader_schema (messages a).topic (messages a).version w) where
    pub with_schema-own : Made x s messages (with_schema a w h) a
    with_schema-own = (w, set_at-same a a (some w) h.schemas ((==_iff a a).1 refl), answers)

    with_schema-Made : (j : ℕ) → Made x s messages h j → Made x s messages (with_schema a w h) j
    with_schema-Made j (v, e, p) = elim (Bool-cases (a == j)) [
      | inl own ↦ let same : a ≡ j = (==_iff a j).0 own in rw (← same) with_schema-own
      | inr other ↦ (v, set_at-other a j (some w) h.schemas other ∙ e, p)
    ]

    pub with_schema-IsSound : IsSound x s messages h → IsSound x s messages (with_schema a w h)
    with_schema-IsSound sound = record {
      topics = sound.topics;
      versions =
          λ k v j e. let (p, q, made) = sound.versions k v j e in (p, q, with_schema-Made j made);
    }

    pub with_schema-Extends :
        (Named x s messages h a → rename s.reader_schema w ≡ ok w)
        → ((j : ℕ) → (i == j) ≡ false → h.schemas j ≡ none → (a == j) ≡ false)
        → Extends x s messages i h (with_schema a w h)
    with_schema-Extends names fresh = record {
      has = λ j p. p;
      made = with_schema-Made;
      named = λ j p. elim (Bool-cases (a == j)) [
        | inl own ↦
            let same : a ≡ j = (==_iff a j).0 own in
            (w, set_at-same a j (some w) h.schemas own, names (rw same p))
        | inr other ↦ (p.0, set_at-other a j (some w) h.schemas other ∙ p.1, p.2)
      ];
      fresh = λ j n p. set_at-other a j (some w) h.schemas (fresh j n p) ∙ p;
    }

  -- A schema is stored in a dict of versions.
  abbrev pub with_version : ℕ → ℕ → Shared → Shared
  with_version i k h = record h {
    versions = set_at k (put int_eq (messages i).version i (h.versions k)) h.versions;
  }

  pub with_version-Extends : (i k : ℕ) (h : Shared) → Extends x s messages i h (with_version i k h)
  with_version-Extends i k h = record {
    has = λ j p. p;
    made = λ a p. p;
    named = λ a p. p;
    fresh = λ j n p. p;
  }

  pub with_version-IsSound :
      (i k : ℕ) (h : Shared)
      → Made x s messages h i
      → (messages k).topic ≡ (messages i).topic
      → IsSound x s messages h
      → IsSound x s messages (with_version i k h)
  with_version-IsSound i k h made same sound = record {
    topics = sound.topics;
    versions = λ j v a e. elim (Bool-cases (k == j)) [
      | inr other ↦ sound.versions j v a (
          ap (λ (d : List (ℤ × ℕ)). get int_eq v d)
            (sym (
              set_at-other k j (put int_eq (messages i).version i (h.versions k)) h.versions other))
          ∙ e)
      | inl own ↦
          let here : k ≡ j = (==_iff k j).0 own in
          let found =
            sym (get-put_int v (messages i).version i (h.versions k))
            ∙ ap (λ (d : List (ℤ × ℕ)). get int_eq v d)
                (sym (
                  set_at-same k j (put int_eq (messages i).version i (h.versions k)) h.versions
                    own))
            ∙ e in
          elim (Bool-cases (int_eq v (messages i).version)) [
            | inl current ↦
                let p : v ≡ (messages i).version = (int_eq_iff v (messages i).version).0 current in
                let q : i ≡ a = ground arith in rw (← here) (rw (← q) (sym same, sym p, made))
            | inr old ↦
                let before : get int_eq v (h.versions k) ≡ some a = ground arith in
                rw (← here) (sound.versions k v a before)
          ]
    ];
  }
