-- ===== src/Schema/Avro/Threads/Safety.antt =====
-- What one step of a thread keeps.
use mathlib.Core.Path.{subst}
use pulsar_client_python.Base.{
  ℕ, true, ◌≡◌, refl, sym, ◌∙◌, ap, false, none, some, str_eq, ◌==◌, ==_iff, inl, inr, Bool-cases,
  Option-cases,
}
use pulsar_client_python.Base.Int.{int_eq}
use pulsar_client_python.Python.Result.{ok, Result-cases}
use pulsar_client_python.Python.Value.{Value, is_none}
use pulsar_client_python.Schema.Avro.{
  AvroState, ClientAttribute, attached, Externals, get, parse_info, rename, or_else, decode_bytes,
  decode,
}
use pulsar_client_python.Schema.Avro.Rename.{rename-rename}
use pulsar_client_python.Schema.Avro.Memo.{uncached, Answers, decode_bytes-rename}
use pulsar_client_python.Schema.Avro.Results.{Message}
use pulsar_client_python.Schema.Avro.Threads.{
  Shared, Place, started, asked, starting, entering, missing, touched, looking, missed, fetching,
  fetched, storing, naming, reading, done, read_with, looked, step,
}
use pulsar_client_python.Schema.Avro.Threads.Invariant.{
  Made, IsFor, IsSound, IsAt, Extends, Extends-same,
}
use pulsar_client_python.Schema.Avro.Threads.Dicts.{
  set_at-same, with_dict-own, with_dict-Extends, with_dict-IsSound, with_schema-own,
  with_schema-IsSound, with_schema-Extends, with_version-Extends, with_version-IsSound,
}

module _ (x : Externals) (s : AvroState) (messages : ℕ → Message) where
  -- The outcome of a step of thread `i`.
  pub record IsStep (i : ℕ) (h : Shared) (next : Place × Shared) : Type 0 where
    pub sound : IsSound x s messages next.1
    pub at : IsAt x s messages next.1 i next.0
    pub extends : Extends x s messages i h next.1

  -- A step that only reads the dicts.
  stays :
      (i : ℕ) (h : Shared) (p : Place)
      → IsSound x s messages h
      → IsAt x s messages h i p
      → IsStep i h (p, h)
  stays i h p sound at = record { sound = sound; at = at; extends = Extends-same x s messages i h }

  -- The result by the schema that a thread has, as one that the client answers for its message.
  uncached-Answers :
      (i a : ℕ) (v : Value)
      → IsFor x s messages i a
      → Answers x s.reader_schema (messages a).topic (messages a).version v
      → uncached x s (messages i).topic (messages i).version (messages i).content
        ≡ or_else (decode_bytes x s (messages i).content v) (decode x s (messages i).content)
  unfolding uncached
  uncached-Answers i a v (t, n) (answer, p, q) =
      let asked : parse_info x (x.get_schema_info (messages i).topic (messages i).version)
          ≡ ok answer =
        rw (← t, ← n) p in
      rw (asked, uncached) (rw (decode_bytes-rename x s (messages i).content v answer q) refl)

  entering-IsStep :
      (i : ℕ) (h : Shared)
      → IsSound x s messages h
      → h.schemas i ≡ none
      → IsStep i h (step x s messages i entering h)
  unfolding step
  entering-IsStep i h sound at = elim (Option-cases (get str_eq (messages i).topic h.topics)) [
    | inl e ↦ rw (e, step) (stays i h missing sound at)
    | inr (k, e) ↦ rw (e, step) (stays i h touched sound (at, (k, e)))
  ]

  -- A version that is found is named next, unless its schema is `None`.
  found-IsStep :
      (i a : ℕ) (h : Shared)
      → IsSound x s messages h
      → IsAt x s messages h i missed
      → IsFor x s messages i a
      → Made x s messages h a
      → IsStep i h (looked x s messages (some a) h.schemas, h)
  unfolding looked
  found-IsStep i a h sound at own (v, e, answers) = elim (Bool-cases (is_none v)) [
    | inl null ↦ rw (e, null, looked) (stays i h missed sound at)
    | inr given ↦ rw (e, given, looked) (stays i h (naming a) sound (own, (v, e, answers)))
  ]

  looking-IsStep :
      (i k : ℕ) (h : Shared)
      → IsSound x s messages h
      → IsAt x s messages h i (looking k)
      → IsStep i h (step x s messages i (looking k) h)
  unfolding step looked
  looking-IsStep i k h sound (at, has, same) =
      elim (Option-cases (get int_eq (messages i).version (h.versions k))) [
        | inl e ↦ rw (e, step) (stays i h missed sound (at, has))
        | inr (a, e) ↦
            let (t, n, made) = sound.versions k (messages i).version a e in
            rw (e, step) (found-IsStep i a h sound (at, has) (t ∙ same, n) made)
      ]

  fetching-IsStep :
      (i : ℕ) (h : Shared)
      → IsSound x s messages h
      → IsAt x s messages h i fetching
      → IsStep i h (step x s messages i fetching h)
  unfolding step uncached
  fetching-IsStep i h sound (fresh, has) =
      elim (Result-cases
        (parse_info x (x.get_schema_info (messages i).topic (messages i).version))) [
          | inr (error, e) ↦
              rw (e, step)
                (stays i h (done (decode x s (messages i).content)) sound
                  (sym (rw (e, uncached) refl)))
          | inl (v, e) ↦
              let answers : Answers x s.reader_schema (messages i).topic (messages i).version v =
                (v, e, refl) in
              rw (e, step)
                (record {
                  sound = with_schema-IsSound x s messages i i v h answers sound;
                  at = (has, with_schema-own x s messages i i v h answers);
                  extends =
                      with_schema-Extends x s messages i i v h answers
                        (λ named. cc (named.1, fresh)) (λ j other _. other);
                })
        ]

  storing-IsStep :
      (i k : ℕ) (h : Shared)
      → IsSound x s messages h
      → IsAt x s messages h i (storing k)
      → IsStep i h (step x s messages i (storing k) h)
  unfolding step
  storing-IsStep i k h sound (made, same) = record {
    sound = with_version-IsSound x s messages i k h made same sound;
    at = ((refl, refl), made);
    extends = with_version-Extends x s messages i k h;
  }

  naming-IsStep :
      (i a : ℕ) (h : Shared)
      → IsSound x s messages h
      → IsAt x s messages h i (naming a)
      → IsStep i h (step x s messages i (naming a) h)
  unfolding step decode_bytes
  naming-IsStep i a h sound (own, (v, e, answers)) =
      elim (Result-cases (rename s.reader_schema v)) [
        | inr (error, r) ↦
            rw (e, r, step)
              (stays i h (done (decode x s (messages i).content)) sound
                (sym (uncached-Answers i a v own answers ∙ rw r refl)))
        | inl (w, r) ↦
            let again = rename-rename s.reader_schema v w r in
            let answers' : Answers x s.reader_schema (messages a).topic (messages a).version w =
              let (answer, p, q) = answers in (answer, p, again ∙ (sym r ∙ q)) in
            rw (e, r, step)
              (record {
                sound = with_schema-IsSound x s messages i a w h answers' sound;
                at = (
                  own,
                  with_schema-own x s messages i a w h answers',
                  (w, set_at-same a a (some w) h.schemas ((==_iff a a).1 refl), again),
                );
                extends =
                    with_schema-Extends x s messages i a w h answers' (λ _. again)
                      (λ j other fresh. differs v j e fresh);
              })
      ]
    where
      differs : (v : Value) (j : ℕ) → h.schemas a ≡ some v → h.schemas j ≡ none → (a == j) ≡ false
      differs v j e fresh = elim (Bool-cases (a == j)) [
        | inl own ↦
            let same : a ≡ j = (==_iff a j).0 own in
            let both : some v ≡ none = sym e ∙ ap h.schemas same ∙ fresh in cc
        | inr other ↦ other
      ]

  reading-IsStep :
      (i a : ℕ) (h : Shared)
      → IsSound x s messages h
      → IsAt x s messages h i (reading a)
      → IsStep i h (step x s messages i (reading a) h)
  unfolding step decode_bytes
  reading-IsStep i a h sound (own, (v, e, answers), (w, e', named)) =
      let one : some v ≡ some w = sym e ∙ e' in
      let same : v ≡ w = cc in
      let own_name : rename s.reader_schema v ≡ ok v = rw same named in
      rw (e, step)
        (stays i h (done (or_else (read_with x s messages i v) (decode x s (messages i).content)))
          sound (sym (uncached-Answers i a v own answers ∙ rw own_name refl)))

  started-attached :
      (a : ClientAttribute) (i : ℕ)
      → a ≡ attached true
      → (started x s messages a i ≡ entering) × (asked x s messages a i ≡ fetching)
  unfolding started asked
  started-attached a i e = (rw e refl, rw e refl)

  -- Every step keeps what holds between steps.
  pub step-IsStep :
      (i : ℕ) (p : Place) (h : Shared)
      → s.client ≡ attached true
      → IsSound x s messages h
      → IsAt x s messages h i p
      → IsStep i h (step x s messages i p h)
  unfolding step started asked
  step-IsStep i starting h client sound at =
      subst (λ (p : Place). IsStep i h (p, h)) (sym (started-attached s.client i client).0)
        (stays i h entering sound at)
  step-IsStep i entering h client sound at = entering-IsStep i h sound at
  step-IsStep i missing h client sound at = record {
    sound = with_dict-IsSound x s messages i h sound;
    at = (at, with_dict-own x s messages i h);
    extends = with_dict-Extends x s messages i h;
  }
  step-IsStep i touched h client sound (at, (k, e)) =
      rw (e, step) (stays i h (looking k) sound (at, (k, e), sound.topics (messages i).topic k e))
  step-IsStep i (looking k) h client sound at = looking-IsStep i k h sound at
  step-IsStep i missed h client sound at =
      subst (λ (p : Place). IsStep i h (p, h)) (sym (started-attached s.client i client).1)
        (stays i h fetching sound at)
  step-IsStep i fetching h client sound at = fetching-IsStep i h sound at
  step-IsStep i fetched h client sound ((k, e), made) =
      rw (e, step) (stays i h (storing k) sound (made, sound.topics (messages i).topic k e))
  step-IsStep i (storing k) h client sound at = storing-IsStep i k h sound at
  step-IsStep i (naming a) h client sound at = naming-IsStep i a h sound at
  step-IsStep i (reading a) h client sound at = reading-IsStep i a h sound at
  step-IsStep i (done r) h client sound at = stays i h (done r) sound at
