-- ===== src/Schema/Avro/Threads/Turns.antt =====
-- How many turns a thread needs, and what it returns then.
use mathlib.Core.Path.{subst}
use pulsar_client_python.Base.{
  ℕ, true, false, ◌-◌, ◌≤◌, ◌≡◌, refl, Option, none, some, List, [], ◌∷◌, str_eq, ◌==◌, ==_iff,
  arith, inl, inr, Bool-cases, Option-cases, ◌∙◌, ap,
}
use pulsar_client_python.Base.Int.{int_eq}
use pulsar_client_python.Python.Result.{Result, Result-cases}
use pulsar_client_python.Python.Value.{Value, is_none}
use pulsar_client_python.Schema.Avro.{
  AvroState, ClientAttribute, unset, attached, Externals, get, parse_info, rename,
}
use pulsar_client_python.Schema.Avro.Memo.{uncached}
use pulsar_client_python.Schema.Avro.Results.{Message}
use pulsar_client_python.Schema.Avro.Threads.{
  set_at, Shared, Place, started, asked, starting, entering, missing, touched, looking, missed,
  fetching, fetched, storing, naming, reading, done, looked, step, Threads, run, new_threads, turns,
}
use pulsar_client_python.Schema.Avro.Threads.Invariant.{IsAt}
use pulsar_client_python.Schema.Avro.Threads.Dicts.{set_at-same, set_at-other}
use pulsar_client_python.Schema.Avro.Threads.Running.{run-IsRunning, new_threads-IsRunning}

-- The most turns that are left.
abbrev remaining : Place → ℕ
remaining starting = 11
remaining entering = 10
remaining missing = 9
remaining touched = 8
remaining (looking _) = 7
remaining missed = 6
remaining fetching = 5
remaining fetched = 4
remaining (storing _) = 3
remaining (naming _) = 2
remaining (reading _) = 1
remaining (done _) = 0

remaining-done : (p : Place) → remaining p ≤ 0 → (r : Result Value) × (p ≡ done r)
remaining-done (done r) h = (r, refl)
remaining-done p h = absurd (omega arith)

module _ (x : Externals) (s : AvroState) (messages : ℕ → Message) where
  remaining-looked :
      (found : Option ℕ) (schemas : ℕ → Option Value)
      → remaining (looked x s messages found schemas) ≤ 6
  unfolding looked
  remaining-looked none schemas = omega arith
  remaining-looked (some a) schemas = elim (Option-cases (schemas a)) [
    | inl e ↦ rw (e, looked) (omega arith)
    | inr (v, e) ↦ elim (Bool-cases (is_none v)) [
      | inl null ↦ rw (e, null, looked) (omega arith)
      | inr given ↦ rw (e, given, looked) (omega arith)
    ]
  ]

  remaining-started : (a : ClientAttribute) (i : ℕ) → remaining (started x s messages a i) ≤ 10
  unfolding started
  remaining-started unset i = omega arith
  remaining-started (attached false) i = omega arith
  remaining-started (attached true) i = omega arith

  remaining-asked : (a : ClientAttribute) (i : ℕ) → remaining (asked x s messages a i) ≤ 5
  unfolding asked
  remaining-asked unset i = omega arith
  remaining-asked (attached false) i = omega arith
  remaining-asked (attached true) i = omega arith

  remaining-step :
      (i : ℕ) (p : Place) (h : Shared) → remaining (step x s messages i p h).0 ≤ remaining p - 1
  unfolding step
  remaining-step i starting h = remaining-started s.client i
  remaining-step i missed h = remaining-asked s.client i
  remaining-step i entering h = elim (Option-cases (get str_eq (messages i).topic h.topics)) [
    | inl e ↦ rw (e, step) (omega arith)
    | inr (k, e) ↦ rw (e, step) (omega arith)
  ]
  remaining-step i missing h = omega arith
  remaining-step i touched h = elim (Option-cases (get str_eq (messages i).topic h.topics)) [
    | inl e ↦ rw (e, step) (omega arith)
    | inr (k, e) ↦ rw (e, step) (omega arith)
  ]
  remaining-step i (looking k) h =
      remaining-looked (get int_eq (messages i).version (h.versions k)) h.schemas
  remaining-step i fetching h =
      elim (Result-cases
        (parse_info x (x.get_schema_info (messages i).topic (messages i).version))) [
          | inl (v, e) ↦ rw (e, step) (omega arith)
          | inr (error, e) ↦ rw (e, step) (omega arith)
        ]
  remaining-step i fetched h = elim (Option-cases (get str_eq (messages i).topic h.topics)) [
    | inl e ↦ rw (e, step) (omega arith)
    | inr (k, e) ↦ rw (e, step) (omega arith)
  ]
  remaining-step i (storing k) h = omega arith
  remaining-step i (naming a) h = elim (Option-cases (h.schemas a)) [
    | inl e ↦ rw (e, step) (omega arith)
    | inr (v, e) ↦ elim (Result-cases (rename s.reader_schema v)) [
      | inl (w, r) ↦ rw (e, r, step) (omega arith)
      | inr (error, r) ↦ rw (e, r, step) (omega arith)
    ]
  ]
  remaining-step i (reading a) h = elim (Option-cases (h.schemas a)) [
    | inl e ↦ rw (e, step) (omega arith)
    | inr (v, e) ↦ rw (e, step) (omega arith)
  ]
  remaining-step i (done r) h = omega arith

  remaining-run :
      (i : ℕ) (is : List ℕ) (t : Threads)
      → remaining ((run x s messages is t).places i) ≤ remaining (t.places i) - turns i is
  unfolding run turns
  remaining-run i [] t = omega arith
  remaining-run i (j ∷ js) t =
      let next = step x s messages j (t.places j) t.shared in
      let rest =
        remaining-run i js (record { places = set_at j next.0 t.places; shared = next.1 }) in
      elim (Bool-cases (j == i)) [
        | inl own ↦
            let same : j ≡ i = (==_iff j i).0 own in
            let there = ap remaining (set_at-same j i next.0 t.places own) in
            let here = ap (λ (k : ℕ). remaining (t.places k)) same in
            rw own (omega (arith, rest, there, here, remaining-step j (t.places j) t.shared))
        | inr other ↦
            let there = ap remaining (set_at-other j i next.0 t.places other) in
            rw other (omega (arith, rest, there))
      ]

  -- Threads that decode messages with one `AvroSchema` that a client is attached to, whose cache is
  -- empty at first and whose client answers the same to the same question, take their turns in any
  -- order, between the accesses to the dicts that they share: a thread that had eleven turns has
  -- returned, and its result, error included, is that of a decoder without a cache, which asks the
  -- client for the schema of every message.
  pub run-uncached :
      (is : List ℕ) (i : ℕ)
      → s.client ≡ attached true
      → 11 ≤ turns i is
      → (run x s messages is new_threads).places i
        ≡ done (uncached x s (messages i).topic (messages i).version (messages i).content)
  run-uncached is i client enough =
      let (r, returned) =
        remaining-done ((run x s messages is new_threads).places i)
          (omega (arith, remaining-run i is new_threads)) in
      let running =
        run-IsRunning x s messages is new_threads client (new_threads-IsRunning x s messages) in
      let right =
        subst (IsAt x s messages (run x s messages is new_threads).shared i) returned
          (running.at i) in
      returned ∙ ap (λ (v : Result Value). done v) right
