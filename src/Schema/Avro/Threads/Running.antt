-- ===== src/Schema/Avro/Threads/Running.antt =====
-- Threads that take their turns, from one turn to the next.
use pulsar_client_python.Base.{
  ℕ, true, ◌≡◌, refl, List, [], ◌∷◌, ◌==◌, ==_iff, inl, inr, Bool-cases,
}
use pulsar_client_python.Schema.Avro.{AvroState, attached, Externals, get}
use pulsar_client_python.Schema.Avro.Results.{Message}
use pulsar_client_python.Schema.Avro.Threads.{set_at, step, Threads, run, new_threads}
use pulsar_client_python.Schema.Avro.Threads.Invariant.{IsSound, IsAt, IsAt-Extends}
use pulsar_client_python.Schema.Avro.Threads.Dicts.{set_at-same, set_at-other}
use pulsar_client_python.Schema.Avro.Threads.Safety.{step-IsStep}

module _ (x : Externals) (s : AvroState) (messages : ℕ → Message) where
  -- The dicts are sound, and every thread is where it can be.
  pub record IsRunning (t : Threads) : Type 0 where
    pub sound : IsSound x s messages t.shared
    pub at : (i : ℕ) → IsAt x s messages t.shared i (t.places i)

  abbrev turn : ℕ → Threads → Threads
  turn i t = record {
    places = set_at i (step x s messages i (t.places i) t.shared).0 t.places;
    shared = (step x s messages i (t.places i) t.shared).1;
  }

  turn-IsRunning :
      (i : ℕ) (t : Threads) → s.client ≡ attached true → IsRunning t → IsRunning (turn i t)
  turn-IsRunning i t client running =
      let next = step x s messages i (t.places i) t.shared in
      let stepped =
        step-IsStep x s messages i (t.places i) t.shared client running.sound (running.at i) in
      record {
        sound = stepped.sound;
        at = λ j. elim (Bool-cases (i == j)) [
          | inl own ↦
              let same : i ≡ j = (==_iff i j).0 own in
              rw (set_at-same i j next.0 t.places own) (rw (← same) stepped.at)
          | inr other ↦ rw (set_at-other i j next.0 t.places other) (
              IsAt-Extends x s messages i j t.shared next.1 (t.places j) other stepped.extends
                (running.at j))
        ];
      }

  pub run-IsRunning :
      (is : List ℕ) (t : Threads)
      → s.client ≡ attached true
      → IsRunning t
      → IsRunning (run x s messages is t)
  unfolding run
  run-IsRunning [] t client running = running
  run-IsRunning (i ∷ is) t client running =
      run-IsRunning is (turn i t) client (turn-IsRunning i t client running)

  pub new_threads-IsRunning : IsRunning new_threads
  unfolding get
  new_threads-IsRunning = record {
    sound = record { topics = λ t k e. cc; versions = λ k v a e. cc };
    at = λ i. refl;
  }
