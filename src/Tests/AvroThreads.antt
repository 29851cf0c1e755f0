-- ===== src/Tests/AvroThreads.antt =====
-- Two threads that decode messages of one schema at the same time.
use pulsar_client_python.Base.{ℕ, ◌≡◌, List, [], ◌∷◌, ◌++◌, true, refl, arith}
use pulsar_client_python.Base.Int.{pos}
use pulsar_client_python.Schema.Avro.{attach_client}
use pulsar_client_python.Schema.Avro.Memo.{uncached}
use pulsar_client_python.Schema.Avro.Results.{Message}
use pulsar_client_python.Schema.Avro.Threads.{run, new_threads, done, turns}
use pulsar_client_python.Schema.Avro.Threads.Turns.{run-uncached}
use pulsar_client_python.Tests.AvroMessages.{numbers, counters}

abbrev message : ℕ → Message
message i = record { topic = "t"; version = pos 1; content = i ∷ [] }

-- Both find the cache empty, and download the schema.
abbrev in_turn : List ℕ
in_turn = 0 ∷ 1 ∷ 1 ∷ 0 ∷ 0 ∷ 1 ∷ []

abbrev schedule : List ℕ
schedule = in_turn ++ (in_turn ++ (in_turn ++ in_turn))

run-uncached_example :
    (run numbers (attach_client true counters) message schedule new_threads).places 1
    ≡ done (uncached numbers (attach_client true counters) "t" (pos 1) (1 ∷ []))
unfolding turns attach_client
run-uncached_example =
    run-uncached numbers (attach_client true counters) message schedule 1 refl (omega arith)
