-- ===== src/Tests/Sessions.antt =====
-- Sample sequences of calls, of a client and of a producer.
use pulsar_client_python.Base.{◌≡◌, false, List, [], ◌∷◌}
use pulsar_client_python.Python.Result.{ok, raise, foreign}
use pulsar_client_python.Client.Argument.{Arg}
use pulsar_client_python.Client.Consumer.Registry.{contains_id}
use pulsar_client_python.Client.Consumer.Registry.Invariant.{new_client}
use pulsar_client_python.Client.Consumer.Registry.History.{
  Call, subscribing, reading, closing, run, is_open_after, run-open,
}
use pulsar_client_python.Client.Producer.Session as Session
use pulsar_client_python.Client.Producer.Session.{
  Request, NativeProducer, sending, sending_async, flushing, Serves, run-Serves,
}
use pulsar_client_python.Tests.Consumers.{client, consumer_args, reader_args, consumer, closes_well}
use pulsar_client_python.Tests.Producers.{takes_all, message_args}

-- A consumer and a reader are opened, and the consumer is closed.
abbrev calls : List Call
calls = subscribing consumer_args ∷ reading reader_args ∷ closing closes_well consumer ∷ []

run-open_example :
    contains_id 1 (run client calls new_client).1.consumers
    ≡ is_open_after 1 false (run client calls new_client).0
run-open_example = run-open client 1 calls

-- A native producer that takes one request.
abbrev takes_one : NativeProducer
takes_one [] q = ok tt
takes_one (_ ∷ _) q = raise foreign

abbrev messages : List (Session.Call Arg)
messages =
    sending (Arg.bytes (104 ∷ [])) message_args
    ∷ sending (Arg.str "no bytes") message_args
    ∷ sending_async (Arg.bytes []) Arg.none message_args
    ∷ flushing
    ∷ []

run-Serves_example :
    Serves takes_all
      (λ a. ok a)
      takes_one
      []
      messages
      (Session.run takes_all (λ a. ok a) takes_one messages []).0
      (Session.run takes_all (λ a. ok a) takes_one messages []).1
run-Serves_example = run-Serves takes_all (λ a. ok a) takes_one messages []
