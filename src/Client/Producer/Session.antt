-- ===== src/Client/Producer/Session.antt =====
-- A sequence of calls of one producer, and what the native producer is asked (pulsar/__init__.py).
use pulsar_client_python.Base.{◌≡◌, refl, List, [], ◌∷◌, ◌++◌, All}
use pulsar_client_python.Python.Result.{Result, Error, ok, raise}
use pulsar_client_python.Client.Argument.{Arg, Passes}
use pulsar_client_python.Client.Native.{Setting, Accepts}
use pulsar_client_python.Client.Producer.{
  MessageArgs, message_checks, build_msg, hand_over, send, send_async,
}
use pulsar_client_python.Client.Producer.Message.{Carries, build_msg-Carries}

pub data Call {ℓ} (A : Type ℓ) : Type ℓ where
  sending : A → MessageArgs → Call A
  sending_async : A → Arg → MessageArgs → Call A
  flushing closing : Call A

-- A call of the native producer: with a message, a message and a callback, or nothing.
pub data Request : Type 0 where
  send_request : List Setting → Request
  send_async_request : List Setting → Arg → Request
  flush_request close_request : Request

-- What was asked so far, by which the native producer answers.
abbrev pub NativeProducer : Type 0
NativeProducer = List Request → Request → Result (Unit {0})

abbrev pub Action : Type 0
Action = List Request → Result (Unit {0}) × List Request

-- A call of the native producer: it is recorded, and answered.
unfoldable pub call : NativeProducer → Request → Action
call native q asked = (native asked q, asked ++ q ∷ [])

-- `Producer.flush`
unfoldable pub flush : NativeProducer → Action
unfolding call
flush native = call native flush_request

-- `Producer.close`
unfoldable pub close_producer : NativeProducer → Action
unfolding call
close_producer native = call native close_request

module _ {ℓ} {A : Type ℓ} (accepts : Accepts) (encode : A → Result Arg)
    (native : NativeProducer) where
  unfoldable pub perform : Call A → Action
  unfolding call flush close_producer
  perform (sending content m) =
      send accepts encode (λ msg. call native (send_request msg)) content m
  perform (sending_async content callback m) =
      send_async accepts encode (λ msg f. call native (send_async_request msg f)) content callback m
  perform flushing = flush native
  perform closing = close_producer native

  -- The calls in turn: what they return, and all that was asked.
  unfoldable pub run : List (Call A) → List Request → List (Result (Unit {0})) × List Request
  unfolding perform
  run [] asked = ([], asked)
  run (c ∷ cs) asked =
      let (r, asked') = perform c asked in let (rs, all) = run cs asked' in (r ∷ rs, all)

  -- A message for this content and these arguments: it carries them, and they are well-typed.
  abbrev pub IsMessage : A → MessageArgs → List Setting → Type 0
  IsMessage content m msg =
      (body : Arg) × (encode content ≡ ok body)
      × All Passes (message_checks body m)
      × Carries body m msg

  -- What the wrapper asks of the native producer for a call.
  abbrev pub Asks : Call A → Request → Type 0
  Asks (sending content m) (send_request msg) = IsMessage content m msg
  Asks (sending_async content callback m) (send_async_request msg f) =
      IsMessage content m msg × (f ≡ callback)
  Asks flushing flush_request = Unit
  Asks closing close_request = Unit
  Asks _ _ = ⊥

  -- The call raises this before anything is asked: no message can be built.
  abbrev pub Refuses : Call A → Error → Type 0
  Refuses (sending content m) e = build_msg accepts encode content m ≡ raise e
  Refuses (sending_async content callback m) e = build_msg accepts encode content m ≡ raise e
  Refuses _ e = ⊥

  -- From what was asked before: the calls, what each returns, and what is asked in the end.
  pub data Serves
      : List Request → List (Call A) → List (Result (Unit {0})) → List Request → Type ℓ where
    nothing : (asked : List Request) → Serves asked [] [] asked
    refused :
        {asked all : List Request} {c : Call A} {cs : List (Call A)} {rs : List (Result (Unit {0}))}
        {e : Error}
        → Refuses c e
        → Serves asked cs rs all
        → Serves asked (c ∷ cs) (raise e ∷ rs) all
    answered :
        {asked all : List Request} {c : Call A} {cs : List (Call A)} {rs : List (Result (Unit {0}))}
        {q : Request}
        → Asks c q
        → Serves (asked ++ q ∷ []) cs rs all
        → Serves asked (c ∷ cs) (native asked q ∷ rs) all

  -- A call that builds a message, by what it asks with the message.
  message-Serves :
      (c : Call A) (cs : List (Call A)) (asked : List Request) (content : A) (m : MessageArgs)
      (with_message : List Setting → Request) (built : Result (List Setting))
      → build_msg accepts encode content m ≡ built
      → ((e : Error) → build_msg accepts encode content m ≡ raise e → Refuses c e)
      → ((msg : List Setting) → IsMessage content m msg → Asks c (with_message msg))
      → ((later : List Request) → Serves later cs (run cs later).0 (run cs later).1)
      → let next = hand_over (λ msg. call native (with_message msg)) built asked in
        Serves asked (c ∷ cs) (next.0 ∷ (run cs next.1).0) (run cs next.1).1
  unfolding call
  message-Serves c cs asked content m with_message (raise e) built refuses asks rest =
      refused (refuses e built) (rest asked)
  message-Serves c cs asked content m with_message (ok msg) built refuses asks rest =
      answered (asks msg (build_msg-Carries accepts encode content m msg built))
        (rest (asked ++ with_message msg ∷ []))

  -- Whatever calls of a producer are made, one after another, and whatever the native producer answers: a
  -- call that builds no message raises what `_build_msg` raises and asks nothing; every other asks the
  -- native producer exactly once and returns its answer. The requests are in the order of the calls: each
  -- `send` and `send_async` with a message that has the content, as encoded, the properties, and those
  -- options of its call that `if` takes for given, a sequence id of 0 not among them; the latter with its
  -- callback; and one for each `flush` and `close`.
  pub run-Serves :
      (cs : List (Call A)) (asked : List Request)
      → Serves asked cs (run cs asked).0 (run cs asked).1
  unfolding run perform send send_async call flush close_producer
  run-Serves [] asked = nothing asked
  run-Serves (sending content m ∷ cs) asked =
      message-Serves (sending content m) cs asked content m send_request
        (build_msg accepts encode content m) refl (λ e h. h) (λ msg h. h) (run-Serves cs)
  run-Serves (sending_async content callback m ∷ cs) asked =
      message-Serves (sending_async content callback m) cs asked content m
        (λ msg. send_async_request msg callback) (build_msg accepts encode content m) refl
        (λ e h. h) (λ msg h. (h, refl)) (run-Serves cs)
  run-Serves (flushing ∷ cs) asked = answered tt (run-Serves cs (asked ++ flush_request ∷ []))
  run-Serves (closing ∷ cs) asked = answered tt (run-Serves cs (asked ++ close_request ∷ []))
