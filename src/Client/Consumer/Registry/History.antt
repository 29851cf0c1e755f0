-- ===== src/Client/Consumer/Registry/History.antt =====
-- What a client keeps, by what its calls returned.
use pulsar_client_python.Base.{
  ℕ, ◌≡◌, refl, ap, sym, ◌∙◌, Bool, true, false, List, [], ◌∷◌, ◌++◌, if◌then◌else◌, ◌==◌, arith,
  inl, inr,
}
use pulsar_client_python.Python.Result.{Result, ok, raise, Result-cases}
use pulsar_client_python.Client.Argument.{Arg}
use pulsar_client_python.Client.Consumer.{ConsumerArgs, ReaderArgs}
use pulsar_client_python.Client.Consumer.Registry.{
  Handle, ClientState, NativeClient, subscribe, create_reader, contains_id, unregister, close,
}
use pulsar_client_python.Client.Consumer.Registry.Closing.{close-eq-unregister, close-raise}
use pulsar_client_python.Client.Consumer.Registry.Invariant.{
  IsRegistry, new_client, Opens, subscribe-Opens, create_reader-Opens, Step-IsRegistry, subscribes,
  reads, closes, contains_id-remove,
}

-- A call of the API, with what the native object does where it is closed.
pub data Call : Type 0 where
  subscribing : ConsumerArgs → Call
  reading : ReaderArgs → Call
  closing : (ℕ → Result (Unit {0})) → Handle → Call

-- What a call that did not raise did to an object.
pub data Event : Type 0 where
  opened closed : ℕ → Event

abbrev opening : Result Handle × ClientState → List Event × ClientState
opening (raise e, s) = ([], s)
opening (ok h, s) = (opened h.id ∷ [], s)

abbrev closing_of : ℕ → Result (Unit {0}) × ClientState → List Event × ClientState
closing_of i (raise e, s) = ([], s)
closing_of i (ok _, s) = (closed i ∷ [], s)

unfoldable perform : NativeClient → Call → ClientState → List Event × ClientState
perform n (subscribing c) s = opening (subscribe n c s)
perform n (reading r) s = opening (create_reader n r s)
perform n (closing native_close h) s = closing_of h.id (close native_close h s)

-- The calls in turn, with the events in their order.
unfoldable pub run : NativeClient → List Call → ClientState → List Event × ClientState
unfolding perform
run n [] s = ([], s)
run n (c ∷ cs) s = let (es, s') = perform n c s in let (rest, t) = run n cs s' in (es ++ rest, t)

-- Whether an object is open behind the events, if it was before: the last event of the object says it.
unfoldable pub is_open_after : ℕ → Bool → List Event → Bool
is_open_after i before [] = before
is_open_after i before (opened j ∷ es) = is_open_after i (if i == j then true else before) es
is_open_after i before (closed j ∷ es) = is_open_after i (if i == j then false else before) es

is_open_after-append :
    (i : ℕ) (before : Bool) (es : List Event) (ds : List Event)
    → is_open_after i before (es ++ ds) ≡ is_open_after i (is_open_after i before es) ds
unfolding is_open_after
is_open_after-append i before [] ds = refl
is_open_after-append i before (opened j ∷ es) ds =
    is_open_after-append i (if i == j then true else before) es ds
is_open_after-append i before (closed j ∷ es) ds =
    is_open_after-append i (if i == j then false else before) es ds

opening-open :
    (i : ℕ) (schema : Arg) (s : ClientState) (r : Result Handle × ClientState)
    → Opens s schema r
    → contains_id i (opening r).1.consumers
      ≡ is_open_after i (contains_id i s.consumers) (opening r).0
unfolding is_open_after
opening-open i schema s (raise e, t) same = ap (λ (u : ClientState). contains_id i u.consumers) same
opening-open i schema s (ok h, t) (_, others, _) = others i

unregister-open :
    (i : ℕ) (h : Handle) (s : ClientState)
    → IsRegistry s
    → contains_id i (closing_of h.id (unregister h s)).1.consumers
      ≡ is_open_after i (contains_id i s.consumers) (closing_of h.id (unregister h s)).0
unfolding is_open_after unregister
unregister-open i h s r = ground (arith, contains_id-remove i h.id s.consumers r.distinct)

-- A `close` that does not raise takes the object from the list.
closing-open :
    (i : ℕ) (native_close : ℕ → Result (Unit {0})) (h : Handle) (s : ClientState)
    → IsRegistry s
    → contains_id i (closing_of h.id (close native_close h s)).1.consumers
      ≡ is_open_after i (contains_id i s.consumers) (closing_of h.id (close native_close h s)).0
unfolding is_open_after
closing-open i native_close h s r = elim (Result-cases (native_close h.native)) [
  | inl (_, e) ↦ rw (close-eq-unregister native_close h s e) (unregister-open i h s r)
  | inr (error, e) ↦ rw (close-raise native_close h s error e) refl
]

opening_state : (r : Result Handle × ClientState) → (opening r).1 ≡ r.1
opening_state (raise e, s) = refl
opening_state (ok h, s) = refl

closing_state : (i : ℕ) (r : Result (Unit {0}) × ClientState) → (closing_of i r).1 ≡ r.1
closing_state i (raise e, s) = refl
closing_state i (ok _, s) = refl

perform-IsRegistry :
    (n : NativeClient) (c : Call) (s : ClientState) → IsRegistry s → IsRegistry (perform n c s).1
unfolding perform
perform-IsRegistry n (subscribing c) s r =
    rw (opening_state (subscribe n c s)) (Step-IsRegistry n (subscribes c s) r)
perform-IsRegistry n (reading a) s r =
    rw (opening_state (create_reader n a s)) (Step-IsRegistry n (reads a s) r)
perform-IsRegistry n (closing native_close h) s r =
    rw (closing_state h.id (close native_close h s)) (Step-IsRegistry n (closes native_close h s) r)

perform-open :
    (n : NativeClient) (i : ℕ) (c : Call) (s : ClientState)
    → IsRegistry s
    → contains_id i (perform n c s).1.consumers
      ≡ is_open_after i (contains_id i s.consumers) (perform n c s).0
unfolding perform is_open_after
perform-open n i (subscribing c) s r =
    opening-open i c.schema s (subscribe n c s) (subscribe-Opens n c s r)
perform-open n i (reading a) s r =
    opening-open i a.schema s (create_reader n a s) (create_reader-Opens n a s r)
perform-open n i (closing native_close h) s r = closing-open i native_close h s r

run-open' :
    (n : NativeClient) (i : ℕ) (cs : List Call) (s : ClientState)
    → IsRegistry s
    → contains_id i (run n cs s).1.consumers
      ≡ is_open_after i (contains_id i s.consumers) (run n cs s).0
unfolding run is_open_after
run-open' n i [] s r = refl
run-open' n i (c ∷ cs) s r =
    run-open' n i cs (perform n c s).1 (perform-IsRegistry n c s r)
    ∙ ap (λ (b : Bool). is_open_after i b (run n cs (perform n c s).1).0) (perform-open n i c s r)
    ∙ sym (
        is_open_after-append i (contains_id i s.consumers) (perform n c s).0
          (run n cs (perform n c s).1).0)

-- After any calls of `subscribe`, `create_reader` and `close` of a new client, those that raised
-- included, the client keeps exactly the consumers and readers that are open by the history of the
-- calls: those that `subscribe` or `create_reader` returned, and that no `close` of the object which
-- returned has closed since.
pub run-open :
    (n : NativeClient) (i : ℕ) (cs : List Call)
    → contains_id i (run n cs new_client).1.consumers
      ≡ is_open_after i false (run n cs new_client).0
unfolding contains_id
run-open n i cs = run-open' n i cs new_client (record { distinct = tt; below = tt })
