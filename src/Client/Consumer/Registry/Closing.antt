-- ===== src/Client/Consumer/Registry/Closing.antt =====
-- What closing an object does to the registry.
use pulsar_client_python.Base.{ℕ, ◌≡◌, ◌∙◌, true, false, if◌then◌else◌, ◌==◌, arith}
use pulsar_client_python.Python.Result.{Result, Error, ok, raise, value_error, attribute_error}
use pulsar_client_python.Client.Consumer.Registry.{
  Handle, ClientState, contains_id, unregister, close, listener_consumer,
}
use pulsar_client_python.Client.Consumer.Registry.Invariant.{IsRegistry, contains_id-remove}

pub close-eq-unregister :
    (native_close : ℕ → Result (Unit {0})) (h : Handle) (s : ClientState)
    → native_close h.native ≡ ok tt
    → close native_close h s ≡ unregister h s
unfolding close
close-eq-unregister native_close h s closed = rw (closed, close)

pub close-raise :
    (native_close : ℕ → Result (Unit {0})) (h : Handle) (s : ClientState) (e : Error)
    → native_close h.native ≡ raise e
    → close native_close h s ≡ (raise e, s)
unfolding close
close-raise native_close h s e fails = rw (fails, close)

unregister_removes :
    (h : Handle) (s : ClientState) (j : ℕ)
    → IsRegistry s
    → h.has_client ≡ true
    → contains_id h.id s.consumers ≡ true
    → ((unregister h s).0 ≡ ok tt)
      × (contains_id j (unregister h s).1.consumers
          ≡ (if j == h.id then false else contains_id j s.consumers))
unfolding unregister
unregister_removes h s j r client registered =
    ground (arith, contains_id-remove j h.id s.consumers r.distinct)

-- In a client that has no object registered twice and none that is not older than the next one:
-- closing a registered object that knows its client, and whose native part closes, returns and takes
-- the object, and nothing else, from the registry.
pub close_removes :
    (native_close : ℕ → Result (Unit {0})) (h : Handle) (s : ClientState) (j : ℕ)
    → IsRegistry s
    → native_close h.native ≡ ok tt
    → h.has_client ≡ true
    → contains_id h.id s.consumers ≡ true
    → ((close native_close h s).0 ≡ ok tt)
      × (contains_id j (close native_close h s).1.consumers
          ≡ (if j == h.id then false else contains_id j s.consumers))
close_removes native_close h s j r closed client registered =
    rw (close-eq-unregister native_close h s closed) (unregister_removes h s j r client registered)

unregister-unregister :
    (h : Handle) (s : ClientState)
    → IsRegistry s
    → h.has_client ≡ true
    → unregister h (unregister h s).1 ≡ (raise value_error, (unregister h s).1)
unfolding unregister
unregister-unregister h s r client =
    ground (arith, contains_id-remove h.id h.id s.consumers r.distinct)

-- In a client that has no object registered twice and none that is not older than the next one: a
-- second `close` of an object that knows its client raises `ValueError` and leaves the client as the
-- first one left it, if the native object closes both times.
pub close-close :
    (native_close again : ℕ → Result (Unit {0})) (h : Handle) (s : ClientState)
    → IsRegistry s
    → h.has_client ≡ true
    → native_close h.native ≡ ok tt
    → again h.native ≡ ok tt
    → close again h (close native_close h s).1 ≡ (raise value_error, (close native_close h s).1)
close-close native_close again h s r client first second =
    rw (close-eq-unregister native_close h s first)
      (close-eq-unregister again h (unregister h s).1 second ∙ unregister-unregister h s r client)

-- The consumer that a listener is given, which has no attribute for its client, cannot be closed by
-- it: if the native consumer closes, `close` raises `AttributeError` and the client's state is
-- unchanged.
pub close-listener_consumer :
    (native_close : ℕ → Result (Unit {0})) (id native : ℕ) (s : ClientState)
    → native_close native ≡ ok tt
    → close native_close (listener_consumer id native) s ≡ (raise attribute_error, s)
unfolding unregister
close-listener_consumer native_close id native s closed =
    close-eq-unregister native_close (listener_consumer id native) s closed
