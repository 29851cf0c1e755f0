-- ===== src/Client/Consumer/Registry/Invariant.antt =====
-- The registry of open consumers and readers.
use pulsar_client_python.Base.{
  ℕ, suc, ◌<◌, ◌≡◌, refl, true, false, List, [], ◌∷◌, ◌++◌, if◌then◌else◌, ◌==◌, arith,
}
use pulsar_client_python.Python.Result.{Result, ok, raise}
use pulsar_client_python.Client.Argument.{Arg}
use pulsar_client_python.Client.Consumer.{ConsumerArgs, ReaderArgs}
use pulsar_client_python.Client.Consumer.Registry.{
  Handle, ClientState, NativeClient, register, subscribe, create_reader, open_consumer, open_reader,
  contains_id, remove, unregister, close,
}

-- No object is kept twice, and every one is older than the next.
abbrev pub AreDistinct : List ℕ → Type 0
AreDistinct [] = Unit
AreDistinct (i ∷ is) = (contains_id i is ≡ false) × AreDistinct is

abbrev pub AreBelow : ℕ → List ℕ → Type 0
AreBelow n [] = Unit
AreBelow n (i ∷ is) = (i < n) × AreBelow n is

pub record IsRegistry (s : ClientState) : Type 0 where
  pub distinct : AreDistinct s.consumers
  pub below : AreBelow s.next s.consumers

AreBelow-suc : (n : ℕ) (is : List ℕ) → AreBelow n is → AreBelow (suc n) is
AreBelow-suc n [] h = tt
AreBelow-suc n (i ∷ is) h = (omega arith, AreBelow-suc n is h.1)

contains_id-append :
    (i : ℕ) (is js : List ℕ)
    → contains_id i (is ++ js) ≡ (if contains_id i is then true else contains_id i js)
unfolding contains_id
contains_id-append i [] js = refl
contains_id-append i (j ∷ is) js = ground (arith, contains_id-append i is js)

AreBelow-snoc : (n : ℕ) (is : List ℕ) → AreBelow n is → AreBelow (suc n) (is ++ n ∷ [])
AreBelow-snoc n [] h = (omega arith, tt)
AreBelow-snoc n (i ∷ is) h = (omega arith, AreBelow-snoc n is h.1)

AreDistinct-snoc :
    (n : ℕ) (is : List ℕ) → AreBelow n is → AreDistinct is → AreDistinct (is ++ n ∷ [])
unfolding contains_id
AreDistinct-snoc n [] b d = (refl, tt)
AreDistinct-snoc n (i ∷ is) b d =
    (ground (arith, contains_id-append i is (n ∷ [])), AreDistinct-snoc n is b.1 d.1)

pub contains_id-remove :
    (i j : ℕ) (is : List ℕ)
    → AreDistinct is
    → contains_id i (remove j is) ≡ (if i == j then false else contains_id i is)
unfolding contains_id remove
contains_id-remove i j [] d = ground arith
contains_id-remove i j (k ∷ is) d = ground (arith, contains_id-remove i j is d.1)

AreDistinct-remove : (j : ℕ) (is : List ℕ) → AreDistinct is → AreDistinct (remove j is)
unfolding remove
AreDistinct-remove j [] d = tt
AreDistinct-remove j (k ∷ is) d =
    ground (arith, contains_id-remove k j is d.1, AreDistinct-remove j is d.1)

AreBelow-remove : (n j : ℕ) (is : List ℕ) → AreBelow n is → AreBelow n (remove j is)
unfolding remove
AreBelow-remove n j [] b = tt
AreBelow-remove n j (k ∷ is) b = ground (arith, AreBelow-remove n j is b.1)

register-IsRegistry :
    (opened : Result ℕ) (schema : Arg) (s : ClientState)
    → IsRegistry s
    → IsRegistry (register opened schema s).1
register-IsRegistry (raise e) schema s r = r
register-IsRegistry (ok native) schema s r = record {
  distinct = AreDistinct-snoc s.next s.consumers r.below r.distinct;
  below = AreBelow-snoc s.next s.consumers r.below;
}

unregister-IsRegistry :
    (h : Handle) (s : ClientState) → IsRegistry s → IsRegistry (unregister h s).1
unfolding unregister
unregister-IsRegistry h s r = ground (
  arith,
  AreDistinct-remove h.id s.consumers r.distinct,
  AreBelow-remove s.next h.id s.consumers r.below,
)

-- One call of the API that changes the registry.
pub data Step (n : NativeClient) : ClientState → ClientState → Type 0 where
  subscribes : (c : ConsumerArgs) (s : ClientState) → Step n s (subscribe n c s).1
  reads : (r : ReaderArgs) (s : ClientState) → Step n s (create_reader n r s).1
  closes :
      (native_close : ℕ → Result (Unit {0})) (h : Handle) (s : ClientState)
      → Step n s (close native_close h s).1

pub data Reach (n : NativeClient) (s : ClientState) : ClientState → Type 0 where
  here : Reach n s s
  next : {t u : ClientState} → Reach n s t → Step n t u → Reach n s u

-- `self._consumers = []`
abbrev pub new_client : ClientState
new_client = record { consumers = []; next = 0; attached = [] }

close-IsRegistry :
    (native_close : ℕ → Result (Unit {0})) (h : Handle) (s : ClientState)
    → IsRegistry s
    → IsRegistry (close native_close h s).1
unfolding close
close-IsRegistry native_close h s r = on_result (native_close h.native)
  where
    on_result :
        (closed : Result (Unit {0}))
        → IsRegistry
            (let after : Result (Unit {0}) × ClientState = elim closed [
              | raise e ↦ (raise e, s)
              | ok _ ↦ unregister h s
            ] in
              after).1
    on_result (raise e) = r
    on_result (ok _) = unregister-IsRegistry h s r

pub Step-IsRegistry :
    (n : NativeClient) {s t : ClientState} → Step n s t → IsRegistry s → IsRegistry t
unfolding subscribe create_reader
Step-IsRegistry n (subscribes c s) r = register-IsRegistry (open_consumer n c) c.schema s r
Step-IsRegistry n (reads a s) r = register-IsRegistry (open_reader n a) a.schema s r
Step-IsRegistry n (closes native_close h s) r = close-IsRegistry native_close h s r

Reach-IsRegistry' :
    (n : NativeClient) {s t : ClientState} → Reach n s t → IsRegistry s → IsRegistry t
Reach-IsRegistry' n here r = r
Reach-IsRegistry' n (next path step) r = Step-IsRegistry n step (Reach-IsRegistry' n path r)

-- In every state that a new client reaches by opening and closing consumers and readers, failed calls
-- included, no object is registered twice, and all are older than the next one.
pub Reach-IsRegistry : (n : NativeClient) (s : ClientState) → Reach n new_client s → IsRegistry s
Reach-IsRegistry n s path = Reach-IsRegistry' n path (record { distinct = tt; below = tt })

contains_id-snoc :
    (j n : ℕ) (is : List ℕ)
    → contains_id j (is ++ n ∷ []) ≡ (if j == n then true else contains_id j is)
unfolding contains_id
contains_id-snoc j n [] = refl
contains_id-snoc j n (i ∷ is) = ground (arith, contains_id-snoc j n is)

AreBelow-new : (n : ℕ) (is : List ℕ) → AreBelow n is → contains_id n is ≡ false
unfolding contains_id
AreBelow-new n [] b = refl
AreBelow-new n (i ∷ is) b = ground (arith, AreBelow-new n is b.1)

-- The new object is registered, and was not before; all others are as they were, and its schema is
-- attached to the client. A failed call changes nothing.
abbrev pub Opens : ClientState → Arg → Result Handle × ClientState → Type 0
Opens s schema (raise _, t) = t ≡ s
Opens s schema (ok h, t) =
    (contains_id h.id s.consumers ≡ false)
    × ((j : ℕ)
        → contains_id j t.consumers ≡ (if j == h.id then true else contains_id j s.consumers))
    × (t.attached ≡ schema ∷ s.attached)

register-Opens :
    (opened : Result ℕ) (schema : Arg) (s : ClientState)
    → IsRegistry s
    → Opens s schema (register opened schema s)
register-Opens (raise e) schema s r = refl
register-Opens (ok native) schema s r =
    (AreBelow-new s.next s.consumers r.below, λ j. contains_id-snoc j s.next s.consumers, refl)

-- In a client that has no object registered twice and none that is not older than the next one:
-- `subscribe` registers the consumer that it returns, which was not registered before, leaves all
-- others as they were, and attaches its schema to the client; if it raises, the client's state is
-- unchanged.
pub subscribe-Opens :
    (n : NativeClient) (c : ConsumerArgs) (s : ClientState)
    → IsRegistry s
    → Opens s c.schema (subscribe n c s)
unfolding subscribe
subscribe-Opens n c s r = register-Opens (open_consumer n c) c.schema s r

-- In a client that has no object registered twice and none that is not older than the next one:
-- `create_reader` registers the reader that it returns, which was not registered before, leaves all
-- others as they were, and attaches its schema to the client; if it raises, the client's state is
-- unchanged.
pub create_reader-Opens :
    (n : NativeClient) (a : ReaderArgs) (s : ClientState)
    → IsRegistry s
    → Opens s a.schema (create_reader n a s)
unfolding create_reader
create_reader-Opens n a s r = register-Opens (open_reader n a) a.schema s r
