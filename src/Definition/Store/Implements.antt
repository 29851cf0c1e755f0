-- ===== src/Definition/Store/Implements.antt =====
-- When a call on a store does what a call on values does.
use pulsar_client_python.Base.{◌≡◌, refl, Option, some, arith}
use pulsar_client_python.Python.Result.{Result, ok, raise, ◌>>=◌}
use pulsar_client_python.Definition.Store.{Store, then_with}
use pulsar_client_python.Definition.Store.Reading.{Extends, Extends-trans, IsFresh}

-- A call on a store does what a call on values does: it raises the same exception, or returns what is
-- read from the new store as the value, and the new store has all that the old one has.
abbrev pub Implements :
    {A B : Type 0} → Store → (Store → B → Option A) → Result A → Result (B × Store) → Type 0
Implements st load (raise e) m = m ≡ raise e
Implements {A} {B} st load (ok a) m =
    (b : B) × (st' : Store) × (m ≡ ok (b, st'))
    × (load st' b ≡ some a)
    × Extends st st'
    × IsFresh st'

pub Implements-weaken :
    {A B : Type 0} (st st' : Store) (load : Store → B → Option A) (r : Result A)
    (m : Result (B × Store))
    → Extends st st'
    → Implements st' load r m
    → Implements st load r m
Implements-weaken st st' load (raise e) m x p = p
Implements-weaken st st' load (ok a) m x (b, st'', e, l, y, f) =
    (b, st'', e, l, Extends-trans x y, f)

pub Implements-bind :
    {A B C D : Type 0} (st : Store) (load : Store → B → Option A) (load' : Store → D → Option C)
    (r : Result A) (k : A → Result C) (m : Result (B × Store)) (h : B → Store → Result (D × Store))
    → Implements st load r m
    → ((a : A) (b : B) (st' : Store)
        → r ≡ ok a
        → load st' b ≡ some a
        → Extends st st'
        → IsFresh st'
        → Implements st' load' (k a) (h b st'))
    → Implements st load' (r >>= k) (then_with m h)
Implements-bind st load load' (raise e) k m h p q = rw p
Implements-bind st load load' (ok a) k m h (b, st', e, l, x, f) q =
    rw e (Implements-weaken st st' load' (k a) (h b st') x (q a b st' refl l x f))

-- Both calls begin with the same pure step.
pub Implements-same :
    {A B X : Type 0} (st : Store) (load : Store → B → Option A) (r : Result X) (k : X → Result A)
    (h : X → Result (B × Store))
    → ((x : X) → Implements st load (k x) (h x))
    → Implements st load (r >>= k) (r >>= h)
Implements-same st load (raise e) k h q = refl
Implements-same st load (ok x) k h q = q x

pub Implements-grows :
    {A B : Type 0} (st st' : Store) (load : Store → B → Option A) (r : Result A)
    (m : Result (B × Store)) (b : B)
    → Implements st load r m
    → m ≡ ok (b, st')
    → Extends st st' × IsFresh st'
Implements-grows st st' load (raise e) m b p q = cc
Implements-grows {A} {B} st st' load (ok a) m b (b', st'', e, l, x, f) q =
    let same : st'' ≡ st' = ground arith in (rw (← same) x, rw (← same) f)
