-- ===== src/Client/Native.antt =====
-- The native module `_pulsar`, as the wrapper uses it: objects that are configured by one call after
-- another, and calls that may raise.
pub mod Laws
use pulsar_client_python.Base.{
  ℕ, ◌≡◌, refl, String, Bool, true, false, not, ◌&&◌, Option, none, some, List, [], ◌∷◌, ◌++◌, All,
  str_eq, if◌then◌else◌, arith, ◌↔◌,
}
use pulsar_client_python.Python.Result.{Result, ok, raise, foreign, ◌>>=◌, ◌>>◌, raise_if}
use pulsar_client_python.Client.Argument.{Arg, Pairs, end, pair, truthy}

-- One call on a configuration or on a message builder: `conf.name(value)`, or `conf.property(k, v)`.
pub data Setting : Type 0 where
  set : String → Arg → Setting
  property : Arg → Arg → Setting

-- `if a: conf.name(v)`, one after another.
pub data Optional : Type 0 where
  optional : String → Arg → Arg → Optional

unfoldable pub set_each : List Optional → List Setting
set_each [] = []
set_each (optional name a v ∷ os) = if truthy a then set name v ∷ set_each os else set_each os

-- `if a: conf.name(a)`
abbrev pub optionally : String → Arg → Optional
optionally name a = optional name a a

unfoldable pub property_calls : Pairs → List Setting
property_calls end = []
property_calls (pair k v d) = property k v ∷ property_calls d

-- `if properties: for k, v in properties.items(): conf.property(k, v)`, behind the test that
-- `properties` is a dict or `None`.
unfoldable pub properties_calls : Arg → List Setting
properties_calls (Arg.dict d) = property_calls d
properties_calls _ = []

-- Whether the native object takes the call: the binding refuses values of other types.
abbrev pub Accepts : Type 0
Accepts = Setting → Bool

unfoldable pub configure : Accepts → List Setting → Result (Unit {0})
configure accepts [] = ok tt
configure accepts (s ∷ ss) = do raise_if (not (accepts s)) foreign; configure accepts ss

-- What the calls leave under a name: the value of the last one, `none` if there was no such call.
unfoldable pub setting : String → List Setting → Option Arg
setting name [] = none
setting name (property _ _ ∷ ss) = setting name ss
setting name (set n v ∷ ss) =
    if str_eq name n
    then elim (setting name ss) [ some later ↦ some later | none ↦ some v ]
    else setting name ss

-- The properties that the calls add, in order.
unfoldable pub properties_of : List Setting → List (Arg × Arg)
properties_of [] = []
properties_of (property k v ∷ ss) = (k, v) ∷ properties_of ss
properties_of (set _ _ ∷ ss) = properties_of ss
