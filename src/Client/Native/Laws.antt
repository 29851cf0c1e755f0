-- ===== src/Client/Native/Laws.antt =====
-- What a sequence of calls leaves under a name.
use pulsar_client_python.Base.{
  ◌≡◌, refl, ap, String, Option, none, some, List, [], ◌∷◌, ◌++◌, str_eq, if◌then◌else◌, arith, inl,
  inr, Option-cases,
}
use pulsar_client_python.Client.Argument.{Arg, Pairs, end, pair, truthy}
use pulsar_client_python.Client.Native.{
  Setting, set, property, Optional, optional, set_each, property_calls, properties_calls, setting,
  properties_of,
}

-- What the optional calls leave under a name: the value, if its test passes.
unfoldable pub given : String → List Optional → Option Arg
given name [] = none
given name (optional n a v ∷ os) =
    if str_eq name n
    then elim (given name os) [ some later ↦ some later | none ↦ if truthy a then some v else none ]
    else given name os

abbrev pub or_later : Option Arg → Option Arg → Option Arg
or_later none o = o
or_later (some later) o = some later

pub or_later_none : (o : Option Arg) → or_later o none ≡ o
or_later_none none = refl
or_later_none (some v) = refl

pub setting-append :
    (name : String) (xs ys : List Setting)
    → setting name (xs ++ ys) ≡ or_later (setting name ys) (setting name xs)
unfolding setting
setting-append name [] ys = elim (Option-cases (setting name ys)) [
  | inl e ↦ ground arith
  | inr (v, e) ↦ ground arith
]
setting-append name (property _ _ ∷ xs) ys = setting-append name xs ys
setting-append name (set n v ∷ xs) ys = ground (arith, setting-append name xs ys)

pub setting-set_each :
    (name : String) (os : List Optional) → setting name (set_each os) ≡ given name os
unfolding setting set_each given
setting-set_each name [] = refl
setting-set_each name (optional n a v ∷ os) = ground (arith, setting-set_each name os)

setting-property_calls : (name : String) (d : Pairs) → setting name (property_calls d) ≡ none
unfolding setting property_calls
setting-property_calls name end = refl
setting-property_calls name (pair k v d) = setting-property_calls name d

pub setting-properties_calls : (name : String) (a : Arg) → setting name (properties_calls a) ≡ none
unfolding setting properties_calls
setting-properties_calls name (Arg.dict d) = setting-property_calls name d
setting-properties_calls name a = refl

pub properties_of-append :
    (xs ys : List Setting) → properties_of (xs ++ ys) ≡ properties_of xs ++ properties_of ys
unfolding properties_of
properties_of-append [] ys = refl
properties_of-append (property k v ∷ xs) ys = ap (λ ps. (k, v) ∷ ps) (properties_of-append xs ys)
properties_of-append (set _ _ ∷ xs) ys = properties_of-append xs ys

pub properties_of-set_each : (os : List Optional) → properties_of (set_each os) ≡ []
unfolding properties_of set_each
properties_of-set_each [] = refl
properties_of-set_each (optional n a v ∷ os) = ground (arith, properties_of-set_each os)

-- The items of a dict.
unfoldable pub pair_list : Pairs → List (Arg × Arg)
pair_list end = []
pair_list (pair k v d) = (k, v) ∷ pair_list d

unfoldable pub items : Arg → List (Arg × Arg)
unfolding pair_list
items (Arg.dict d) = pair_list d
items a = []

properties_of-property_calls : (d : Pairs) → properties_of (property_calls d) ≡ pair_list d
unfolding properties_of property_calls pair_list
properties_of-property_calls end = refl
properties_of-property_calls (pair k v d) = ap (λ ps. (k, v) ∷ ps) (properties_of-property_calls d)

pub properties_of-properties_calls : (a : Arg) → properties_of (properties_calls a) ≡ items a
unfolding properties_of properties_calls items
properties_of-properties_calls (Arg.dict d) = properties_of-property_calls d
properties_of-properties_calls a = refl

pub ruleset config_laws =
    (setting-append, setting-set_each, setting-properties_calls, or_later_none)
