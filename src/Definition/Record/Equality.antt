-- ===== src/Definition/Record/Equality.antt =====
-- `Record.__eq__` and `__ne__` (pulsar/schema/definition.py). Names of options are taken to be no
-- names of fields.
use pulsar_client_python.Base.{
  String, ◌≡◌, refl, ◌↔◌, Bool, true, false, not, none, some, arith, ap, ◌∙◌,
}
use pulsar_client_python.Python.Result.{Result, ok, ◌>>=◌, >>=-eq-ok}
use pulsar_client_python.Python.Value.{
  Value, RecordClass, Fields, Options, Attributes, no_fields, declare, class_fields,
}
use pulsar_client_python.Definition.Record.{get_attribute}

-- What the language does with two attributes, and with a name that is none of an instance's own.
pub record Comparison : Type 0 where
  -- `v != w`
  pub differ : Value → Value → Result Bool
  -- `v.__getattribute__(name)` of what is no instance of a record, or has no attribute of its own under
  -- that name
  pub inherited : Value → String → Result Value

not-false : (b : Bool) → ok (not b) ≡ ok false → b ≡ true
not-false true h = refl
not-false false h = ground arith

-- The `if` of the loop of `__eq__`.
abbrev unless_unlike : Bool → Result Bool → Result Bool
unless_unlike true rest = ok false
unless_unlike false rest = rest

unless_unlike-true :
    (unlike : Bool) (rest : Result Bool)
    → unless_unlike unlike rest ≡ ok true
    → (unlike ≡ false) × (rest ≡ ok true)
unless_unlike-true true rest h = ground arith
unless_unlike-true false rest h = (refl, h)

module _ (by : Comparison) where
  -- `v.__getattribute__(name)`
  unfoldable pub attribute_of : Value → String → Result Value
  attribute_of (Value.object c o a) k = elim (get_attribute k a) [
    | none ↦ by.inherited (Value.object c o a) k
    | some v ↦ ok v
  ]
  attribute_of v k = by.inherited v k

  -- The loop of `__eq__`: the first attribute that differs ends it.
  unfoldable pub same_fields : Fields → Value → Value → Result Bool
  unfolding attribute_of
  same_fields no_fields x y = ok true
  same_fields (declare k _ fields) x y = do
    v ← attribute_of x k
    w ← attribute_of y k
    unlike ← by.differ v w
    unless_unlike unlike (same_fields fields x y)

  -- `__eq__` of an instance of the class
  unfoldable pub equal : RecordClass → Options → Attributes → Value → Result Bool
  unfolding same_fields
  equal c o a other = same_fields (class_fields c) (Value.object c o a) other

  -- `__ne__`
  unfoldable pub not_equal : RecordClass → Options → Attributes → Value → Result Bool
  unfolding equal
  not_equal c o a other = do same ← equal c o a other; ok (not same)

  -- Both have an attribute of the name, and the two do not differ.
  abbrev pub Agree : Value → Value → String → Type 0
  Agree x y k =
      (v : Value) × (w : Value) × (attribute_of x k ≡ ok v)
      × (attribute_of y k ≡ ok w)
      × (by.differ v w ≡ ok false)

  abbrev pub AgreeOn : Fields → Value → Value → Type 0
  AgreeOn no_fields x y = Unit
  AgreeOn (declare k _ fields) x y = Agree x y k × AgreeOn fields x y

  same_fields_iff :
      (fields : Fields) (x y : Value) → (same_fields fields x y ≡ ok true) ↔ AgreeOn fields x y
  unfolding same_fields
  same_fields_iff no_fields x y = (λ h. tt, λ h. refl)
  same_fields_iff (declare k f fields) x y =
      let (to, from) = same_fields_iff fields x y in
      (
        λ h.
            let (v, has, h₁) = >>=-eq-ok (attribute_of x k) _ h in
            let (w, has', h₂) = >>=-eq-ok (attribute_of y k) _ h₁ in
            let (unlike, compared, h₃) = >>=-eq-ok (by.differ v w) _ h₂ in
            let (like, rest) = unless_unlike-true unlike (same_fields fields x y) h₃ in
            ((v, w, has, has', compared ∙ ap (λ (b : Bool). ok b) like), to rest),
        λ g. let (v, w, has, has', like) = g.0 in rw (has, has', like) (from g.1),
      )

  -- `==` says that an instance of the class is equal to another value exactly if, for every declared
  -- field of the class, both have an attribute of its name and `!=` does not tell the two apart; `!=`
  -- says then, and only then, that they are not different. What else the other value has does not
  -- matter.
  pub equal_iff :
      (c : RecordClass) (o : Options) (a : Attributes) (other : Value)
      → ((equal c o a other ≡ ok true) ↔ AgreeOn (class_fields c) (Value.object c o a) other)
        × ((not_equal c o a other ≡ ok false) ↔ AgreeOn (class_fields c) (Value.object c o a) other)
  unfolding not_equal equal
  equal_iff c o a other =
      let (to, from) = same_fields_iff (class_fields c) (Value.object c o a) other in
      (
        (to, from),
        (
          λ h.
              let (same, e, n) =
                >>=-eq-ok (same_fields (class_fields c) (Value.object c o a) other) _ h in
              to (e ∙ ap (λ (b : Bool). ok b) (not-false same n)),
          λ g. rw (from g) refl,
        ),
      )
