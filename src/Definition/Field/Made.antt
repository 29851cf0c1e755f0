-- ===== src/Definition/Field/Made.antt =====
-- The fields that the constructors of the subclasses of `Field` return.
use pulsar_client_python.Base.{◌≡◌, refl, ◌∙◌, false, arith, inl, inr, Bool-cases, Option-cases}
use mathlib.Core.Path.{subst}
use pulsar_client_python.Python.Result.{ok, ◌>>=◌, >>=-eq-ok}
use pulsar_client_python.Python.Utf8.{decode}
use pulsar_client_python.Python.Value.{
  Scalar, Value, Options, Field, options, is_none, is_instance_of,
}
use pulsar_client_python.Definition.Field.{
  default, validate, make_field, Shape, shaped, scalar_shape, enum_shape, array_shape, map_shape,
  unset, is_required, python_type,
}
use pulsar_client_python.Definition.Field.Idempotent.{
  IsEnum, HasEnum, HasSettledDefault, validate_idem,
}

abbrev pub IsShape : Shape → Type 0
IsShape (enum_shape e) = IsEnum e
IsShape _ = Unit

shaped-HasEnum : (s : Shape) (o : Options) → IsShape s → HasEnum (shaped s o)
unfolding shaped
shaped-HasEnum (enum_shape e) o h = h
shaped-HasEnum (scalar_shape s) o h = tt
shaped-HasEnum (array_shape s) o h = tt
shaped-HasEnum (map_shape s) o h = tt

-- A value other than `None` is validated the same, whatever the options are.
validate-options :
    (s : Shape) (o p : Options) (v : Value)
    → is_none v ≡ false
    → validate (shaped s o) v ≡ validate (shaped s p) v
unfolding validate shaped python_type is_instance_of
validate-options (scalar_shape Scalar.null) o p v h = refl
validate-options (scalar_shape Scalar.bytes) o p v h = refl
validate-options (scalar_shape Scalar.string) o p (Value.str s) h = refl
validate-options (scalar_shape Scalar.string) o p v h = ground arith
validate-options (scalar_shape s) o p v h = ground arith
validate-options (enum_shape e) o p v h = refl
validate-options (array_shape f) o p v h = refl
validate-options (map_shape f) o p v h = refl

no_default-HasSettledDefault :
    (s : Shape) (rd r : Value) → HasSettledDefault (shaped s (options Value.null rd r))
unfolding validate shaped default python_type is_instance_of is_required
no_default-HasSettledDefault (scalar_shape Scalar.null) rd r h = refl
no_default-HasSettledDefault (scalar_shape s) rd r h = ground arith
no_default-HasSettledDefault (enum_shape e) rd r h = refl
no_default-HasSettledDefault (array_shape f) rd r h = refl
no_default-HasSettledDefault (map_shape f) rd r h = refl

-- Validation turns no other value into `None`.
validate-not_none :
    (s : Shape) (v w : Value)
    → is_none v ≡ false
    → validate (shaped s unset) v ≡ ok w
    → is_none w ≡ false
unfolding validate shaped
validate-not_none (scalar_shape Scalar.null) v w h p = ground arith
validate-not_none (scalar_shape Scalar.bytes) (Value.str s) w h p = ground arith
validate-not_none (scalar_shape Scalar.bytes) v w h p = ground arith
validate-not_none (scalar_shape Scalar.string) (Value.bytes b) w h p =
    elim (Option-cases (decode b)) [ inl q ↦ ground arith | inr (s, q) ↦ ground arith ]
validate-not_none (scalar_shape s) v w h p = ground arith
validate-not_none (enum_shape e) (Value.str s) w h p = ground arith
validate-not_none (enum_shape e) v w h p = ground arith
validate-not_none (array_shape f) Value.null w h p = ground arith
validate-not_none (array_shape f) v w h p = ground arith
validate-not_none (map_shape f) Value.null w h p = ground arith
validate-not_none (map_shape f) v w h p = ground arith

-- A default that is given is stored as a value that passes validation.
stored_default :
    (s : Shape) (given d : Value) (o : Options)
    → IsShape s
    → is_none given ≡ false
    → validate (shaped s unset) given ≡ ok d
    → validate (shaped s o) d ≡ ok d
stored_default s given d o h g p =
    validate-options s o unset d (validate-not_none s given d g p)
    ∙ validate_idem (shaped s unset) given d (shaped-HasEnum s unset h)
        (no_default-HasSettledDefault s Value.null Value.null) p

default-given :
    (s : Shape) (d rd r : Value) → is_none d ≡ false → default (shaped s (options d rd r)) ≡ d
unfolding default shaped
default-given (scalar_shape Scalar.null) d rd r h = refl
default-given (scalar_shape s) d rd r h = ground arith
default-given (enum_shape e) d rd r h = refl
default-given (array_shape f) d rd r h = refl
default-given (map_shape f) d rd r h = refl

given-HasSettledDefault :
    (s : Shape) (given d rd r : Value)
    → IsShape s
    → is_none given ≡ false
    → validate (shaped s unset) given ≡ ok d
    → HasSettledDefault (shaped s (options d rd r))
given-HasSettledDefault s given d rd r h g p _ =
    rw (default-given s d rd r (validate-not_none s given d g p))
      (stored_default s given d (options d rd r) h g p)

-- Whatever a constructor returns has a default that passes validation, unless the field is required and
-- none is given.
pub make_field-HasSettledDefault :
    (s : Shape) (given required required_default : Value) (f : Field)
    → IsShape s
    → make_field s given required required_default ≡ ok f
    → HasEnum f × HasSettledDefault f
unfolding make_field
make_field-HasSettledDefault s given r rd f h e = elim (Bool-cases (is_none given)) [
  | inl absent ↦
      let q : ok (shaped s (options Value.null rd r)) ≡ ok f = rw absent at e in
      let p : shaped s (options Value.null rd r) ≡ f = cc in
      subst (λ g. HasEnum g × HasSettledDefault g) p
        (shaped-HasEnum s _ h, no_default-HasSettledDefault s rd r)
  | inr present ↦
      let q : (validate (shaped s unset) given >>= λ d. ok (shaped s (options d rd r))) ≡ ok f =
        rw present at e in
      let (d, valid, made) = >>=-eq-ok (validate (shaped s unset) given) _ q in
      let p : shaped s (options d rd r) ≡ f = cc in
      subst (λ g. HasEnum g × HasSettledDefault g) p
        (shaped-HasEnum s _ h, given-HasSettledDefault s given d rd r h present valid)
]

-- Validation by a field that a constructor returned is idempotent: what it returns for a value it
-- accepts and returns unchanged. The constructor is any but that of `Record`, and the members of an
-- `Enum` that it is given are of that `Enum`.
pub validate-validate :
    (s : Shape) (given required required_default : Value) (f : Field) (v w : Value)
    → IsShape s
    → make_field s given required required_default ≡ ok f
    → validate f v ≡ ok w
    → validate f w ≡ ok w
validate-validate s given r rd f v w h made p =
    let (enum, settled) = make_field-HasSettledDefault s given r rd f h made in
    validate_idem f v w enum settled p
