-- ===== src/Tests/Records.antt =====
-- Samples for pulsar/schema/definition.py: an `Enum`, a class of points, and a class with a field of most
-- kinds.
use pulsar_client_python.Base.{
  Bool, not, ◌↔◌, ◌⊎◌, arith, String, str_eq_iff, ◌≢◌, ◌≡◌, refl, true, false, none, some, [], ◌∷◌,
  str_eq,
}
use pulsar_client_python.Base.Int.{ℤ, pos, int_eq}
use pulsar_client_python.Python.Result.{Result, ok, raise, attribute_error}
use pulsar_client_python.Python.Utf8.{encode}
use pulsar_client_python.Python.Value.{
  Literal, Member, EnumType, Scalar, Value, Attributes, Options, RecordClass, nil, cons, bare,
  attribute, options, class, no_fields, declare, scalar, custom_enum, array, record_field, Field,
  class_fields, is_instance_of,
}
use pulsar_client_python.Definition.Field.{
  default, find_name, find_value, make_field, validate, validate_class, enum_shape, array_shape,
  python_type, all_items,
}
use pulsar_client_python.Definition.Field.Element.{
  Container, Element, IsBlank, enum_class, validate_container, validate_instance,
}
use pulsar_client_python.Definition.Field.Element.Accepted.{validate_container_iff}
use pulsar_client_python.Definition.SchemaInfo.Document.{parse, parse-to_value}
use pulsar_client_python.Definition.Field.Made.{validate-validate}
use pulsar_client_python.Definition.Field.Typed.{HasType, validate-HasType}
use pulsar_client_python.Definition.Record.{
  argument, assign, construct, find_field, get_attribute, init_options, set_attribute,
}
use pulsar_client_python.Definition.Record.Kept.{
  HoldsKept, construct-HoldsKept, set_attribute-HoldsKept,
}
use pulsar_client_python.Definition.SchemaInfo.{
  Avro, word, array_of, record_of, column, no_columns, to_value, class_info, field_info, full_name,
}
use pulsar_client_python.Definition.SchemaInfo.Names.{read, class_info-Reads}
use pulsar_client_python.Definition.Record.Equality.{
  Comparison, equal, not_equal, AgreeOn, equal_iff,
}
use pulsar_client_python.Definition.SchemaInfo.Sorting.{class_info-items_perm}
use mathlib.Core.List.Permᴰ.{swap}
use pulsar_client_python.Definition.SchemaInfo.Repeat.{class_info-again}

abbrev pub red : Member
red = record { owner = 1; name = "red"; value = Literal.int (pos 1) }

abbrev pub blue : Member
blue = record { owner = 1; name = "blue"; value = Literal.int (pos 3) }

abbrev pub color : EnumType
color = record { ident = 1; name = "Color"; members = ("red", red) ∷ ("blue", blue) ∷ [] }

abbrev pub no_options : Options
no_options = options Value.null (Value.bool false) (Value.bool false)

abbrev pub point : RecordClass
point = class 10 [] "Point" none false (
    declare "x" (scalar Scalar.integer no_options)
      (declare "y" (scalar Scalar.integer no_options) no_fields))

abbrev pub at : ℤ → ℤ → Attributes
at x y = attribute "x" (Value.int x) (attribute "y" (Value.int y) bare)

abbrev pub origin : Attributes
origin = attribute "x" Value.null (attribute "y" Value.null bare)

abbrev pub drawing : RecordClass
drawing = class 11 [] "Drawing" (some "org.test") true (
    declare "title" (scalar Scalar.string no_options) (
      declare "color" (custom_enum color no_options) (
        declare "data" (scalar Scalar.bytes no_options) (
          declare "points" (array (record_field point no_options origin) no_options)
            (declare "center" (record_field point no_options origin) no_fields)))))

abbrev pub center : Value
center = Value.object point no_options (at (pos 0) (pos 7))

abbrev pub sketch : Attributes
sketch = attribute "title" (Value.str "sketch") (
    attribute "color" (Value.member blue) (
      attribute "data" (Value.bytes (encode "ab")) (
        attribute "points"
          (Value.list (cons (Value.object point no_options (at (pos 1) (pos 2))) nil))
          (attribute "center" center bare))))

-- A field with a default, which the constructor turns into a member.
validate-validate_example :
    validate
      (custom_enum color (options (Value.member blue) (Value.bool false) (Value.bool false)))
      (Value.member red)
    ≡ ok (Value.member red)
unfolding make_field validate find_name find_value str_eq
validate-validate_example =
    validate-validate (enum_shape color) (Value.str "blue") (Value.bool false) (Value.bool false)
      (custom_enum color (options (Value.member blue) (Value.bool false) (Value.bool false)))
      (Value.str "red") (Value.member red) (refl, (refl, tt)) refl refl

validate-HasType_example :
    HasType
      (array (record_field point no_options origin) no_options)
      (Value.list (cons (Value.object point no_options origin) nil))
unfolding make_field validate all_items is_instance_of python_type
validate-HasType_example =
    validate-HasType (array_shape (record_field point no_options origin)) Value.null
      (Value.bool false) (Value.bool false)
      (array (record_field point no_options origin) no_options)
      (Value.list (cons (Value.object point no_options origin) nil))
      (Value.list (cons (Value.object point no_options origin) nil)) tt refl refl

construct-HoldsKept_example : HoldsKept (class_fields point) (Value.object point no_options origin)
unfolding construct get_attribute argument init_options default str_eq
construct-HoldsKept_example =
    construct-HoldsKept point bare (Value.object point no_options origin) refl

set_attribute-HoldsKept_example : HoldsKept (class_fields point) (
    Value.object point no_options
      (attribute "x" Value.null (attribute "y" (Value.int (pos 3)) bare)))
unfolding construct set_attribute find_field assign validate validate_class get_attribute argument
    init_options default str_eq is_instance_of python_type
set_attribute-HoldsKept_example =
    set_attribute-HoldsKept point no_options origin "y" (Value.int (pos 3))
      (Value.object point no_options
        (attribute "x" Value.null (attribute "y" (Value.int (pos 3)) bare)))
      (construct-HoldsKept point bare (Value.object point no_options origin) refl) refl

class_info-Reads_example : read (class_info drawing []).0 [] ≡ some (class_info drawing []).1
class_info-Reads_example =
    class_info-Reads drawing [] (tt, (tt, (tt, (((tt, (tt, tt)), tt), ((tt, (tt, tt)), tt)))))

class_info-again_example :
    class_info point (field_info (record_field drawing no_options bare) (class_info point []).1).1
    ≡ (word "Point", (field_info (record_field drawing no_options bare) (class_info point []).1).1)
unfolding full_name
class_info-again_example = class_info-again point (record_field drawing no_options bare) []

-- The fields of a point, in either order.
x_then_y-distinct : ◌≢◌ {A = String} "x" "y"
unfolding str_eq
x_then_y-distinct e = let h : str_eq "x" "y" ≡ true = (str_eq_iff "x" "y").1 e in cc

class_info-items_perm_example :
    class_info (
      class 20 [] "Point" none true (
        declare "x"
          (scalar Scalar.integer no_options)
          (declare "y" (scalar Scalar.long no_options) no_fields)))
    ≡ class_info (
        class 21 [] "Point" none true (
          declare "y"
            (scalar Scalar.long no_options)
            (declare "x" (scalar Scalar.integer no_options) no_fields)))
class_info-items_perm_example =
    class_info-items_perm 20 21 [] [] "Point" none
      (declare "x" (scalar Scalar.integer no_options)
        (declare "y" (scalar Scalar.long no_options) no_fields))
      (declare "y" (scalar Scalar.long no_options)
        (declare "x" (scalar Scalar.integer no_options) no_fields))
      (swap refl refl) ((x_then_y-distinct, tt), (tt, tt))

-- `!=` of ints; nothing else is compared.
abbrev unlike : Value → Value → Result Bool
unlike (Value.int m) (Value.int n) = ok (not (int_eq m n))
unlike _ _ = ok true

abbrev of_ints : Comparison
of_ints = record { differ = unlike; inherited = λ _ _. raise attribute_error }

equal_iff_example :
    ((equal of_ints point no_options (at (pos 1) (pos 2)) center ≡ ok true)
      ↔ AgreeOn of_ints
          (class_fields point)
          (Value.object point no_options (at (pos 1) (pos 2)))
          center)
    × ((not_equal of_ints point no_options (at (pos 1) (pos 2)) center ≡ ok false)
        ↔ AgreeOn of_ints
            (class_fields point)
            (Value.object point no_options (at (pos 1) (pos 2)))
            center)
equal_iff_example = equal_iff of_ints point no_options (at (pos 1) (pos 2)) center

-- An array declared with the class of an `Enum`, and a list that holds a member of it.
abbrev reds : Value
reds = Value.list (cons (Value.member red) nil)

validate_container_iff_example :
    (validate_container Container.array_of (enum_class color) reds ≡ ok reds) ↔ (
      (reds ≡ reds)
      × (((f : Field) × (◌≡◌ {A = Element} (enum_class color) (Element.instance_of f))
            × (validate_instance Container.array_of f reds ≡ ok reds))
          ⊎ IsBlank Container.array_of reds))
validate_container_iff_example =
    validate_container_iff Container.array_of (enum_class color) reds reds

abbrev outline : Avro
outline = record_of "Outline" (some "org.test") (
    column "name" true none (word "string") (
      column "points" false (some Value.null)
        (array_of (record_of "Point" none (column "x" true none (word "int") no_columns)))
        no_columns))

parse-to_value_example : parse 5 (to_value outline) ≡ some outline
parse-to_value_example = parse-to_value 5 outline (omega arith)
