-- ===== src/Tests/Stores.antt =====
-- Samples of instances in a store: a class with a field that is a point.
use pulsar_client_python.Base.{
  ◌≡◌, refl, false, none, some, [], ◌∷◌, str_eq, if◌then◌else◌, ◌==◌, arith,
}
use pulsar_client_python.Base.Int.{pos}
use pulsar_client_python.Python.Result.{ok}
use pulsar_client_python.Python.Value.{
  Value, RecordClass, Field, bare, class, no_fields, declare, record_field, is_instance_of,
}
use pulsar_client_python.Definition.Field.{validate, python_type}
use pulsar_client_python.Definition.Record.{
  argument, find_field, get_attribute, init_options, construct,
}
use pulsar_client_python.Definition.Store.{own, ref, Cell, Store, make, read_through, write_through}
use pulsar_client_python.Definition.Store.Reading.{load_class, IsFresh}
use pulsar_client_python.Definition.Store.Pristine.{IsPristine}
use pulsar_client_python.Definition.Store.Implements.{Implements}
use pulsar_client_python.Definition.Store.Refinement.{make-Implements}
use pulsar_client_python.Definition.Store.Sharing.{write_through-shared}
use pulsar_client_python.Tests.Records.{no_options, point, origin}

abbrev circle : RecordClass
circle =
    class 12 [] "Circle" none false
      (declare "center" (record_field point no_options origin) no_fields)

abbrev declared_center : Cell
declared_center = record {
  class = point;
  options = no_options;
  slots = ("x", own Value.null) ∷ ("y", own Value.null) ∷ [];
}

-- The store after the declaration of `circle`.
abbrev declared : Store
declared = record {
  cells = λ r. if r == 0 then some declared_center else none;
  next = 1;
  template = λ _ _. 0;
}

declared-IsFresh : IsFresh declared
declared-IsFresh r h = ground arith

declared-IsPristine : IsPristine circle declared
unfolding load_class
declared-IsPristine = ((refl, (tt, (tt, tt))), tt)

make-Implements_example :
    Implements declared (load_class circle) (construct circle bare) (make circle bare declared)
make-Implements_example = make-Implements circle bare declared declared-IsFresh declared-IsPristine

abbrev empty_circle : Cell
empty_circle = record { class = circle; options = no_options; slots = ("center", ref 0) ∷ [] }

abbrev one_circle : Store
one_circle = record {
  cells = λ r. if r == 1 then some empty_circle else declared.cells r;
  next = 2;
  template = λ _ _. 0;
}

abbrev two_circles : Store
two_circles = record {
  cells = λ r. if r == 2 then some empty_circle else one_circle.cells r;
  next = 3;
  template = λ _ _. 0;
}

abbrev moved_center : Cell
moved_center = record declared_center {
  slots = ("x", own (Value.int (pos 5))) ∷ ("y", own Value.null) ∷ [];
}

abbrev moved : Store
moved = record two_circles {
  cells = λ r. if r == 0 then some moved_center else two_circles.cells r;
}

write_through-shared_example :
    (f : Field) × (w : Value) × (validate f (Value.int (pos 5)) ≡ ok w)
    × (read_through moved 1 "center" "x" ≡ some (own w))
    × (read_through moved 2 "center" "x" ≡ some (own w))
unfolding find_field str_eq argument get_attribute make validate is_instance_of python_type
    init_options write_through
write_through-shared_example =
    write_through-shared circle point no_options origin bare bare "center" "x" (Value.int (pos 5))
      declared one_circle two_circles moved 1 2 declared-IsFresh declared-IsPristine refl refl refl
      refl refl refl
