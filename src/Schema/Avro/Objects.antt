-- ===== src/Schema/Avro/Objects.antt =====
-- The way of one value into the datum of its record and back.
use mathlib.Core.Path.{subst}
use pulsar_client_python.Base.{◌≡◌, refl, sym, ◌∙◌, ap, some}
use pulsar_client_python.Python.Result.{ok}
use pulsar_client_python.Python.Utf8.{Bytes}
use pulsar_client_python.Python.Value.{
  Value, Values, Entries, Attributes, Options, RecordClass, Field, nil, cons, end, entry, array,
  mapping, record_field,
}
use pulsar_client_python.Definition.Field.{validate, python_type, all_items, all_entries}
use pulsar_client_python.Definition.Record.{construct, init_field, init_items, init_entries}
use pulsar_client_python.Schema.Json.Stored.{plain, IsAtom, IsObject, AreObjects, IsObjectDict}
use pulsar_client_python.Schema.Json.Atoms.{keywords-dict_of, init_field-atom}
use pulsar_client_python.Schema.Json.Objects.{
  is_instance-object, all_items-objects, all_entries-objects,
}
use pulsar_client_python.Schema.Avro.Stored.{
  datum, datum_items, datum_entries, datum_attributes, IsScalar, datum-atom,
}

-- The datum of an attribute, and of an instance, is read back.
abbrev pub GivesBack : Field → Value → Type 0
GivesBack f v = init_field f (some (datum v)) ≡ ok v

abbrev pub GivesBackObject : RecordClass → Attributes → Type 0
GivesBackObject c a = construct c (datum_attributes a) ≡ ok (Value.object c plain a)

init_field-bytes :
    (f : Field) (b : Bytes) → init_field f (some (Value.bytes b)) ≡ validate f (Value.bytes b)
unfolding construct
init_field-bytes (array (record_field c o a) p) b = refl
init_field-bytes (mapping (record_field c o a) p) b = refl
init_field-bytes f b = refl

GivesBack-atom : (f : Field) (v : Value) → IsAtom v → validate f v ≡ ok v → GivesBack f v
GivesBack-atom f v h valid =
    ap (λ (w : Value). init_field f (some w)) (datum-atom v h) ∙ (init_field-atom f v h ∙ valid)

pub GivesBack-scalar : (f : Field) (v : Value) → IsScalar v → validate f v ≡ ok v → GivesBack f v
GivesBack-scalar f (Value.bytes b) h valid = init_field-bytes f b ∙ valid
GivesBack-scalar f v h valid = GivesBack-atom f v h valid

pub GivesBack-null :
    (f : Field) (v : Value) → validate f Value.null ≡ ok Value.null → v ≡ Value.null → GivesBack f v
GivesBack-null f v valid e = subst (GivesBack f) (sym e) (GivesBack-scalar f Value.null tt valid)

module _ (c : RecordClass) (P : Attributes → Type 0)
    (back : (a : Attributes) → P a → GivesBackObject c a) where
  items_back : (xs : Values) → AreObjects c P xs → init_items (construct c) (datum_items xs) ≡ ok xs
  unfolding init_items
  items_back nil h = refl
  items_back (cons x xs) ((a, e, p), hs) =
      rw e (rw (keywords-dict_of (datum_attributes a)) (rw (back a p) (rw (items_back xs hs) refl)))

  entries_back :
      (d : Entries) → IsObjectDict c P d → init_entries (construct c) (datum_entries d) ≡ ok d
  unfolding init_entries
  entries_back end h = refl
  entries_back (entry (Value.str k) v d) (new, (a, e, p), hs) =
      rw e
        (rw (keywords-dict_of (datum_attributes a)) (rw (back a p) (rw (entries_back d hs) refl)))
  entries_back (entry k v d) h = absurd h

module _ (c : RecordClass) (P : Attributes → Type 0)
    (back : (a : Attributes) → P a → GivesBackObject c a) (o p : Options) (d : Attributes) where
  pub array_back :
      (xs : Values) → AreObjects c P xs → GivesBack (array (record_field c o d) p) (Value.list xs)
  unfolding init_items construct validate python_type all_items
  array_back nil h = refl
  array_back (cons x xs) ((a, e, q), hs) = rw e (
      rw (keywords-dict_of (datum_attributes a)) (
        rw (back a q) (
          rw (items_back c P back xs hs)
            (rw (← e) (rw (all_items-objects c P (cons x xs) ((a, e, q), hs)) refl)))))

  pub map_back :
      (e : Entries) → IsObjectDict c P e → GivesBack (mapping (record_field c o d) p) (Value.dict e)
  unfolding init_entries construct validate python_type all_entries
  map_back end h = refl
  map_back (entry (Value.str k) x xs) (new, (a, e, q), hs) = rw e (
      rw (keywords-dict_of (datum_attributes a)) (
        rw (back a q) (
          rw (entries_back c P back xs hs) (
            rw (← e) (
              rw (all_entries-objects c P (entry (Value.str k) x xs) (new, (a, e, q), hs)) refl)))))
  map_back (entry k v e) h = absurd h

  pub record_back : (v : Value) → IsObject c P v → GivesBack (record_field c o d) v
  unfolding construct validate python_type
  record_back v (a, e, q) = rw e (
      rw (keywords-dict_of (datum_attributes a))
        (rw (back a q) (rw (is_instance-object c plain a) refl)))
