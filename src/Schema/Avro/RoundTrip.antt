-- ===== src/Schema/Avro/RoundTrip.antt =====
-- `AvroSchema.decode` gives back the records that `AvroSchema.encode` was given.
use mathlib.Core.Path.{subst}
use pulsar_client_python.Base.{String, ◌≡◌, refl, sym, ◌∙◌, ap, ◌⊎◌, inl, inr, false, some}
use pulsar_client_python.Python.Result.{ok}
use pulsar_client_python.Python.Utf8.{Bytes}
use pulsar_client_python.Python.Value.{
  EnumType, Value, Values, Entries, Attributes, Options, RecordClass, Fields, Field, bare,
  attribute, class, no_fields, declare, scalar, custom_enum, array, mapping, record_field,
}
use pulsar_client_python.Definition.Field.{validate}
use pulsar_client_python.Definition.Record.{get_attribute, construct, init_field, init_fields}
use pulsar_client_python.Schema.Json.Stored.{plain, AreAtoms, IsAtomDict, IsFieldName, declared}
use pulsar_client_python.Schema.Json.Atoms.{
  keywords-dict_of, init_field-atoms, init_field-atom_dict,
}
use pulsar_client_python.Schema.Json.Arguments.{
  Agrees, Agrees-attribute, Avoids, Avoids-attribute, construct-fields, argument_self,
}
use pulsar_client_python.Schema.Json.Objects.{is_instance-object}
use pulsar_client_python.Schema.Avro.{AvroState, Externals, get_name, rename, decode}
use pulsar_client_python.Schema.Avro.Encode.{encode, serialized}
use pulsar_client_python.Schema.Avro.Stored.{
  datum, datum_attributes, IsStored, AreStored, IsStoredIn, datum_items-atoms, datum_entries-atoms,
}
use pulsar_client_python.Schema.Avro.Rename.{rename_self}
use pulsar_client_python.Schema.Avro.Objects.{
  GivesBack, GivesBackObject, GivesBack-scalar, GivesBack-null, array_back, map_back, record_back,
}

enum_back :
    (e : EnumType) (o : Options) (v : Value)
    → IsStoredIn (custom_enum e o) v
    → GivesBack (custom_enum e o) v
unfolding construct validate
enum_back e o v (inl absent) = GivesBack-null (custom_enum e o) v refl absent
enum_back e o v (inr (m, is, found)) = rw is (rw found refl)

array_atoms_back :
    (f : Field) (p : Options) (v : Value)
    → (v ≡ Value.null)
      ⊎ ((xs : Values) × (v ≡ Value.list xs) × AreAtoms xs × (validate (array f p) v ≡ ok v))
    → GivesBack (array f p) v
unfolding validate
array_atoms_back f p v (inl e) = GivesBack-null (array f p) v refl e
array_atoms_back f p v (inr (xs, e, atoms, valid)) =
    ap (λ (w : Value). init_field (array f p) (some (datum w))) e
    ∙ (ap (λ (ys : Values). init_field (array f p) (some (Value.list ys)))
          (datum_items-atoms xs atoms)
        ∙ (init_field-atoms f p xs atoms ∙ (ap (validate (array f p)) (sym e) ∙ valid)))

map_atoms_back :
    (f : Field) (p : Options) (v : Value)
    → (v ≡ Value.null)
      ⊎ ((d : Entries) × (v ≡ Value.dict d) × IsAtomDict d × (validate (mapping f p) v ≡ ok v))
    → GivesBack (mapping f p) v
unfolding validate
map_atoms_back f p v (inl e) = GivesBack-null (mapping f p) v refl e
map_atoms_back f p v (inr (d, e, atoms, valid)) =
    ap (λ (w : Value). init_field (mapping f p) (some (datum w))) e
    ∙ (ap (λ (ys : Entries). init_field (mapping f p) (some (Value.dict ys)))
          (datum_entries-atoms d atoms)
        ∙ (init_field-atom_dict f p d atoms ∙ (ap (validate (mapping f p)) (sym e) ∙ valid)))

objects_back :
    (c : RecordClass) (o : Options) (a : Attributes) (p : Options) (v : Value)
    → ((b : Attributes) → IsStored c b → GivesBackObject c b)
    → IsStoredIn (array (record_field c o a) p) v
    → GivesBack (array (record_field c o a) p) v
unfolding validate
objects_back c o a p v back (inl e) = GivesBack-null (array (record_field c o a) p) v refl e
objects_back c o a p v back (inr (xs, e, stored)) =
    subst (GivesBack (array (record_field c o a) p)) (sym e)
      (array_back c (IsStored c) back o p a xs stored)

object_maps_back :
    (c : RecordClass) (o : Options) (a : Attributes) (p : Options) (v : Value)
    → ((b : Attributes) → IsStored c b → GivesBackObject c b)
    → IsStoredIn (mapping (record_field c o a) p) v
    → GivesBack (mapping (record_field c o a) p) v
unfolding validate
object_maps_back c o a p v back (inl e) = GivesBack-null (mapping (record_field c o a) p) v refl e
object_maps_back c o a p v back (inr (d, e, stored)) =
    subst (GivesBack (mapping (record_field c o a) p)) (sym e)
      (map_back c (IsStored c) back o p a d stored)

sub_record_back :
    (c : RecordClass) (o : Options) (a : Attributes) (v : Value)
    → ((b : Attributes) → IsStored c b → GivesBackObject c b)
    → IsStoredIn (record_field c o a) v
    → GivesBack (record_field c o a) v
sub_record_back c o a v back (inl (e, valid)) = GivesBack-null (record_field c o a) v valid e
sub_record_back c o a v back (inr object) = record_back c (IsStored c) back o o a v object

-- What the codec makes of all attributes.
record FieldsBack (fs : Fields) (a : Attributes) : Type 0 where
  here : (all : Attributes) → Agrees fs (datum_attributes a) all → init_fields fs all ≡ ok a
  agrees : Agrees fs (datum_attributes a) (datum_attributes a)
  avoids : Avoids (datum_attributes a)

declare_back :
    (k j : String) (f : Field) (fs : Fields) (v : Value) (a : Attributes)
    → j ≡ k
    → IsFieldName k
    → declared k fs ≡ false
    → GivesBack f v
    → FieldsBack fs a
    → FieldsBack (declare k f fs) (attribute j v a)
unfolding construct
declare_back k j f fs v a same name new given rest = rw same (record {
  here = λ all h. rw h.0 (rw given (rw (rest.here all h.1) refl));
  agrees = (
    argument_self k (datum v) (datum_attributes a) name.0,
    Agrees-attribute fs (datum_attributes a) k (datum v) (datum_attributes a) new rest.agrees,
  );
  avoids = Avoids-attribute k (datum v) (datum_attributes a) name.0 rest.avoids;
})

mutual
  unfolding construct get_attribute

  object_back : (c : RecordClass) (a : Attributes) → IsStored c a → GivesBackObject c a
  object_back (class i b n ns s fs) a h =
      let all = fields_back fs a h in
      construct-fields i b n ns s fs (datum_attributes a) a all.avoids
        (all.here (datum_attributes a) all.agrees)

  fields_back : (fs : Fields) (a : Attributes) → AreStored fs a → FieldsBack fs a
  fields_back no_fields bare h = record { here = λ all g. refl; agrees = tt; avoids = λ p g. refl }
  fields_back no_fields (attribute _ _ _) h = absurd h
  fields_back (declare _ _ _) bare h = absurd h
  fields_back (declare k f fs) (attribute j v a) (same, name, new, stored, rest) =
      declare_back k j f fs v a same name new (field_back f v stored) (fields_back fs a rest)

  field_back : (f : Field) (v : Value) → IsStoredIn f v → GivesBack f v
  field_back (scalar s o) v h = GivesBack-scalar (scalar s o) v h.0 h.1
  field_back (custom_enum e o) v h = enum_back e o v h
  field_back (array (record_field c o a) p) v h = objects_back c o a p v (λ b. object_back c b) h
  field_back (array f p) v h = array_atoms_back f p v h
  field_back (mapping (record_field c o a) p) v h =
      object_maps_back c o a p v (λ b. object_back c b) h
  field_back (mapping f p) v h = map_atoms_back f p v h
  field_back (record_field c o a) v h = sub_record_back c o a v (λ b. object_back c b) h

rename_reader :
    (s : AvroState) (schema : Entries) (name : Value)
    → s.reader_schema ≡ Value.dict schema
    → get_name schema ≡ some name
    → rename s.reader_schema s.reader_schema ≡ ok s.reader_schema
rename_reader s schema name is_dict named = rw is_dict (rename_self schema name named)

-- What was encoded is what `fastavro` wrote.
write_datum-encode :
    (x : Externals) (s : AvroState) (c : RecordClass) (a : Attributes) (b : Bytes)
    → s.record_class ≡ some c
    → encode x s (Value.object c plain a) ≡ ok b
    → x.write_datum s.reader_schema (serialized (Value.object c plain a)) ≡ ok b
unfolding encode
write_datum-encode x s c a b of_class encoded =
    let opened = rw (of_class, is_instance-object c plain a) at encoded in opened

decode_read :
    (x : Externals) (s : AvroState) (c : RecordClass) (a : Attributes) (b : Bytes)
    → s.record_class ≡ some c
    → rename s.reader_schema s.reader_schema ≡ ok s.reader_schema
    → x.read_datum b s.reader_schema s.reader_schema ≡ ok (datum (Value.object c plain a))
    → GivesBackObject c a
    → decode x s b ≡ ok (Value.object c plain a)
unfolding decode
decode_read x s c a b of_class same read back =
    rw same (rw read (rw of_class (rw (keywords-dict_of (datum_attributes a)) back)))

pub decode-encode :
    (x : Externals) (s : AvroState) (c : RecordClass) (a : Attributes) (schema : Entries)
    (name : Value) (b : Bytes)
    → s.record_class ≡ some c
    → s.reader_schema ≡ Value.dict schema
    → get_name schema ≡ some name
    → (x.write_datum s.reader_schema (serialized (Value.object c plain a)) ≡ ok b
        → x.read_datum b s.reader_schema s.reader_schema ≡ ok (datum (Value.object c plain a)))
    → IsStored c a
    → encode x s (Value.object c plain a) ≡ ok b
    → decode x s b ≡ ok (Value.object c plain a)
decode-encode x s c a schema name b of_class is_dict named reads stored encoded =
    let written = write_datum-encode x s c a b of_class encoded in
    let same = rename_reader s schema name is_dict named in
    decode_read x s c a b of_class same (reads written) (object_back c a stored)
