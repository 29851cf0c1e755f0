-- ===== src/Schema/Json/RoundTrip.antt =====
-- `JsonSchema.decode` gives back the records that `JsonSchema.encode` was given.
use mathlib.Core.Path.{subst}
use pulsar_client_python.Base.{
  String, ◌≡◌, refl, sym, ◌∙◌, ap, ◌⊎◌, inl, inr, Bool, false, ◌||◌, str_eq,
}
use pulsar_client_python.Python.Result.{ok}
use pulsar_client_python.Python.Utf8.{Bytes}
use pulsar_client_python.Python.Utf8.RoundTrip.{decode-encode}
use pulsar_client_python.Python.Value.{
  EnumType, Value, Values, Entries, Attributes, Options, RecordClass, Fields, Field, Scalar, bare,
  attribute, class, no_fields, declare, scalar, custom_enum, array, mapping, record_field,
}
use pulsar_client_python.Definition.Field.{validate}
use pulsar_client_python.Definition.Record.{get_attribute, construct, init_fields}
use pulsar_client_python.Schema.Json.{
  JsonText, jsonable, jsonable_attributes, json_encode, json_decode,
}
use pulsar_client_python.Schema.Json.Stored.{
  has_key, IsJson, IsJsonDict, AreAtoms, IsAtomDict, plain, declared, IsFieldName, IsStored,
  AreStored, IsStoredIn,
}
use pulsar_client_python.Schema.Json.Atoms.{
  dict_of, keywords-dict_of, jsonable_items-atoms, jsonable_entries-atoms, AreAtoms-AreJson,
  IsAtomDict-IsJsonDict, init_field-atoms, init_field-atom_dict,
}
use pulsar_client_python.Schema.Json.Arguments.{
  Agrees, Agrees-attribute, Avoids, Avoids-attribute, construct-fields, argument_self,
}
use pulsar_client_python.Schema.Json.Objects.{
  GivesBack, GivesBackObject, GivesBack-atom, GivesBack-null, array_back, map_back, record_back,
  is_instance-object,
}

-- What the codec makes of all attributes.
record FieldsBack (json : JsonText) (fs : Fields) (a : Attributes) : Type 0 where
  kwargs : Attributes
  there : jsonable_attributes json a ≡ ok (dict_of kwargs)
  here : (all : Attributes) → Agrees fs kwargs all → init_fields fs all ≡ ok a
  agrees : Agrees fs kwargs kwargs
  avoids : Avoids kwargs
  keys : (k : String) → has_key k (dict_of kwargs) ≡ declared k fs
  tree : IsJsonDict (dict_of kwargs)

module _ (json : JsonText) where
  no_fields_back : FieldsBack json no_fields bare
  unfolding jsonable construct dict_of get_attribute
  no_fields_back = record {
    kwargs = bare;
    there = refl;
    here = λ all h. refl;
    agrees = tt;
    avoids = λ p h. refl;
    keys = λ k. refl;
    tree = tt;
  }

  declare_back :
      (k j : String) (f : Field) (fs : Fields) (v : Value) (a : Attributes)
      → j ≡ k
      → IsFieldName k
      → declared k fs ≡ false
      → GivesBack json f v
      → FieldsBack json fs a
      → FieldsBack json (declare k f fs) (attribute j v a)
  unfolding jsonable construct dict_of
  declare_back k j f fs v a same name new (w, there, here, json_w) rest = record {
    kwargs = attribute k w rest.kwargs;
    there = rw same (rw name.1 (rw there (rw rest.there)));
    here = λ all h. rw h.0 (rw here (rw (rest.here all h.1) (rw same)));
    agrees = (
      argument_self k w rest.kwargs name.0,
      Agrees-attribute fs rest.kwargs k w rest.kwargs new rest.agrees,
    );
    avoids = Avoids-attribute k w rest.kwargs name.0 rest.avoids;
    keys = λ i. ap (λ (b : Bool). str_eq i k || b) (rest.keys i);
    tree = (rest.keys k ∙ new, json_w, rest.tree);
  }

  bytes_back :
      (o : Options) (v : Value)
      → IsStoredIn (scalar Scalar.bytes o) v
      → GivesBack json (scalar Scalar.bytes o) v
  unfolding jsonable construct validate
  bytes_back o v (inl e) = GivesBack-null json (scalar Scalar.bytes o) v refl e
  bytes_back o v (inr (s, e)) = (Value.str s, rw e (rw (decode-encode s)), rw e, tt)

  enum_back :
      (e : EnumType) (o : Options) (v : Value)
      → IsStoredIn (custom_enum e o) v
      → GivesBack json (custom_enum e o) v
  unfolding jsonable construct validate
  enum_back e o v (inl absent) = GivesBack-null json (custom_enum e o) v refl absent
  enum_back e o v (inr (m, n, is, value, found)) =
      (Value.int n, rw is (rw value), rw found (rw is), tt)

module _ (json : JsonText) where
  objects_back :
      (c : RecordClass) (o : Options) (a : Attributes) (p : Options) (v : Value)
      → ((b : Attributes) → IsStored c b → GivesBackObject json c b)
      → IsStoredIn (array (record_field c o a) p) v
      → GivesBack json (array (record_field c o a) p) v
  unfolding validate
  objects_back c o a p v back (inl e) = GivesBack-null json (array (record_field c o a) p) v refl e
  objects_back c o a p v back (inr (xs, e, stored)) =
      subst (GivesBack json (array (record_field c o a) p)) (sym e)
        (array_back json c (IsStored c) back o p a xs stored)

module _ (json : JsonText) where
  array_atoms_back :
      (f : Field) (p : Options) (v : Value)
      → (v ≡ Value.null)
        ⊎ ((xs : Values) × (v ≡ Value.list xs) × AreAtoms xs × (validate (array f p) v ≡ ok v))
      → GivesBack json (array f p) v
  unfolding validate jsonable
  array_atoms_back f p v (inl e) = GivesBack-null json (array f p) v refl e
  array_atoms_back f p v (inr (xs, e, atoms, valid)) = (
    Value.list xs,
    rw e (rw (jsonable_items-atoms json xs atoms)),
    init_field-atoms f p xs atoms ∙ subst (λ (u : Value). validate (array f p) u ≡ ok v) e valid,
    AreAtoms-AreJson xs atoms,
  )

  map_atoms_back :
      (f : Field) (p : Options) (v : Value)
      → (v ≡ Value.null)
        ⊎ ((d : Entries) × (v ≡ Value.dict d) × IsAtomDict d × (validate (mapping f p) v ≡ ok v))
      → GivesBack json (mapping f p) v
  unfolding validate jsonable
  map_atoms_back f p v (inl e) = GivesBack-null json (mapping f p) v refl e
  map_atoms_back f p v (inr (d, e, atoms, valid)) = (
    Value.dict d,
    rw e (rw (jsonable_entries-atoms json d atoms)),
    init_field-atom_dict f p d atoms
        ∙ subst (λ (u : Value). validate (mapping f p) u ≡ ok v) e valid,
    IsAtomDict-IsJsonDict d atoms,
  )

  object_maps_back :
      (c : RecordClass) (o : Options) (a : Attributes) (p : Options) (v : Value)
      → ((b : Attributes) → IsStored c b → GivesBackObject json c b)
      → IsStoredIn (mapping (record_field c o a) p) v
      → GivesBack json (mapping (record_field c o a) p) v
  unfolding validate
  object_maps_back c o a p v back (inl e) =
      GivesBack-null json (mapping (record_field c o a) p) v refl e
  object_maps_back c o a p v back (inr (d, e, stored)) =
      subst (GivesBack json (mapping (record_field c o a) p)) (sym e)
        (map_back json c (IsStored c) back o p a d stored)

  sub_record_back :
      (c : RecordClass) (o : Options) (a : Attributes) (v : Value)
      → ((b : Attributes) → IsStored c b → GivesBackObject json c b)
      → IsStoredIn (record_field c o a) v
      → GivesBack json (record_field c o a) v
  sub_record_back c o a v back (inl (e, valid)) = GivesBack-null json (record_field c o a) v valid e
  sub_record_back c o a v back (inr object) = record_back json c (IsStored c) back o o a v object

mutual
  unfolding jsonable construct

  object_back :
      (json : JsonText) (c : RecordClass) (a : Attributes) → IsStored c a → GivesBackObject json c a
  object_back json (class i b n ns s fs) a h =
      let all = fields_back json fs a h in
      (
        all.kwargs,
        all.there,
        construct-fields i b n ns s fs all.kwargs a all.avoids (all.here all.kwargs all.agrees),
        all.tree,
      )

  fields_back :
      (json : JsonText) (fs : Fields) (a : Attributes) → AreStored fs a → FieldsBack json fs a
  fields_back json no_fields bare h = no_fields_back json
  fields_back json no_fields (attribute _ _ _) h = absurd h
  fields_back json (declare _ _ _) bare h = absurd h
  fields_back json (declare k f fs) (attribute j v a) (same, name, new, stored, rest) =
      declare_back json k j f fs v a same name new (field_back json f v stored)
        (fields_back json fs a rest)

  field_back : (json : JsonText) (f : Field) (v : Value) → IsStoredIn f v → GivesBack json f v
  field_back json (scalar Scalar.bytes o) v h = bytes_back json o v h
  field_back json (scalar s o) v h = GivesBack-atom json (scalar s o) v h
  field_back json (custom_enum e o) v h = enum_back json e o v h
  field_back json (array (record_field c o a) p) v h =
      objects_back json c o a p v (λ b. object_back json c b) h
  field_back json (array f p) v h = array_atoms_back json f p v h
  field_back json (mapping (record_field c o a) p) v h =
      object_maps_back json c o a p v (λ b. object_back json c b) h
  field_back json (mapping f p) v h = map_atoms_back json f p v h
  field_back json (record_field c o a) v h =
      sub_record_back json c o a v (λ b. object_back json c b) h

-- A record whose attributes are stored as `IsStored` says is encoded, and what `JsonSchema.encode`
-- returns is decoded to the same record. The `json` module is assumed to read back the tree that it is
-- given for this record, which is one of JSON.
pub json_decode-encode :
    (json : JsonText) (c : RecordClass) (a : Attributes)
    → ((tree : Value)
        → jsonable json (Value.object c plain a) ≡ ok tree
        → IsJson tree
        → json.loads (json.dumps tree) ≡ ok tree)
    → IsStored c a
    → (b : Bytes) × (json_encode json c (Value.object c plain a) ≡ ok b)
      × (json_decode json c b ≡ ok (Value.object c plain a))
unfolding json_encode json_decode jsonable
json_decode-encode json c a reads stored =
    let (kwargs, there, here, tree) = object_back json c a stored in
    (
      json.dumps (Value.dict (dict_of kwargs)),
      rw (is_instance-object c plain a) (rw there),
      rw (reads (Value.dict (dict_of kwargs)) (rw there) tree)
          (rw (keywords-dict_of kwargs) (rw here)),
    )
