-- ===== src/Schema/Avro/Stored.antt =====
-- The records that the Avro codec gives back, and the datum that Avro keeps of each.
use pulsar_client_python.Base.{◌≡◌, refl, ◌⊎◌, false, some}
use pulsar_client_python.Python.Result.{ok}
use pulsar_client_python.Python.Value.{
  Member, Value, Values, Entries, Attributes, RecordClass, Fields, Field, nil, cons, end, entry,
  bare, attribute, class, no_fields, declare, scalar, custom_enum, array, mapping, record_field,
}
use pulsar_client_python.Definition.Field.{validate, find_name}
use pulsar_client_python.Schema.Json.Stored.{
  AreAtoms, IsAtom, IsAtomDict, IsObject, AreObjects, IsObjectDict, declared, IsFieldName,
}
use pulsar_client_python.Schema.Json.Atoms.{dict_of}

-- What the schema of a record has a place for: the attributes under their names, without the options that
-- stand in `__dict__` too, and the members of an `Enum` by their names.
abbrev mutual
  pub datum : Value → Value
  datum (Value.member m) = Value.str m.name
  datum (Value.object _ _ a) = Value.dict (dict_of (datum_attributes a))
  datum (Value.list xs) = Value.list (datum_items xs)
  datum (Value.dict d) = Value.dict (datum_entries d)
  datum v = v

  pub datum_items : Values → Values
  datum_items nil = nil
  datum_items (cons x xs) = cons (datum x) (datum_items xs)

  pub datum_entries : Entries → Entries
  datum_entries end = end
  datum_entries (entry k v d) = entry k (datum v) (datum_entries d)

  pub datum_attributes : Attributes → Attributes
  datum_attributes bare = bare
  datum_attributes (attribute k v a) = attribute k (datum v) (datum_attributes a)

-- A value that has no parts, or bytes.
abbrev pub IsScalar : Value → Type 0
IsScalar (Value.bytes _) = Unit
IsScalar v = IsAtom v

abbrev mutual
  -- Attributes that the codec gives back, of an instance of the class.
  pub IsStored : RecordClass → Attributes → Type 0
  IsStored (class _ _ _ _ _ fields) a = AreStored fields a

  -- One for each field, in order, under its name.
  pub AreStored : Fields → Attributes → Type 0
  AreStored no_fields bare = Unit
  AreStored no_fields (attribute _ _ _) = ⊥
  AreStored (declare _ _ _) bare = ⊥
  AreStored (declare k f fields) (attribute j v a) =
      (j ≡ k) × IsFieldName k × (declared k fields ≡ false) × IsStoredIn f v × AreStored fields a

  pub IsStoredIn : Field → Value → Type 0
  IsStoredIn (scalar s o) v = IsScalar v × (validate (scalar s o) v ≡ ok v)
  -- A member of an `Enum` is written by its name.
  IsStoredIn (custom_enum e _) v =
      (v ≡ Value.null)
      ⊎ ((m : Member) × (v ≡ Value.member m) × (find_name m.name e.members ≡ some m))
  IsStoredIn (array (record_field c o a) p) v =
      (v ≡ Value.null) ⊎ ((xs : Values) × (v ≡ Value.list xs) × AreObjects c (IsStored c) xs)
  IsStoredIn (array f p) v =
      (v ≡ Value.null)
      ⊎ ((xs : Values) × (v ≡ Value.list xs) × AreAtoms xs × (validate (array f p) v ≡ ok v))
  IsStoredIn (mapping (record_field c o a) p) v =
      (v ≡ Value.null) ⊎ ((d : Entries) × (v ≡ Value.dict d) × IsObjectDict c (IsStored c) d)
  IsStoredIn (mapping f p) v =
      (v ≡ Value.null)
      ⊎ ((d : Entries) × (v ≡ Value.dict d) × IsAtomDict d × (validate (mapping f p) v ≡ ok v))
  IsStoredIn (record_field c o a) v =
      (v ≡ Value.null) × (validate (record_field c o a) Value.null ≡ ok Value.null)
      ⊎ IsObject c (IsStored c) v

pub datum-atom : (v : Value) → IsAtom v → datum v ≡ v
datum-atom Value.null h = refl
datum-atom (Value.bool _) h = refl
datum-atom (Value.int _) h = refl
datum-atom (Value.float _) h = refl
datum-atom (Value.str _) h = refl
datum-atom v h = absurd h

pub datum_items-atoms : (xs : Values) → AreAtoms xs → datum_items xs ≡ xs
datum_items-atoms nil h = refl
datum_items-atoms (cons x xs) h = rw (datum-atom x h.0, datum_items-atoms xs h.1) refl

pub datum_entries-atoms : (d : Entries) → IsAtomDict d → datum_entries d ≡ d
datum_entries-atoms end h = refl
datum_entries-atoms (entry (Value.str k) v d) h =
    rw (datum-atom v h.1, datum_entries-atoms d h.2) refl
datum_entries-atoms (entry k v d) h = absurd h
