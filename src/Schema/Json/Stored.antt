-- ===== src/Schema/Json/Stored.antt =====
-- The records that the JSON codec gives back: what each kind of field may hold.
use pulsar_client_python.Base.{String, ◌≡◌, ◌⊎◌, Bool, false, some, contains, str_eq, ◌||◌}
use pulsar_client_python.Base.Int.{ℤ}
use pulsar_client_python.Python.Result.{ok}
use pulsar_client_python.Python.Utf8.{encode}
use pulsar_client_python.Python.Value.{
  Literal, Member, Value, Values, Entries, Attributes, Options, RecordClass, Fields, Field, Scalar,
  nil, cons, end, entry, bare, attribute, options, class, no_fields, declare, scalar, custom_enum,
  array, mapping, record_field,
}
use pulsar_client_python.Definition.Field.{validate, find_value}
use pulsar_client_python.Definition.Record.{parameters}
use pulsar_client_python.Schema.Json.{reserved}

-- A value that JSON has itself, other than lists and dicts.
abbrev pub IsAtom : Value → Type 0
IsAtom Value.null = Unit
IsAtom (Value.bool _) = Unit
IsAtom (Value.int _) = Unit
IsAtom (Value.float _) = Unit
IsAtom (Value.str _) = Unit
IsAtom _ = ⊥

abbrev pub AreAtoms : Values → Type 0
AreAtoms nil = Unit
AreAtoms (cons x xs) = IsAtom x × AreAtoms xs

-- `k in d`
abbrev pub has_key : String → Entries → Bool
has_key k end = false
has_key k (entry (Value.str j) _ d) = str_eq k j || has_key k d
has_key k (entry _ _ d) = has_key k d

-- The trees that are written in JSON and read back: the keys of a dict are texts, each once.
abbrev mutual
  pub IsJson : Value → Type 0
  IsJson (Value.list xs) = AreJson xs
  IsJson (Value.dict d) = IsJsonDict d
  IsJson (Value.bytes _) = ⊥
  IsJson (Value.member _) = ⊥
  IsJson (Value.object _ _ _) = ⊥
  IsJson _ = Unit

  pub AreJson : Values → Type 0
  AreJson nil = Unit
  AreJson (cons x xs) = IsJson x × AreJson xs

  pub IsJsonDict : Entries → Type 0
  IsJsonDict end = Unit
  IsJsonDict (entry (Value.str k) v d) = (has_key k d ≡ false) × IsJson v × IsJsonDict d
  IsJsonDict (entry _ _ _) = ⊥

-- A dict of texts to atoms.
abbrev pub IsAtomDict : Entries → Type 0
IsAtomDict end = Unit
IsAtomDict (entry (Value.str k) v d) = (has_key k d ≡ false) × IsAtom v × IsAtomDict d
IsAtomDict (entry _ _ _) = ⊥

-- What a field that `None` and atoms fit may hold: an atom that validation returns unchanged.
abbrev pub IsValidAtom : Field → Value → Type 0
IsValidAtom f v = IsAtom v × (validate f v ≡ ok v)

-- The options of an instance that is called into being with its fields alone.
abbrev pub plain : Options
plain = options Value.null (Value.bool false) (Value.bool false)

abbrev pub IsObject : RecordClass → (Attributes → Type 0) → Value → Type 0
IsObject c P v = (a : Attributes) × (v ≡ Value.object c plain a) × P a

abbrev pub AreObjects : RecordClass → (Attributes → Type 0) → Values → Type 0
AreObjects c P nil = Unit
AreObjects c P (cons x xs) = IsObject c P x × AreObjects c P xs

abbrev pub IsObjectDict : RecordClass → (Attributes → Type 0) → Entries → Type 0
IsObjectDict c P end = Unit
IsObjectDict c P (entry (Value.str k) v d) =
    (has_key k d ≡ false) × IsObject c P v × IsObjectDict c P d
IsObjectDict c P (entry _ _ _) = ⊥

-- `name` is the name of a field.
abbrev pub declared : String → Fields → Bool
declared k no_fields = false
declared k (declare j _ fields) = str_eq k j || declared k fields

-- The name of a field is none of those that the constructor and the codec take for themselves.
abbrev pub IsFieldName : String → Type 0
IsFieldName k = (contains k parameters ≡ false) × (contains k reserved ≡ false)

abbrev mutual
  -- Attributes that the codec gives back, of an instance of the class.
  pub IsStored : RecordClass → Attributes → Type 0
  IsStored (class _ _ _ _ _ fields) a = AreStored fields a

  -- One for each field, in order, under its name.
  pub AreStored : Fields → Attributes → Type 0
  AreStored no_fields bare = Unit
  AreStored no_fields (attribute _ _ _) = ⊥
  AreStored (declare _ _ _) bare = ⊥
  AreStored (declare k f fields) (attribute j v a) =
      (j ≡ k) × IsFieldName k × (declared k fields ≡ false) × IsStoredIn f v × AreStored fields a

  pub IsStoredIn : Field → Value → Type 0
  -- Bytes are written as a text: they must be the UTF-8 of one.
  IsStoredIn (scalar Scalar.bytes _) v =
      (v ≡ Value.null) ⊎ ((s : String) × (v ≡ Value.bytes (encode s)))
  IsStoredIn (scalar s o) v = IsValidAtom (scalar s o) v
  -- A member of an `Enum` is written by its value, and read back if that is an int.
  IsStoredIn (custom_enum e _) v =
      (v ≡ Value.null)
      ⊎ ((m : Member) × (n : ℤ) × (v ≡ Value.member m)
          × (m.value ≡ Literal.int n)
          × (find_value n e.members ≡ some m))
  IsStoredIn (array (record_field c o a) p) v =
      (v ≡ Value.null) ⊎ ((xs : Values) × (v ≡ Value.list xs) × AreObjects c (IsStored c) xs)
  IsStoredIn (array f p) v =
      (v ≡ Value.null)
      ⊎ ((xs : Values) × (v ≡ Value.list xs) × AreAtoms xs × (validate (array f p) v ≡ ok v))
  IsStoredIn (mapping (record_field c o a) p) v =
      (v ≡ Value.null) ⊎ ((d : Entries) × (v ≡ Value.dict d) × IsObjectDict c (IsStored c) d)
  IsStoredIn (mapping f p) v =
      (v ≡ Value.null)
      ⊎ ((d : Entries) × (v ≡ Value.dict d) × IsAtomDict d × (validate (mapping f p) v ≡ ok v))
  IsStoredIn (record_field c o a) v =
      (v ≡ Value.null) × (validate (record_field c o a) Value.null ≡ ok Value.null)
      ⊎ IsObject c (IsStored c) v
