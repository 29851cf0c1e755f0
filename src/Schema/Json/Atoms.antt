-- ===== src/Schema/Json/Atoms.antt =====
-- Values that JSON has itself: the codec leaves them as they are, on both ways.
use pulsar_client_python.Base.{◌≡◌, refl, some}
use pulsar_client_python.Python.Result.{ok}
use pulsar_client_python.Python.Value.{
  Value, Values, Entries, Attributes, Options, Field, nil, cons, end, entry, bare, attribute, array,
  mapping, record_field,
}
use pulsar_client_python.Definition.Field.{validate}
use pulsar_client_python.Definition.Record.{keywords, construct, init_field}
use pulsar_client_python.Schema.Json.{JsonText, jsonable, jsonable_items, jsonable_entries}
use pulsar_client_python.Schema.Json.Stored.{
  IsJson, AreJson, IsJsonDict, IsAtom, AreAtoms, IsAtomDict,
}

-- Keyword arguments as a dict.
unfoldable pub dict_of : Attributes → Entries
dict_of bare = end
dict_of (attribute k v a) = entry (Value.str k) v (dict_of a)

pub keywords-dict_of : (a : Attributes) → keywords (dict_of a) ≡ ok a
unfolding keywords dict_of
keywords-dict_of bare = refl
keywords-dict_of (attribute k v a) = rw (keywords-dict_of a)

module _ (json : JsonText) where
  pub jsonable-atom : (v : Value) → IsAtom v → jsonable json v ≡ ok v
  unfolding jsonable
  jsonable-atom Value.null h = refl
  jsonable-atom (Value.bool b) h = refl
  jsonable-atom (Value.int b) h = refl
  jsonable-atom (Value.float b) h = refl
  jsonable-atom (Value.str b) h = refl
  jsonable-atom v h = absurd h

  pub jsonable_items-atoms : (xs : Values) → AreAtoms xs → jsonable_items json xs ≡ ok xs
  unfolding jsonable
  jsonable_items-atoms nil h = refl
  jsonable_items-atoms (cons x xs) h = rw (jsonable-atom x h.0) (rw (jsonable_items-atoms xs h.1))

  pub jsonable_entries-atoms : (d : Entries) → IsAtomDict d → jsonable_entries json d ≡ ok d
  unfolding jsonable
  jsonable_entries-atoms end h = refl
  jsonable_entries-atoms (entry (Value.str k) v d) h =
      rw (jsonable-atom v h.1) (rw (jsonable_entries-atoms d h.2))
  jsonable_entries-atoms (entry k v d) h = absurd h

pub IsAtom-IsJson : (v : Value) → IsAtom v → IsJson v
IsAtom-IsJson Value.null h = tt
IsAtom-IsJson (Value.bool _) h = tt
IsAtom-IsJson (Value.int _) h = tt
IsAtom-IsJson (Value.float _) h = tt
IsAtom-IsJson (Value.str _) h = tt
IsAtom-IsJson v h = absurd h

pub AreAtoms-AreJson : (xs : Values) → AreAtoms xs → AreJson xs
AreAtoms-AreJson nil h = tt
AreAtoms-AreJson (cons x xs) h = (IsAtom-IsJson x h.0, AreAtoms-AreJson xs h.1)

pub IsAtomDict-IsJsonDict : (d : Entries) → IsAtomDict d → IsJsonDict d
IsAtomDict-IsJsonDict end h = tt
IsAtomDict-IsJsonDict (entry (Value.str k) v d) h =
    (h.0, IsAtom-IsJson v h.1, IsAtomDict-IsJsonDict d h.2)
IsAtomDict-IsJsonDict (entry k v d) h = absurd h

-- No atom is taken apart by the constructor.
pub init_field-atom : (f : Field) (v : Value) → IsAtom v → init_field f (some v) ≡ validate f v
unfolding construct
init_field-atom (array (record_field c o a) p) Value.null h = refl
init_field-atom (array (record_field c o a) p) (Value.bool _) h = refl
init_field-atom (array (record_field c o a) p) (Value.int _) h = refl
init_field-atom (array (record_field c o a) p) (Value.float _) h = refl
init_field-atom (array (record_field c o a) p) (Value.str _) h = refl
init_field-atom (array (record_field c o a) p) v h = absurd h
init_field-atom (mapping (record_field c o a) p) Value.null h = refl
init_field-atom (mapping (record_field c o a) p) (Value.bool _) h = refl
init_field-atom (mapping (record_field c o a) p) (Value.int _) h = refl
init_field-atom (mapping (record_field c o a) p) (Value.float _) h = refl
init_field-atom (mapping (record_field c o a) p) (Value.str _) h = refl
init_field-atom (mapping (record_field c o a) p) v h = absurd h
init_field-atom (record_field c o a) Value.null h = refl
init_field-atom (record_field c o a) (Value.bool _) h = refl
init_field-atom (record_field c o a) (Value.int _) h = refl
init_field-atom (record_field c o a) (Value.float _) h = refl
init_field-atom (record_field c o a) (Value.str _) h = refl
init_field-atom (record_field c o a) v h = absurd h
init_field-atom f v h = refl

pub init_field-atoms :
    (f : Field) (p : Options) (xs : Values)
    → AreAtoms xs
    → init_field (array f p) (some (Value.list xs)) ≡ validate (array f p) (Value.list xs)
unfolding construct
init_field-atoms (record_field c o a) p nil h = refl
init_field-atoms (record_field c o a) p (cons (Value.list _) xs) h = absurd h.0
init_field-atoms (record_field c o a) p (cons (Value.dict _) xs) h = absurd h.0
init_field-atoms (record_field c o a) p (cons v xs) h = refl
init_field-atoms f p xs h = refl

pub init_field-atom_dict :
    (f : Field) (p : Options) (d : Entries)
    → IsAtomDict d
    → init_field (mapping f p) (some (Value.dict d)) ≡ validate (mapping f p) (Value.dict d)
unfolding construct
init_field-atom_dict (record_field c o a) p end h = refl
init_field-atom_dict (record_field c o a) p (entry (Value.str k) (Value.dict _) xs) h = absurd h.1
init_field-atom_dict (record_field c o a) p (entry (Value.str k) v xs) h = refl
init_field-atom_dict (record_field c o a) p (entry k v xs) h = absurd h
init_field-atom_dict f p xs h = refl
