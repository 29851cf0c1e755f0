-- ===== src/Schema/Json/Objects.antt =====
-- The way of one value through the JSON codec and back.
use mathlib.Core.Path.{subst}
use pulsar_client_python.Base.{
  String, ◌≡◌, refl, sym, ◌∙◌, ap, Bool, true, ◌||◌, some, [], ◌∷◌, str_eq, arith,
}
use pulsar_client_python.Python.Result.{ok}
use pulsar_client_python.Python.Value.{
  Value, Values, Entries, Attributes, Options, RecordClass, Field, nil, cons, end, entry, class,
  array, mapping, record_field, is_instance_of, PyType, class_ident,
}
use pulsar_client_python.Definition.Field.{validate, python_type, all_items, all_entries}
use pulsar_client_python.Definition.Record.{init_items, init_entries, construct, init_field}
use pulsar_client_python.Schema.Json.{
  JsonText, jsonable, jsonable_items, jsonable_entries, jsonable_attributes,
}
use pulsar_client_python.Schema.Json.Stored.{
  has_key, IsJson, AreJson, IsJsonDict, IsValidAtom, plain, IsObject, AreObjects, IsObjectDict,
}
use pulsar_client_python.Schema.Json.Atoms.{
  dict_of, keywords-dict_of, jsonable-atom, IsAtom-IsJson, init_field-atom,
}

-- What the codec makes of an attribute and of an instance, and back.
abbrev pub GivesBack : JsonText → Field → Value → Type 0
GivesBack json f v =
    (w : Value) × (jsonable json v ≡ ok w) × (init_field f (some w) ≡ ok v) × IsJson w

abbrev pub GivesBackObject : JsonText → RecordClass → Attributes → Type 0
GivesBackObject json c a =
    (kwargs : Attributes) × (jsonable_attributes json a ≡ ok (dict_of kwargs))
    × (construct c kwargs ≡ ok (Value.object c plain a))
    × IsJsonDict (dict_of kwargs)

module _ (json : JsonText) where
  pub GivesBack-atom : (f : Field) (v : Value) → IsValidAtom f v → GivesBack json f v
  GivesBack-atom f v (atom, valid) =
      (v, jsonable-atom json v atom, init_field-atom f v atom ∙ valid, IsAtom-IsJson v atom)

  pub GivesBack-null :
      (f : Field) (v : Value)
      → validate f Value.null ≡ ok Value.null
      → v ≡ Value.null
      → GivesBack json f v
  GivesBack-null f v valid e =
      subst (GivesBack json f) (sym e) (GivesBack-atom f Value.null (tt, valid))

  module _ (c : RecordClass) (P : Attributes → Type 0)
      (back : (a : Attributes) → P a → GivesBackObject json c a) where
    pub items_back :
        (xs : Values)
        → AreObjects c P xs
        → (ys : Values) × (jsonable_items json xs ≡ ok ys)
          × (init_items (construct c) ys ≡ ok xs)
          × AreJson ys
    unfolding jsonable init_items
    items_back nil h = (nil, refl, refl, tt)
    items_back (cons x xs) ((a, e, p), hs) =
        let (kwargs, there, here, tree) = back a p in
        let (ys, theres, heres, trees) = items_back xs hs in
        (
          cons (Value.dict (dict_of kwargs)) ys,
          rw e (rw there (rw theres)),
          rw (keywords-dict_of kwargs) (rw here (rw heres (rw e))),
          (tree, trees),
        )

    pub entries_back :
        (d : Entries)
        → IsObjectDict c P d
        → (e : Entries) × (jsonable_entries json d ≡ ok e)
          × (init_entries (construct c) e ≡ ok d)
          × ((k : String) → has_key k e ≡ has_key k d)
          × IsJsonDict e
    unfolding jsonable init_entries
    entries_back end h = (end, refl, refl, λ j. refl, tt)
    entries_back (entry (Value.str k) v d) (new, (a, e, p), hs) =
        let (kwargs, there, here, tree) = back a p in
        let (es, theres, heres, keys, trees) = entries_back d hs in
        (
          entry (Value.str k) (Value.dict (dict_of kwargs)) es,
          rw e (rw there (rw theres)),
          rw (keywords-dict_of kwargs) (rw here (rw heres (rw e))),
          λ j. ap (λ (b : Bool). str_eq j k || b) (keys j),
          (keys k ∙ new, tree, trees),
        )
    entries_back (entry k v d) h = absurd h

pub is_instance-object :
    (c : RecordClass) (o : Options) (a : Attributes)
    → is_instance_of (Value.object c o a) (PyType.record_type (class_ident c) ∷ []) ≡ true
unfolding is_instance_of
is_instance-object (class _ _ _ _ _ _) o a = ground arith

module _ (c : RecordClass) (P : Attributes → Type 0) where
  pub all_items-objects :
      (xs : Values)
      → AreObjects c P xs
      → all_items (PyType.record_type (class_ident c) ∷ []) xs ≡ true
  unfolding all_items
  all_items-objects nil h = refl
  all_items-objects (cons x xs) ((a, e, p), hs) =
      rw e (rw (is_instance-object c plain a) (all_items-objects xs hs))

  pub all_entries-objects :
      (d : Entries)
      → IsObjectDict c P d
      → all_entries (PyType.record_type (class_ident c) ∷ []) d ≡ true
  unfolding all_entries is_instance_of
  all_entries-objects end h = refl
  all_entries-objects (entry (Value.str k) v d) (new, (a, e, p), hs) =
      rw e (rw (is_instance-object c plain a) (all_entries-objects d hs))
  all_entries-objects (entry k v d) h = absurd h

module _ (json : JsonText) (c : RecordClass) (P : Attributes → Type 0)
    (back : (a : Attributes) → P a → GivesBackObject json c a) (o p : Options)
    (d : Attributes) where
  pub array_back :
      (xs : Values)
      → AreObjects c P xs
      → GivesBack json (array (record_field c o d) p) (Value.list xs)
  unfolding jsonable init_items construct validate python_type all_items
  array_back nil h = (Value.list nil, refl, refl, tt)
  array_back (cons x xs) ((a, e, q), hs) =
      let (kwargs, there, here, tree) = back a q in
      let (ys, theres, heres, trees) = items_back json c P back xs hs in
      (
        Value.list (cons (Value.dict (dict_of kwargs)) ys),
        rw e (rw there (rw theres)),
        rw (keywords-dict_of kwargs) (
            rw here (rw heres (rw (← e) (rw (all_items-objects c P (cons x xs) ((a, e, q), hs)))))),
        (tree, trees),
      )

  pub map_back :
      (e : Entries)
      → IsObjectDict c P e
      → GivesBack json (mapping (record_field c o d) p) (Value.dict e)
  unfolding jsonable init_entries construct validate python_type all_entries
  map_back end h = (Value.dict end, refl, refl, tt)
  map_back (entry (Value.str k) x xs) (new, (a, e, q), hs) =
      let (kwargs, there, here, tree) = back a q in
      let (ys, theres, heres, keys, trees) = entries_back json c P back xs hs in
      (
        Value.dict (entry (Value.str k) (Value.dict (dict_of kwargs)) ys),
        rw e (rw there (rw theres)),
        rw (keywords-dict_of kwargs) (
            rw here (
              rw heres (
                rw (← e)
                  (rw (all_entries-objects c P (entry (Value.str k) x xs) (new, (a, e, q), hs)))))),
        (keys k ∙ new, tree, trees),
      )
  map_back (entry k v e) h = absurd h

  pub record_back : (v : Value) → IsObject c P v → GivesBack json (record_field c o d) v
  unfolding jsonable construct validate python_type
  record_back v (a, e, q) =
      let (kwargs, there, here, tree) = back a q in
      (
        Value.dict (dict_of kwargs),
        rw e (rw there),
        rw (keywords-dict_of kwargs) (rw here (rw e (rw (is_instance-object c plain a)))),
        tree,
      )
