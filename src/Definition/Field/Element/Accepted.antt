-- ===== src/Definition/Field/Element/Accepted.antt =====
-- What an `Array`, a `Map` or a `CustomEnum` accepts, by what it is declared with.
use pulsar_client_python.Base.{
  ◌≡◌, refl, ◌↔◌, Bool, true, false, ◌⊎◌, inl, inr, if◌then◌else◌, Bool-cases, List, [], ◌∷◌,
}
use pulsar_client_python.Python.Result.{Result, ok, raise, type_error, ◌>>=◌, ◌>>◌, >>=-eq-ok}
use pulsar_client_python.Python.Value.{
  EnumType, Value, Values, Entries, Field, nil, cons, end, entry, options, PyType, is_none,
  is_instance_of,
}
use pulsar_client_python.Definition.Field.{
  python_type, all_items, all_entries, validate_array, validate_map, validate, make_field,
  enum_shape, shaped, array_shape, map_shape, Shape,
}
use pulsar_client_python.Definition.Field.Element.{
  instance_of, Element, record_class, enum_class, field_class, plain_class, other,
  check_record_or_field, element_type, check_items, check_entries, Container, array_of, map_of,
  validate_container, init_container, validate_instance, IsBlank, none_is_blank, list_is_blank,
  dict_is_blank, check_enum, init_enum,
}

check_items-instance_of :
    (f : Field) (xs : Values)
    → check_items (instance_of f) xs
      ≡ (if all_items (python_type f) xs then ok tt else raise type_error)
unfolding check_items element_type all_items
check_items-instance_of f nil = refl
check_items-instance_of f (cons x xs) = elim (Bool-cases (is_instance_of x (python_type f))) [
  | inl typed ↦ rw typed (check_items-instance_of f xs)
  | inr fails ↦ rw fails refl
]

check_entries-instance_of :
    (f : Field) (d : Entries)
    → check_entries (instance_of f) d
      ≡ (if all_entries (python_type f) d then ok tt else raise type_error)
unfolding check_entries element_type all_entries
check_entries-instance_of f end = refl
check_entries-instance_of f (entry k v d) =
    elim (Bool-cases (is_instance_of k (PyType.str_type ∷ []))) [
      | inr fails ↦ rw fails refl
      | inl text ↦ elim (Bool-cases (is_instance_of v (python_type f))) [
        | inl typed ↦ rw text (rw typed (check_entries-instance_of f d))
        | inr fails ↦ rw text (rw fails refl)
      ]
    ]

return_if :
    (b : Bool) (v : Value)
    → ((if b then ok tt else raise type_error) >> ok v) ≡ (if b then ok v else raise type_error)
return_if true v = refl
return_if false v = refl

validate_container-instance_of :
    (k : Container) (f : Field) (v : Value)
    → validate_container k (instance_of f) v ≡ validate_instance k f v
unfolding validate_container validate_instance validate_array validate_map
validate_container-instance_of array_of f (Value.list xs) =
    rw (check_items-instance_of f xs) (return_if _ _)
validate_container-instance_of map_of f (Value.dict d) =
    rw (check_entries-instance_of f d) (return_if _ _)
validate_container-instance_of array_of f v = refl
validate_container-instance_of map_of f v = refl

-- An element that is no instance has no type to compare with.
element_type-ok :
    (e : Element) (ts : List PyType) → element_type e ≡ ok ts → (f : Field) × (e ≡ instance_of f)
unfolding element_type
element_type-ok (instance_of f) ts h = (f, refl)
element_type-ok (record_class _) ts h = cc
element_type-ok (enum_class _) ts h = cc
element_type-ok field_class ts h = cc
element_type-ok plain_class ts h = cc
element_type-ok other ts h = cc

check_items-ok :
    (e : Element) (xs : Values)
    → check_items e xs ≡ ok tt
    → ((f : Field) × (e ≡ instance_of f)) ⊎ (xs ≡ nil)
unfolding check_items
check_items-ok e nil h = inr refl
check_items-ok e (cons x xs) h =
    let (ts, typed, _) = >>=-eq-ok (element_type e) _ h in inl (element_type-ok e ts typed)

check_entries-ok :
    (e : Element) (d : Entries)
    → check_entries e d ≡ ok tt
    → ((f : Field) × (e ≡ instance_of f)) ⊎ (d ≡ end)
unfolding check_entries
check_entries-ok e end h = inr refl
check_entries-ok e (entry k v d) h =
    let (ts, typed, _) = >>=-eq-ok (element_type e) _ (then_part _ h) in
    inl (element_type-ok e ts typed)
  where
    then_part :
        (b : Bool) {r : Result (Unit {0})} → (if b then r else raise type_error) ≡ ok tt → r ≡ ok tt
    then_part true h = h
    then_part false h = cc

-- What is returned is the value itself, and it is blank or the element is an instance.
container-accepts :
    (k : Container) (e : Element) (v w : Value)
    → validate_container k e v ≡ ok w
    → (w ≡ v) × (((f : Field) × (e ≡ instance_of f)) ⊎ IsBlank k v)
unfolding validate_container
container-accepts array_of e Value.null w h = (cc, inr (none_is_blank _))
container-accepts map_of e Value.null w h = (cc, inr (none_is_blank _))
container-accepts array_of e (Value.list xs) w h =
    let (_, checked, same) = >>=-eq-ok (check_items e xs) _ h in
    (
      cc,
      elim (check_items-ok e xs checked) [
        | inl instance_ ↦ inl instance_
        | inr empty ↦ inr (rw empty list_is_blank)
      ],
    )
container-accepts map_of e (Value.dict d) w h =
    let (_, checked, same) = >>=-eq-ok (check_entries e d) _ h in
    (
      cc,
      elim (check_entries-ok e d checked) [
        | inl instance_ ↦ inl instance_
        | inr empty ↦ inr (rw empty dict_is_blank)
      ],
    )
container-accepts array_of e v w h = cc
container-accepts map_of e v w h = cc

blank-validate_container :
    (k : Container) (e : Element) (v : Value) → IsBlank k v → validate_container k e v ≡ ok v
unfolding validate_container check_items check_entries
blank-validate_container array_of e v (none_is_blank _) = refl
blank-validate_container map_of e v (none_is_blank _) = refl
blank-validate_container _ e v list_is_blank = refl
blank-validate_container _ e v dict_is_blank = refl

-- An `Array` or a `Map` accepts a value, and returns it unchanged, exactly if it was declared with an
-- instance by whose type the value is valid, or the value is `None` or an empty container of its kind.
-- With anything else for the element, the classes that the constructor lets pass included, every other
-- value raises an exception.
pub validate_container_iff :
    (k : Container) (e : Element) (v w : Value)
    → (validate_container k e v ≡ ok w) ↔ (
        (w ≡ v)
        × (((f : Field) × (e ≡ instance_of f) × (validate_instance k f v ≡ ok v)) ⊎ IsBlank k v))
validate_container_iff k e v w = (
  λ h.
      let (same, why) = container-accepts k e v w h in
      (
        same,
        elim why [
          | inr blank ↦ inr blank
          | inl (f, declared) ↦
              inl (f, declared, cc (h, same, declared, validate_container-instance_of k f v))
        ],
      ),
  λ (same, why). elim why [
    | inr blank ↦ rw same (blank-validate_container k e v blank)
    | inl (f, declared, valid) ↦ cc (same, declared, valid, validate_container-instance_of k f v)
  ],
)

abbrev shape_of : Container → Field → Shape
shape_of array_of f = array_shape f
shape_of map_of f = map_shape f

kept :
    (k : Container) (f : Field) (required required_default : Value) (r : Result Value)
    → ((r >>= λ d. ok (options d required_default required)) >>= λ o. ok (shaped (shape_of k f) o))
      ≡ (r >>= λ d. ok (shaped (shape_of k f) (options d required_default required)))
kept k f required required_default (raise e) = refl
kept k f required required_default (ok v) = refl

-- With an instance for the element the constructor does what `make_field` does.
pub init_container-make_field :
    (k : Container) (f : Field) (given required required_default : Value)
    → (init_container k (instance_of f) given required required_default >>= λ o.
        ok (shaped (shape_of k f) o))
      ≡ make_field (shape_of k f) given required required_default
unfolding init_container check_record_or_field make_field shaped validate validate_instance
init_container-make_field array_of f given r rd = elim (Bool-cases (is_none given)) [
  | inl absent ↦ rw absent refl
  | inr present ↦
      rw (present, validate_container-instance_of array_of f given)
        (kept array_of f r rd (validate_array f given))
]
init_container-make_field map_of f given r rd = elim (Bool-cases (is_none given)) [
  | inl absent ↦ rw absent refl
  | inr present ↦
      rw (present, validate_container-instance_of map_of f given)
        (kept map_of f r rd (validate_map f given))
]

-- `CustomEnum` returns a field of an `Enum` and of nothing else, and the field is the one that
-- `make_field` returns.
pub init_enum_iff :
    (e : Element) (given required required_default : Value) (f : Field)
    → (init_enum e given required required_default ≡ ok f) ↔ (
        (t : EnumType) × (e ≡ enum_class t)
        × (make_field (enum_shape t) given required required_default ≡ ok f))
unfolding init_enum check_enum
init_enum_iff (enum_class t) given r rd f = (λ h. (t, refl, h), λ (t', e, h). cc (e, h))
init_enum_iff (instance_of g) given r rd f = (λ h. cc, λ (t', e, h). cc)
init_enum_iff (record_class g) given r rd f = (λ h. cc, λ (t', e, h). cc)
init_enum_iff field_class given r rd f = (λ h. cc, λ (t', e, h). cc)
init_enum_iff plain_class given r rd f = (λ h. cc, λ (t', e, h). cc)
init_enum_iff other given r rd f = (λ h. cc, λ (t', e, h). cc)
