-- ===== src/Definition/Store/Refinement.antt =====
-- The store does what the values say.
use pulsar_client_python.Base.{
  ℕ, String, ◌≡◌, refl, sym, ◌∙◌, ap, Bool, Option, none, some, List, [], ◌∷◌, arith, inl, inr,
  Option-cases,
}
use pulsar_client_python.Python.Result.{Result, ok, raise, type_error, ◌>>=◌, ◌>>◌, >>=-eq-ok}
use pulsar_client_python.Python.Value.{
  Value, Attributes, Options, RecordClass, Fields, Field, bare, attribute, class, no_fields,
  declare, record_field, is_instance_of,
}
use pulsar_client_python.Definition.Field.{validate, validate_class, python_type}
use pulsar_client_python.Definition.Record.{
  get_attribute, argument, keywords, construct, init_fields, init_field, init_options,
}
use pulsar_client_python.Definition.Store.{
  own, ref, Slots, Cell, Store, allocate, then_with, check_class, make, make_slots, make_slot,
}
use pulsar_client_python.Definition.Store.Reading.{
  load_class, load_slots, load_slot, Extends-refl, IsFresh, allocate-Extends, allocate-IsFresh,
  load_slots_mono, load_slot_mono,
}
use pulsar_client_python.Definition.Store.Pristine.{
  IsPristine, ArePristine, IsPristineField, ArePristine-mono,
}
use pulsar_client_python.Definition.Store.Implements.{Implements, Implements-bind, Implements-same}

load_slot-own : (f : Field) (st : Store) (v : Value) → load_slot f st (own v) ≡ some v
unfolding load_slot
load_slot-own (record_field _ _ _) st v = refl
load_slot-own f st v = refl

Implements-own :
    (st : Store) (f : Field) (r : Result Value)
    → IsFresh st
    → Implements st (load_slot f) r (do w ← r; ok (own w, st))
Implements-own st f (raise e) fresh = refl
Implements-own st f (ok v) fresh = (own v, st, refl, load_slot-own f st v, Extends-refl st, fresh)

-- An instance of the class passes the validation of a field of the class.
pub validate-instance :
    (c : RecordClass) (o p : Options) (a b : Attributes)
    → validate (record_field c o a) (Value.object c p b) ≡ ok (Value.object c p b)
unfolding validate validate_class python_type is_instance_of
validate-instance (class i bs n ns s fs) o p a b = ground arith

module _ (i : ℕ) (b : List ℕ) (n : String) (ns : Option String) (s : Bool) (fs : Fields)
    (kwargs : Attributes) where
  abbrev pub this : RecordClass
  this = class i b n ns s fs

  construct_self :
      (w : Value) → get_attribute "self" kwargs ≡ some w → construct this kwargs ≡ raise type_error
  unfolding construct
  construct_self w e = rw (e, construct) refl

  construct-no_self :
      get_attribute "self" kwargs ≡ none
      → construct this kwargs
        ≡ (init_fields fs kwargs >>= λ a. ok (Value.object this (init_options kwargs) a))
  unfolding construct
  construct-no_self e = rw (e, construct) refl

  pub make_self :
      (w : Value) (st : Store)
      → get_attribute "self" kwargs ≡ some w
      → make this kwargs st ≡ raise type_error
  unfolding make
  make_self w st e = rw (e, make) refl

  pub make-no_self :
      (st : Store)
      → get_attribute "self" kwargs ≡ none
      → make this kwargs st
        ≡ then_with (make_slots i fs kwargs st) λ slots st'.
          ok (allocate (record { class = this; options = init_options kwargs; slots = slots }) st')
  unfolding make
  make-no_self st e = rw (e, make) refl

construct-object :
    (c : RecordClass) (kwargs : Attributes) (v : Value)
    → construct c kwargs ≡ ok v
    → (a : Attributes) × (v ≡ Value.object c (init_options kwargs) a)
construct-object (class i b n ns s fs) kwargs v h =
    elim (Option-cases (get_attribute "self" kwargs)) [
      | inl e ↦
          let (a, _, p) =
            >>=-eq-ok (init_fields fs kwargs) _
              (sym (construct-no_self i b n ns s fs kwargs e) ∙ h) in
          let q : Value.object (class i b n ns s fs) (init_options kwargs) a ≡ v = cc in (a, sym q)
      | inr (w, e) ↦ cc (construct_self i b n ns s fs kwargs w e)
    ]

allocate-Implements :
    (i : ℕ) (b : List ℕ) (n : String) (ns : Option String) (s : Bool) (fs : Fields) (o : Options)
    (a : Attributes) (slots : Slots) (st : Store)
    → IsFresh st
    → load_slots fs st slots ≡ some a
    → Implements st
        (load_class (class i b n ns s fs))
        (ok (Value.object (class i b n ns s fs) o a))
        (ok (allocate (record { class = class i b n ns s fs; options = o; slots = slots }) st))
unfolding load_class
allocate-Implements i b n ns s fs o a slots st fresh h =
    let cell : Cell = record { class = class i b n ns s fs; options = o; slots = slots } in
    let grown = allocate-Extends cell st fresh in
    let found : (allocate cell st).1.cells st.next ≡ some cell = ground arith in
    (
      st.next,
      (allocate cell st).1,
      refl,
      rw found (rw (load_slots_mono fs st (allocate cell st).1 slots a grown h) refl),
      grown,
      allocate-IsFresh cell st fresh,
    )

make-from_slots :
    (i : ℕ) (b : List ℕ) (n : String) (ns : Option String) (s : Bool) (fs : Fields)
    (kwargs : Attributes) (st : Store)
    → Implements st (load_slots fs) (init_fields fs kwargs) (make_slots i fs kwargs st)
    → Implements st
        (load_class (class i b n ns s fs))
        (construct (class i b n ns s fs) kwargs)
        (make (class i b n ns s fs) kwargs st)
make-from_slots i b n ns s fs kwargs st h = elim (Option-cases (get_attribute "self" kwargs)) [
  | inr (w, e) ↦
      rw (construct_self i b n ns s fs kwargs w e) (make_self i b n ns s fs kwargs w st e)
  | inl e ↦ rw (construct-no_self i b n ns s fs kwargs e) (
      rw (make-no_self i b n ns s fs kwargs st e) (
        Implements-bind st (load_slots fs) (load_class (class i b n ns s fs))
          (init_fields fs kwargs) _ (make_slots i fs kwargs st) _ h
          λ a slots st' _ read x fresh.
            allocate-Implements i b n ns s fs (init_options kwargs) a slots st' fresh read))
]

-- An instance of the class is what a field of the class takes.
instance-Implements :
    (c : RecordClass) (o p : Options) (a b : Attributes) (st : Store) (r : ℕ)
    → IsFresh st
    → load_class c st r ≡ some (Value.object c p b)
    → Implements st
        (load_slot (record_field c o a))
        (validate (record_field c o a) (Value.object c p b))
        (do check_class (record_field c o a) c p; ok (ref r, st))
unfolding load_class
instance-Implements c o p a b st r fresh h =
    rw (validate-instance c o p a b)
      (ref r, st, rw (validate-instance c o p a bare) refl, h, Extends-refl st, fresh)

made-Implements :
    (c : RecordClass) (o : Options) (a kwargs : Attributes) (x : Value) (st : Store) (r : ℕ)
    → IsFresh st
    → construct c kwargs ≡ ok x
    → load_class c st r ≡ some x
    → Implements st
        (load_slot (record_field c o a))
        (validate (record_field c o a) x)
        (do check_class (record_field c o a) c (init_options kwargs); ok (ref r, st))
made-Implements c o a kwargs x st r fresh built read =
    let (b, same) = construct-object c kwargs x built in
    rw same (
      instance-Implements c o (init_options kwargs) a b st r fresh
        (read ∙ ap (λ (v : Value). some v) same))

mutual
  unfolding construct make load_class

  make-Implements' :
      (c : RecordClass) (kwargs : Attributes) (st : Store)
      → IsFresh st
      → IsPristine c st
      → Implements st (load_class c) (construct c kwargs) (make c kwargs st)
  make-Implements' (class i b n ns s fs) kwargs st fresh pristine =
      make-from_slots i b n ns s fs kwargs st (make_slots-Implements i fs kwargs st fresh pristine)

  pub make_slots-Implements :
      (i : ℕ) (fs : Fields) (kwargs : Attributes) (st : Store)
      → IsFresh st
      → ArePristine i fs st
      → Implements st (load_slots fs) (init_fields fs kwargs) (make_slots i fs kwargs st)
  make_slots-Implements i no_fields kwargs st fresh pristine =
      ([], st, refl, refl, Extends-refl st, fresh)
  make_slots-Implements i (declare k f fs) kwargs st fresh pristine =
      Implements-bind st (load_slot f) (load_slots (declare k f fs))
        (init_field f (argument k kwargs))
        (λ v. init_fields fs kwargs >>= λ a. ok (attribute k v a))
        (make_slot i k f (argument k kwargs) st)
        (λ slot st'.
          then_with (make_slots i fs kwargs st') λ slots st''. ok ((k, slot) ∷ slots, st''))
        (make_slot-Implements i k f (argument k kwargs) st fresh pristine.0)
        λ v slot st' _ read x fresh'.
          Implements-bind st' (load_slots fs) (load_slots (declare k f fs)) (init_fields fs kwargs)
            (λ a. ok (attribute k v a)) (make_slots i fs kwargs st')
            (λ slots st''. ok ((k, slot) ∷ slots, st''))
            (make_slots-Implements i fs kwargs st' fresh'
              (ArePristine-mono i fs st st' x pristine.1))
            λ a slots st'' _ reads y fresh''. (
              (k, slot) ∷ slots,
              st'',
              refl,
              rw (load_slot_mono f st' st'' slot v y read) (rw reads refl),
              Extends-refl st'',
              fresh'',
            )

  pub make_slot-Implements :
      (i : ℕ) (k : String) (f : Field) (v : Option Value) (st : Store)
      → IsFresh st
      → IsPristineField i k f st
      → Implements st (load_slot f) (init_field f v) (make_slot i k f v st)
  make_slot-Implements i k (record_field c o a) none st fresh pristine =
      instance-Implements c o o a a st (st.template i k) fresh pristine.0
  make_slot-Implements i k (record_field c o a) (some (Value.dict d)) st fresh pristine =
      Implements-same st (load_slot (record_field c o a)) (keywords d) _ _ λ kwargs.
        Implements-bind st (load_class c) (load_slot (record_field c o a)) (construct c kwargs)
          (λ x. validate (record_field c o a) x) (make c kwargs st)
          (λ r st'. do check_class (record_field c o a) c (init_options kwargs); ok (ref r, st'))
          (make-Implements' c kwargs st fresh pristine.1)
          λ x r st' built read e fresh'. made-Implements c o a kwargs x st' r fresh' built read
  make_slot-Implements i k f v st fresh pristine = Implements-own st f (init_field f v) fresh

-- On a store in which the shared sub-records below the class are as they were declared, a call of the
-- class does what `construct` does on values: it raises the same exception, or returns an address at
-- which the new store holds the value that `construct` returns; nothing that was stored has changed.
pub make-Implements :
    (c : RecordClass) (kwargs : Attributes) (st : Store)
    → IsFresh st
    → IsPristine c st
    → Implements st (load_class c) (construct c kwargs) (make c kwargs st)
make-Implements c kwargs st fresh pristine = make-Implements' c kwargs st fresh pristine
