-- ===== src/Definition/Store.antt =====
-- `Record.__init__` and `__setattr__` on a store of instances (pulsar/schema/definition.py). A field that
-- is a sub-record holds one instance, made with the class and shared by all that are built without a
-- value of their own for the field. An instance that the caller passes as an argument is held by value;
-- so are the items of arrays and maps. What a call that raises has allocated is not kept.
pub mod Reading
pub mod Pristine
pub mod Implements
pub mod Refinement
pub mod New
pub mod Writing
pub mod Sharing
use pulsar_client_python.Base.{
  ℕ, suc, String, Bool, true, false, Option, none, some, List, [], ◌∷◌, ◌==◌, str_eq, if◌then◌else◌,
}
use pulsar_client_python.Python.Result.{
  Result, ok, raise, type_error, attribute_error, ◌>>=◌, ◌>>◌, or_raise,
}
use pulsar_client_python.Python.Value.{
  Value, Attributes, Options, RecordClass, Fields, Field, bare, class, no_fields, declare, scalar,
  custom_enum, array, mapping, record_field, class_fields,
}
use pulsar_client_python.Definition.Field.{validate}
use pulsar_client_python.Definition.Record.{
  get_attribute, argument, keywords, init_field, init_options, find_field,
}

-- What an attribute holds: a value, or an instance in the store.
pub data Slot : Type 0 where
  own : Value → Slot
  ref : ℕ → Slot

abbrev pub Slots : Type 0
Slots = List (String × Slot)

-- An instance: its class, its options and its declared attributes.
pub record Cell : Type 0 where
  pub class : RecordClass
  pub options : Options
  pub slots : Slots

-- The instances by address, the next address, and the instance that stands in `_fields` of a class, by
-- the identity of the class and the name of the field.
pub record Store : Type 0 where
  pub cells : ℕ → Option Cell
  pub next : ℕ
  pub template : ℕ → String → ℕ

abbrev pub put_cell : ℕ → Cell → Store → Store
put_cell r c st = record st { cells = λ q. if q == r then some c else st.cells q }

abbrev pub allocate : Cell → Store → ℕ × Store
allocate c st = (st.next, record (put_cell st.next c st) { next = suc st.next })

-- `validate_type` of an instance of the class.
abbrev pub check_class : Field → RecordClass → Options → Result (Unit {0})
check_class f c o = do v ← validate f (Value.object c o bare); ok tt

-- Binds the result and the store of a call.
abbrev pub then_with {ℓ κ} :
    {A : Type ℓ} {B : Type κ} → Result (A × Store) → (A → Store → Result B) → Result B
then_with (raise e) rest = raise e
then_with (ok (a, st)) rest = rest a st

unfoldable mutual
  -- A call of the class with keyword arguments: the address of the new instance.
  pub make : RecordClass → Attributes → Store → Result (ℕ × Store)
  make (class i b n ns s fs) kwargs st = elim (get_attribute "self" kwargs) [
    | some _ ↦ raise type_error
    | none ↦ then_with (make_slots i fs kwargs st) λ slots st'. ok (
        allocate
          (record { class = class i b n ns s fs; options = init_options kwargs; slots = slots })
          st')
  ]

  pub make_slots : ℕ → Fields → Attributes → Store → Result (Slots × Store)
  make_slots i no_fields kwargs st = ok ([], st)
  make_slots i (declare k f fs) kwargs st =
      then_with (make_slot i k f (argument k kwargs) st) λ slot st'.
        then_with (make_slots i fs kwargs st') λ slots st''. ok ((k, slot) ∷ slots, st'')

  pub make_slot : ℕ → String → Field → Option Value → Store → Result (Slot × Store)
  make_slot i k (record_field c o a) none st = do
    check_class (record_field c o a) c o
    ok (ref (st.template i k), st)
  make_slot i k (record_field c o a) (some (Value.dict d)) st = do
    kwargs ← keywords d
    then_with (make c kwargs st)
        λ r st'. do check_class (record_field c o a) c (init_options kwargs); ok (ref r, st')
  make_slot i k f v st = do w ← init_field f v; ok (own w, st)

unfoldable pub find_slot : String → Slots → Option Slot
find_slot k [] = none
find_slot k ((j, slot) ∷ slots) = if str_eq k j then some slot else find_slot k slots

-- `r.k`
unfoldable pub slot_of : Store → ℕ → String → Option Slot
unfolding find_slot
slot_of st r k = elim (st.cells r) [ none ↦ none | some cell ↦ find_slot k cell.slots ]

unfoldable pub assign_slot : String → Slot → Slots → Slots
assign_slot k slot [] = (k, slot) ∷ []
assign_slot k slot ((j, old) ∷ slots) =
    if str_eq k j then (j, slot) ∷ slots else (j, old) ∷ assign_slot k slot slots

-- `r.k = v`, for a declared field.
unfoldable pub write : ℕ → String → Value → Store → Result Store
unfolding assign_slot find_field
write r k v st = do
  cell ← or_raise (st.cells r) attribute_error
  f ← or_raise (find_field k (class_fields cell.class)) attribute_error
  w ← validate f v
  ok (put_cell r (record cell { slots = assign_slot k (own w) cell.slots }) st)

-- `r.k.j`
unfoldable pub read_through : Store → ℕ → String → String → Option Slot
unfolding slot_of
read_through st r k j = elim (slot_of st r k) [ some (ref q) ↦ slot_of st q j | _ ↦ none ]

-- `r.k.j = v`
unfoldable pub write_through : ℕ → String → String → Value → Store → Result Store
unfolding slot_of write
write_through r k j v st = elim (slot_of st r k) [
  | some (ref q) ↦ write q j v st
  | _ ↦ raise attribute_error
]
