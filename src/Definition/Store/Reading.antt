-- ===== src/Definition/Store/Reading.antt =====
-- What the store holds at an address, as a value, and how it grows.
use pulsar_client_python.Base.{ℕ, ◌≤◌, String, ◌≡◌, refl, ◌∙◌, Option, none, some, [], ◌∷◌, arith}
use pulsar_client_python.Python.Value.{
  Value, Attributes, Options, RecordClass, Fields, Field, bare, attribute, class, no_fields,
  declare, scalar, custom_enum, array, mapping, record_field,
}
use pulsar_client_python.Definition.Store.{Slot, own, ref, Slots, Cell, Store, allocate}

abbrev pub with_attribute : String → Option Value → Option Attributes → Option Attributes
with_attribute k (some v) (some a) = some (attribute k v a)
with_attribute k _ _ = none

abbrev pub as_object : RecordClass → Options → Option Attributes → Option Value
as_object c o none = none
as_object c o (some a) = some (Value.object c o a)

abbrev pub at_cell : Option Cell → (Slots → Option Attributes) → Option Value
at_cell none load = none
at_cell (some cell) load = as_object cell.class cell.options (load cell.slots)

unfoldable mutual
  -- The instance at an address, by the class that it is declared to have.
  pub load_class : RecordClass → Store → ℕ → Option Value
  load_class (class _ _ _ _ _ fs) st r = at_cell (st.cells r) (load_slots fs st)

  -- One slot for each field, in order.
  pub load_slots : Fields → Store → Slots → Option Attributes
  load_slots no_fields st [] = some bare
  load_slots (declare _ f fs) st ((k, slot) ∷ slots) =
      with_attribute k (load_slot f st slot) (load_slots fs st slots)
  load_slots _ st _ = none

  pub load_slot : Field → Store → Slot → Option Value
  load_slot (record_field c _ _) st (ref r) = load_class c st r
  load_slot f st (own v) = some v
  load_slot f st (ref _) = none

-- Everything that is in the first store is in the second.
pub record Extends (st st' : Store) : Type 0 where
  pub kept : (r : ℕ) (cell : Cell) → st.cells r ≡ some cell → st'.cells r ≡ some cell
  pub templates : st'.template ≡ st.template

pub Extends-refl : (st : Store) → Extends st st
Extends-refl st = record { kept = λ r cell e. e; templates = refl }

pub Extends-trans : {st st' st'' : Store} → Extends st st' → Extends st' st'' → Extends st st''
Extends-trans p q = record {
  kept = λ r cell e. q.kept r cell (p.kept r cell e);
  templates = q.templates ∙ p.templates;
}

-- Nothing is stored at an address that is not given out.
abbrev pub IsFresh : Store → Type 0
IsFresh st = (r : ℕ) → st.next ≤ r → st.cells r ≡ none

pub allocate-Extends : (cell : Cell) (st : Store) → IsFresh st → Extends st (allocate cell st).1
allocate-Extends cell st fresh = record {
  kept = λ r old e. ground (arith, fresh r);
  templates = refl;
}

pub allocate-IsFresh : (cell : Cell) (st : Store) → IsFresh st → IsFresh (allocate cell st).1
allocate-IsFresh cell st fresh r h = ground (arith, fresh r)

with_attribute-some :
    (k : String) (v v' : Option Value) (a a' : Option Attributes) (b : Attributes)
    → ((w : Value) → v ≡ some w → v' ≡ some w)
    → ((w : Attributes) → a ≡ some w → a' ≡ some w)
    → with_attribute k v a ≡ some b
    → with_attribute k v' a' ≡ some b
with_attribute-some k (some v) v' (some a) a' b p q h = rw (p v refl, q a refl) h
with_attribute-some k none v' a a' b p q h = cc
with_attribute-some k (some v) v' none a' b p q h = cc

as_object-some :
    (c : RecordClass) (o : Options) (a a' : Option Attributes) (v : Value)
    → ((w : Attributes) → a ≡ some w → a' ≡ some w)
    → as_object c o a ≡ some v
    → as_object c o a' ≡ some v
as_object-some c o none a' v q h = cc
as_object-some c o (some a) a' v q h = rw (q a refl) h

at_cell-some :
    (c c' : Option Cell) (load load' : Slots → Option Attributes) (v : Value)
    → ((cell : Cell) → c ≡ some cell → c' ≡ some cell)
    → ((slots : Slots) (w : Attributes) → load slots ≡ some w → load' slots ≡ some w)
    → at_cell c load ≡ some v
    → at_cell c' load' ≡ some v
at_cell-some none c' load load' v p q h = cc
at_cell-some (some cell) c' load load' v p q h =
    rw (p cell refl) (
      as_object-some cell.class cell.options (load cell.slots) (load' cell.slots) v (q cell.slots)
        h)

mutual
  unfolding load_class

  pub load_class_mono :
      (c : RecordClass) (st st' : Store) (r : ℕ) (v : Value)
      → Extends st st'
      → load_class c st r ≡ some v
      → load_class c st' r ≡ some v
  load_class_mono (class i b n ns s fs) st st' r v e h =
      at_cell-some (st.cells r) (st'.cells r) (load_slots fs st) (load_slots fs st') v (e.kept r)
        (λ slots w p. load_slots_mono fs st st' slots w e p) h

  pub load_slots_mono :
      (fs : Fields) (st st' : Store) (slots : Slots) (a : Attributes)
      → Extends st st'
      → load_slots fs st slots ≡ some a
      → load_slots fs st' slots ≡ some a
  load_slots_mono no_fields st st' [] a e h = h
  load_slots_mono no_fields st st' (_ ∷ _) a e h = cc
  load_slots_mono (declare _ f fs) st st' [] a e h = cc
  load_slots_mono (declare _ f fs) st st' ((k, slot) ∷ slots) a e h =
      with_attribute-some k (load_slot f st slot) (load_slot f st' slot) (load_slots fs st slots)
        (load_slots fs st' slots) a (λ w p. load_slot_mono f st st' slot w e p)
        (λ w p. load_slots_mono fs st st' slots w e p) h

  pub load_slot_mono :
      (f : Field) (st st' : Store) (slot : Slot) (v : Value)
      → Extends st st'
      → load_slot f st slot ≡ some v
      → load_slot f st' slot ≡ some v
  load_slot_mono (record_field c _ _) st st' (ref r) v e h = load_class_mono c st st' r v e h
  load_slot_mono (record_field _ _ _) st st' (own w) v e h = h
  load_slot_mono (scalar _ _) st st' (own w) v e h = h
  load_slot_mono (custom_enum _ _) st st' (own w) v e h = h
  load_slot_mono (array _ _) st st' (own w) v e h = h
  load_slot_mono (mapping _ _) st st' (own w) v e h = h
  load_slot_mono (scalar _ _) st st' (ref r) v e h = h
  load_slot_mono (custom_enum _ _) st st' (ref r) v e h = h
  load_slot_mono (array _ _) st st' (ref r) v e h = h
  load_slot_mono (mapping _ _) st st' (ref r) v e h = h
