-- ===== src/Definition/Store/Writing.antt =====
-- What setting an attribute leaves in the store.
use pulsar_client_python.Base.{
  ℕ, String, ◌≡◌, refl, sym, ◌∙◌, false, none, some, [], ◌∷◌, ◌==◌, arith, inl, inr, Option-cases,
  str_eq_iff, str_eq_refl,
}
use pulsar_client_python.Python.Result.{ok, attribute_error, or_raise, >>=-eq-ok}
use pulsar_client_python.Python.Value.{Value, Field, class_fields}
use pulsar_client_python.Definition.Field.{validate}
use pulsar_client_python.Definition.Record.{find_field}
use pulsar_client_python.Definition.Store.{
  Slot, own, ref, Slots, Cell, Store, put_cell, find_slot, slot_of, assign_slot, write,
  read_through, write_through,
}
use pulsar_client_python.Definition.Store.Reading.{Extends}

find_slot-assign_slot :
    (k : String) (slot : Slot) (slots : Slots) → find_slot k (assign_slot k slot slots) ≡ some slot
unfolding find_slot assign_slot
find_slot-assign_slot k slot [] = rw (str_eq_refl k)
find_slot-assign_slot k slot ((j, old) ∷ slots) =
    ground (arith, str_eq_iff k j, find_slot-assign_slot k slot slots)

-- What a write leaves at its address, and at any other.
pub record Writes (st st' : Store) (q : ℕ) (j : String) (v : Value) : Type 0 where
  pub field : Field
  pub held : Value
  pub valid : validate field v ≡ ok held
  pub written : slot_of st' q j ≡ some (own held)
  pub others : (r : ℕ) (k : String) → (r == q) ≡ false → slot_of st' r k ≡ slot_of st r k

slot_of-put_cell :
    (q : ℕ) (cell : Cell) (st : Store) (k : String)
    → slot_of (put_cell q cell st) q k ≡ find_slot k cell.slots
unfolding slot_of
slot_of-put_cell q cell st k =
    let there : (put_cell q cell st).cells q ≡ some cell = ground arith in rw (there, slot_of) refl

slot_of-put_cell_other :
    (q r : ℕ) (cell : Cell) (st : Store) (k : String)
    → (r == q) ≡ false
    → slot_of (put_cell q cell st) r k ≡ slot_of st r k
unfolding slot_of
slot_of-put_cell_other q r cell st k h =
    let same : (put_cell q cell st).cells r ≡ st.cells r = ground arith in rw (same, slot_of) refl

pub write-Writes :
    (q : ℕ) (j : String) (v : Value) (st st' : Store)
    → write q j v st ≡ ok st'
    → Writes st st' q j v
unfolding write
write-Writes q j v st st' h =
    let (cell, e, h₁) = >>=-eq-ok (or_raise (st.cells q) attribute_error) _ h in
    let (f, d, h₂) =
      >>=-eq-ok (or_raise (find_field j (class_fields cell.class)) attribute_error) _ h₁ in
    let (w, p, h₃) = >>=-eq-ok (validate f v) _ h₂ in
    let store : put_cell q (record cell { slots = assign_slot j (own w) cell.slots }) st ≡ st' =
      ground arith in
    rw (← store) (record {
      field = f;
      held = w;
      valid = p;
      written = slot_of-put_cell q _ st j ∙ find_slot-assign_slot j (own w) cell.slots;
      others = λ r k ne. slot_of-put_cell_other q r _ st k ne;
    })

read_through-slot :
    (st : Store) (r : ℕ) (k j : String) (q : ℕ)
    → slot_of st r k ≡ some (ref q)
    → read_through st r k j ≡ slot_of st q j
unfolding read_through
read_through-slot st r k j q e = rw (e, read_through) refl

pub write_through-slot :
    (st : Store) (r : ℕ) (k j : String) (v : Value) (q : ℕ)
    → slot_of st r k ≡ some (ref q)
    → write_through r k j v st ≡ write q j v st
unfolding write_through
write_through-slot st r k j v q e = rw (e, write_through) refl

pub slot_of_mono :
    (st st' : Store) (r : ℕ) (k : String) (slot : Slot)
    → Extends st st'
    → slot_of st r k ≡ some slot
    → slot_of st' r k ≡ some slot
unfolding slot_of
slot_of_mono st st' r k slot x h = elim (Option-cases (st.cells r)) [
  | inl e ↦ let absent : slot_of st r k ≡ none = rw (e, slot_of) refl in cc
  | inr (cell, e) ↦
      let before : slot_of st r k ≡ find_slot k cell.slots = rw (e, slot_of) refl in
      let there : st'.cells r ≡ some cell = x.kept r cell e in rw (there, slot_of) (sym before ∙ h)
]

-- What was written is read through an instance that holds the address.
pub read-written :
    (st st' : Store) (q r : ℕ) (k j : String) (v : Value) (w : Writes st st' q j v)
    → (r == q) ≡ false
    → slot_of st r k ≡ some (ref q)
    → read_through st' r k j ≡ some (own w.held)
read-written st st' q r k j v w ne held =
    read_through-slot st' r k j q (w.others r k ne ∙ held) ∙ w.written
