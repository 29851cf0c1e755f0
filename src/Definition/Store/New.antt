-- ===== src/Definition/Store/New.antt =====
-- Where a new instance stands, and what it holds for a sub-record that is not given.
use pulsar_client_python.Base.{
  ℕ, String, ◌≡◌, refl, sym, ◌∙◌, ap, Option, none, some, ◌∷◌, arith, inl, inr, Option-cases,
  Bool-cases, str_eq, str_eq_iff,
}
use pulsar_client_python.Python.Result.{Result, ok, raise}
use pulsar_client_python.Python.Value.{
  Value, Attributes, Options, RecordClass, Fields, Field, bare, class, no_fields, declare,
  record_field, class_fields, class_ident,
}
use pulsar_client_python.Definition.Record.{
  get_attribute, argument, find_field, init_field, init_options, init_fields,
}
use pulsar_client_python.Definition.Store.{
  Slot, ref, Slots, Cell, Store, allocate, then_with, make, make_slots, make_slot, find_slot,
  slot_of,
}
use pulsar_client_python.Definition.Store.Reading.{
  load_slots, load_slot, Extends, Extends-trans, IsFresh, allocate-Extends, allocate-IsFresh,
}
use pulsar_client_python.Definition.Store.Pristine.{IsPristine, ArePristine, ArePristine-mono}
use pulsar_client_python.Definition.Store.Refinement.{
  make_self, make-no_self, validate-instance, make_slot-Implements, make_slots-Implements,
}
use pulsar_client_python.Definition.Store.Implements.{Implements-grows}

then_with-eq-ok :
    {A B : Type 0} (m : Result (A × Store)) (h : A → Store → Result B) {x : B}
    → then_with m h ≡ ok x
    → (a : A) × (st : Store) × (m ≡ ok (a, st)) × (h a st ≡ ok x)
then_with-eq-ok (raise e) h p = cc
then_with-eq-ok (ok (a, st)) h p = (a, st, refl, p)

template-slot :
    (i : ℕ) (k : String) (c : RecordClass) (o : Options) (a : Attributes) (f : Field)
    (v : Option Value) (st st' : Store) (slot : Slot)
    → f ≡ record_field c o a
    → v ≡ none
    → make_slot i k f v st ≡ ok (slot, st')
    → slot ≡ ref (st.template i k)
unfolding make
template-slot i k c o a f v st st' slot e d h =
    let h' : make_slot i k (record_field c o a) none st ≡ ok (slot, st') =
      ap (λ (g : Field). make_slot i k g none st) (sym e)
      ∙ ap (λ (u : Option Value). make_slot i k f u st) (sym d)
      ∙ h in
    let q : make_slot i k (record_field c o a) none st ≡ ok (ref (st.template i k), st) =
      rw (validate-instance c o o a bare) refl in
    ground arith

-- The slot of a sub-record that is not given holds the shared instance.
find_slot-make_slots :
    (i : ℕ) (fs : Fields) (kwargs : Attributes) (st st' : Store) (slots : Slots) (k : String)
    (c : RecordClass) (o : Options) (a : Attributes)
    → IsFresh st
    → ArePristine i fs st
    → find_field k fs ≡ some (record_field c o a)
    → argument k kwargs ≡ none
    → make_slots i fs kwargs st ≡ ok (slots, st')
    → find_slot k slots ≡ some (ref (st.template i k))
unfolding make find_slot find_field
find_slot-make_slots i no_fields kwargs st st' slots k c o a fresh pristine found absent h = cc
find_slot-make_slots i (declare j f fs) kwargs st st' slots k c o a fresh pristine found absent h =
    let (slot, st₁, e₁, h₁) = then_with-eq-ok (make_slot i j f (argument j kwargs) st) _ h in
    let (rest, st₂, e₂, h₂) = then_with-eq-ok (make_slots i fs kwargs st₁) _ h₁ in
    let (x, fresh₁) =
      Implements-grows st st₁ (load_slot f) (init_field f (argument j kwargs)) _ slot
        (make_slot-Implements i j f (argument j kwargs) st fresh pristine.0) e₁ in
    let shape : (j, slot) ∷ rest ≡ slots = ground arith in
    rw (← shape) (elim (Bool-cases (str_eq k j)) [
      | inl e ↦
          let same : k ≡ j = (str_eq_iff k j).0 e in
          let is : f ≡ record_field c o a = ground arith in
          let none_given : argument j kwargs ≡ none =
            ap (λ (n : String). argument n kwargs) (sym same) ∙ absent in
          let held = template-slot i j c o a f (argument j kwargs) st st₁ slot is none_given e₁ in
          rw e (
            ap (λ (s : Slot). some s) held
            ∙ ap (λ (n : String). some (ref (st.template i n))) (sym same))
      | inr e ↦
          let later : find_field k fs ≡ some (record_field c o a) = ground arith in
          let held =
            find_slot-make_slots i fs kwargs st₁ st₂ rest k c o a fresh₁
              (ArePristine-mono i fs st st₁ x pristine.1) later absent e₂ in
          rw e (held ∙ ap (λ (g : ℕ → String → ℕ). some (ref (g i k))) x.templates)
    ])

-- A new instance: it stands where nothing stood, and its slot holds the shared sub-record.
pub record IsNew (st st' : Store) (r : ℕ) (k : String) (q : ℕ) : Type 0 where
  pub unused : st.cells r ≡ none
  pub slot : slot_of st' r k ≡ some (ref q)
  pub grows : Extends st st'
  pub fresh : IsFresh st'

pub unused-Extends :
    (st st' : Store) (r : ℕ) → Extends st st' → st'.cells r ≡ none → st.cells r ≡ none
unused-Extends st st' r x h = elim (Option-cases (st.cells r)) [
  | inl e ↦ e
  | inr (cell, e) ↦ cc (x.kept r cell e, h)
]

slot_of-allocate :
    (cell : Cell) (st : Store) (k : String)
    → slot_of (allocate cell st).1 st.next k ≡ find_slot k cell.slots
unfolding slot_of
slot_of-allocate cell st k =
    let there : (allocate cell st).1.cells st.next ≡ some cell = ground arith in
    rw (there, slot_of) refl

pub make-IsNew :
    (c : RecordClass) (kwargs : Attributes) (st st' : Store) (r : ℕ) (k : String) (d : RecordClass)
    (o : Options) (a : Attributes)
    → IsFresh st
    → IsPristine c st
    → find_field k (class_fields c) ≡ some (record_field d o a)
    → argument k kwargs ≡ none
    → make c kwargs st ≡ ok (r, st')
    → IsNew st st' r k (st.template (class_ident c) k)
make-IsNew (class i b n ns s fs) kwargs st st' r k d o a fresh pristine found absent h =
    elim (Option-cases (get_attribute "self" kwargs)) [
      | inr (w, e) ↦ cc (make_self i b n ns s fs kwargs w st e, h)
      | inl e ↦
          let (slots, st₁, e₁, h₁) =
            then_with-eq-ok (make_slots i fs kwargs st) _
              (sym (make-no_self i b n ns s fs kwargs st e) ∙ h) in
          let (x, fresh₁) =
            Implements-grows st st₁ (load_slots fs) (init_fields fs kwargs) _ slots
              (make_slots-Implements i fs kwargs st fresh pristine) e₁ in
          let cell : Cell = record {
            class = class i b n ns s fs;
            options = init_options kwargs;
            slots = slots;
          } in
          let address : st₁.next ≡ r = ground arith in
          let store : (allocate cell st₁).1 ≡ st' = ground arith in
          rw (← address) (
            rw (← store) (record {
              unused = unused-Extends st st₁ st₁.next x (fresh₁ st₁.next (omega arith));
              slot =
                  slot_of-allocate cell st₁ k
                  ∙ find_slot-make_slots i fs kwargs st st₁ slots k d o a fresh pristine found
                      absent e₁;
              grows = Extends-trans x (allocate-Extends cell st₁ fresh₁);
              fresh = allocate-IsFresh cell st₁ fresh₁;
            }))
    ]
