-- ===== src/Definition/Store/Sharing.antt =====
-- Instances of a class that share a sub-record.
use pulsar_client_python.Base.{
  ℕ, String, ◌≡◌, ◌≢◌, refl, sym, ◌∙◌, ap, false, none, some, ◌==◌, ==_iff, arith, inl, inr,
  Bool-cases, str_eq, str_eq_iff,
}
use pulsar_client_python.Python.Result.{ok}
use pulsar_client_python.Python.Value.{
  Value, Attributes, Options, RecordClass, Fields, Field, class, no_fields, declare, record_field,
  class_fields, class_ident,
}
use pulsar_client_python.Definition.Field.{validate}
use pulsar_client_python.Definition.Record.{argument, find_field}
use pulsar_client_python.Definition.Store.{
  own, ref, Store, make, slot_of, read_through, write_through,
}
use pulsar_client_python.Definition.Store.Reading.{load_class, IsFresh}
use mathlib.Core.Path.{subst}
use pulsar_client_python.Definition.Store.Pristine.{
  IsPristine, IsPristineField, IsPristine-mono, ArePristine,
}
use pulsar_client_python.Definition.Store.New.{unused-Extends, make-IsNew}
use pulsar_client_python.Definition.Store.Writing.{
  write-Writes, write_through-slot, slot_of_mono, read-written,
}

loaded-ne-none :
    (c : RecordClass) (st : Store) (r : ℕ) (v : Value)
    → load_class c st r ≡ some v
    → st.cells r ≢ none
unfolding load_class
loaded-ne-none (class i b n ns s fs) st r v h absent =
    let e : load_class (class i b n ns s fs) st r ≡ none = rw (absent, load_class) refl in cc

template-ne-none :
    (i : ℕ) (fs : Fields) (st : Store) (k : String) (c : RecordClass) (o : Options) (a : Attributes)
    → ArePristine i fs st
    → find_field k fs ≡ some (record_field c o a)
    → st.cells (st.template i k) ≢ none
unfolding find_field
template-ne-none i no_fields st k c o a p found = cc
template-ne-none i (declare j f fs) st k c o a p found = elim (Bool-cases (str_eq k j)) [
  | inl e ↦
      let same : k ≡ j = (str_eq_iff k j).0 e in
      let is : f ≡ record_field c o a = ground arith in
      let held = subst (λ g. IsPristineField i j g st) is p.0 in
      rw same (loaded-ne-none c st (st.template i j) (Value.object c o a) held.0)
  | inr e ↦
      let later : find_field k fs ≡ some (record_field c o a) = ground arith in
      template-ne-none i fs st k c o a p.1 later
]

IsPristine-fields :
    (c : RecordClass) (st : Store)
    → IsPristine c st
    → ArePristine (class_ident c) (class_fields c) st
IsPristine-fields (class _ _ _ _ _ _) st p = p

unused-ne : (st : Store) (r q : ℕ) → st.cells r ≡ none → st.cells q ≢ none → (r == q) ≡ false
unused-ne st r q e ne = elim (Bool-cases (r == q)) [
  | inl same ↦ absurd (ne (ap st.cells (sym ((==_iff r q).0 same)) ∙ e))
  | inr h ↦ h
]

-- Two instances of a class that are built without a value for a field that is a sub-record share it. If
-- an attribute of the sub-record is set through the first, it is read through the second: both hold
-- what the validation of that attribute returned. The store has nothing at addresses that are not
-- given out, and its shared sub-records are as declared before the instances are built.
pub write_through-shared :
    (c d : RecordClass) (o : Options) (a kwargs kwargs' : Attributes) (k j : String) (v : Value)
    (st st₁ st₂ st₃ : Store) (r r' : ℕ)
    → IsFresh st
    → IsPristine c st
    → find_field k (class_fields c) ≡ some (record_field d o a)
    → argument k kwargs ≡ none
    → argument k kwargs' ≡ none
    → make c kwargs st ≡ ok (r, st₁)
    → make c kwargs' st₁ ≡ ok (r', st₂)
    → write_through r k j v st₂ ≡ ok st₃
    → (f : Field) × (w : Value) × (validate f v ≡ ok w)
      × (read_through st₃ r k j ≡ some (own w))
      × (read_through st₃ r' k j ≡ some (own w))
write_through-shared c d o a kwargs kwargs' k j v st st₁ st₂ st₃ r r' fresh pristine found absent
      absent' made made' written =
    let i = class_ident c in
    let q = st.template i k in
    let one = make-IsNew c kwargs st st₁ r k d o a fresh pristine found absent made in
    let pristine₁ = IsPristine-mono c st st₁ one.grows pristine in
    let two = make-IsNew c kwargs' st₁ st₂ r' k d o a one.fresh pristine₁ found absent' made' in
    let stored =
      template-ne-none i (class_fields c) st k d o a (IsPristine-fields c st pristine) found in
    let slot = slot_of_mono st₁ st₂ r k (ref q) two.grows one.slot in
    let slot' : slot_of st₂ r' k ≡ some (ref q) =
      two.slot ∙ ap (λ (g : ℕ → String → ℕ). some (ref (g i k))) one.grows.templates in
    let w = write-Writes q j v st₂ st₃ (sym (write_through-slot st₂ r k j v q slot) ∙ written) in
    (
      w.field,
      w.held,
      w.valid,
      read-written st₂ st₃ q r k j v w (unused-ne st r q one.unused stored) slot,
      read-written st₂ st₃ q r' k j v w
          (unused-ne st r' q (unused-Extends st st₁ r' one.grows two.unused) stored) slot',
    )
