-- ===== src/Schema/Json/Arguments.antt =====
-- The keyword arguments that a decoded dict is turned into, and the fields that they are found by.
use mathlib.Core.Path.{subst}
use pulsar_client_python.Base.{
  String, ℕ, ◌≡◌, refl, ◌∙◌, inl, inr, Bool, true, false, Option, none, some, List, contains,
  str_eq, str_eq_iff, str_eq_refl, arith, Bool-cases,
}
use pulsar_client_python.Python.Result.{ok}
use pulsar_client_python.Python.Value.{
  Value, Attributes, Fields, bare, attribute, class, no_fields, declare,
}
use pulsar_client_python.Definition.Record.{
  parameters, get_attribute, argument, init_options, construct, init_fields,
}
use pulsar_client_python.Schema.Json.Stored.{plain, declared}

-- Each field finds its argument.
abbrev pub Agrees : Fields → Attributes → Attributes → Type 0
Agrees no_fields bare kwargs = Unit
Agrees no_fields (attribute _ _ _) kwargs = ⊥
Agrees (declare _ _ _) bare kwargs = ⊥
Agrees (declare k f fields) (attribute j w a) kwargs =
    (argument k kwargs ≡ some w) × Agrees fields a kwargs

pub str_eq_comm_false : (s t : String) → str_eq s t ≡ false → str_eq t s ≡ false
str_eq_comm_false s t h = ground (arith, str_eq_iff s t, str_eq_iff t s)

pub argument-attribute :
    (j k : String) (w : Value) (kwargs : Attributes)
    → str_eq j k ≡ false
    → argument j (attribute k w kwargs) ≡ argument j kwargs
unfolding argument get_attribute
argument-attribute j k w kwargs h = rw h

-- An argument for another field in front changes nothing.
pub Agrees-attribute :
    (fields : Fields) (a : Attributes) (k : String) (w : Value) (kwargs : Attributes)
    → declared k fields ≡ false
    → Agrees fields a kwargs
    → Agrees fields a (attribute k w kwargs)
Agrees-attribute no_fields bare k w kwargs d h = tt
Agrees-attribute no_fields (attribute _ _ _) k w kwargs d h = h
Agrees-attribute (declare _ _ _) bare k w kwargs d h = h
Agrees-attribute (declare j f fields) (attribute i u a) k w kwargs d h =
    let ne : str_eq k j ≡ false = ground arith in
    let rest : declared k fields ≡ false = ground arith in
    (
      argument-attribute j k w kwargs (str_eq_comm_false k j ne) ∙ h.0,
      Agrees-attribute fields a k w kwargs rest h.1,
    )

-- No argument is one of the constructor's own.
abbrev pub Avoids : Attributes → Type 0
Avoids kwargs = (p : String) → contains p parameters ≡ true → get_attribute p kwargs ≡ none

pub Avoids-attribute :
    (k : String) (w : Value) (kwargs : Attributes)
    → contains k parameters ≡ false
    → Avoids kwargs
    → Avoids (attribute k w kwargs)
unfolding get_attribute
Avoids-attribute k w kwargs h avoids p m = elim (Bool-cases (str_eq p k)) [
  | inl same ↦
      let e : p ≡ k = (str_eq_iff p k).0 same in
      let clash : contains k parameters ≡ true = subst (λ s. contains s parameters ≡ true) e m in cc
  | inr other ↦ rw other (avoids p m)
]

pub Avoids-init_options : (kwargs : Attributes) → Avoids kwargs → init_options kwargs ≡ plain
unfolding init_options str_eq
Avoids-init_options kwargs h =
    rw (h "default" refl) (rw (h "required_default" refl) (rw (h "required" refl)))

pub construct-fields :
    (ident : ℕ) (bases : List ℕ) (name : String) (namespace : Option String) (sorted : Bool)
    (fields : Fields) (kwargs a : Attributes)
    → Avoids kwargs
    → init_fields fields kwargs ≡ ok a
    → construct (class ident bases name namespace sorted fields) kwargs
      ≡ ok (Value.object (class ident bases name namespace sorted fields) plain a)
unfolding construct str_eq
construct-fields i b n ns s _ kwargs a avoids h =
    rw (avoids "self" refl, construct) (rw h (rw (Avoids-init_options kwargs avoids)))

pub argument_self :
    (k : String) (w : Value) (kwargs : Attributes)
    → contains k parameters ≡ false
    → argument k (attribute k w kwargs) ≡ some w
unfolding argument get_attribute
argument_self k w kwargs h = rw h (rw (str_eq_refl k))
