-- ===== src/Definition/Store/Pristine.antt =====
-- The shared instances of a class as they were declared.
use pulsar_client_python.Base.{ℕ, String, ◌≡◌, ◌∙◌, ap, some}
use pulsar_client_python.Python.Value.{
  Value, RecordClass, Fields, Field, class, no_fields, declare, scalar, custom_enum, array, mapping,
  record_field,
}
use pulsar_client_python.Definition.Store.{Store}
use pulsar_client_python.Definition.Store.Reading.{load_class, Extends, load_class_mono}

-- Below the class, the instance behind each field is the one that the field was declared with: no
-- attribute of it was set since.
abbrev mutual
  pub IsPristine : RecordClass → Store → Type 0
  IsPristine (class i _ _ _ _ fs) st = ArePristine i fs st

  pub ArePristine : ℕ → Fields → Store → Type 0
  ArePristine i no_fields st = Unit
  ArePristine i (declare k f fs) st = IsPristineField i k f st × ArePristine i fs st

  pub IsPristineField : ℕ → String → Field → Store → Type 0
  IsPristineField i k (record_field c o a) st =
      (load_class c st (st.template i k) ≡ some (Value.object c o a)) × IsPristine c st
  IsPristineField i k (scalar _ _) st = Unit
  IsPristineField i k (custom_enum _ _) st = Unit
  IsPristineField i k (array _ _) st = Unit
  IsPristineField i k (mapping _ _) st = Unit

mutual
  pub IsPristine-mono :
      (c : RecordClass) (st st' : Store) → Extends st st' → IsPristine c st → IsPristine c st'
  IsPristine-mono (class i _ _ _ _ fs) st st' e p = ArePristine-mono i fs st st' e p

  pub ArePristine-mono :
      (i : ℕ) (fs : Fields) (st st' : Store)
      → Extends st st'
      → ArePristine i fs st
      → ArePristine i fs st'
  ArePristine-mono i no_fields st st' e p = tt
  ArePristine-mono i (declare k f fs) st st' e p =
      (IsPristineField-mono i k f st st' e p.0, ArePristine-mono i fs st st' e p.1)

  pub IsPristineField-mono :
      (i : ℕ) (k : String) (f : Field) (st st' : Store)
      → Extends st st'
      → IsPristineField i k f st
      → IsPristineField i k f st'
  IsPristineField-mono i k (record_field c o a) st st' e p = (
    ap (λ (t : ℕ → String → ℕ). load_class c st' (t i k)) e.templates
        ∙ load_class_mono c st st' (st.template i k) (Value.object c o a) e p.0,
    IsPristine-mono c st st' e p.1,
  )
  IsPristineField-mono i k (scalar _ _) st st' e p = tt
  IsPristineField-mono i k (custom_enum _ _) st st' e p = tt
  IsPristineField-mono i k (array _ _) st st' e p = tt
  IsPristineField-mono i k (mapping _ _) st st' e p = tt
