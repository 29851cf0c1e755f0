-- ===== src/Definition/Record/Kept.antt =====
-- What the attributes of an instance hold.
use mathlib.Core.Path.{subst}
use pulsar_client_python.Base.{
  String, ◌≡◌, refl, sym, ◌⊎◌, inl, inr, Bool, true, false, Option, none, some, str_eq, arith,
  if◌then◌else◌, Bool-cases,
}
use pulsar_client_python.Python.Result.{Result, ok, raise, ◌>>=◌, >>=-eq-ok, type_error}
use pulsar_client_python.Python.Value.{
  Value, Attributes, Options, RecordClass, Fields, Field, cons, entry, bare, attribute, options,
  class, no_fields, declare, array, mapping, record_field, class_fields,
}
use pulsar_client_python.Definition.Field.{validate, default}
use pulsar_client_python.Definition.Record.{
  argument, keywords, init_items, init_entries, construct, init_fields, init_field, init_options,
  get_attribute, find_field, assign, set_attribute, set_field,
}

-- A value that validation returned, or the default.
abbrev pub IsKept : Field → Value → Type 0
IsKept f v = ((u : Value) × (validate f u ≡ ok v)) ⊎ (v ≡ default f)

-- One attribute for each field, in the order of declaration.
abbrev pub AreKept : Fields → Attributes → Type 0
AreKept no_fields bare = Unit
AreKept no_fields (attribute _ _ _) = ⊥
AreKept (declare _ _ _) bare = ⊥
AreKept (declare k f fs) (attribute j v a) = (j ≡ k) × IsKept f v × AreKept fs a

validated :
    (f : Field) {A : Type 0} (m : Result A) (g : A → Value) (v : Value)
    → (m >>= λ a. validate f (g a)) ≡ ok v
    → IsKept f v
validated f m g v h = let (a, e, p) = >>=-eq-ok m _ h in inl (g a, p)

ok_inj : {x y : Value} → ok x ≡ ok y → x ≡ y
ok_inj e = cc

init_field-IsKept : (f : Field) (o : Option Value) (v : Value) → init_field f o ≡ ok v → IsKept f v
unfolding construct
init_field-IsKept (record_field c o a) none v h = inl (_, h)
init_field-IsKept f none v h = inr (sym (ok_inj h))
init_field-IsKept (record_field c o a) (some (Value.dict d)) v h =
    let (kwargs, _, h') = >>=-eq-ok (keywords d) _ h in
    validated (record_field c o a) (construct c kwargs) (λ x. x) v h'
init_field-IsKept (array (record_field c o a) p) (some (Value.list (cons (Value.dict d) xs))) v h =
    validated (array (record_field c o a) p) (init_items (construct c) (cons (Value.dict d) xs))
      Value.list v h
init_field-IsKept (mapping (record_field c o a) p) (some (Value.dict (entry k (Value.dict d) r))) v
      h =
    validated (mapping (record_field c o a) p)
      (init_entries (construct c) (entry k (Value.dict d) r)) Value.dict v h
init_field-IsKept f (some u) v h = inl (u, h)

init_fields-AreKept :
    (fs : Fields) (kwargs a : Attributes) → init_fields fs kwargs ≡ ok a → AreKept fs a
unfolding construct
init_fields-AreKept no_fields kwargs a h = let e : bare ≡ a = cc in subst (AreKept no_fields) e tt
init_fields-AreKept (declare k f fs) kwargs a h =
    let (v, one, h₁) = >>=-eq-ok (init_field f (argument k kwargs)) _ h in
    let (rest, others, h₂) = >>=-eq-ok (init_fields fs kwargs) _ h₁ in
    let e : attribute k v rest ≡ a = cc in
    subst (AreKept (declare k f fs)) e (
      refl,
      init_field-IsKept f (argument k kwargs) v one,
      init_fields-AreKept fs kwargs rest others,
    )

-- An instance, with attributes as they are declared.
abbrev pub HoldsKept : Fields → Value → Type 0
HoldsKept fs (Value.object _ _ a) = AreKept fs a
HoldsKept fs _ = ⊥

-- Whatever a class of records is called with, the instance that it returns has exactly the declared
-- attributes, in order, and each holds a value that the field's validation returned, or its default.
pub construct-HoldsKept :
    (c : RecordClass) (kwargs : Attributes) (v : Value)
    → construct c kwargs ≡ ok v
    → HoldsKept (class_fields c) v
unfolding construct
construct-HoldsKept (class i b n ns s fs) kwargs v h = on_self (get_attribute "self" kwargs) h
  where
    built : Result Value
    built = do
      a ← init_fields fs kwargs
      ok (Value.object (class i b n ns s fs) (init_options kwargs) a)

    on_self :
        (self : Option Value)
        → (let r : Result Value = elim self [ some _ ↦ raise type_error | none ↦ built ] in r)
          ≡ ok v
        → HoldsKept fs v
    on_self (some _) e = cc
    on_self none e =
        let (a, made, e') = >>=-eq-ok (init_fields fs kwargs) _ e in
        let q : Value.object (class i b n ns s fs) (init_options kwargs) a ≡ v = cc in
        subst (HoldsKept fs) q (init_fields-AreKept fs kwargs a made)

assign-AreKept :
    (fs : Fields) (a : Attributes) (k : String) (f : Field) (u w : Value)
    → find_field k fs ≡ some f
    → validate f u ≡ ok w
    → AreKept fs a
    → AreKept fs (assign k w a)
unfolding find_field assign
assign-AreKept no_fields bare k f u w found valid h = cc
assign-AreKept no_fields (attribute _ _ _) k f u w found valid h = absurd h
assign-AreKept (declare _ _ _) bare k f u w found valid h = absurd h
assign-AreKept (declare i g fs) (attribute j v a) k f u w found valid (same, one, rest) =
    elim (Bool-cases (str_eq k i)) [
      | inl e ↦ let is : g ≡ f = ground arith in rw same (rw e (refl, inl (u, rw is valid), rest))
      | inr e ↦
          let later : find_field k fs ≡ some f = ground arith in
          rw same (rw e (refl, one, assign-AreKept fs a k f u w later valid rest))
    ]

set_field-HoldsKept :
    (c : RecordClass) (o : Options) (a : Attributes) (k : String) (u v : Value)
    (found : Option Field)
    → find_field k (class_fields c) ≡ found
    → AreKept (class_fields c) a
    → set_field c o a k u found ≡ ok v
    → HoldsKept (class_fields c) v
set_field-HoldsKept c o a k u v none e kept h = cc
set_field-HoldsKept c o a k u v (some f) e kept h =
    let (w, valid, made) = >>=-eq-ok (validate f u) _ h in
    let q : Value.object c o (assign k w a) ≡ v = cc in
    subst (HoldsKept (class_fields c)) q (assign-AreKept (class_fields c) a k f u w e valid kept)

-- What holds of each result that a chain of tests may give holds of the result that it gives.
chain :
    (P : Value → Type 0) (p q s : Bool) (x y z : Value) (r : Result Value) (v : Value)
    → P x
    → P y
    → P z
    → (r ≡ ok v → P v)
    → (if p then ok x else if q then ok y else if s then ok z else r) ≡ ok v
    → P v
chain P true q s x y z r v px py pz rest h = subst P (ok_inj h) px
chain P false true s x y z r v px py pz rest h = subst P (ok_inj h) py
chain P false false true x y z r v px py pz rest h = subst P (ok_inj h) pz
chain P false false false x y z r v px py pz rest h = rest h

-- Setting an attribute of an instance whose attributes are as declared either raises or gives an
-- instance whose attributes are again exactly the declared ones, each with a value that the field's
-- validation returned, or its default.
pub set_attribute-HoldsKept :
    (c : RecordClass) (o : Options) (a : Attributes) (k : String) (u v : Value)
    → AreKept (class_fields c) a
    → set_attribute c o a k u ≡ ok v
    → HoldsKept (class_fields c) v
unfolding set_attribute
set_attribute-HoldsKept c (options d rd r) a k u v kept h =
    chain (HoldsKept (class_fields c)) (str_eq k "_default") (str_eq k "_required_default")
      (str_eq k "_required") (Value.object c (options u rd r) a) (Value.object c (options d u r) a)
      (Value.object c (options d rd u) a)
      (set_field c (options d rd r) a k u (find_field k (class_fields c))) v kept kept kept
      (set_field-HoldsKept c (options d rd r) a k u v (find_field k (class_fields c)) refl kept) h
