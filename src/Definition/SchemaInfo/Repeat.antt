-- ===== src/Definition/SchemaInfo/Repeat.antt =====
-- A class of records is described where it is first met; from then on its name stands for it.
use pulsar_client_python.Base.{
  String, ◌≡◌, Bool, true, false, Option, List, [], ◌∷◌, All, contains, arith, str_eq_refl,
}
use pulsar_client_python.Python.Value.{
  EnumType, RecordClass, Fields, Field, class, no_fields, declare, scalar, custom_enum, array,
  mapping, record_field,
}
use pulsar_client_python.Definition.SchemaInfo.{
  word, Names, Info, full_name, Entry, insert_entry, sort_entries, ordered, run_entries, enum_info,
  element_info, record_info, class_info, entries_of, field_info,
}

-- A call of `schema_info` takes no name away.
Grows : Info → Type 0
Grows info =
    (s : String) (names : Names) → contains s names ≡ true → contains s (info names).1 ≡ true

abbrev EntriesGrow : List Entry → Type 0
EntriesGrow es = All (λ (e : Entry). Grows e.info) es

insert_entry-EntriesGrow :
    (e : Entry) (es : List Entry) → Grows e.info → EntriesGrow es → EntriesGrow (insert_entry e es)
unfolding insert_entry
insert_entry-EntriesGrow e [] h hs = (h, tt)
insert_entry-EntriesGrow e (f ∷ fs) h hs = ground (arith, insert_entry-EntriesGrow e fs h hs.1)

sort_entries-EntriesGrow : (es : List Entry) → EntriesGrow es → EntriesGrow (sort_entries es)
unfolding sort_entries
sort_entries-EntriesGrow [] h = tt
sort_entries-EntriesGrow (e ∷ es) h =
    insert_entry-EntriesGrow e (sort_entries es) h.0 (sort_entries-EntriesGrow es h.1)

ordered-EntriesGrow :
    (sorted : Bool) (es : List Entry) → EntriesGrow es → EntriesGrow (ordered sorted es)
unfolding ordered
ordered-EntriesGrow true es h = sort_entries-EntriesGrow es h
ordered-EntriesGrow false es h = h

run_entries-grows :
    (es : List Entry) (s : String) (names : Names)
    → EntriesGrow es
    → contains s names ≡ true
    → contains s (run_entries es names).1 ≡ true
unfolding run_entries Grows
run_entries-grows [] s names h m = m
run_entries-grows (e ∷ es) s names h m = run_entries-grows es s (e.info names).1 h.1 (h.0 s names m)

record_info-Grows :
    (name : String) (namespace : Option String) (sorted : Bool) (es : List Entry)
    → EntriesGrow es
    → Grows (record_info name namespace sorted es)
unfolding record_info Grows
record_info-Grows name namespace sorted es h s names m = ground (
  arith,
  run_entries-grows (ordered sorted es) s (full_name namespace name ∷ names)
      (ordered-EntriesGrow sorted es h),
)

enum_info-Grows : (e : EnumType) → Grows (enum_info e)
unfolding enum_info Grows
enum_info-Grows e s names m = ground arith

element_info-Grows : (f : Field) (info : Info) → Grows info → Grows (element_info f info)
unfolding element_info Grows
element_info-Grows (scalar s o) info h = λ t names m. m
element_info-Grows (custom_enum e o) info h = λ t names m. m
element_info-Grows (array f o) info h = h
element_info-Grows (mapping f o) info h = h
element_info-Grows (record_field c o a) info h = h

mutual
  unfolding class_info Grows

  class_info-Grows : (c : RecordClass) → Grows (class_info c)
  class_info-Grows (class _ _ name namespace sorted fields) =
      record_info-Grows name namespace sorted (entries_of fields) (entries_of-EntriesGrow fields)

  entries_of-EntriesGrow : (fields : Fields) → EntriesGrow (entries_of fields)
  entries_of-EntriesGrow no_fields = tt
  entries_of-EntriesGrow (declare _ f fields) = (field_info-Grows f, entries_of-EntriesGrow fields)

  field_info-Grows : (f : Field) → Grows (field_info f)
  field_info-Grows (scalar s o) = λ t names m. m
  field_info-Grows (custom_enum e o) = enum_info-Grows e
  field_info-Grows (array f o) = element_info-Grows f (field_info f) (field_info-Grows f)
  field_info-Grows (mapping f o) = element_info-Grows f (field_info f) (field_info-Grows f)
  field_info-Grows (record_field c o a) = class_info-Grows c

abbrev pub class_full_name : RecordClass → String
class_full_name (class _ _ name namespace _ _) = full_name namespace name

-- The name of the class is one of those that are described behind a call.
record_info-names :
    (name : String) (namespace : Option String) (sorted : Bool) (es : List Entry) (names : Names)
    → EntriesGrow es
    → contains (full_name namespace name) (record_info name namespace sorted es names).1 ≡ true
unfolding record_info
record_info-names name namespace sorted es names h = ground (
  arith,
  str_eq_refl (full_name namespace name),
  run_entries-grows (ordered sorted es) (full_name namespace name)
      (full_name namespace name ∷ names) (ordered-EntriesGrow sorted es h),
)

record_info-defined :
    (name : String) (namespace : Option String) (sorted : Bool) (es : List Entry) (names : Names)
    → contains (full_name namespace name) names ≡ true
    → record_info name namespace sorted es names ≡ (word (full_name namespace name), names)
unfolding record_info
record_info-defined name namespace sorted es names h = rw h

-- After any schema that was generated behind the one of the class itself, the class is written as its
-- full name, and no name is added.
pub class_info-again :
    (c : RecordClass) (f : Field) (names : Names)
    → let later = (field_info f (class_info c names).1).1 in
      class_info c later ≡ (word (class_full_name c), later)
unfolding class_info Grows
class_info-again (class i b name namespace sorted fields) f names =
    record_info-defined name namespace sorted (entries_of fields) _ (
      field_info-Grows f (full_name namespace name) _ (
        record_info-names name namespace sorted (entries_of fields) names
          (entries_of-EntriesGrow fields)))
