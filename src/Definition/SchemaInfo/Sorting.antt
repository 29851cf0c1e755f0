-- ===== src/Definition/SchemaInfo/Sorting.antt =====
-- The order of the fields in the schema of a class with `_sorted_fields` (pulsar/schema/definition.py).
use mathlib.Core.List.{Permᴰ}
use mathlib.Core.List.Permᴰ.{nil, cons, swap, trans}
use pulsar_client_python.Base.{
  ℕ, String, ◌++◌, contains, ◌≡◌, ◌≢◌, refl, ◌∙◌, sym, ap, true, List, [], ◌∷◌, All, Option, inl,
  inr, Bool-cases, if◌then◌else◌,
}
use pulsar_client_python.Base.Order.{text_lt, text_lt_flip, text_lt_asymm, text_lt_between}
use pulsar_client_python.Python.Value.{Fields, Field, no_fields, declare, class}
use pulsar_client_python.Definition.SchemaInfo.{
  Entry, Info, insert_entry, sort_entries, ordered, record_info, entries_of, class_info, full_name,
  word, record_of, run_entries,
}
use mathlib.Core.Path.{subst}

module _ {ℓ κ} {A : Type ℓ} where
  All-perm : (P : A → Type κ) (xs ys : List A) → Permᴰ xs ys → All P xs → All P ys
  All-perm P _ _ nil h = tt
  All-perm P _ _ (cons {l₁ = xs} {l₂ = ys} e d) (p, h) = (subst P e p, All-perm P xs ys d h)
  All-perm P _ _ (swap e e') (p, (q, h)) = (subst P e' q, (subst P e p, h))
  All-perm P _ _ (trans {l₁ = xs} {l₂ = ys} {l₃ = zs} d d') h =
      All-perm P ys zs d' (All-perm P xs ys d h)

-- No two of the entries have the same name.
abbrev HasDistinctNames : List Entry → Type 0
HasDistinctNames [] = Unit
HasDistinctNames (e ∷ es) = All (λ (f : Entry). e.name ≢ f.name) es × HasDistinctNames es

HasDistinctNames-perm :
    (xs ys : List Entry) → Permᴰ xs ys → HasDistinctNames xs → HasDistinctNames ys
HasDistinctNames-perm _ _ nil h = tt
HasDistinctNames-perm _ _ (cons {l₁ = xs} {l₂ = ys} e d) (p, h) = (
  All-perm _ xs ys d (subst (λ (a : Entry). All (λ (f : Entry). a.name ≢ f.name) xs) e p),
  HasDistinctNames-perm xs ys d h,
)
HasDistinctNames-perm _ _ (swap {a} {b} {a'} {b'} {l} e e') ((p, ps), (qs, h)) =
    let first : (b.name ≢ a.name) × All (λ (f : Entry). b.name ≢ f.name) l =
      ((λ same. p (sym same)), qs) in
    subst (λ (x : Entry). HasDistinctNames (a' ∷ x ∷ l)) e
      (subst (λ (y : Entry). HasDistinctNames (y ∷ a ∷ l)) e' (first, (ps, h)))
HasDistinctNames-perm _ _ (trans {l₁ = xs} {l₂ = ys} {l₃ = zs} d d') h =
    HasDistinctNames-perm ys zs d' (HasDistinctNames-perm xs ys d h)

insert_entry_comm :
    (a b : Entry) (es : List Entry)
    → a.name ≢ b.name
    → insert_entry a (insert_entry b es) ≡ insert_entry b (insert_entry a es)
unfolding insert_entry
insert_entry_comm a b [] ne = elim (Bool-cases (text_lt a.name b.name)) [
  | inl e ↦ let e' = text_lt_asymm a.name b.name e in rw (e, e') refl
  | inr e ↦ let e' = text_lt_flip a.name b.name ne e in rw (e, e') refl
]
insert_entry_comm a b (f ∷ es) ne = elim (Bool-cases (text_lt f.name a.name)) [
  | inl p ↦ elim (Bool-cases (text_lt f.name b.name)) [
    | inl q ↦ rw (p, q, p) (ap (λ (fs : List Entry). f ∷ fs) (insert_entry_comm a b es ne))
    | inr q ↦ let ba = text_lt_between f.name b.name a.name p q in rw (p, q, ba, p) refl
  ]
  | inr p ↦ elim (Bool-cases (text_lt f.name b.name)) [
    | inl q ↦ let ab = text_lt_between f.name a.name b.name q p in rw (p, q, ab, p) refl
    | inr q ↦ elim (Bool-cases (text_lt a.name b.name)) [
      | inl ab ↦ let ba = text_lt_asymm a.name b.name ab in rw (p, q, ab, ba) refl
      | inr ab ↦ let ba = text_lt_flip a.name b.name ne ab in rw (p, q, ab, ba, p) refl
    ]
  ]
]

sort_entries_perm :
    (xs ys : List Entry) → Permᴰ xs ys → HasDistinctNames xs → sort_entries xs ≡ sort_entries ys
unfolding sort_entries
sort_entries_perm _ _ nil h = refl
sort_entries_perm _ _ (cons {a} {b} {l₁ = xs} {l₂ = ys} e d) (p, h) =
    rw e (ap (insert_entry b) (sort_entries_perm xs ys d h))
sort_entries_perm _ _ (swap {a} {b} {a'} {b'} {l} e e') ((p, _), _) =
    rw (← e, ← e') (insert_entry_comm a b (sort_entries l) p)
sort_entries_perm _ _ (trans {l₁ = xs} {l₂ = ys} {l₃ = zs} d d') h =
    sort_entries_perm xs ys d h ∙ sort_entries_perm ys zs d' (HasDistinctNames-perm xs ys d h)

-- `cls._fields` as the pairs of names and fields, in the order of declaration.
abbrev pub items : Fields → List (String × Field)
items no_fields = []
items (declare k f fs) = (k, f) ∷ items fs

-- The fields have different names, as the keys of a dict have.
abbrev pub HasDistinctKeys : List (String × Field) → Type 0
HasDistinctKeys [] = Unit
HasDistinctKeys ((k, f) ∷ fs) = All (λ (g : String × Field). k ≢ g.0) fs × HasDistinctKeys fs

item_entries : List (String × Field) → List Entry
item_entries [] = []
item_entries ((k, f) ∷ fs) = entries_of (declare k f no_fields) ++ item_entries fs

item_entries-items : (fs : Fields) → item_entries (items fs) ≡ entries_of fs
unfolding item_entries entries_of
item_entries-items no_fields = refl
item_entries-items (declare k f fs) =
    ap (λ (es : List Entry). entries_of (declare k f no_fields) ++ es) (item_entries-items fs)

item_entries_perm :
    (xs ys : List (String × Field)) → Permᴰ xs ys → Permᴰ (item_entries xs) (item_entries ys)
unfolding item_entries entries_of
item_entries_perm _ _ nil = nil
item_entries_perm _ _ (cons {l₁ = xs} {l₂ = ys} e d) = cons (rw e refl) (item_entries_perm xs ys d)
item_entries_perm _ _ (swap e e') = swap (rw e refl) (rw e' refl)
item_entries_perm _ _ (trans {l₁ = xs} {l₂ = ys} {l₃ = zs} d d') =
    trans (item_entries_perm xs ys d) (item_entries_perm ys zs d')

item_entries-All :
    (k : String) (xs : List (String × Field))
    → All (λ (g : String × Field). k ≢ g.0) xs
    → All (λ (e : Entry). k ≢ e.name) (item_entries xs)
unfolding item_entries entries_of
item_entries-All k [] h = tt
item_entries-All k (x ∷ xs) (p, h) = (p, item_entries-All k xs h)

item_entries-HasDistinctNames :
    (xs : List (String × Field)) → HasDistinctKeys xs → HasDistinctNames (item_entries xs)
unfolding item_entries entries_of
item_entries-HasDistinctNames [] h = tt
item_entries-HasDistinctNames ((k, f) ∷ xs) (p, h) =
    (item_entries-All k xs p, item_entries-HasDistinctNames xs h)

-- The schema of a class with these entries, in this order.
abbrev described : String → Option String → List Entry → Info
described name namespace es names =
    if contains (full_name namespace name) names
    then (word (full_name namespace name), names)
    else let (columns, names') = run_entries es (full_name namespace name ∷ names) in
      (record_of name namespace columns, names')

-- Two classes of the same name and namespace with `_sorted_fields` that declare the same fields, in any
-- two orders, have the same schema, and leave the same names defined, after whatever schemas were
-- generated before. The names of the fields are different.
pub class_info-items_perm :
    (i j : ℕ) (bases bases' : List ℕ) (name : String) (namespace : Option String) (fs gs : Fields)
    → Permᴰ (items fs) (items gs)
    → HasDistinctKeys (items fs)
    → class_info (class i bases name namespace true fs)
      ≡ class_info (class j bases' name namespace true gs)
unfolding class_info record_info ordered
class_info-items_perm i j bases bases' name namespace fs gs perm distinct =
    let same =
      ap sort_entries (sym (item_entries-items fs))
      ∙ sort_entries_perm (item_entries (items fs)) (item_entries (items gs))
          (item_entries_perm (items fs) (items gs) perm)
          (item_entries-HasDistinctNames (items fs) distinct)
      ∙ ap sort_entries (item_entries-items gs) in
    ap (described name namespace) same
