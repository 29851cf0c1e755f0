-- ===== src/Functions/Serde/ComingBack.antt =====
-- Which data `IdentitySerDe` gives back.
use pulsar_client_python.Base.{
  ℕ, String, ◌≡◌, refl, ◌∙◌, sym, ◌↔◌, Option, none, some, arith, inl, inr, Option-cases,
}
use pulsar_client_python.Base.Int.{ℤ}
use pulsar_client_python.Python.Result.{ok, >>=-eq-ok}
use pulsar_client_python.Python.Utf8.{Bytes, encode, decode}
use pulsar_client_python.Python.Utf8.RoundTrip.{decode-encode}
use pulsar_client_python.Python.Value.{Value}
use pulsar_client_python.Functions.Serde.{
  Datum, of, complex, NumberTexts, first_of, serialize, deserialize, ComesBack,
}

first_of-int :
    (s : String) (i : Option ℤ) (f : Option ℕ) (c : Option (ℕ × ℕ)) (n : ℤ)
    → (first_of s i f c ≡ of (Value.int n)) ↔ (i ≡ some n)
first_of-int s (some m) f c n = (λ h. cc, λ h. cc)
first_of-int s none (some x) c n = (λ h. cc, λ h. cc)
first_of-int s none none (some (x, y)) n = (λ h. cc, λ h. cc)
first_of-int s none none none n = (λ h. cc, λ h. cc)

first_of-float :
    (s : String) (i : Option ℤ) (f : Option ℕ) (c : Option (ℕ × ℕ)) (n : ℕ)
    → (first_of s i f c ≡ of (Value.float n)) ↔ ((i ≡ none) × (f ≡ some n))
first_of-float s (some m) f c n = (λ h. cc, λ h. cc h.0)
first_of-float s none (some x) c n = (λ h. (refl, cc), λ h. cc h.1)
first_of-float s none none (some (x, y)) n = (λ h. cc, λ h. cc h.1)
first_of-float s none none none n = (λ h. cc, λ h. cc h.1)

first_of-complex :
    (s : String) (i : Option ℤ) (f : Option ℕ) (c : Option (ℕ × ℕ)) (m n : ℕ)
    → (first_of s i f c ≡ complex m n) ↔ ((i ≡ none) × (f ≡ none) × (c ≡ some (m, n)))
first_of-complex s (some k) f c m n = (λ h. cc, λ h. cc h.0)
first_of-complex s none (some x) c m n = (λ h. cc, λ h. cc h.1)
first_of-complex s none none (some (x, y)) m n =
    (λ h. (refl, refl, ground arith), λ h. ground (arith, h.2))
first_of-complex s none none none m n = (λ h. cc, λ h. cc h.2)

first_of-text :
    (s : String) (i : Option ℤ) (f : Option ℕ) (c : Option (ℕ × ℕ))
    → (first_of s i f c ≡ of (Value.str s)) ↔ ((i ≡ none) × (f ≡ none) × (c ≡ none))
first_of-text s (some k) f c = (λ h. cc, λ h. cc h.0)
first_of-text s none (some x) c = (λ h. cc, λ h. cc h.1)
first_of-text s none none (some (x, y)) = (λ h. cc, λ h. cc h.2)
first_of-text s none none none = (λ h. (refl, refl, refl), λ h. refl)

first_of-ne-bytes :
    (s : String) (i : Option ℤ) (f : Option ℕ) (c : Option (ℕ × ℕ)) (b : Bytes)
    → first_of s i f c ≡ of (Value.bytes b)
    → ⊥
first_of-ne-bytes s (some k) f c b h = cc
first_of-ne-bytes s none (some x) c b h = cc
first_of-ne-bytes s none none (some (x, y)) b h = cc
first_of-ne-bytes s none none none b h = cc

module _ (t : NumberTexts) where
  deserialize-encode :
      (s : String) (b : Bytes)
      → encode s ≡ b
      → deserialize t b ≡ first_of s (t.int_of s) (t.float_of s) (t.complex_of s)
  unfolding deserialize
  deserialize-encode s b e = rw (← e) (rw (decode-encode s, deserialize) refl)

  -- What holds of the datum that is read holds of what is deserialized.
  through :
      (s : String) (b : Bytes) (d : Datum) {P : Type 0}
      → encode s ≡ b
      → (first_of s (t.int_of s) (t.float_of s) (t.complex_of s) ≡ d) ↔ P
      → (deserialize t b ≡ d) ↔ P
  through s b d e (to, from) =
      (λ h. to (sym (deserialize-encode s b e) ∙ h), λ p. deserialize-encode s b e ∙ from p)

  int_back :
      (n : ℤ) (s : String) (b : Bytes)
      → t.int_text n ≡ ok s
      → encode s ≡ b
      → (deserialize t b ≡ of (Value.int n)) ↔ ComesBack t (of (Value.int n))
  int_back n s b e q =
      let (to, from) = through s b (of (Value.int n)) q (first_of-int s _ _ _ n) in
      (λ h. (s, e, to h), λ c. let same : c.0 ≡ s = cc (e, c.1) in from (rw (← same) c.2))

  bytes_back : (b : Bytes) → (deserialize t b ≡ of (Value.bytes b)) ↔ (decode b ≡ none)
  unfolding deserialize
  bytes_back b = elim (Option-cases (decode b)) [
    | inl e ↦ (λ h. e, λ c. rw (e, deserialize) refl)
    | inr (s, e) ↦ (
      λ h. absurd (
          first_of-ne-bytes s (t.int_of s) (t.float_of s) (t.complex_of s) b
            (rw (e, deserialize) at h)),
      λ c. cc c,
    )
  ]

  -- A datum that `IdentitySerDe` serializes is deserialized to itself exactly if the text of a number
  -- is read as that number by its own type and as none that is tried before, if a text is read as no
  -- number, and if bytes are not the UTF-8 of any text.
  pub deserialize-serialize :
      (d : Datum) (b : Bytes) → serialize t d ≡ ok b → (deserialize t b ≡ d) ↔ ComesBack t d
  unfolding serialize
  deserialize-serialize (of (Value.int n)) b h =
      let (s, e, p) = >>=-eq-ok (t.int_text n) _ h in
      let q : encode s ≡ b = cc in int_back n s b e q
  deserialize-serialize (of (Value.float x)) b h =
      through (t.float_text x) b _ (cc) (first_of-float (t.float_text x) _ _ _ x)
  deserialize-serialize (complex x y) b h =
      through (t.complex_text x y) b _ (cc) (first_of-complex (t.complex_text x y) _ _ _ x y)
  deserialize-serialize (of (Value.str s)) b h = through s b _ (cc) (first_of-text s _ _ _)
  deserialize-serialize (of (Value.bytes c)) b h = let e : c ≡ b = cc in rw (← e) (bytes_back c)
  deserialize-serialize d b h = cc
