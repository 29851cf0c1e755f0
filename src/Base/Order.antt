-- ===== src/Base/Order.antt =====
-- The order of texts, by the numbers of their characters.
use Prim.Native.Nat.{Ordering, compare as compare_ℕ}
use Prim.Native.Char.{code}
use Prim.Native.String.{[], ◌∷◌, compare, then}
use Prim.Native.String.compare
use native.Mathlib.Omega.{compare-lt, compare-eq, compare-gt}
use text.Mathlib.Text.{is_lt}
use text.Mathlib.TextEquality.{path_by_compare}
use pulsar_client_python.Base.{
  ℕ, String, ◌≡◌, ◌≢◌, refl, ◌∙◌, sym, Bool, true, false, arith, inl, inr, ◌⊎◌,
}

-- Whether a text stands before another.
abbrev pub text_lt : String → String → Bool
text_lt s t = is_lt (compare s t)

abbrev flip : Ordering → Ordering
flip Ordering.lt = Ordering.gt
flip Ordering.eq = Ordering.eq
flip Ordering.gt = Ordering.lt

Ordering-cases : (o : Ordering) → (o ≡ Ordering.lt) ⊎ ((o ≡ Ordering.eq) ⊎ (o ≡ Ordering.gt))
Ordering-cases Ordering.lt = inl refl
Ordering-cases Ordering.eq = inr (inl refl)
Ordering-cases Ordering.gt = inr (inr refl)

flips : (m n : ℕ) (o p : Ordering) → compare_ℕ m n ≡ o → compare_ℕ n m ≡ p → p ≡ flip o
flips m n Ordering.lt Ordering.lt d e = absurd (omega (arith, compare-lt m n d, compare-lt n m e))
flips m n Ordering.lt Ordering.eq d e = absurd (omega (arith, compare-lt m n d, compare-eq n m e))
flips m n Ordering.lt Ordering.gt d e = refl
flips m n Ordering.eq Ordering.lt d e = absurd (omega (arith, compare-eq m n d, compare-lt n m e))
flips m n Ordering.eq Ordering.eq d e = refl
flips m n Ordering.eq Ordering.gt d e = absurd (omega (arith, compare-eq m n d, compare-gt n m e))
flips m n Ordering.gt Ordering.lt d e = refl
flips m n Ordering.gt Ordering.eq d e = absurd (omega (arith, compare-gt m n d, compare-eq n m e))
flips m n Ordering.gt Ordering.gt d e = absurd (omega (arith, compare-gt m n d, compare-gt n m e))

then-flip : (o p : Ordering) → then (flip o) (flip p) ≡ flip (then o p)
then-flip Ordering.lt p = refl
then-flip Ordering.eq p = refl
then-flip Ordering.gt p = refl

compare-flip : (s t : String) → compare t s ≡ flip (compare s t)
compare-flip [] [] = rw (compare.nil-nil) refl
compare-flip [] (d ∷ t) = rw (compare.nil-cons d t, compare.cons-nil d t) refl
compare-flip (c ∷ s) [] = rw (compare.nil-cons c s, compare.cons-nil c s) refl
compare-flip (c ∷ s) (d ∷ t) =
    rw
      (
        compare.cons-cons c d s t,
        compare.cons-cons d c t s,
        compare-flip s t,
        flips (code c) (code d) _ _ refl refl,
      )
      (then-flip (compare_ℕ (code c) (code d)) (compare s t))

-- Two texts that differ: one stands before the other.
pub text_lt_flip : (s t : String) → s ≢ t → text_lt s t ≡ false → text_lt t s ≡ true
text_lt_flip s t ne h = elim (Ordering-cases (compare s t)) [
  | inl e ↦ cc
  | inr (inl e) ↦ absurd (ne (path_by_compare s t e))
  | inr (inr e) ↦ rw (compare-flip s t, e) refl
]

pub text_lt_asymm : (s t : String) → text_lt s t ≡ true → text_lt t s ≡ false
text_lt_asymm s t h = elim (Ordering-cases (compare s t)) [
  | inl e ↦ rw (compare-flip s t, e) refl
  | inr (inl e) ↦ rw (compare-flip s t, e) refl
  | inr (inr e) ↦ cc
]

then_cases :
    (o p : Ordering)
    → then o p ≡ Ordering.lt
    → (o ≡ Ordering.lt) ⊎ ((o ≡ Ordering.eq) × (p ≡ Ordering.lt))
then_cases Ordering.lt p h = inl refl
then_cases Ordering.eq p h = inr (refl, h)
then_cases Ordering.gt p h = cc

ℕ_lt_trans :
    (m n k : ℕ)
    → compare_ℕ m n ≡ Ordering.lt
    → compare_ℕ n k ≡ Ordering.lt
    → compare_ℕ m k ≡ Ordering.lt
ℕ_lt_trans m n k p q = elim (Ordering-cases (compare_ℕ m k)) [
  | inl e ↦ e
  | inr (inl e) ↦ absurd (omega (arith, compare-lt m n p, compare-lt n k q, compare-eq m k e))
  | inr (inr e) ↦ absurd (omega (arith, compare-lt m n p, compare-lt n k q, compare-gt m k e))
]

compare-lt_trans :
    (s t u : String)
    → compare s t ≡ Ordering.lt
    → compare t u ≡ Ordering.lt
    → compare s u ≡ Ordering.lt
compare-lt_trans [] [] u p q = q
compare-lt_trans [] (d ∷ t) [] p q = let e = compare.cons-nil d t in cc
compare-lt_trans [] (d ∷ t) (e ∷ u) p q = compare.nil-cons e u
compare-lt_trans (c ∷ s) [] u p q = let e = compare.cons-nil c s in cc
compare-lt_trans (c ∷ s) (d ∷ t) [] p q = let e = compare.cons-nil d t in cc
compare-lt_trans (c ∷ s) (d ∷ t) (e ∷ u) p q =
    let below = then_cases _ _ (sym (compare.cons-cons c d s t) ∙ p) in
    let above = then_cases _ _ (sym (compare.cons-cons d e t u) ∙ q) in
    rw (compare.cons-cons c e s u) (elim below [
      | inl a ↦ elim above [
        | inl b ↦ rw (ℕ_lt_trans (code c) (code d) (code e) a b) refl
        | inr (b, _) ↦ rw (← compare-eq (code d) (code e) b) (rw a refl)
      ]
      | inr (a, a') ↦ elim above [
        | inl b ↦ rw (compare-eq (code c) (code d) a) (rw b refl)
        | inr (b, b') ↦ rw (compare-eq (code c) (code d) a) (rw b (compare-lt_trans s t u a' b'))
      ]
    ])

pub text_lt_trans : (s t u : String) → text_lt s t ≡ true → text_lt t u ≡ true → text_lt s u ≡ true
text_lt_trans s t u p q = elim (Ordering-cases (compare s t)) [
  | inl a ↦ elim (Ordering-cases (compare t u)) [
    | inl b ↦ rw (compare-lt_trans s t u a b) refl
    | inr (inl b) ↦ cc
    | inr (inr b) ↦ cc
  ]
  | inr (inl a) ↦ cc
  | inr (inr a) ↦ cc
]

-- What does not stand before a text that a third stands before: it stands before it, too.
pub text_lt_between :
    (s t u : String) → text_lt s u ≡ true → text_lt s t ≡ false → text_lt t u ≡ true
text_lt_between s t u p q = elim (Ordering-cases (compare s t)) [
  | inl e ↦ cc
  | inr (inl e) ↦ rw (← path_by_compare s t e) p
  | inr (inr e) ↦ text_lt_trans t s u (rw (compare-flip s t, e) refl) p
]
