-- ===== src/Python/Result.antt =====
-- A call that returns or raises. The class of an exception is kept, its message is not.
use pulsar_client_python.Base.{◌≡◌, refl, ◌⊎◌, inl, inr, Bool, true, false, Option, none, some}

pub data Error : Type 0 where
  type_error value_error attribute_error unicode_error runtime_error assertion_error : Error
  -- a bare `Exception`
  exception : Error
  -- raised by code that is not part of the package, such as the native client
  foreign : Error

pub data Result {κ} (B : Type κ) : Type κ where
  raise : Error → Result B
  ok : B → Result B

-- `if c: raise e`
abbrev pub raise_if : Bool → Error → Result (Unit {0})
raise_if true e = raise e
raise_if false e = ok tt

abbrev pub or_raise {ℓ} : {A : Type ℓ} → Option A → Error → Result A
or_raise none e = raise e
or_raise (some a) e = ok a

pub Result-cases {ℓ} :
    {A : Type ℓ} (r : Result A) → ((a : A) × (r ≡ ok a)) ⊎ ((e : Error) × (r ≡ raise e))
Result-cases (ok a) = inl (a, refl)
Result-cases (raise e) = inr (e, refl)

-- What stands behind a call runs only if the call returned.
infixl 5 ◌>>=◌
abbrev pub ◌>>=◌ {κ μ} :
    {A : Type κ} {B : Type μ} (call : Result A) (rest : A → Result B) → Result B
raise e >>= rest = raise e
ok value >>= rest = rest value

infixl 5 ◌>>◌
abbrev pub ◌>>◌ {κ} : {B : Type κ} (call : Result (Unit {0})) (rest : Result B) → Result B
call >> rest = call >>= λ _. rest

-- If the whole returned, the call did, and what stands behind it returned the same.
pub >>=-eq-ok {κ μ} :
    {A : Type κ} {B : Type μ} (call : Result A) (rest : A → Result B) {b : B}
    → (call >>= rest) ≡ ok b
    → (value : A) × (call ≡ ok value) × (rest value ≡ ok b)
>>=-eq-ok (raise e) rest returned = cc
>>=-eq-ok (ok value) rest returned = (value, refl, returned)
