-- ===== src/Prelude/Results.antt =====
-- Results of code that can throw or fail an assertion, as a monad for do blocks.
use mathlib.Core.Path.{◌≡◌, refl, ap}
use mathlib.Core.Logic.{◌⊎◌, inl, inr}
use mathlib.Core.Bool.{Bool, true, false}

-- `assertion` is a failed KMM_ASSERT, which ends the program. The others are exceptions.
pub data Error : Type 0 where
  assertion out_of_host_memory out_of_device_memory deleted_request not_found already_exists : Error
  poisoned gpu_failure out_of_range overflow invalid_argument length_error not_locked : Error

-- What such code returns: an error, or the value it was to compute.
pub data Result {ℓ} (Value : Type ℓ) : Type ℓ where
  err : (raised : Error) → Result Value
  ok : (value : Value) → Result Value

-- The rest of a computation does not run after an error.
infixl 5 ◌>>=◌ ◌>>◌
abbrev pub ◌>>=◌ {ℓ κ} :
    {X : Type ℓ} {Y : Type κ} (first : Result X) (rest : X → Result Y) → Result Y
first >>= rest = elim first [ err e ↦ err e | ok x ↦ rest x ]

-- A check, then the rest.
abbrev pub ◌>>◌ {κ} : {Y : Type κ} (check : Result (Unit {0})) (rest : Result Y) → Result Y
check >> rest = elim check [ err e ↦ err e | ok _ ↦ rest ]

-- KMM_ASSERT of utils/panic.hpp.
abbrev pub kmm_assert : Bool → Result (Unit {0})
kmm_assert true = ok tt
kmm_assert false = err assertion

pub Result-cases {ℓ} :
    {A : Type ℓ} (r : Result A) → ((e : Error) × (r ≡ err e)) ⊎ ((a : A) × (r ≡ ok a))
Result-cases (ok a) = inr (a, refl)
Result-cases (err e) = inl (e, refl)

-- A chain that ends well has a first step that did.
pub >>=-success {ℓ κ} :
    {X : Type ℓ} {Y : Type κ} {y : Y} (rest : X → Result Y) (first : Result X)
    → first >>= rest ≡ ok y
    → (x : X) × (rest x ≡ ok y) × (first ≡ ok x)
>>=-success rest (ok x) h = (x, h, refl)
>>=-success rest (err e) h = absurd (cc h)

pub >>=-err {ℓ κ} :
    {A : Type ℓ} {B : Type κ} {m : Result A} {e : Error} (f : A → Result B)
    → m ≡ err e
    → (m >>= f) ≡ err e
>>=-err f h = ap (λ r. r >>= f) h

pub ok-injective {ℓ} : {A : Type ℓ} {a b : A} → ok a ≡ ok b → a ≡ b
ok-injective {a = a} e = ap (λ r. elim r [ ok x ↦ x | err x ↦ a ]) e

abbrev pub is_ok {ℓ} : {A : Type ℓ} → Result A → Bool
is_ok (ok a) = true
is_ok (err e) = false

pub is_ok-value {ℓ} : {A : Type ℓ} (r : Result A) → is_ok r ≡ true → (a : A) × (r ≡ ok a)
is_ok-value (ok a) h = (a, refl)
is_ok-value (err e) h = absurd (cc h)
