-- ===== src/Prelude/Lists.antt =====
-- Lists measured and indexed by native numbers, under the library's names, and predicates and
-- tests over all members.
use Prim.Native.Nat.{ℕ, zero, suc, ◌+◌, ◌<◌}
use mathlib.Core.Path.{◌≡◌, refl, sym, ap, subst}
use mathlib.Core.Bool.{Bool, true, ◌&&◌}
use mathlib.Core.Logic.{◌≢◌}
use native.Mathlib.Nat.{zero-add}
use mathlib.Core.List.{List, [], ◌∷◌, ◌++◌, Memᴰ}
use mathlib.Core.Option.{Option, none, some}
use mathlib.Core.Option.{some-injective}
use native.Mathlib.Omega.{arith}
use kmm.Prelude.Tests.{if◌then◌else◌}

module _ {ℓ} {A : Type ℓ} where
  abbrev pub length : List A → ℕ
  length [] = 0
  length (x ∷ xs) = suc (length xs)

  abbrev pub get_elem? : List A → ℕ → Option A
  get_elem? [] i = none
  get_elem? (x ∷ xs) zero = some x
  get_elem? (x ∷ xs) (suc i) = get_elem? xs i

  -- A write out of bounds changes nothing.
  abbrev pub set : List A → ℕ → A → List A
  set [] i v = []
  set (x ∷ xs) zero v = v ∷ xs
  set (x ∷ xs) (suc i) v = x ∷ set xs i v

  abbrev pub take : ℕ → List A → List A
  take zero xs = []
  take (suc n) [] = []
  take (suc n) (x ∷ xs) = x ∷ take n xs

  abbrev pub all : (A → Bool) → List A → Bool
  all p [] = true
  all p (x ∷ xs) = p x && all p xs

  abbrev pub keep : (A → Bool) → List A → List A
  keep p [] = []
  keep p (x ∷ xs) = if p x then x ∷ keep p xs else keep p xs

  abbrev pub All {κ} : (A → Type κ) → List A → Type κ
  All P [] = Unit
  All P (x ∷ xs) = P x × All P xs

  pub length-append : (xs ys : List A) → length (xs ++ ys) ≡ length xs + length ys
  length-append [] ys = omega arith
  length-append (x ∷ xs) ys = omega (arith, length-append xs ys)

  pub all-append : (p : A → Bool) (xs ys : List A) → all p (xs ++ ys) ≡ (all p xs && all p ys)
  all-append p [] ys = refl
  all-append p (x ∷ xs) ys = ground (arith, all-append p xs ys)

  pub All-append {κ} : (P : A → Type κ) (xs ys : List A) → All P xs → All P ys → All P (xs ++ ys)
  All-append P [] ys hx hy = hy
  All-append P (x ∷ xs) ys hx hy = (hx.0, All-append P xs ys hx.1 hy)

  -- A test of all members after a write, where the new value passes if the old one does and `b`.
  pub all-set :
      (p : A → Bool) (b : Bool) (xs : List A) (i : ℕ) {x v : A}
      → get_elem? xs i ≡ some x
      → p v ≡ (p x && b)
      → all p (set xs i v) ≡ (b && all p xs)
  all-set p b [] i e h = absurd (cc)
  all-set p b (y ∷ xs) zero e h = ground arith
  all-set p b (y ∷ xs) (suc i) e h = ground (arith, all-set p b xs i e h)

  pub All-set {κ} :
      (P : A → Type κ) (xs : List A) (i : ℕ) (v : A) → All P xs → P v → All P (set xs i v)
  All-set P [] i v h hv = tt
  All-set P (y ∷ xs) zero v h hv = (hv, h.1)
  All-set P (y ∷ xs) (suc i) v h hv = (h.0, All-set P xs i v h.1 hv)

  pub All-get {κ} :
      (P : A → Type κ) (xs : List A) (i : ℕ) {x : A} → All P xs → get_elem? xs i ≡ some x → P x
  All-get P [] i h e = absurd (cc)
  All-get P (y ∷ xs) zero {x} h e = subst P (some-injective y x e) h.0
  All-get P (y ∷ xs) (suc i) h e = All-get P xs i h.1 e

  pub get_elem?-take :
      (n : ℕ) (xs : List A) (i : ℕ) {x : A}
      → get_elem? (take n xs) i ≡ some x
      → get_elem? xs i ≡ some x
  get_elem?-take zero xs i e = absurd (cc)
  get_elem?-take (suc n) [] i e = e
  get_elem?-take (suc n) (y ∷ xs) zero e = e
  get_elem?-take (suc n) (y ∷ xs) (suc i) e = get_elem?-take n xs i e

  pub take-length : (xs : List A) → take (length xs) xs ≡ xs
  take-length [] = refl
  take-length (x ∷ xs) = rw (take-length xs)

  -- A test of one more leading member.
  pub all-take-suc :
      (p : A → Bool) (n : ℕ) (xs : List A) {x : A}
      → get_elem? xs n ≡ some x
      → all p (take (suc n) xs) ≡ (p x && all p (take n xs))
  all-take-suc p zero [] e = absurd (cc)
  all-take-suc p (suc n) [] e = absurd (cc)
  all-take-suc p zero (y ∷ xs) e = ground arith
  all-take-suc p (suc n) (y ∷ xs) e = ground (arith, all-take-suc p n xs e)

  pub take-suc-none : (n : ℕ) (xs : List A) → get_elem? xs n ≡ none → take (suc n) xs ≡ take n xs
  take-suc-none zero [] e = refl
  take-suc-none (suc n) [] e = refl
  take-suc-none zero (y ∷ xs) e = absurd (cc)
  take-suc-none (suc n) (y ∷ xs) e = rw (take-suc-none n xs e)

module _ {ℓ} {A : Type ℓ} where
  pub length-set : (xs : List A) (i : ℕ) (v : A) → length (set xs i v) ≡ length xs
  length-set [] i v = refl
  length-set (x ∷ xs) zero v = refl
  length-set (x ∷ xs) (suc i) v = ap suc (length-set xs i v)

  pub get_elem?-lt : (xs : List A) (i : ℕ) {x : A} → get_elem? xs i ≡ some x → i < length xs
  get_elem?-lt [] i e = absurd (cc)
  get_elem?-lt (y ∷ xs) zero e = omega arith
  get_elem?-lt (y ∷ xs) (suc i) e = omega (arith, get_elem?-lt xs i e)

  pub get_elem?-set_self :
      (xs : List A) (i : ℕ) (v : A) → i < length xs → get_elem? (set xs i v) i ≡ some v
  get_elem?-set_self [] i v h = elim h [ ]
  get_elem?-set_self (x ∷ xs) zero v h = refl
  get_elem?-set_self (x ∷ xs) (suc i) v h = get_elem?-set_self xs i v (omega arith)

  pub get_elem?-set_ne :
      (xs : List A) (i j : ℕ) (v : A) → i ≢ j → get_elem? (set xs i v) j ≡ get_elem? xs j
  get_elem?-set_ne [] i j v h = refl
  get_elem?-set_ne (x ∷ xs) zero zero v h = absurd (h refl)
  get_elem?-set_ne (x ∷ xs) zero (suc j) v h = refl
  get_elem?-set_ne (x ∷ xs) (suc i) zero v h = refl
  get_elem?-set_ne (x ∷ xs) (suc i) (suc j) v h = get_elem?-set_ne xs i j v (λ e. h (ap suc e))

  -- Reading past a prefix.
  pub get_elem?-append_right :
      (xs ys : List A) (k : ℕ) → get_elem? (xs ++ ys) (length xs + k) ≡ get_elem? ys k
  get_elem?-append_right [] ys k = rw zero-add
  get_elem?-append_right (x ∷ xs) ys k =
      let e : suc (length xs) + k ≡ suc (length xs + k) = omega arith in
      rw e (get_elem?-append_right xs ys k)

module _ {ℓ} {A : Type ℓ} where
  pub All-Memᴰ {κ} : (P : A → Type κ) {x : A} (xs : List A) → All P xs → Memᴰ x xs → P x
  All-Memᴰ P [] h m = elim m [ ]
  All-Memᴰ P (y ∷ xs) h (Memᴰ.head e) = subst P (sym e) h.0
  All-Memᴰ P (y ∷ xs) h (Memᴰ.tail m) = All-Memᴰ P xs h.1 m

  pub All-map {κ} : {P Q : A → Type κ} (xs : List A) → ((x : A) → P x → Q x) → All P xs → All Q xs
  All-map [] f h = tt
  All-map (x ∷ xs) f h = (f x h.0, All-map xs f h.1)
