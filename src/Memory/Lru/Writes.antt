-- ===== src/Memory/Lru/Writes.antt =====
-- What writes to the links at the ends of a list do.
use kmm.Prelude.{ℕ, ◌≡◌, ◌≢◌, refl, sym, ap, subst, ◌∙◌, Option, none, some, List, [], ◌∷◌}
use kmm.Memory.Lru.{LruEntry, DeviceLru, put, set_newer, set_older}
use kmm.Memory.Lru.Links.{
  first_of, last_of, Linked, Without, Distinct, put_self, put_other, Linked-put,
}

abbrev pub last_elem : ℕ → List ℕ → ℕ
last_elem x [] = x
last_elem x (y ∷ ys) = last_elem y ys

pub last_of-cons : (x : ℕ) (xs : List ℕ) (o : Option ℕ) → last_of (x ∷ xs) o ≡ some (last_elem x xs)
last_of-cons x [] o = refl
last_of-cons x (y ∷ ys) o = last_of-cons y ys (some x)

pub Without-last_elem : (b x : ℕ) (xs : List ℕ) → Without b (x ∷ xs) → b ≢ last_elem x xs
Without-last_elem b x [] w = w.0
Without-last_elem b x (y ∷ ys) w = Without-last_elem b y ys w.1

-- A write to the newer link of the last entry.
pub relink_last :
    (f : ℕ → LruEntry) (v o : Option ℕ) (x : ℕ) (xs : List ℕ) (n : Option ℕ)
    → Distinct (x ∷ xs)
    → Linked f o (x ∷ xs) n
    → Linked (put f (last_elem x xs) (record (f (last_elem x xs)) { lru_newer = v })) o (x ∷ xs) v
relink_last f v o x [] n d h =
    let same = put_self f x (record (f x) { lru_newer = v }) in
    (ap (λ z. z.lru_older) same ∙ h.0, ap (λ z. z.lru_newer) same, tt)
relink_last f v o x (y ∷ ys) n d h =
    let l = last_elem y ys in
    let apart : l ≢ x = λ e. Without-last_elem x y ys d.0 (sym e) in
    let same = put_other f l x (record (f l) { lru_newer = v }) apart in
    (
      ap (λ z. z.lru_older) same ∙ h.0,
      ap (λ z. z.lru_newer) same ∙ h.1,
      relink_last f v (some x) y ys n d.1 h.2,
    )

-- A list that ends before `newer`, with the device's pointer to its first entry; and one that starts
-- after `older`, with the pointer to its last.
abbrev pub Front : DeviceLru → List ℕ → Option ℕ → Type 0
Front d xs newer = (d.lru_oldest ≡ first_of xs newer) × Linked d.entries none xs newer

abbrev pub Back : DeviceLru → Option ℕ → List ℕ → Type 0
Back d older xs = (d.lru_newest ≡ last_of xs older) × Linked d.entries older xs none

pub Front-set_newer :
    (d : DeviceLru) (xs : List ℕ) (n v : Option ℕ)
    → Distinct xs
    → Front d xs n
    → Front (set_newer (last_of xs none) v d) xs v
Front-set_newer d [] n v u h = (refl, tt)
Front-set_newer d (x ∷ xs) n v u h =
    subst (λ o. Front (set_newer o v d) (x ∷ xs) v) (sym (last_of-cons x xs none))
      (h.0, relink_last d.entries v none x xs n u h.1)

pub Back-set_older :
    (d : DeviceLru) (o v : Option ℕ) (xs : List ℕ)
    → Distinct xs
    → Back d o xs
    → Back (set_older (first_of xs none) v d) v xs
Back-set_older d o v [] u h = (refl, tt)
Back-set_older d o v (x ∷ xs) u h =
    let e = record (d.entries x) { lru_older = v } in
    let same = put_self d.entries x e in
    (
      h.0,
      (
        ap (λ z. z.lru_older) same,
        ap (λ z. z.lru_newer) same ∙ h.1.1,
        Linked-put d.entries x e (some x) xs none u.0 h.1.2,
      ),
    )

-- Lists without a common member.
abbrev pub Disjoint : List ℕ → List ℕ → Type 0
Disjoint [] ys = Unit
Disjoint (x ∷ xs) ys = Without x ys × Disjoint xs ys

pub Disjoint-last_of : (x : ℕ) (xs ys : List ℕ) → Disjoint (x ∷ xs) ys → Without (last_elem x xs) ys
Disjoint-last_of x [] ys h = h.0
Disjoint-last_of x (y ∷ xs) ys h = Disjoint-last_of y xs ys h.1

pub Disjoint-head : (xs ys : List ℕ) (y : ℕ) → Disjoint xs (y ∷ ys) → Without y xs
Disjoint-head [] ys y h = tt
Disjoint-head (x ∷ xs) ys y h = (λ e. h.0.0 (sym e), Disjoint-head xs ys y h.1)

-- What each write leaves alone.
pub Back-set_newer :
    (d : DeviceLru) (o v : Option ℕ) (xs ys : List ℕ)
    → Disjoint xs ys
    → Back d o ys
    → Back (set_newer (last_of xs none) v d) o ys
Back-set_newer d o v [] ys a h = h
Back-set_newer d o v (x ∷ xs) ys a h =
    let l = last_elem x xs in
    rw (last_of-cons x xs none) (
      h.0,
      Linked-put d.entries l (record (d.entries l) { lru_newer = v }) o ys none
          (Disjoint-last_of x xs ys a) h.1,
    )

pub Front-set_older :
    (d : DeviceLru) (n v : Option ℕ) (xs ys : List ℕ)
    → Disjoint xs ys
    → Front d xs n
    → Front (set_older (first_of ys none) v d) xs n
Front-set_older d n v xs [] a h = h
Front-set_older d n v xs (y ∷ ys) a h = (
  h.0,
  Linked-put d.entries y (record (d.entries y) { lru_older = v }) none xs n
      (Disjoint-head xs ys y a) h.1,
)
