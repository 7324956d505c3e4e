-- ===== src/Memory/Lru/Members.antt =====
-- Members of lists of buffers, and what the writes to links leave alone.
use kmm.Prelude.{
  ℕ, ◌≡◌, ◌≢◌, refl, sym, ap, subst, ◌∙◌, inl, inr, Bool, true, false, arith, Bool-cases, ==_refl,
  ==_iff, if_true, if_false, Option, none, some, List, [], ◌∷◌, ◌++◌, ◌==◌, if◌then◌else◌,
}
use kmm.Memory.Lru.{LruEntry, DeviceLru, put, set_newer, set_older, unlink, link_newest}
use kmm.Memory.Lru.Links.{Linked, Without, Distinct}

abbrev pub elem : ℕ → List ℕ → Bool
elem b [] = false
elem b (x ∷ xs) = if b == x then true else elem b xs

abbrev pub remove : ℕ → List ℕ → List ℕ
remove b [] = []
remove b (x ∷ xs) = if b == x then xs else x ∷ remove b xs

apart : (b x : ℕ) → (b == x) ≡ false → b ≢ x
apart b x e h = absurd (ground (arith, e, h))

pub elem-Without : (b : ℕ) (xs : List ℕ) → elem b xs ≡ false → Without b xs
elem-Without b [] h = tt
elem-Without b (x ∷ xs) h = elim (Bool-cases (b == x)) [
  | inl e ↦ absurd (cc (h, if_true true (elem b xs) e))
  | inr e ↦ (apart b x e, elem-Without b xs (sym (if_false true (elem b xs) e) ∙ h))
]

Without-elem : (b : ℕ) (xs : List ℕ) → Without b xs → elem b xs ≡ false
Without-elem b [] h = refl
Without-elem b (x ∷ xs) h = elim (Bool-cases (b == x)) [
  | inl e ↦ absurd (h.0 ((==_iff b x).0 e))
  | inr e ↦ if_false true (elem b xs) e ∙ Without-elem b xs h.1
]

-- A member of a list stands between a front and a back.
pub parts :
    (b : ℕ) (xs : List ℕ)
    → elem b xs ≡ true
    → (front : List ℕ) × (back : List ℕ) × (xs ≡ front ++ b ∷ back) × (remove b xs ≡ front ++ back)
parts b [] h = absurd (cc h)
parts b (x ∷ xs) h = elim (Bool-cases (b == x)) [
  | inl e ↦ ([], xs, ap (λ z. z ∷ xs) (sym ((==_iff b x).0 e)), if_true xs (x ∷ remove b xs) e)
  | inr e ↦
      let (front, back, whole, left) = parts b xs (sym (if_false true (elem b xs) e) ∙ h) in
      (
        x ∷ front,
        back,
        ap (λ l. x ∷ l) whole,
        if_false xs (x ∷ remove b xs) e ∙ ap (λ l. x ∷ l) left,
      )
]

pub elem-remove_other :
    (b c : ℕ) (xs : List ℕ) → (b == c) ≡ false → elem c (remove b xs) ≡ elem c xs
elem-remove_other b c [] h = refl
elem-remove_other b c (x ∷ xs) h = elim (Bool-cases (b == x)) [
  | inl e ↦
      let other : (c == x) ≡ false = ground (arith, h, e) in
      ap (elem c) (if_true xs (x ∷ remove b xs) e) ∙ sym (if_false true (elem c xs) other)
  | inr e ↦
      ap (elem c) (if_false xs (x ∷ remove b xs) e)
      ∙ ap (λ r. if c == x then true else r) (elem-remove_other b c xs h)
]

pub elem-remove_self : (b : ℕ) (xs : List ℕ) → Distinct xs → elem b (remove b xs) ≡ false
elem-remove_self b [] h = refl
elem-remove_self b (x ∷ xs) h = elim (Bool-cases (b == x)) [
  | inl e ↦
      let same = (==_iff b x).0 e in
      ap (elem b) (if_true xs (x ∷ remove b xs) e)
      ∙ Without-elem b xs (subst (λ z. Without z xs) (sym same) h.0)
  | inr e ↦
      ap (elem b) (if_false xs (x ∷ remove b xs) e)
      ∙ if_false true (elem b (remove b xs)) e
      ∙ elem-remove_self b xs h.1
]

pub elem-append_other :
    (b c : ℕ) (xs : List ℕ) → (b == c) ≡ false → elem c (xs ++ b ∷ []) ≡ elem c xs
elem-append_other b c [] h =
    let other : (c == b) ≡ false = ground (arith, h) in if_false true false other
elem-append_other b c (x ∷ xs) h = ap (λ r. if c == x then true else r) (elem-append_other b c xs h)

pub elem-append_self : (b : ℕ) (xs : List ℕ) → elem b (xs ++ b ∷ []) ≡ true
elem-append_self b [] = if_true true false (==_refl b)
elem-append_self b (x ∷ xs) = elim (Bool-cases (b == x)) [
  | inl e ↦ if_true true (elem b (xs ++ b ∷ [])) e
  | inr e ↦ if_false true (elem b (xs ++ b ∷ [])) e ∙ elem-append_self b xs
]

-- Entries that agree but for the links.
unfoldable pub Flags : (ℕ → LruEntry) → (ℕ → LruEntry) → Type 0
Flags f g =
    (c : ℕ)
    → ((f c).is_allocated ≡ (g c).is_allocated)
      × ((f c).num_allocation_locks ≡ (g c).num_allocation_locks)

pub put-Flags :
    (f : ℕ → LruEntry) (b : ℕ) (e : LruEntry)
    → e.is_allocated ≡ (f b).is_allocated
    → e.num_allocation_locks ≡ (f b).num_allocation_locks
    → Flags (put f b e) f
unfolding Flags
put-Flags f b e h k c = elim (Bool-cases (b == c)) [
  | inl same ↦
      let eq = if_true e (f c) same in
      let at = (==_iff b c).0 same in
      (
        ap (λ z. z.is_allocated) eq ∙ h ∙ ap (λ z. (f z).is_allocated) at,
        ap (λ z. z.num_allocation_locks) eq ∙ k ∙ ap (λ z. (f z).num_allocation_locks) at,
      )
  | inr d ↦
      let eq = if_false e (f c) d in
      (ap (λ z. z.is_allocated) eq, ap (λ z. z.num_allocation_locks) eq)
]

pub Flags-trans : (f g h : ℕ → LruEntry) → Flags f g → Flags g h → Flags f h
unfolding Flags
Flags-trans f g h a b c = ((a c).0 ∙ (b c).0, (a c).1 ∙ (b c).1)

set_newer-Flags : (p v : Option ℕ) (d : DeviceLru) → Flags (set_newer p v d).entries d.entries
unfolding Flags
set_newer-Flags none v d = λ c. (refl, refl)
set_newer-Flags (some p) v d =
    put-Flags d.entries p (record (d.entries p) { lru_newer = v }) refl refl

set_older-Flags : (p v : Option ℕ) (d : DeviceLru) → Flags (set_older p v d).entries d.entries
unfolding Flags
set_older-Flags none v d = λ c. (refl, refl)
set_older-Flags (some p) v d =
    put-Flags d.entries p (record (d.entries p) { lru_older = v }) refl refl

pub unlink-Flags : (b : ℕ) (d : DeviceLru) → Flags (unlink b d).entries d.entries
unfolding unlink
unlink-Flags b d =
    let e = record (d.entries b) { lru_newer = none; lru_older = none } in
    let d0 : DeviceLru = record d { entries = put d.entries b e } in
    let prev = (d.entries b).lru_newer in
    let next = (d.entries b).lru_older in
    let d1 = set_older prev next d0 in
    Flags-trans (set_newer next prev d1).entries d1.entries d.entries (set_newer-Flags next prev d1)
      (Flags-trans d1.entries d0.entries d.entries (set_older-Flags prev next d0)
        (put-Flags d.entries b e refl refl))

pub link_newest-Flags : (b : ℕ) (d : DeviceLru) → Flags (link_newest b d).entries d.entries
unfolding link_newest
link_newest-Flags b d =
    let d1 = set_newer d.lru_newest (some b) d in
    let e = record (d1.entries b) { lru_older = d.lru_newest; lru_newer = none } in
    Flags-trans (put d1.entries b e) d1.entries d.entries (put-Flags d1.entries b e refl refl)
      (set_newer-Flags d.lru_newest (some b) d)

-- A write that keeps the links of an entry keeps the list.
pub relock :
    (f : ℕ → LruEntry) (b : ℕ) (e : LruEntry) (o : Option ℕ) (xs : List ℕ) (n : Option ℕ)
    → e.lru_older ≡ (f b).lru_older
    → e.lru_newer ≡ (f b).lru_newer
    → Linked f o xs n
    → Linked (put f b e) o xs n
relock f b e o [] n h k l = tt
relock f b e o (x ∷ xs) n h k l = elim (Bool-cases (b == x)) [
  | inl same ↦
      let eq = if_true e (f x) same in
      let at = (==_iff b x).0 same in
      (
        ap (λ z. z.lru_older) eq ∙ h ∙ ap (λ z. (f z).lru_older) at ∙ l.0,
        ap (λ z. z.lru_newer) eq ∙ k ∙ ap (λ z. (f z).lru_newer) at ∙ l.1,
        relock f b e (some x) xs n h k l.2,
      )
  | inr d ↦
      let eq = if_false e (f x) d in
      (
        ap (λ z. z.lru_older) eq ∙ l.0,
        ap (λ z. z.lru_newer) eq ∙ l.1,
        relock f b e (some x) xs n h k l.2,
      )
]
