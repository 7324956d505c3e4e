-- ===== src/Memory/Lru/Links.antt =====
-- Doubly linked lists through the entries of buffers.
use kmm.Prelude.{
  ℕ, ◌≡◌, ◌≢◌, refl, sym, ap, ◌∙◌, inl, inr, Bool-cases, ==_refl, ==_iff, if_true, if_false, ◌↔◌,
  Option, some, List, [], ◌∷◌, ◌++◌, ◌==◌,
}
use kmm.Memory.Lru.{LruEntry, put}

-- The entries `xs`, oldest first, are linked; `older` stands before them and `newer` after them.
abbrev pub first_of : List ℕ → Option ℕ → Option ℕ
first_of [] otherwise = otherwise
first_of (x ∷ xs) otherwise = some x

abbrev pub last_of : List ℕ → Option ℕ → Option ℕ
last_of [] otherwise = otherwise
last_of (x ∷ xs) otherwise = last_of xs (some x)

abbrev pub Linked : (ℕ → LruEntry) → Option ℕ → List ℕ → Option ℕ → Type 0
Linked f older [] newer = Unit
Linked f older (x ∷ xs) newer =
    ((f x).lru_older ≡ older) × ((f x).lru_newer ≡ first_of xs newer) × Linked f (some x) xs newer

abbrev pub Without : ℕ → List ℕ → Type 0
Without b [] = Unit
Without b (x ∷ xs) = (b ≢ x) × Without b xs

abbrev pub Distinct : List ℕ → Type 0
Distinct [] = Unit
Distinct (x ∷ xs) = Without x xs × Distinct xs

pub put_self : (f : ℕ → LruEntry) (b : ℕ) (e : LruEntry) → put f b e b ≡ e
put_self f b e = if_true e (f b) (==_refl b)

pub put_other : (f : ℕ → LruEntry) (b c : ℕ) (e : LruEntry) → b ≢ c → put f b e c ≡ f c
put_other f b c e h = elim (Bool-cases (b == c)) [
  | inl same ↦ absurd (h ((==_iff b c).0 same))
  | inr d ↦ if_false e (f c) d
]

-- Entries outside of a list do not matter to its links.
pub Linked-put :
    (f : ℕ → LruEntry) (b : ℕ) (e : LruEntry) (older : Option ℕ) (xs : List ℕ) (newer : Option ℕ)
    → Without b xs
    → Linked f older xs newer
    → Linked (put f b e) older xs newer
Linked-put f b e older [] newer w h = tt
Linked-put f b e older (x ∷ xs) newer w h =
    let same = put_other f b x e w.0 in
    (
      ap (λ z. z.lru_older) same ∙ h.0,
      ap (λ z. z.lru_newer) same ∙ h.1,
      Linked-put f b e (some x) xs newer w.1 h.2,
    )

pub Linked-append :
    (f : ℕ → LruEntry) (older : Option ℕ) (xs ys : List ℕ) (newer : Option ℕ)
    → Linked f older (xs ++ ys) newer
      ↔ (Linked f older xs (first_of ys newer) × Linked f (last_of xs older) ys newer)
Linked-append f older [] ys newer = (λ h. (tt, h), λ h. h.1)
Linked-append f older (x ∷ xs) ys newer =
    let rest = Linked-append f (some x) xs ys newer in
    (
      λ h. ((h.0, h.1 ∙ first-append xs ys newer, (rest.0 h.2).0), (rest.0 h.2).1),
      λ h. (h.0.0, h.0.1 ∙ sym (first-append xs ys newer), rest.1 (h.0.2, h.1)),
    )
  where
    first-append :
        (xs ys : List ℕ) (newer : Option ℕ)
        → first_of (xs ++ ys) newer ≡ first_of xs (first_of ys newer)
    first-append [] ys newer = refl
    first-append (x ∷ xs) ys newer = refl
