-- ===== src/Memory/Lru/Listing.antt =====
-- The list of a device, and what adding and removing a buffer does to it.
use kmm.Prelude.{ℕ, ◌≡◌, refl, sym, ap, subst, ◌∙◌, ◌↔◌, Option, none, some, List, [], ◌∷◌, ◌++◌}
use kmm.Memory.Lru.{DeviceLru, put, set_newer, set_older, unlink, link_newest}
use kmm.Memory.Lru.Links.{
  first_of, last_of, Linked, Without, Distinct, put_self, Linked-put, Linked-append,
}
use kmm.Memory.Lru.Writes.{
  Disjoint-head, Front, Back, Front-set_newer, Back-set_older, Disjoint, Disjoint-head,
  Back-set_newer, Front-set_older,
}

-- The device's list.
abbrev pub Listed : DeviceLru → List ℕ → Type 0
Listed d xs =
    (d.lru_oldest ≡ first_of xs none)
    × (d.lru_newest ≡ last_of xs none)
    × Linked d.entries none xs none
    × Distinct xs

Distinct-append :
    (xs ys : List ℕ) → Distinct (xs ++ ys) ↔ (Distinct xs × Distinct ys × Disjoint xs ys)
Distinct-append [] ys = (λ h. (tt, h, tt), λ h. h.1)
Distinct-append (x ∷ xs) ys =
    let rest = Distinct-append xs ys in
    let parts = Without-append x xs ys in
    (
      λ h. let (a, b, c) = rest.0 h.1 in (((parts.0 h.0).0, a), b, ((parts.0 h.0).1, c)),
      λ h. (parts.1 (h.0.0, h.2.0), rest.1 (h.0.1, h.1, h.2.1)),
    )
  where
    Without-append : (b : ℕ) (xs ys : List ℕ) → Without b (xs ++ ys) ↔ (Without b xs × Without b ys)
    Without-append b [] ys = (λ h. (tt, h), λ h. h.1)
    Without-append b (x ∷ xs) ys =
        let rest = Without-append b xs ys in
        (λ h. ((h.0, (rest.0 h.1).0), (rest.0 h.1).1), λ h. (h.0.0, rest.1 (h.0.1, h.1)))

first_of-append :
    (xs ys : List ℕ) (newer : Option ℕ)
    → first_of (xs ++ ys) newer ≡ first_of xs (first_of ys newer)
first_of-append [] ys newer = refl
first_of-append (x ∷ xs) ys newer = refl

last_of-append :
    (xs ys : List ℕ) (older : Option ℕ) → last_of (xs ++ ys) older ≡ last_of ys (last_of xs older)
last_of-append [] ys older = refl
last_of-append (x ∷ xs) ys older = last_of-append xs ys (some x)

-- A list is a front and a back.
pub Listed-append :
    (d : DeviceLru) (xs ys : List ℕ)
    → Distinct (xs ++ ys)
    → Front d xs (first_of ys none)
    → Back d (last_of xs none) ys
    → Listed d (xs ++ ys)
Listed-append d xs ys u f b = (
  f.0 ∙ sym (first_of-append xs ys none),
  b.0 ∙ sym (last_of-append xs ys none),
  (Linked-append d.entries none xs ys none).1 (f.1, b.1),
  u,
)

pub Listed-split :
    (d : DeviceLru) (xs ys : List ℕ)
    → Listed d (xs ++ ys)
    → Front d xs (first_of ys none)
      × Back d (last_of xs none) ys
      × Distinct xs
      × Distinct ys
      × Disjoint xs ys
Listed-split d xs ys h =
    let (f, b) = (Linked-append d.entries none xs ys none).0 h.2 in
    let (u, v, w) = (Distinct-append xs ys).0 h.3 in
    ((h.0 ∙ first_of-append xs ys none, f), (h.1 ∙ last_of-append xs ys none, b), u, v, w)

Disjoint-tail : (xs ys : List ℕ) (y : ℕ) → Disjoint xs (y ∷ ys) → Disjoint xs ys
Disjoint-tail [] ys y h = tt
Disjoint-tail (x ∷ xs) ys y h = (h.0.1, Disjoint-tail xs ys y h.1)

-- Taking an entry out of the list.
pub unlink-Listed :
    (d : DeviceLru) (xs : List ℕ) (b : ℕ) (ys : List ℕ)
    → Listed d (xs ++ b ∷ ys)
    → Listed (unlink b d) (xs ++ ys)
unfolding unlink
unlink-Listed d xs b ys h =
    let (f, k, u, v, w) = Listed-split d xs (b ∷ ys) h in
    let e = record (d.entries b) { lru_newer = none; lru_older = none } in
    let d0 : DeviceLru = record d { entries = put d.entries b e } in
    let apart = Disjoint-tail xs ys b w in
    let front0 : Front d0 xs (some b) =
      (f.0, Linked-put d.entries b e none xs (some b) (Disjoint-head xs ys b w) f.1) in
    let back0 : Back d0 (some b) ys = (k.0, Linked-put d.entries b e (some b) ys none v.0 k.1.2) in
    let d1 = set_older (first_of ys none) (last_of xs none) d0 in
    let front1 = Front-set_older d0 (some b) (last_of xs none) xs ys apart front0 in
    let back1 = Back-set_older d0 (some b) (last_of xs none) ys v.1 back0 in
    let front2 = Front-set_newer d1 xs (some b) (first_of ys none) u front1 in
    let back2 = Back-set_newer d1 (last_of xs none) (first_of ys none) xs ys apart back1 in
    rw (k.1.0, k.1.1)
      (Listed-append (set_newer (last_of xs none) (first_of ys none) d1) xs ys
        ((Distinct-append xs ys).1 (u, v.1, apart)) front2 back2)

-- Adding an entry at the newest end.
pub link_newest-Listed :
    (d : DeviceLru) (xs : List ℕ) (b : ℕ)
    → Without b xs
    → Listed d xs
    → Listed (link_newest b d) (xs ++ b ∷ [])
unfolding link_newest
link_newest-Listed d xs b w h =
    let d1 = set_newer (last_of xs none) (some b) d in
    let e = record (d1.entries b) { lru_older = last_of xs none; lru_newer = none } in
    let front1 : Front d1 xs (some b) = Front-set_newer d xs none (some b) h.3 (h.0, h.2) in
    let d2 : DeviceLru = record d1 { entries = put d1.entries b e; lru_newest = some b } in
    let front2 : Front d2 xs (some b) =
      (front1.0, Linked-put d1.entries b e none xs (some b) w front1.1) in
    let same = put_self d1.entries b e in
    let back2 : Back d2 (last_of xs none) (b ∷ []) =
      (refl, (ap (λ z. z.lru_older) same, ap (λ z. z.lru_newer) same, tt)) in
    subst (λ o. Listed (after o) (xs ++ b ∷ [])) (sym h.1)
      (Listed-append d2 xs (b ∷ []) ((Distinct-append xs (b ∷ [])).1 (h.3, (tt, tt), one xs w))
        front2 back2)
  where
    after : Option ℕ → DeviceLru
    after o =
        let linked = set_newer o (some b) d in
        record linked {
          entries =
              put linked.entries b (record (linked.entries b) { lru_older = o; lru_newer = none });
          lru_newest = some b;
        }

    one : (xs : List ℕ) → Without b xs → Disjoint xs (b ∷ [])
    one [] w = tt
    one (x ∷ xs) w = ((λ e. w.0 (sym e), tt), one xs w.1)
