-- ===== src/Planner/Groups.antt =====
-- The sorted accesses of a launch, grouped by chunk: every access stands in the one group of its
-- chunk.
use mathlib.Core.List.{Memᴰ}
use mathlib.Core.List.Memᴰ
use kmm.Prelude.{
  ℕ, ◌≤◌, ◌<◌, ◌≡◌, refl, sym, ap, subst, inl, inr, Bool, true, false, List, [], ◌∷◌, arith, All,
  All-map, ltb, ◌==◌, if◌then◌else◌,
}
use kmm.Planner.Write.{insert_access, sort_accesses, add_to_groups, group_accesses}

abbrev IsSorted : List (ℕ × ℕ) → Type 0
IsSorted [] = Unit {0}
IsSorted (x ∷ xs) = All (λ (y : ℕ × ℕ). x.0 ≤ y.0) xs × IsSorted xs

-- Either branch of a test has a property that both have.
either :
    {A : Type 0} (P : A → Type 0) (b : Bool) {x y : A}
    → (b ≡ true → P x)
    → (b ≡ false → P y)
    → P (if b then x else y)
either P true h k = h refl
either P false h k = k refl

All-insert :
    (P : ℕ × ℕ → Type 0) (x : ℕ × ℕ) (xs : List (ℕ × ℕ))
    → P x
    → All P xs
    → All P (insert_access x xs)
unfolding insert_access
All-insert P x [] h hs = (h, tt)
All-insert P x (y ∷ ys) h hs =
    either (All P) (ltb y.0 x.0) (λ _. (hs.0, All-insert P x ys h hs.1)) (λ _. (h, hs))

insert-IsSorted : (x : ℕ × ℕ) (xs : List (ℕ × ℕ)) → IsSorted xs → IsSorted (insert_access x xs)
unfolding insert_access
insert-IsSorted x [] h = (tt, tt)
insert-IsSorted x (y ∷ ys) h =
    either IsSorted (ltb y.0 x.0)
      (λ e. (All-insert (λ z. y.0 ≤ z.0) x ys (ground (arith, e)) h.0, insert-IsSorted x ys h.1))
      (λ e.
        let le : x.0 ≤ y.0 = ground (arith, e) in
        ((le, All-map ys (λ z l. omega (arith, le, l)) h.0), h))

sort-IsSorted : (xs : List (ℕ × ℕ)) → IsSorted (sort_accesses xs)
unfolding sort_accesses
sort-IsSorted [] = tt
sort-IsSorted (x ∷ xs) = insert-IsSorted x (sort_accesses xs) (sort-IsSorted xs)

Memᴰ-insert : (p x : ℕ × ℕ) (xs : List (ℕ × ℕ)) → Memᴰ p (x ∷ xs) → Memᴰ p (insert_access x xs)
unfolding insert_access
Memᴰ-insert p x [] m = m
Memᴰ-insert p x (y ∷ ys) m =
    either (Memᴰ p) (ltb y.0 x.0)
      (λ _. elim (Memᴰ.cases_cons m) [
        | inl e ↦ Memᴰ.tail (Memᴰ-insert p x ys (Memᴰ.head e))
        | inr rest ↦ elim (Memᴰ.cases_cons rest) [
          | inl e ↦ Memᴰ.head e
          | inr later ↦ Memᴰ.tail (Memᴰ-insert p x ys (Memᴰ.tail later))
        ]
      ])
      (λ _. m)

Memᴰ-sort : (p : ℕ × ℕ) (xs : List (ℕ × ℕ)) → Memᴰ p xs → Memᴰ p (sort_accesses xs)
unfolding sort_accesses
Memᴰ-sort p (x ∷ xs) m = Memᴰ-insert p x (sort_accesses xs) (elim (Memᴰ.cases_cons m) [
  | inl e ↦ Memᴰ.head e
  | inr later ↦ Memᴰ.tail (Memᴰ-sort p xs later)
])
Memᴰ-sort p [] m = elim m [ ]

-- The other way round: the sorted list has nothing else.
of_Memᴰ-insert : (p x : ℕ × ℕ) (xs : List (ℕ × ℕ)) → Memᴰ p (insert_access x xs) → Memᴰ p (x ∷ xs)
unfolding insert_access
of_Memᴰ-insert p x [] m = m
of_Memᴰ-insert p x (y ∷ ys) m =
    either (λ l. Memᴰ p l → Memᴰ p (x ∷ y ∷ ys)) (ltb y.0 x.0)
      (λ _ h. elim (Memᴰ.cases_cons h) [
        | inl e ↦ Memᴰ.tail (Memᴰ.head e)
        | inr later ↦ elim (Memᴰ.cases_cons (of_Memᴰ-insert p x ys later)) [
          | inl e ↦ Memᴰ.head e
          | inr rest ↦ Memᴰ.tail (Memᴰ.tail rest)
        ]
      ])
      (λ _ h. h) m

of_Memᴰ-sort : (p : ℕ × ℕ) (xs : List (ℕ × ℕ)) → Memᴰ p (sort_accesses xs) → Memᴰ p xs
unfolding sort_accesses
of_Memᴰ-sort p [] m = m
of_Memᴰ-sort p (x ∷ xs) m = elim (Memᴰ.cases_cons (of_Memᴰ-insert p x (sort_accesses xs) m)) [
  | inl e ↦ Memᴰ.head e
  | inr later ↦ Memᴰ.tail (of_Memᴰ-sort p xs later)
]

-- The chunks of the groups grow.
abbrev pub IsStrict : List (ℕ × List ℕ) → Type 0
IsStrict [] = Unit {0}
IsStrict (g ∷ gs) = All (λ (h : ℕ × List ℕ). g.0 < h.0) gs × IsStrict gs

-- Some event stands in each group, and it is an access to the chunk.
abbrev pub Held : (ℕ → ℕ → Type 0) → ℕ × List ℕ → Type 0
Held P g = ((e : ℕ) → Memᴰ e g.1 → P g.0 e) × ((e : ℕ) × Memᴰ e g.1)

-- An event of a chunk in some group.
abbrev pub InGroup : List (ℕ × List ℕ) → ℕ → ℕ → Type 0
InGroup gs k e = (es : List ℕ) × Memᴰ (k, es) gs × Memᴰ e es

add_to_groups-IsStrict :
    (x : ℕ × ℕ) (gs : List (ℕ × List ℕ))
    → All (λ (g : ℕ × List ℕ). x.0 ≤ g.0) gs
    → IsStrict gs
    → IsStrict (add_to_groups x gs)
unfolding add_to_groups
add_to_groups-IsStrict x [] le h = (tt, tt)
add_to_groups-IsStrict x ((k, events) ∷ gs) le h =
    either IsStrict (x.0 == k) (λ _. h)
      (λ n.
        let lt : x.0 < k = ground (arith, n, le.0) in
        ((lt, All-map gs (λ g l. omega (arith, lt, l)) h.0), h))

add_to_groups-lower :
    (lo : ℕ) (x : ℕ × ℕ) (gs : List (ℕ × List ℕ))
    → lo ≤ x.0
    → All (λ (g : ℕ × List ℕ). lo ≤ g.0) gs
    → All (λ (g : ℕ × List ℕ). lo ≤ g.0) (add_to_groups x gs)
unfolding add_to_groups
add_to_groups-lower lo x [] le h = (le, tt)
add_to_groups-lower lo x ((k, events) ∷ gs) le h =
    either (All (λ (g : ℕ × List ℕ). lo ≤ g.0)) (x.0 == k) (λ _. h) (λ _. (le, h))

add_to_groups-Held :
    (P : ℕ → ℕ → Type 0) (x : ℕ × ℕ) (gs : List (ℕ × List ℕ))
    → P x.0 x.1
    → All (Held P) gs
    → All (Held P) (add_to_groups x gs)
unfolding add_to_groups
add_to_groups-Held P x gs p h = by_groups gs h
  where
    single : Held P (x.0, x.1 ∷ [])
    single = (λ e m. subst (P x.0) (sym (Memᴰ.eq_of_singleton m)) p, (x.1, Memᴰ.head refl))

    by_groups : (gs : List (ℕ × List ℕ)) → All (Held P) gs → All (Held P) (add_to_groups x gs)
    by_groups [] h = (single, tt)
    by_groups ((k, events) ∷ gs) h =
        either (All (Held P)) (x.0 == k)
          (λ same.
            let same : x.0 ≡ k = ground (arith, same) in
            (
              (
                λ e m. elim (Memᴰ.cases_cons m) [
                  | inl here ↦ subst (λ i. P i e) same (subst (P x.0) (sym here) p)
                  | inr later ↦ (h.0).0 e later
                ],
                (x.1, Memᴰ.head refl),
              ),
              h.1,
            ))
          (λ _. (single, h))

add_to_groups-new : (x : ℕ × ℕ) (gs : List (ℕ × List ℕ)) → InGroup (add_to_groups x gs) x.0 x.1
unfolding add_to_groups
add_to_groups-new x [] = (x.1 ∷ [], Memᴰ.head refl, Memᴰ.head refl)
add_to_groups-new x ((k, events) ∷ gs) =
    either (λ l. InGroup l x.0 x.1) (x.0 == k)
      (λ same.
        let same : x.0 ≡ k = ground (arith, same) in
        (x.1 ∷ events, Memᴰ.head (ap (λ (i : ℕ). (i, x.1 ∷ events)) same), Memᴰ.head refl))
      (λ _. (x.1 ∷ [], Memᴰ.head refl, Memᴰ.head refl))

add_to_groups-old :
    (x : ℕ × ℕ) (gs : List (ℕ × List ℕ)) (j e : ℕ)
    → InGroup gs j e
    → InGroup (add_to_groups x gs) j e
unfolding add_to_groups
add_to_groups-old x [] j e h = absurd (Memᴰ.not-nil h.1)
add_to_groups-old x ((k, events) ∷ gs) j e (es, m, me) =
    either (λ l. InGroup l j e) (x.0 == k)
      (λ _. elim (Memᴰ.cases_cons m) [
        | inl same ↦ (
          x.1 ∷ events,
          Memᴰ.head (ap (λ (i : ℕ). (i, x.1 ∷ events)) (ap (λ p. p.0) same)),
          Memᴰ.tail (subst (Memᴰ e) (ap (λ (p : ℕ × List ℕ). p.1) same) me),
        )
        | inr later ↦ (es, Memᴰ.tail later, me)
      ])
      (λ _. (es, Memᴰ.tail m, me))

group-lower :
    (lo : ℕ) (xs : List (ℕ × ℕ))
    → All (λ (x : ℕ × ℕ). lo ≤ x.0) xs
    → All (λ (g : ℕ × List ℕ). lo ≤ g.0) (group_accesses xs)
unfolding group_accesses
group-lower lo [] h = tt
group-lower lo (x ∷ xs) h = add_to_groups-lower lo x (group_accesses xs) h.0 (group-lower lo xs h.1)

group-IsStrict : (xs : List (ℕ × ℕ)) → IsSorted xs → IsStrict (group_accesses xs)
unfolding group_accesses
group-IsStrict [] h = tt
group-IsStrict (x ∷ xs) h =
    add_to_groups-IsStrict x (group_accesses xs) (group-lower x.0 xs h.0) (group-IsStrict xs h.1)

group-Held :
    (P : ℕ → ℕ → Type 0) (xs : List (ℕ × ℕ))
    → All (λ (x : ℕ × ℕ). P x.0 x.1) xs
    → All (Held P) (group_accesses xs)
unfolding group_accesses
group-Held P [] h = tt
group-Held P (x ∷ xs) h = add_to_groups-Held P x (group_accesses xs) h.0 (group-Held P xs h.1)

group-InGroup : (xs : List (ℕ × ℕ)) (k e : ℕ) → Memᴰ (k, e) xs → InGroup (group_accesses xs) k e
unfolding group_accesses
group-InGroup [] k e m = absurd (Memᴰ.not-nil m)
group-InGroup (x ∷ xs) k e m = elim (Memᴰ.cases_cons m) [
  | inl same ↦
      subst (λ p. InGroup (add_to_groups x (group_accesses xs)) p.0 p.1) (sym same)
        (add_to_groups-new x (group_accesses xs))
  | inr later ↦ add_to_groups-old x (group_accesses xs) k e (group-InGroup xs k e later)
]

All-of_Memᴰ : {A : Type 0} (P : A → Type 0) (xs : List A) → ((x : A) → Memᴰ x xs → P x) → All P xs
All-of_Memᴰ P [] f = tt
All-of_Memᴰ P (x ∷ xs) f = (f x (Memᴰ.head refl), All-of_Memᴰ P xs (λ y m. f y (Memᴰ.tail m)))

-- The groups that a commit of writes goes through.
pub record Grouped (accesses : List (ℕ × ℕ)) (gs : List (ℕ × List ℕ)) : Type 0 where
  pub strict : IsStrict gs
  pub has : (k e : ℕ) → Memᴰ (k, e) accesses → InGroup gs k e
  pub held : All (Held (λ k e. Memᴰ (k, e) accesses)) gs

pub sorted-Grouped :
    (accesses : List (ℕ × ℕ)) → Grouped accesses (group_accesses (sort_accesses accesses))
sorted-Grouped accesses = record {
  strict = group-IsStrict (sort_accesses accesses) (sort-IsSorted accesses);
  has = λ k e m. group-InGroup (sort_accesses accesses) k e (Memᴰ-sort (k, e) accesses m);
  held =
      group-Held (λ k e. Memᴰ (k, e) accesses) (sort_accesses accesses)
        (All-of_Memᴰ _ (sort_accesses accesses) (λ p m. of_Memᴰ-sort p accesses m));
}
