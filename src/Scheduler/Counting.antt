-- ===== src/Scheduler/Counting.antt =====
-- How often a record is a successor of records that have not been scheduled, and how often it stands
-- in the ready queues.
use native.Mathlib.Decide.{ℕ_discrete}
use kmm.Prelude.{
  ℕ, zero, suc, ◌+◌, ◌≤◌, ◌<◌, ◌≡◌, ◌≢◌, refl, ap, subst, ◌⊎◌, inl, inr, Bool, true, false, List,
  [], ◌∷◌, ◌++◌, arith, ◌==◌, if◌then◌else◌, All, Bool-cases,
}
use kmm.Scheduler.{
  Status, waiting_for_completion, completed, TaskRecord, SchedulerQueue, Scheduler, update,
}

unfoldable pub sum_below : ℕ → (ℕ → ℕ) → ℕ
sum_below zero f = 0
sum_below (suc n) f = sum_below n f + f n

abbrev pub count : ℕ → List ℕ → ℕ
count p [] = 0
count p (q ∷ qs) = (if q == p then 1 else 0) + count p qs

pub count-append : (p : ℕ) (xs ys : List ℕ) → count p (xs ++ ys) ≡ count p xs + count p ys
count-append p [] ys = omega arith
count-append p (x ∷ xs) ys = omega (arith, count-append p xs ys)

pub sum_below-cong :
    (n : ℕ) (f g : ℕ → ℕ) → ((q : ℕ) → q < n → f q ≡ g q) → sum_below n f ≡ sum_below n g
unfolding sum_below
sum_below-cong zero f g h = refl
sum_below-cong (suc n) f g h =
    omega (arith, sum_below-cong n f g (λ q l. h q (omega arith)), h n (omega arith))

pub sum_below-add_one : (n : ℕ) (f : ℕ → ℕ) → sum_below (n + 1) f ≡ sum_below n f + f n
unfolding sum_below
sum_below-add_one n f = let e : n + 1 ≡ suc n = omega arith in ap (λ k. sum_below k f) e

pub sum_below-zero : (n : ℕ) (f : ℕ → ℕ) → ((q : ℕ) → q < n → f q ≡ 0) → sum_below n f ≡ 0
unfolding sum_below
sum_below-zero zero f h = refl
sum_below-zero (suc n) f h =
    omega (arith, sum_below-zero n f (λ q lt. h q (omega arith)), h n (omega arith))

pub count-above : (p q : ℕ) (xs : List ℕ) → All (λ y. (q < y) × (y < p)) xs → count p xs ≡ 0
count-above p q [] h = refl
count-above p q (x ∷ xs) h = ground (arith, count-above p q xs h.1)

-- One term of the sum changes.
pub sum_below-change :
    (n p : ℕ) (f g : ℕ → ℕ)
    → p < n
    → ((q : ℕ) → p ≢ q → f q ≡ g q)
    → sum_below n f + g p ≡ sum_below n g + f p
unfolding sum_below
sum_below-change zero p f g l h = elim l [ ]
sum_below-change (suc n) p f g l h = elim (ℕ_discrete p n) [
  | yes e ↦
      let rest = sum_below-cong n f g (λ q lt. h q (λ pq. omega (arith, e, pq, lt))) in
      omega (arith, rest, ap f e, ap g e)
  | no ne ↦ omega (arith, sum_below-change n p f g (omega (arith, ne)) h, h n ne)
]

pub sum_below-term : (n p : ℕ) (f : ℕ → ℕ) → p < n → f p ≤ sum_below n f
unfolding sum_below
sum_below-term zero p f l = elim l [ ]
sum_below-term (suc n) p f l = elim (ℕ_discrete p n) [
  | yes e ↦ omega (arith, ap f e)
  | no ne ↦ omega (arith, sum_below-term n p f (omega (arith, ne)))
]

pub sum_below_mono :
    (n : ℕ) (f g : ℕ → ℕ) → ((x : ℕ) → x < n → g x ≤ f x) → sum_below n g ≤ sum_below n f
unfolding sum_below
sum_below_mono zero f g h = omega arith
sum_below_mono (suc n) f g h =
    omega (arith, sum_below_mono n f g (λ x l. h x (omega arith)), h n (omega arith))

pub sum_below-strict :
    (n p : ℕ) (f g : ℕ → ℕ)
    → p < n
    → ((x : ℕ) → x < n → g x ≤ f x)
    → g p < f p
    → sum_below n g < sum_below n f
unfolding sum_below
sum_below-strict zero p f g l h s = elim l [ ]
sum_below-strict (suc n) p f g l h s = elim (Bool-cases (p == n)) [
  | inl e ↦
      let same : p ≡ n = ground (arith, e) in
      omega (arith, sum_below_mono n f g (λ x lx. h x (omega arith)), subst (λ k. g k < f k) same s)
  | inr e ↦
      let less : p < n = ground (arith, e) in
      omega (arith, sum_below-strict n p f g less (λ x lx. h x (omega arith)) s, h n (omega arith))
]

pub sum_below-bound : (n : ℕ) (f : ℕ → ℕ) → ((x : ℕ) → f x ≤ 1) → sum_below n f ≤ n
unfolding sum_below
sum_below-bound zero f h = omega arith
sum_below-bound (suc n) f h = omega (arith, sum_below-bound n f h, h n)

-- A task has been scheduled when its successors have been told.
abbrev pub is_scheduled : Status → Bool
is_scheduled waiting_for_completion = true
is_scheduled completed = true
is_scheduled _ = false

-- The places of `x` among the successors of a record that has not been scheduled.
abbrev pub blocks : ℕ → TaskRecord → ℕ
blocks x t = if is_scheduled t.status then 0 else count x t.successors

abbrev pub pending_for : Scheduler → ℕ → ℕ
pending_for s x = sum_below s.num_records (λ q. blocks x (s.records q))

abbrev pub count_slots : ℕ → List (ℕ × ℕ) → ℕ
count_slots p [] = 0
count_slots p ((id, q) ∷ rest) = (if q == p then 1 else 0) + count_slots p rest

-- The places of a record in the ready queues.
abbrev pub queued : ℕ → List SchedulerQueue → ℕ
queued p [] = 0
queued p (q ∷ qs) = count_slots p q.tasks + queued p qs

pub update_self : (f : ℕ → TaskRecord) (p : ℕ) (t : TaskRecord) → update f p t p ≡ t
update_self f p t = ground arith

pub update_ne : (f : ℕ → TaskRecord) (p q : ℕ) (t : TaskRecord) → p ≢ q → update f p t q ≡ f q
update_ne f p q t h = ground arith

-- A record after a write: the new one at its place, the old one elsewhere.
pub update-cases :
    (f : ℕ → TaskRecord) (p : ℕ) (t : TaskRecord) (q : ℕ)
    → ((p ≡ q) × (update f p t q ≡ t)) ⊎ ((p ≢ q) × (update f p t q ≡ f q))
update-cases f p t q = elim (ℕ_discrete p q) [
  | yes e ↦ inl (e, ground arith)
  | no n ↦ inr (n, update_ne f p q t n)
]
