-- ===== src/Memory/Lru/Usage.antt =====
-- The abstract device of locks and least recent use, and when a linked list refines it.

use kmm.Prelude.{
  ℕ, zero, suc, ◌+◌, ◌^◌, ◌≡◌, sym, ap, subst, ◌∙◌, inl, inr, Bool, true, false, Bool-cases, ltb,
  ==_iff, if_true, if_false, Option, none, some, List, [], ◌∷◌, ◌++◌, ◌==◌, if◌then◌else◌,
}
use kmm.Prelude.Results.{Result}
use kmm.Memory.Lru.{
  LruEntry, DeviceLru, put, increment_allocation_locks, decrement_allocation_locks,
  allocated_on_device, deallocate_device_async,
}
use kmm.Memory.Lru.Listing.{Listed}
use kmm.Memory.Lru.Members.{elem, remove, Flags}

-- The abstract device: how many locks an allocated buffer has, and the unlocked ones by least
-- recent use.
pub record Usage : Type 0 where
  pub counts : ℕ → Option ℕ
  pub order : List ℕ

pub data LruCall : Type 0 where
  allocated locked unlocked freed : (b : ℕ) → LruCall

abbrev pub put_count : (ℕ → Option ℕ) → ℕ → Option ℕ → ℕ → Option ℕ
put_count f b o c = if b == c then o else f c

abbrev pub use_allocated : ℕ → Usage → Option ℕ → Option Usage
use_allocated b u none =
    some (record { counts = put_count u.counts b (some 0); order = u.order ++ b ∷ [] })
use_allocated b u (some n) = none

abbrev pub use_locked : ℕ → Usage → Option ℕ → Option Usage
use_locked b u none = none
use_locked b u (some n) =
    if ltb (n + 1) (2 ^ 64)
    then some (record {
      counts = put_count u.counts b (some (n + 1));
      order = if n == 0 then remove b u.order else u.order;
    })
    else none

abbrev pub use_unlocked : ℕ → Usage → Option ℕ → Option Usage
use_unlocked b u none = none
use_unlocked b u (some zero) = none
use_unlocked b u (some (suc n)) = some (record {
  counts = put_count u.counts b (some n);
  order = if n == 0 then u.order ++ b ∷ [] else u.order;
})

abbrev pub use_freed : ℕ → Usage → Option ℕ → Option Usage
use_freed b u none = some u
use_freed b u (some zero) =
    some (record { counts = put_count u.counts b none; order = remove b u.order })
use_freed b u (some (suc n)) = none

-- What a call does to it, where the call is allowed.
unfoldable pub use_step : LruCall → Usage → Option Usage
use_step (allocated b) u = use_allocated b u (u.counts b)
use_step (locked b) u = use_locked b u (u.counts b)
use_step (unlocked b) u = use_unlocked b u (u.counts b)
use_step (freed b) u = use_freed b u (u.counts b)

unfoldable pub run : LruCall → DeviceLru → Result DeviceLru
unfolding allocated_on_device increment_allocation_locks decrement_allocation_locks
run (allocated b) d = allocated_on_device b d
run (locked b) d = increment_allocation_locks b d
run (unlocked b) d = decrement_allocation_locks b d
run (freed b) d = deallocate_device_async b d

-- An entry's flag and locks, the count of its buffer, and whether the list has the buffer.
abbrev pub Agrees : Bool → ℕ → Option ℕ → Bool → Type 0
Agrees a l none m = (a ≡ false) × (l ≡ 0) × (m ≡ false)
Agrees a l (some n) m = (a ≡ true) × (l ≡ n) × (m ≡ (n == 0))

abbrev pub Refines : DeviceLru → Usage → Type 0
Refines d u =
    Listed d u.order
    × ((c : ℕ)
        → Agrees (d.entries c).is_allocated (d.entries c).num_allocation_locks (u.counts c)
            (elem c u.order))

pub Agrees-same :
    (a a' : Bool) (l l' : ℕ) (o o' : Option ℕ) (m m' : Bool)
    → a' ≡ a
    → l' ≡ l
    → o' ≡ o
    → m' ≡ m
    → Agrees a l o m
    → Agrees a' l' o' m'
Agrees-same a a' l l' o o' m m' ea el eo em h = rw (ea, el, eo, em) h

-- A call changes the flags of one buffer `b` only, and its place in the list.
pub settle :
    (d d' : DeviceLru) (u : Usage) (b : ℕ) (e : LruEntry) (o : Option ℕ) (order : List ℕ)
    → Refines d u
    → Flags d'.entries (put d.entries b e)
    → Listed d' order
    → ((c : ℕ) → (b == c) ≡ false → elem c order ≡ elem c u.order)
    → Agrees e.is_allocated e.num_allocation_locks o (elem b order)
    → Refines d' (record { counts = put_count u.counts b o; order = order })
unfolding Flags
settle d d' u b e o order h flags listed others self = (
  listed,
  λ c. elim (Bool-cases (b == c)) [
    | inl same ↦
        let at = (==_iff b c).0 same in
        let eq = if_true e (d.entries c) same in
        Agrees-same e.is_allocated (d'.entries c).is_allocated e.num_allocation_locks
          (d'.entries c).num_allocation_locks o (put_count u.counts b o c) (elem b order)
          (elem c order) ((flags c).0 ∙ ap (λ z. z.is_allocated) eq)
          ((flags c).1 ∙ ap (λ z. z.num_allocation_locks) eq) (if_true o (u.counts c) same)
          (ap (λ z. elem z order) (sym at)) self
    | inr other ↦
        let eq = if_false e (d.entries c) other in
        Agrees-same (d.entries c).is_allocated (d'.entries c).is_allocated
          (d.entries c).num_allocation_locks (d'.entries c).num_allocation_locks (u.counts c)
          (put_count u.counts b o c) (elem c u.order) (elem c order)
          ((flags c).0 ∙ ap (λ z. z.is_allocated) eq)
          ((flags c).1 ∙ ap (λ z. z.num_allocation_locks) eq) (if_false o (u.counts c) other)
          (others c other) (h.1 c)
  ],
)

-- Of the buffer of a call, what its count says.
pub at :
    (d : DeviceLru) (u : Usage) (b : ℕ) (o : Option ℕ)
    → Refines d u
    → u.counts b ≡ o
    → Agrees (d.entries b).is_allocated (d.entries b).num_allocation_locks o (elem b u.order)
at d u b o h e =
    subst
      (λ o. Agrees (d.entries b).is_allocated (d.entries b).num_allocation_locks o (elem b u.order))
      e (h.1 b)
