-- ===== src/Allocators/Caching/Bins.antt =====
-- The bins hold the slots of the list of least recent use by size, so the assertions hold, and the
-- bytes allocated are those in use and those of the slots.
use kmm.Prelude.{
  ℕ, ◌+◌, ◌≤◌, ◌<◌, ◌≡◌, refl, sym, ◌∙◌, ap, subst, ◌⊎◌, inl, inr, Bool, true, false, Option, none,
  some, List, [], ◌∷◌, ◌++◌, arith, ltb, ◌==◌, if◌then◌else◌, keep, Bool-cases, Option-cases,
  if_true, if_false, ==_refl,
}
use kmm.Prelude.Results.{ok, ◌>>=◌, ◌>>◌, kmm_assert}
use kmm.Streams.EventSet.{DeviceEventSet}
use kmm.Allocators.Sync.{size_limit, add_size, sub_size, Operation, allocated, deallocated}
use kmm.Allocators.Caching.{
  round_up_allocation_size, AllocationSlot, CachingAllocator, set_bin, unlink, free_some_memory,
  deallocate_async, can_allocate_bytes, attempt, make_room, allocate_async, trim_from, trim,
}

abbrev pub of_size : ℕ → List AllocationSlot → List AllocationSlot
of_size n = keep (λ s. s.nbytes == n)

abbrev pub slot_bytes : List AllocationSlot → ℕ
slot_bytes [] = 0
slot_bytes (s ∷ rest) = s.nbytes + slot_bytes rest

-- Slots stand in the order in which they were made.
abbrev pub IsIncreasing : ℕ → ℕ → List AllocationSlot → Type 0
IsIncreasing lo hi [] = lo ≤ hi
IsIncreasing lo hi (s ∷ rest) = (lo ≤ s.id) × IsIncreasing (s.id + 1) hi rest

pub record IsBinned (c : CachingAllocator) : Type 0 where
  pub bins : (n : ℕ) → c.allocation_bins n ≡ of_size n c.lru
  pub ordered : IsIncreasing 0 c.next_slot c.lru
  pub counted : c.bytes_allocated ≡ c.bytes_in_use + slot_bytes c.lru
  pub word : c.bytes_allocated < size_limit

IsIncreasing-weaken :
    (lo lo' hi : ℕ) (ss : List AllocationSlot)
    → lo' ≤ lo
    → IsIncreasing lo hi ss
    → IsIncreasing lo' hi ss
IsIncreasing-weaken lo lo' hi [] h i = omega (arith, h, i)
IsIncreasing-weaken lo lo' hi (s ∷ rest) h i = (omega (arith, h, i.0), i.1)

IsIncreasing-snoc :
    (lo hi : ℕ) (ss : List AllocationSlot) (s : AllocationSlot)
    → s.id ≡ hi
    → IsIncreasing lo hi ss
    → IsIncreasing lo (hi + 1) (ss ++ s ∷ [])
IsIncreasing-snoc lo hi [] s e i = (omega (arith, e, i), omega (arith, e))
IsIncreasing-snoc lo hi (x ∷ rest) s e i = (i.0, IsIncreasing-snoc (x.id + 1) hi rest s e i.1)

slot_bytes-snoc :
    (ss : List AllocationSlot) (s : AllocationSlot)
    → slot_bytes (ss ++ s ∷ []) ≡ slot_bytes ss + s.nbytes
slot_bytes-snoc [] s = omega arith
slot_bytes-snoc (x ∷ rest) s = omega (arith, slot_bytes-snoc rest s)

of_size-snoc :
    (n : ℕ) (ss : List AllocationSlot) (s : AllocationSlot)
    → of_size n (ss ++ s ∷ []) ≡ (if s.nbytes == n then of_size n ss ++ s ∷ [] else of_size n ss)
of_size-snoc n [] s = ground arith
of_size-snoc n (x ∷ rest) s = ground (arith, of_size-snoc n rest s)

slots-cases :
    (ss : List AllocationSlot)
    → (ss ≡ []) ⊎ ((s : AllocationSlot) × (rest : List AllocationSlot) × (ss ≡ s ∷ rest))
slots-cases [] = inl refl
slots-cases (s ∷ rest) = inr (s, rest, refl)

==→≡ : (a b : ℕ) → (a == b) ≡ true → a ≡ b
==→≡ a b e = ground (arith, e)

-- Freeing on a sound allocator fails no assertion. It frees the oldest slot and gives its bytes
-- back, or there is none.
pub free_some_memory-IsBinned :
    (c : CachingAllocator)
    → IsBinned c
    → (r : ℕ × CachingAllocator) × (free_some_memory c ≡ ok r)
      × IsBinned r.1
      × (r.0 + r.1.bytes_allocated ≡ c.bytes_allocated)
      × (r.1.bytes_in_use ≡ c.bytes_in_use)
      × (((c.lru ≡ []) × (r.1.lru ≡ [])) ⊎ ((s : AllocationSlot) × (c.lru ≡ s ∷ r.1.lru)))
unfolding free_some_memory
free_some_memory-IsBinned c v = elim (slots-cases c.lru) [
  | inl q ↦ ((0, c), rw q refl, v, omega arith, refl, inl (q, q))
  | inr (s, rest, q) ↦
      let cell : c.allocation_bins s.nbytes ≡ s ∷ of_size s.nbytes rest =
        v.bins s.nbytes ∙ ap (of_size s.nbytes) q ∙ if_true _ _ (==_refl s.nbytes) in
      let bytes : slot_bytes c.lru ≡ s.nbytes + slot_bytes rest = ap slot_bytes q in
      let ids : IsIncreasing 0 c.next_slot (s ∷ rest) =
        subst (IsIncreasing 0 c.next_slot) q v.ordered in
      let d : CachingAllocator = record c {
        allocation_bins = set_bin s.nbytes (of_size s.nbytes rest) c.allocation_bins;
        lru = rest;
        bytes_allocated = sub_size c.bytes_allocated s.nbytes;
        log = deallocated s.address s.nbytes ∷ c.log;
      } in
      (
        (s.nbytes, d),
        rw (q, cell) (ap (λ b. kmm_assert b >> ok (s.nbytes, d)) (==_refl s.id)),
        record {
          bins = λ n. elim (Bool-cases (s.nbytes == n)) [
            | inl e ↦ if_true _ _ e ∙ ap (λ k. of_size k rest) (==→≡ s.nbytes n e)
            | inr e ↦ if_false _ _ e ∙ v.bins n ∙ ap (of_size n) q ∙ if_false _ _ e
          ];
          ordered = IsIncreasing-weaken (s.id + 1) 0 c.next_slot rest (omega arith) ids.1;
          counted = omega (arith, bytes, v.counted, v.word);
          word = omega arith;
        },
        omega (arith, bytes, v.counted, v.word),
        refl,
        inr (s, q),
      )
]

-- Giving back at most the bytes in use, rounded up, keeps a sound allocator sound.
pub deallocate_async-IsBinned :
    (address requested : ℕ) (deps : DeviceEventSet) (c : CachingAllocator)
    → round_up_allocation_size requested ≤ c.bytes_in_use
    → IsBinned c
    → IsBinned (deallocate_async address requested deps c)
unfolding deallocate_async
deallocate_async-IsBinned address requested deps c h v =
    let n = round_up_allocation_size requested in
    let slot : AllocationSlot = record {
      id = c.next_slot;
      address = address;
      nbytes = n;
      dependencies = deps;
    } in
    record {
      bins = λ k. elim (Bool-cases (n == k)) [
        | inl e ↦
            if_true _ (c.allocation_bins k) e
            ∙ ap (λ x. x ++ slot ∷ []) (v.bins n ∙ ap (λ j. of_size j c.lru) (==→≡ n k e))
            ∙ sym (of_size-snoc k c.lru slot ∙ if_true _ _ e)
        | inr e ↦ if_false _ _ e ∙ v.bins k ∙ sym (of_size-snoc k c.lru slot ∙ if_false _ _ e)
      ];
      ordered = IsIncreasing-snoc 0 c.next_slot c.lru slot refl v.ordered;
      counted = omega (arith, slot_bytes-snoc c.lru slot, v.counted, v.word);
      word = v.word;
    }

-- Taking the first slot of a size out of the list of least recent use.
record Unlinks (n lo hi : ℕ) (ss : List AllocationSlot) (s : AllocationSlot)
    (next left : List AllocationSlot) : Type 0 where
  size : s.nbytes ≡ n
  bound : lo ≤ s.id
  own : of_size n left ≡ next
  other : (k : ℕ) → (n == k) ≡ false → of_size k left ≡ of_size k ss
  ordered : IsIncreasing lo hi left
  bytes : slot_bytes ss ≡ n + slot_bytes left

unlink-Unlinks :
    (n lo hi : ℕ) (ss : List AllocationSlot) (s : AllocationSlot) (next : List AllocationSlot)
    → of_size n ss ≡ s ∷ next
    → IsIncreasing lo hi ss
    → Unlinks n lo hi ss s next (unlink s.id ss)
unfolding unlink
unlink-Unlinks n lo hi [] s next e i = absurd (cc e)
unlink-Unlinks n lo hi (x ∷ rest) s next e i = elim (Bool-cases (x.nbytes == n)) [
  | inl hit ↦
      let cell : x ∷ of_size n rest ≡ s ∷ next = sym (if_true _ _ hit) ∙ e in
      let same : x ≡ s = cc cell in
      let size : x.nbytes ≡ n = ==→≡ x.nbytes n hit in
      subst (λ y. Unlinks n lo hi (x ∷ rest) y next (unlink y.id (x ∷ rest))) same
        (subst (Unlinks n lo hi (x ∷ rest) x next) (sym (if_true _ _ (==_refl x.id))) (record {
          size = size;
          bound = i.0;
          own = cc cell;
          other = λ k ne. sym (if_false {b = x.nbytes == k} _ _ (cc (ap (λ y. y == k) size, ne)));
          ordered = IsIncreasing-weaken (x.id + 1) lo hi rest (omega (arith, i.0)) i.1;
          bytes = omega (arith, size);
        }))
  | inr miss ↦
      let u = unlink-Unlinks n (x.id + 1) hi rest s next (sym (if_false _ _ miss) ∙ e) i.1 in
      let apart : (x.id == s.id) ≡ false = ground (arith, u.bound) in
      subst (Unlinks n lo hi (x ∷ rest) s next) (sym (if_false _ _ apart)) (record {
        size = u.size;
        bound = omega (arith, u.bound, i.0);
        own = if_false _ _ miss ∙ u.own;
        other = λ k ne. ap (λ r. if x.nbytes == k then x ∷ r else r) (u.other k ne);
        ordered = (i.0, u.ordered);
        bytes = omega (arith, u.bytes);
      })
]

module _ (acceptable : ℕ → ℕ → Bool)
    (allocate : List Operation → ℕ → Option (ℕ × DeviceEventSet)) where
  attempt_lem :
      (n : ℕ) (c : CachingAllocator)
      → IsBinned c
      → c.bytes_allocated + n < size_limit
      → ((m : ℕ × DeviceEventSet) × (d : CachingAllocator) × (attempt acceptable allocate n c
            ≡ some (m, d))
          × IsBinned d
          × (d.bytes_in_use ≡ c.bytes_in_use + n))
        ⊎ (attempt acceptable allocate n c ≡ none)
  unfolding attempt
  attempt_lem n c v fits = elim (Bool-cases (can_allocate_bytes acceptable n c)) [
    | inr full ↦ inr (if_false _ _ full)
    | inl fine ↦ elim (Option-cases (allocate c.log n)) [
      | inl none_left ↦ inr (if_true _ _ fine ∙ rw none_left refl)
      | inr (m, q) ↦ inl (
        m,
        record c {
          bytes_allocated = add_size c.bytes_allocated n;
          bytes_in_use = add_size c.bytes_in_use n;
          bytes_watermark =
              if ltb c.bytes_watermark (add_size c.bytes_allocated n)
              then add_size c.bytes_allocated n
              else c.bytes_watermark;
          log = allocated m.0 n ∷ c.log;
        },
        if_true _ _ fine ∙ rw q refl,
        record {
          bins = v.bins;
          ordered = v.ordered;
          counted = omega (arith, v.counted, v.word, fits);
          word = omega arith;
        },
        omega (arith, v.counted, v.word, fits),
      )
    ]
  ]

  -- How an allocation ends: with the bytes in use, or with no slot left to free.
  abbrev pub Served : ℕ → ℕ → Option (ℕ × DeviceEventSet) × CachingAllocator → Type 0
  Served n used (some m, d) = IsBinned d × (d.bytes_in_use ≡ used + n)
  Served n used (none, d) = IsBinned d × (d.bytes_in_use ≡ used) × (d.lru ≡ [])

  make_room-Served :
      (n : ℕ) (ss : List AllocationSlot) (c : CachingAllocator)
      → c.lru ≡ ss
      → IsBinned c
      → c.bytes_allocated + n < size_limit
      → (r : Option (ℕ × DeviceEventSet) × CachingAllocator) × (make_room acceptable allocate n ss c
          ≡ ok r)
        × Served n c.bytes_in_use r
  unfolding make_room
  make_room-Served n [] c q v fits = elim (attempt_lem n c v fits) [
    | inl (m, d, e, vd, used) ↦ ((some m, d), rw (e, make_room) refl, (vd, used))
    | inr e ↦
        let (r, er, vr, total, used, left) = free_some_memory-IsBinned c v in
        (
          (none, r.1),
          rw (e, make_room) (ap (λ x. x >>= λ y. ok (none, y.1)) er),
          (vr, used, elim left [ inl (_, z) ↦ z | inr (s, z) ↦ absurd (cc (q, z)) ]),
        )
  ]
  make_room-Served n (s ∷ ss) c q v fits = elim (attempt_lem n c v fits) [
    | inl (m, d, e, vd, used) ↦ ((some m, d), rw (e, make_room) refl, (vd, used))
    | inr e ↦
        let (r, er, vr, total, used, left) = free_some_memory-IsBinned c v in
        let rest : r.1.lru ≡ ss = elim left [
          | inl (z, _) ↦ absurd (cc (q, z))
          | inr (t, z) ↦ cc (q, z)
        ] in
        let (a, ea, ends) = make_room-Served n ss r.1 rest vr (omega (arith, total, fits)) in
        (
          a,
          rw (e, make_room) (ap (λ x. x >>= λ y. make_room acceptable allocate n ss y.1) er ∙ ea),
          subst (λ u. Served n u a) used ends,
        )
  ]

-- On a sound allocator whose total with the rounded request fits size_t, an allocation fails no
-- assertion and ends with a sound allocator: with the bytes counted as in use, or out of memory with
-- no slot left to free.
pub allocate_async-Served :
    (acceptable : ℕ → ℕ → Bool) (allocate : List Operation → ℕ → Option (ℕ × DeviceEventSet))
    (requested : ℕ) (c : CachingAllocator)
    → IsBinned c
    → c.bytes_allocated + round_up_allocation_size requested < size_limit
    → (r : Option (ℕ × DeviceEventSet) × CachingAllocator) × (allocate_async acceptable allocate
          requested c
        ≡ ok r)
      × Served acceptable allocate (round_up_allocation_size requested) c.bytes_in_use r
unfolding allocate_async
allocate_async-Served acceptable allocate requested c v fits =
    let n = round_up_allocation_size requested in
    elim (slots-cases (c.allocation_bins n)) [
      | inl q ↦
          let (r, e, ends) = make_room-Served acceptable allocate n c.lru c refl v fits in
          (r, rw (q, allocate_async) e, ends)
      | inr (s, next, q) ↦
          let u = unlink-Unlinks n 0 c.next_slot c.lru s next (sym (v.bins n) ∙ q) v.ordered in
          (
            (
              some (s.address, s.dependencies),
              record c {
                allocation_bins = set_bin n next c.allocation_bins;
                lru = unlink s.id c.lru;
                bytes_in_use = add_size c.bytes_in_use n;
              },
            ),
            rw (q, allocate_async) refl,
            (
              record {
                bins = λ k. elim (Bool-cases (n == k)) [
                  | inl e ↦
                      if_true _ (c.allocation_bins k) e
                      ∙ sym u.own
                      ∙ ap (λ j. of_size j (unlink s.id c.lru)) (==→≡ n k e)
                  | inr e ↦ if_false _ _ e ∙ v.bins k ∙ sym (u.other k e)
                ];
                ordered = u.ordered;
                counted = omega (arith, v.counted, v.word, fits, u.bytes);
                word = v.word;
              },
              omega (arith, v.counted, v.word, fits, u.bytes),
            ),
          )
    ]

trim_from_lem :
    (remaining : ℕ) (ss : List AllocationSlot) (c : CachingAllocator)
    → c.lru ≡ ss
    → IsBinned c
    → (d : CachingAllocator) × (trim_from remaining ss c ≡ ok d)
      × IsBinned d
      × (d.bytes_in_use ≡ c.bytes_in_use)
      × ((d.bytes_allocated ≤ remaining) ⊎ (d.lru ≡ []))
unfolding trim_from
trim_from_lem remaining [] c q v = (c, refl, v, refl, inr q)
trim_from_lem remaining (s ∷ ss) c q v = elim (Bool-cases (ltb remaining c.bytes_allocated)) [
  | inr small ↦ (c, rw (small, trim_from) refl, v, refl, inl (ground (arith, small)))
  | inl large ↦
      let (r, er, vr, total, used, left) = free_some_memory-IsBinned c v in
      let rest : r.1.lru ≡ ss = elim left [
        | inl (z, _) ↦ absurd (cc (q, z))
        | inr (t, z) ↦ cc (q, z)
      ] in
      let (d, ed, vd, kept, ends) = trim_from_lem remaining ss r.1 rest vr in
      (
        d,
        rw (large, trim_from) (ap (λ x. x >>= λ y. trim_from remaining ss y.1) er ∙ ed),
        vd,
        kept ∙ used,
        ends,
      )
]

-- `trim` on a sound allocator fails no assertion. It ends sound, with the same bytes in use, and
-- within the bound or with no slot left.
pub trim-IsBinned :
    (remaining : ℕ) (c : CachingAllocator)
    → IsBinned c
    → (d : CachingAllocator) × (trim remaining c ≡ ok d)
      × IsBinned d
      × (d.bytes_in_use ≡ c.bytes_in_use)
      × ((d.bytes_allocated ≤ remaining) ⊎ (d.lru ≡ []))
unfolding trim
trim-IsBinned remaining c v = trim_from_lem remaining c.lru c refl v
