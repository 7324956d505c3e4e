-- ===== src/Examples/Lru.antt =====
-- The list of least recent use on a device with two unlocked buffers.
use kmm.Prelude.{
  ◌≡◌, refl, subst, inl, inr, true, false, arith, Bool-cases, ==_iff, none, some, [], ◌∷◌, ◌==◌,
  if◌then◌else◌,
}
use kmm.Prelude.Results.{ok}
use kmm.Memory.Lru.{LruEntry, DeviceLru}
use kmm.Memory.Lru.Members.{elem}
use kmm.Memory.Lru.Usage.{Usage, locked, run, use_step, Refines, Agrees}
use kmm.Memory.Lru.Refinement.{run-Refines}

abbrev free_entry : LruEntry
free_entry = record {
  is_allocated = false;
  num_allocation_locks = 0;
  lru_older = none;
  lru_newer = none;
}

abbrev two_buffers : DeviceLru
two_buffers = record {
  entries = λ c.
      if 1 == c
      then record free_entry { is_allocated = true; lru_newer = some 2 }
      else if 2 == c
      then record free_entry { is_allocated = true; lru_older = some 1 }
      else free_entry;
  lru_oldest = some 1;
  lru_newest = some 2;
}

abbrev two_used : Usage
two_used = record {
  counts = λ c. if 1 == c then some 0 else if 2 == c then some 0 else none;
  order = 1 ∷ 2 ∷ [];
}

abbrev one_locked : Usage
one_locked = record { counts = λ c. if 1 == c then some 1 else two_used.counts c; order = 2 ∷ [] }

two_buffers-Refines : Refines two_buffers two_used
two_buffers-Refines = (
  (refl, refl, (refl, refl, (refl, refl, tt)), ((λ e. ground (arith, e), tt), (tt, tt))),
  λ c. elim (Bool-cases (1 == c)) [
    | inl e ↦
        subst
          (λ c.
            Agrees (two_buffers.entries c).is_allocated (two_buffers.entries c).num_allocation_locks
              (two_used.counts c) (elem c (1 ∷ 2 ∷ [])))
          ((==_iff 1 c).0 e) (refl, refl, refl)
    | inr e ↦ elim (Bool-cases (2 == c)) [
      | inl e2 ↦
          subst
            (λ c.
              Agrees (two_buffers.entries c).is_allocated
                (two_buffers.entries c).num_allocation_locks (two_used.counts c)
                (elem c (1 ∷ 2 ∷ [])))
            ((==_iff 2 c).0 e2) (refl, refl, refl)
      | inr e2 ↦
          let n1 : (c == 1) ≡ false = ground (arith, e) in
          let n2 : (c == 2) ≡ false = ground (arith, e2) in rw (e, e2, n1, n2) (refl, refl, refl)
    ]
  ],
)

run-Refines_example :
    (d' : DeviceLru) × (run (locked 1) two_buffers ≡ ok d') × Refines d' one_locked
unfolding use_step
run-Refines_example =
    run-Refines (locked 1) two_buffers two_used one_locked two_buffers-Refines refl
