-- ===== src/Memory/Lru/Refinement.antt =====
-- The list of least recent use refines a list of numbers with a count of locks for each buffer.
use native.Mathlib.Nat.{mod-eq_of_lt}
use mathlib.Core.Option.{some-injective}
use kmm.Prelude.{
  ltb→lt, ℕ, zero, suc, ◌+◌, ◌-◌, ◌%◌, ◌^◌, ◌<◌, ◌≡◌, refl, sym, ap, subst, ◌∙◌, inl, inr, true,
  false, arith, Bool-cases, ltb, ==_refl, if_true, if_false, Option, none, some, List, [], ◌∷◌,
  ◌++◌, ◌==◌, if◌then◌else◌,
}
use kmm.Prelude.Results.{Result, ok, ◌>>=◌, ◌>>◌, kmm_assert}
use kmm.Memory.Lru.{
  LruEntry, DeviceLru, put, unlink, link_newest, add_to_lru, remove_from_lru, assert_unlocked,
  increment_allocation_locks, decrement_allocation_locks, allocated_on_device,
  deallocate_device_async,
}
use kmm.Memory.Lru.Links.{put_self}
use kmm.Memory.Lru.Listing.{Listed, unlink-Listed, link_newest-Listed}
use kmm.Memory.Lru.Members.{
  elem, remove, elem-Without, parts, elem-remove_other, elem-remove_self, elem-append_other,
  elem-append_self, Flags, unlink-Flags, link_newest-Flags, relock,
}
use kmm.Memory.Lru.Usage.{
  allocated, locked, unlocked, freed, Usage, LruCall, put_count, use_allocated, use_locked,
  use_unlocked, use_freed, use_step, run, Refines, settle, at,
}

allocated-Refines :
    (d : DeviceLru) (u : Usage) (b : ℕ)
    → Refines d u
    → u.counts b ≡ none
    → (d' : DeviceLru) × (allocated_on_device b d ≡ ok d')
      × Refines d' (record { counts = put_count u.counts b (some 0); order = u.order ++ b ∷ [] })
unfolding allocated_on_device add_to_lru
allocated-Refines d u b h e =
    let (is_free, no_locks, outside) = at d u b none h e in
    let t : LruEntry = record (d.entries b) { is_allocated = true } in
    let d1 : DeviceLru = record d { entries = put d.entries b t } in
    let same = put_self d.entries b t in
    let ready : assert_unlocked (d1.entries b) ≡ ok tt =
      ap assert_unlocked same ∙ ap (λ n. kmm_assert (n == 0)) no_locks in
    let listed : Listed d1 u.order =
      (h.0.0, h.0.1, relock d.entries b t none u.order none refl refl h.0.2, h.0.3) in
    (
      link_newest b d1,
      ap (λ r. r >> ok (link_newest b d1)) ready,
      settle d (link_newest b d1) u b t (some 0) (u.order ++ b ∷ []) h (link_newest-Flags b d1)
          (link_newest-Listed d1 u.order b (elem-Without b u.order outside) listed)
          (λ c other. elem-append_other b c u.order other)
          (refl, no_locks, elem-append_self b u.order ∙ sym (==_refl 0)),
    )

Flags-put :
    (f g : ℕ → LruEntry) (b : ℕ) (e e' : LruEntry)
    → Flags g f
    → e'.is_allocated ≡ e.is_allocated
    → e'.num_allocation_locks ≡ e.num_allocation_locks
    → Flags (put g b e') (put f b e)
unfolding Flags
Flags-put f g b e e' h k l c = elim (Bool-cases (b == c)) [
  | inl same ↦ rw same (k, l)
  | inr other ↦ rw other (h c)
]

Flags-refl : (f : ℕ → LruEntry) → Flags f f
unfolding Flags
Flags-refl f c = (refl, refl)

locks :
    (g f : ℕ → LruEntry)
    → Flags g f
    → (b : ℕ) → (g b).num_allocation_locks ≡ (f b).num_allocation_locks
unfolding Flags
locks g f h b = (h b).1

is_here_after : (g f : ℕ → LruEntry) → Flags g f → (b : ℕ) → (g b).is_allocated ≡ (f b).is_allocated
unfolding Flags
is_here_after g f h b = (h b).0

-- Removing an unlocked buffer.
removed :
    (d : DeviceLru) (u : Usage) (b : ℕ)
    → Refines d u
    → u.counts b ≡ some 0
    → (remove_from_lru b d ≡ ok (unlink b d)) × Listed (unlink b d) (remove b u.order)
unfolding remove_from_lru
removed d u b h e =
    let (is_here, no_locks, inside) = at d u b (some 0) h e in
    let (front, back, whole, left) = parts b u.order (inside ∙ ==_refl 0) in
    let ready : assert_unlocked (d.entries b) ≡ ok tt = rw (is_here, no_locks) refl in
    (
      ap (λ r. r >> ok (unlink b d)) ready,
      subst (Listed (unlink b d)) (sym left)
          (unlink-Listed d front b back (subst (Listed d) whole h.0)),
    )

freed-Refines :
    (d : DeviceLru) (u : Usage) (b : ℕ)
    → Refines d u
    → u.counts b ≡ some 0
    → (d' : DeviceLru) × (deallocate_device_async b d ≡ ok d')
      × Refines d' (record { counts = put_count u.counts b none; order = remove b u.order })
unfolding deallocate_device_async
freed-Refines d u b h e =
    let (is_here, no_locks, inside) = at d u b (some 0) h e in
    let (ready, listed) = removed d u b h e in
    let d1 = unlink b d in
    let t : LruEntry = record (d.entries b) { is_allocated = false } in
    let t1 : LruEntry = record (d1.entries b) { is_allocated = false } in
    let d' : DeviceLru = record d1 { entries = put d1.entries b t1 } in
    let flags = unlink-Flags b d in
    (
      d',
      ap (λ t. kmm_assert t >> (if (d.entries b).is_allocated then rest else ok d))
            (ap (λ n. n == 0) no_locks)
          ∙ if_true rest (ok d) is_here
          ∙ ap (λ r. r >>= forget) ready,
      settle d d' u b t none (remove b u.order) h
          (Flags-put d.entries d1.entries b t t1 flags refl (locks d1.entries d.entries flags b))
          (
            listed.0,
            listed.1,
            relock d1.entries b t1 none (remove b u.order) none refl refl listed.2,
            listed.3,
          )
          (λ c other. elem-remove_other b c u.order other)
          (refl, no_locks, elem-remove_self b u.order h.0.3),
    )
  where
    forget : DeviceLru → Result DeviceLru
    forget d =
        ok (record d { entries = put d.entries b (record (d.entries b) { is_allocated = false }) })

    rest : Result DeviceLru
    rest = remove_from_lru b d >>= forget

suc_not_zero : (n : ℕ) → (suc n == 0) ≡ false
suc_not_zero n = ground arith

add_one_not_zero : (n : ℕ) → ((n + 1) == 0) ≡ false
add_one_not_zero n = ground arith

some_positive : (n : ℕ) → ltb 0 (suc n) ≡ true
some_positive n = ground arith

one_less : (n : ℕ) → suc n - 1 ≡ n
one_less n = omega arith

-- One more lock, once the buffer is out of the list if it was there.
counted :
    (d d1 : DeviceLru) (u : Usage) (b n : ℕ) (order : List ℕ)
    → Refines d u
    → u.counts b ≡ some n
    → n + 1 < 2 ^ 64
    → Flags d1.entries d.entries
    → Listed d1 order
    → ((c : ℕ) → (b == c) ≡ false → elem c order ≡ elem c u.order)
    → elem b order ≡ false
    → Refines
        (record d1 {
          entries = put d1.entries b (record (d1.entries b) {
            num_allocation_locks = ((d1.entries b).num_allocation_locks + 1) % 2 ^ 64;
          });
        })
        (record { counts = put_count u.counts b (some (n + 1)); order = order })
counted d d1 u b n order h e fits flags listed others outside =
    let (is_here, few, _) = at d u b (some n) h e in
    let t : LruEntry = record (d.entries b) { num_allocation_locks = n + 1 } in
    let t1 : LruEntry = record (d1.entries b) {
      num_allocation_locks = ((d1.entries b).num_allocation_locks + 1) % 2 ^ 64;
    } in
    let d' : DeviceLru = record d1 { entries = put d1.entries b t1 } in
    let same : (d1.entries b).num_allocation_locks ≡ n = locks d1.entries d.entries flags b ∙ few in
    let not_free : ((n + 1) == 0) ≡ false = add_one_not_zero n in
    settle d d' u b t (some (n + 1)) order h
      (Flags-put d.entries d1.entries b t t1 flags (is_here_after d1.entries d.entries flags b)
        (ap (λ k. (k + 1) % 2 ^ 64) same ∙ mod-eq_of_lt fits))
      (listed.0, listed.1, relock d1.entries b t1 none order none refl refl listed.2, listed.3)
      others (is_here, refl, outside ∙ sym not_free)

-- One lock more, on a buffer that is in the list or not.
locked-Refines :
    (d : DeviceLru) (u : Usage) (b n : ℕ)
    → Refines d u
    → u.counts b ≡ some n
    → n + 1 < 2 ^ 64
    → (d' : DeviceLru) × (increment_allocation_locks b d ≡ ok d')
      × Refines d' (record {
        counts = put_count u.counts b (some (n + 1));
        order = if n == 0 then remove b u.order else u.order;
      })
unfolding increment_allocation_locks
locked-Refines d u b zero h e fits =
    let (is_here, few, inside) = at d u b (some 0) h e in
    let (ready, listed) = removed d u b h e in
    (
      more (unlink b d),
      ap (λ t. kmm_assert t >> start >>= λ d. ok (more d)) is_here
          ∙ ap (λ r. r >>= λ d. ok (more d))
              (if_true (remove_from_lru b d) (ok d) (ap (λ n. n == 0) few) ∙ ready),
      counted d (unlink b d) u b 0 (remove b u.order) h e fits (unlink-Flags b d) listed
          (λ c other. elem-remove_other b c u.order other) (elem-remove_self b u.order h.0.3),
    )
  where
    more : DeviceLru → DeviceLru
    more d = record d {
      entries = put d.entries b (record (d.entries b) {
        num_allocation_locks = ((d.entries b).num_allocation_locks + 1) % 2 ^ 64;
      });
    }

    start : Result DeviceLru
    start = if (d.entries b).num_allocation_locks == 0 then remove_from_lru b d else ok d
locked-Refines d u b (suc n) h e fits =
    let (is_here, few, inside) = at d u b (some (suc n)) h e in
    let not_free : (suc n == 0) ≡ false = suc_not_zero n in
    let kept : ((d.entries b).num_allocation_locks == 0) ≡ false =
      ap (λ n. n == 0) few ∙ not_free in
    let order : (if suc n == 0 then remove b u.order else u.order) ≡ u.order =
      if_false (remove b u.order) u.order not_free in
    (
      more d,
      ap (λ t. kmm_assert t >> start >>= λ d. ok (more d)) is_here
          ∙ ap (λ r. r >>= λ d. ok (more d)) (if_false (remove_from_lru b d) (ok d) kept),
      subst
          (λ o.
            Refines (more d)
              (record { counts = put_count u.counts b (some (suc n + 1)); order = o }))
          (sym order)
          (counted d d u b (suc n) u.order h e fits (Flags-refl d.entries) h.0 (λ c other. refl)
            (inside ∙ not_free)),
    )
  where
    more : DeviceLru → DeviceLru
    more d = record d {
      entries = put d.entries b (record (d.entries b) {
        num_allocation_locks = ((d.entries b).num_allocation_locks + 1) % 2 ^ 64;
      });
    }

    start : Result DeviceLru
    start = if (d.entries b).num_allocation_locks == 0 then remove_from_lru b d else ok d

-- One lock less.
unlocked-Refines :
    (d : DeviceLru) (u : Usage) (b n : ℕ)
    → Refines d u
    → u.counts b ≡ some (suc n)
    → (d' : DeviceLru) × (decrement_allocation_locks b d ≡ ok d')
      × Refines d' (record {
        counts = put_count u.counts b (some n);
        order = if n == 0 then u.order ++ b ∷ [] else u.order;
      })
unfolding decrement_allocation_locks add_to_lru
unlocked-Refines d u b n h e =
    let (is_here, few, inside) = at d u b (some (suc n)) h e in
    let left : (d.entries b).num_allocation_locks - 1 ≡ n = ap (λ k. k - 1) few ∙ one_less n in
    let same = put_self d.entries b less in
    let outside : elem b u.order ≡ false = inside ∙ suc_not_zero n in
    let kept : Listed d1 u.order =
      (h.0.0, h.0.1, relock d.entries b less none u.order none refl refl h.0.2, h.0.3) in
    let passes : decrement_allocation_locks b d ≡ rest =
      ap (λ t. kmm_assert t >> kmm_assert (ltb 0 (d.entries b).num_allocation_locks) >> rest)
        is_here
      ∙ ap (λ t. kmm_assert t >> rest) (ap (ltb 0) few ∙ some_positive n) in
    elim (Bool-cases (n == 0)) [
      | inl e0 ↦
          let free : ((d.entries b).num_allocation_locks - 1 == 0) ≡ true =
            ap (λ k. k == 0) left ∙ e0 in
          let ready : assert_unlocked (d1.entries b) ≡ ok tt =
            ap assert_unlocked same
            ∙ ap (λ t. kmm_assert t >> kmm_assert ((d.entries b).num_allocation_locks - 1 == 0))
                is_here
            ∙ ap kmm_assert free in
          (
            link_newest b d1,
            passes
                ∙ if_true (add_to_lru b d1) (ok d1) free
                ∙ ap (λ r. r >> ok (link_newest b d1)) ready,
            subst
                (λ o.
                  Refines (link_newest b d1)
                    (record { counts = put_count u.counts b (some n); order = o }))
                (sym (if_true (u.order ++ b ∷ []) u.order e0))
                (settle d (link_newest b d1) u b less (some n) (u.order ++ b ∷ []) h
                  (link_newest-Flags b d1)
                  (link_newest-Listed d1 u.order b (elem-Without b u.order outside) kept)
                  (λ c other. elem-append_other b c u.order other)
                  (is_here, left, elem-append_self b u.order ∙ sym e0)),
          )
      | inr e0 ↦
          let busy : ((d.entries b).num_allocation_locks - 1 == 0) ≡ false =
            ap (λ k. k == 0) left ∙ e0 in
          (
            d1,
            passes ∙ if_false (add_to_lru b d1) (ok d1) busy,
            subst (λ o. Refines d1 (record { counts = put_count u.counts b (some n); order = o }))
                (sym (if_false (u.order ++ b ∷ []) u.order e0))
                (settle d d1 u b less (some n) u.order h (Flags-refl d1.entries) kept
                  (λ c other. refl) (is_here, left, outside ∙ sym e0)),
          )
    ]
  where
    less : LruEntry
    less = record (d.entries b) { num_allocation_locks = (d.entries b).num_allocation_locks - 1 }

    d1 : DeviceLru
    d1 = record d { entries = put d.entries b less }

    rest : Result DeviceLru
    rest = if (d.entries b).num_allocation_locks - 1 == 0 then add_to_lru b d1 else ok d1

Done : Result DeviceLru → Usage → Type 0
Done r u = (d' : DeviceLru) × (r ≡ ok d') × Refines d' u

Done-some : (r : Result DeviceLru) (u u' : Usage) → Done r u → some u ≡ some u' → Done r u'
Done-some r u u' h e = subst (Done r) (some-injective u u' e) h

run-allocated :
    (d : DeviceLru) (u u' : Usage) (b : ℕ) (o : Option ℕ)
    → Refines d u
    → u.counts b ≡ o
    → use_allocated b u o ≡ some u'
    → Done (allocated_on_device b d) u'
unfolding Done
run-allocated d u u' b none h e made =
    Done-some (allocated_on_device b d)
      (record { counts = put_count u.counts b (some 0); order = u.order ++ b ∷ [] }) u'
      (allocated-Refines d u b h e) made
run-allocated d u u' b (some n) h e made = absurd (cc made)

run-locked :
    (d : DeviceLru) (u u' : Usage) (b : ℕ) (o : Option ℕ)
    → Refines d u
    → u.counts b ≡ o
    → use_locked b u o ≡ some u'
    → Done (increment_allocation_locks b d) u'
unfolding Done
run-locked d u u' b none h e made = absurd (cc made)
run-locked d u u' b (some n) h e made =
    let next : Usage = record {
      counts = put_count u.counts b (some (n + 1));
      order = if n == 0 then remove b u.order else u.order;
    } in
    elim (Bool-cases (ltb (n + 1) (2 ^ 64))) [
      | inl e0 ↦
          Done-some (increment_allocation_locks b d) next u'
            (locked-Refines d u b n h e (ltb→lt (n + 1) (2 ^ 64) e0))
            (sym (if_true (some next) none e0) ∙ made)
      | inr e0 ↦ absurd (cc (made, if_false (some next) none e0))
    ]

run-unlocked :
    (d : DeviceLru) (u u' : Usage) (b : ℕ) (o : Option ℕ)
    → Refines d u
    → u.counts b ≡ o
    → use_unlocked b u o ≡ some u'
    → Done (decrement_allocation_locks b d) u'
unfolding Done
run-unlocked d u u' b none h e made = absurd (cc made)
run-unlocked d u u' b (some zero) h e made = absurd (cc made)
run-unlocked d u u' b (some (suc n)) h e made =
    Done-some (decrement_allocation_locks b d)
      (record {
        counts = put_count u.counts b (some n);
        order = if n == 0 then u.order ++ b ∷ [] else u.order;
      })
      u' (unlocked-Refines d u b n h e) made

run-freed :
    (d : DeviceLru) (u u' : Usage) (b : ℕ) (o : Option ℕ)
    → Refines d u
    → u.counts b ≡ o
    → use_freed b u o ≡ some u'
    → Done (deallocate_device_async b d) u'
unfolding Done deallocate_device_async
run-freed d u u' b none h e made =
    let (is_free, no_locks, _) = at d u b none h e in
    let gone : deallocate_device_async b d ≡ ok d =
      ap (λ t. kmm_assert t >> (if (d.entries b).is_allocated then forgotten else ok d))
        (ap (λ n. n == 0) no_locks)
      ∙ if_false forgotten (ok d) is_free in
    Done-some (deallocate_device_async b d) u u' (d, gone, h) made
  where
    forgotten : Result DeviceLru
    forgotten = remove_from_lru b d >>= λ d.
        ok (record d { entries = put d.entries b (record (d.entries b) { is_allocated = false }) })
run-freed d u u' b (some zero) h e made =
    Done-some (deallocate_device_async b d)
      (record { counts = put_count u.counts b none; order = remove b u.order }) u'
      (freed-Refines d u b h e) made
run-freed d u u' b (some (suc n)) h e made = absurd (cc made)

-- A call that the abstract device allows fails no assertion, and leaves a device that refines the
-- new counts and order of use.
pub run-Refines :
    (call : LruCall) (d : DeviceLru) (u u' : Usage)
    → Refines d u
    → use_step call u ≡ some u'
    → (d' : DeviceLru) × (run call d ≡ ok d') × Refines d' u'
unfolding use_step run Done
run-Refines (allocated b) d u u' h made = run-allocated d u u' b (u.counts b) h refl made
run-Refines (locked b) d u u' h made = run-locked d u u' b (u.counts b) h refl made
run-Refines (unlocked b) d u u' h made = run-unlocked d u u' b (u.counts b) h refl made
run-Refines (freed b) d u u' h made = run-freed d u u' b (u.counts b) h refl made
