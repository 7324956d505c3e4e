-- ===== src/Memory/Coherence/Keeps.antt =====
-- What the copies of a buffer hold, read off the commands to the memory system, and the facts that
-- each step of an access keeps.
use mathlib.Core.Logic.{ite, if_pos, if_neg}
use mathlib.Core.Path.{subst}
use kmm.Prelude.{ℕ, ◌<◌, ◌≡◌, ◌≢◌, refl, sym, ◌∙◌, ap, ◌⊎◌, inl, inr, true, false, List, [], ◌∷◌}
use kmm.Identifiers.{max_devices}
use kmm.Memory.Types.{
  Place, on_host, on_device, BufferEntry, Entries, entry, set_entry, Command, copy, Place-discrete,
  entry-set_self, entry-set,
}
use kmm.Memory.Coherence.{AccessState}

-- What lies where after a list of commands, newest first, from some initial contents.
abbrev pub contents : (Place → ℕ) → List Command → Place → ℕ
contents init [] p = init p
contents init (copy src dst _ _ _ _ ∷ log) p =
    ite (Place-discrete dst p) (contents init log src) (contents init log p)
contents init (_ ∷ log) p = contents init log p

abbrev pub Valid : Entries → Place → Type 0
Valid b p = (entry b p).is_valid ≡ true

abbrev pub Allocated : Entries → Place → Type 0
Allocated b p = (entry b p).is_allocated ≡ true

-- The places of the host and of the eight devices.
abbrev pub InRange : Place → Type 0
InRange on_host = Unit {0}
InRange (on_device i) = i < max_devices

-- Only memory that is allocated holds a valid copy.
pub record IsSound (b : Entries) : Type 0 where
  pub allocated : (p : Place) → Valid b p → Allocated b p
  pub in_range : (p : Place) → Valid b p → InRange p

-- No lock is held on a host entry that is not allocated.
abbrev pub HostUnlocked : AccessState → Type 0
HostUnlocked c =
    c.buffer.host_entry.is_allocated ≡ false → c.buffer.host_entry.num_allocation_locks ≡ 0

module _ (init : Place → ℕ) where
  -- All valid copies hold the same contents.
  abbrev pub Agree : AccessState → Type 0
  Agree c =
      (p q : Place)
      → Valid c.buffer p
      → Valid c.buffer q
      → contents init c.log p ≡ contents init c.log q

  -- A step that loses no valid copy and changes none.
  pub record Keeps (c d : AccessState) : Type 0 where
    pub sound : IsSound d.buffer
    pub agree : Agree d
    pub valid : (p : Place) → Valid c.buffer p → Valid d.buffer p
    pub same : (p : Place) → Valid c.buffer p → contents init d.log p ≡ contents init c.log p
    pub allocated : (p : Place) → Allocated c.buffer p → Allocated d.buffer p

  pub Keeps-trans : {c d e : AccessState} → Keeps c d → Keeps d e → Keeps c e
  Keeps-trans f g = record {
    sound = g.sound;
    agree = g.agree;
    valid = λ p h. g.valid p (f.valid p h);
    same = λ p h. g.same p (f.valid p h) ∙ f.same p h;
    allocated = λ p h. g.allocated p (f.allocated p h);
  }

  -- The buffer and the commands decide; the events to wait for do not matter.
  pub Keeps-refl :
      (c d : AccessState)
      → d.buffer ≡ c.buffer
      → d.log ≡ c.log
      → IsSound c.buffer
      → Agree c
      → Keeps c d
  Keeps-refl c d eb el s a = record {
    sound = rw eb s;
    agree = λ p q. rw (eb, el) (a p q);
    valid = λ p h. rw eb h;
    same = λ p h. rw el;
    allocated = λ p h. rw eb h;
  }

  -- A step after which one more place at most is valid, with what the valid places held.
  module _ (c d : AccessState) (p : Place) (range : InRange p) (alloc : Allocated d.buffer p)
      (s : IsSound c.buffer) (a : Agree c)
      (valid : (q : Place) → Valid c.buffer q → Valid d.buffer q)
      (same : (q : Place) → Valid c.buffer q → contents init d.log q ≡ contents init c.log q)
      (allocated : (q : Place) → Allocated c.buffer q → Allocated d.buffer q)
      (back : (q : Place)
        → Valid d.buffer q
        → Valid c.buffer q
          ⊎ ((p ≡ q)
              × ((r : Place)
                  → Valid c.buffer r
                  → contents init d.log p ≡ contents init c.log r))) where
    agree_after : Agree d
    agree_after q r hq hr = elim (back q hq) [
      | inl vq ↦ elim (back r hr) [
        | inl vr ↦ same q vq ∙ a q r vq vr ∙ sym (same r vr)
        | inr (pr, new) ↦ same q vq ∙ sym (new q vq) ∙ ap (contents init d.log) pr
      ]
      | inr (pq, new) ↦ elim (back r hr) [
        | inl vr ↦ ap (contents init d.log) (sym pq) ∙ new r vr ∙ sym (same r vr)
        | inr (pr, _) ↦ ap (contents init d.log) (sym pq ∙ pr)
      ]
    ]

    sound_after : IsSound d.buffer
    sound_after = record {
      allocated = λ q h. elim (back q h) [
        | inl v ↦ allocated q (s.allocated q v)
        | inr (e, _) ↦ subst (Allocated d.buffer) e alloc
      ];
      in_range =
          λ q h. elim (back q h) [ inl v ↦ s.in_range q v | inr (e, _) ↦ subst InRange e range ];
    }

    pointwise-Keeps : Keeps c d
    pointwise-Keeps = record {
      sound = sound_after;
      agree = agree_after;
      valid = valid;
      same = same;
      allocated = allocated;
    }

  -- An entry that is allocated, and not valid before or after.
  pub allocate-Keeps :
      (c d : AccessState) (p : Place) (e : BufferEntry)
      → d.buffer ≡ set_entry c.buffer p e
      → ((q : Place) → contents init d.log q ≡ contents init c.log q)
      → InRange p
      → (entry c.buffer p).is_valid ≡ false
      → e.is_valid ≡ false
      → e.is_allocated ≡ true
      → IsSound c.buffer
      → Agree c
      → Keeps c d
  allocate-Keeps c d p e eb el range off off' alloc s a =
      pointwise-Keeps c d p range (rw (eb, entry-set_self c.buffer p e) alloc) s a
        (λ q h. elim (entry-set c.buffer p e q) [
          | inl (pq, eq) ↦ absurd (cc (off, h, pq))
          | inr (_, eq) ↦ rw (eb, eq) h
        ])
        (λ q h. el q)
        (λ q h. elim (entry-set c.buffer p e q) [
          | inl (pq, eq) ↦ rw (eb, eq) alloc
          | inr (_, eq) ↦ rw (eb, eq) h
        ])
        (λ q h. elim (entry-set c.buffer p e q) [
          | inl (pq, eq) ↦ absurd (cc (off', ap (λ b. (entry b q).is_valid) eb, h, eq))
          | inr (_, eq) ↦ inl (cc (ap (λ b. (entry b q).is_valid) eb, h, eq))
        ])

  -- The only valid entry of a buffer that had none: whatever it holds.
  pub declare-Keeps :
      (c d : AccessState) (p : Place) (e : BufferEntry)
      → d.buffer ≡ set_entry c.buffer p e
      → d.log ≡ c.log
      → InRange p
      → ((q : Place) → (entry c.buffer q).is_valid ≡ false)
      → e.is_allocated ≡ true
      → Keeps c d
  declare-Keeps c d p e eb el range none_valid alloc =
      pointwise-Keeps c d p range (rw (eb, entry-set_self c.buffer p e) alloc)
        (record {
          allocated = λ q h. absurd (impossible q h);
          in_range = λ q h. absurd (impossible q h);
        })
        (λ q r hq _. absurd (impossible q hq)) (λ q h. absurd (impossible q h))
        (λ q h. absurd (impossible q h))
        (λ q h. elim (entry-set c.buffer p e q) [
          | inl (pq, eq) ↦ rw (eb, eq) alloc
          | inr (_, eq) ↦ rw (eb, eq) h
        ])
        (λ q h. elim (entry-set c.buffer p e q) [
          | inl (pq, eq) ↦ inr (pq, λ r hr. absurd (impossible r hr))
          | inr (_, eq) ↦ absurd (impossible q (cc (ap (λ b. (entry b q).is_valid) eb, h, eq)))
        ])
    where
      impossible : (q : Place) → Valid c.buffer q → ⊥
      impossible q h = cc (none_valid q, h)

  -- A copy from a valid place to one that is not.
  module _ (c d : AccessState) (src dst : Place) (e1 e2 : BufferEntry) {x y size : ℕ}
      {deps : List ℕ} (eb : d.buffer ≡ set_entry (set_entry c.buffer src e1) dst e2)
      (el : d.log ≡ copy src dst x y size deps ∷ c.log) (range : InRange dst)
      (from : Valid c.buffer src) (v1 : e1.is_valid ≡ true) (a1 : e1.is_allocated ≡ true)
      (v2 : e2.is_valid ≡ true) (a2 : e2.is_allocated ≡ true)
      (to : (entry c.buffer dst).is_valid ≡ false) where
    -- An entry after the copy: the target's, the source's, or the old one.
    after_copy :
        (q : Place)
        → ((dst ≡ q) × (entry d.buffer q ≡ e2))
          ⊎ ((dst ≢ q)
              × (((src ≡ q) × (entry d.buffer q ≡ e1)) ⊎ (entry d.buffer q ≡ entry c.buffer q)))
    after_copy q = elim (entry-set (set_entry c.buffer src e1) dst e2 q) [
      | inl (h, eq) ↦ inl (h, rw eb eq)
      | inr (n, eq) ↦ elim (entry-set c.buffer src e1 q) [
        | inl (h, eq') ↦ inr (n, inl (h, rw eb (eq ∙ eq')))
        | inr (_, eq') ↦ inr (n, inr (rw eb (eq ∙ eq')))
      ]
    ]

    same_after : (q : Place) → Valid c.buffer q → contents init d.log q ≡ contents init c.log q
    same_after q h = rw el (
        if_neg (Place-discrete dst q) (λ e. cc (to, ap (λ r. (entry c.buffer r).is_valid) e, h)) _
          _)

    copied : contents init d.log dst ≡ contents init c.log src
    copied = rw el (if_pos (Place-discrete dst dst) refl _ _)

    pub copy-Keeps : IsSound c.buffer → Agree c → Keeps c d
    copy-Keeps s a =
        pointwise-Keeps c d dst range
          (rw (eb, entry-set_self (set_entry c.buffer src e1) dst e2) a2) s a
          (λ q h. elim (after_copy q) [
            | inl (_, eq) ↦ rw eq v2
            | inr (_, inl (_, eq)) ↦ rw eq v1
            | inr (_, inr eq) ↦ rw eq h
          ])
          same_after
          (λ q h. elim (after_copy q) [
            | inl (_, eq) ↦ rw eq a2
            | inr (_, inl (_, eq)) ↦ rw eq a1
            | inr (_, inr eq) ↦ rw eq h
          ])
          (λ q h. elim (after_copy q) [
            | inl (e, eq) ↦ inr (e, λ r hr. copied ∙ a src r from hr)
            | inr (_, inl (e, eq)) ↦ inl (subst (Valid c.buffer) e from)
            | inr (_, inr eq) ↦ inl (cc (h, ap (λ (b : BufferEntry). b.is_valid) eq))
          ])
