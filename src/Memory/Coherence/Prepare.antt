-- ===== src/Memory/Coherence/Prepare.antt =====
-- prepare_access_to_buffer: what an access finds in its memory, which other copies it invalidates,
-- and the access on device 0, whose comparison with the host id goes wrong.
use kmm.Prelude.{
  ℕ, zero, suc, ◌+◌, ◌<◌, ◌≤◌, ◌≡◌, ◌≢◌, refl, sym, ◌∙◌, ap, subst, if_true, if_false, ◌⊎◌, inl,
  inr, true, false, arith, if◌then◌else◌, Bool-cases,
}
use native.Mathlib.Decide.{ℕ_discrete}
use kmm.Prelude.Results.{Result, ok, err, out_of_host_memory, ◌>>=◌, ◌>>◌, kmm_assert, >>=-err}
use kmm.Identifiers.{
  MemoryId, MemoryType, host_type, device_type, is_host, memory_eq, host, device, max_devices,
}
use kmm.Memory.Types.{
  AccessMode, read, read_write, exclusive, is_writer, Place, on_host, on_device, place, BufferEntry,
  entry, MemorySystem, entry-set_self, entry-set,
}
use kmm.Streams.Event.{DeviceEvent}
use kmm.Memory.Coherence.{
  finalize_access_to_buffer, AccessState, add_deps, fetch, make_entry_valid, invalidate,
  invalidate_others, finalize_access_to_buffer, make_entry_exclusive, finalize_access_to_buffer,
  prepare_access_to_buffer,
}
use kmm.Memory.Coherence.Keeps.{
  contents, Valid, Allocated, InRange, IsSound, Agree, Keeps, Keeps-trans, Keeps-refl, HostUnlocked,
}
use kmm.Memory.Coherence.Transfer.{Brings, fetch-Brings}

-- A step that only invalidates copies.
pub record Shrinks (c d : AccessState) : Type 0 where
  pub log : d.log ≡ c.log
  pub allocated : (p : Place) → (entry d.buffer p).is_allocated ≡ (entry c.buffer p).is_allocated
  pub valid : (p : Place) → Valid d.buffer p → Valid c.buffer p

Shrinks-refl : (c : AccessState) → Shrinks c c
Shrinks-refl c = record { log = refl; allocated = λ p. refl; valid = λ p h. h }

Shrinks-trans : {c d e : AccessState} → Shrinks c d → Shrinks d e → Shrinks c e
Shrinks-trans f g = record {
  log = g.log ∙ f.log;
  allocated = λ p. g.allocated p ∙ f.allocated p;
  valid = λ p h. f.valid p (g.valid p h);
}

module _ (memory : MemorySystem) where
  invalidate_lem :
      (p : Place) (c : AccessState)
      → Shrinks c (invalidate memory p c)
        × ((entry (invalidate memory p c).buffer p).is_valid ≡ false)
        × ((q : Place)
            → p ≢ q
            → (entry (invalidate memory p c).buffer q).is_valid ≡ (entry c.buffer q).is_valid)
  unfolding invalidate
  invalidate_lem p c = (
    record {
      log = refl;
      allocated = λ q. elim (entry-set c.buffer p off q) [
        | inl (e, h) ↦ rw h (ap (λ r. (entry c.buffer r).is_allocated) e)
        | inr (_, h) ↦ rw h
      ];
      valid = λ q v. elim (entry-set c.buffer p off q) [
        | inl (e, h) ↦ absurd (cc (h, v))
        | inr (_, h) ↦ cc (h, v)
      ];
    },
    ap (λ (x : BufferEntry). x.is_valid) (entry-set_self c.buffer p off),
    λ q n. elim (entry-set c.buffer p off q) [ inl (e, _) ↦ absurd (n e) | inr (_, h) ↦ rw h ],
  )
    where
      off : BufferEntry
      off = record (entry c.buffer p) { is_valid = false }

  -- The places that the loop over the devices leaves alone.
  abbrev Spared : MemoryId → Place → Type 0
  Spared m on_host = Unit {0}
  Spared m (on_device k) = memory_eq m (device k) ≡ true

  Spared-ne :
      (m : MemoryId) (k : ℕ) (q : Place)
      → memory_eq m (device k) ≡ false
      → Spared m q
      → on_device k ≢ q
  Spared-ne m k on_host n s e = cc
  Spared-ne m k (on_device j) n s e =
      let same : k ≡ j = ground arith in absurd (cc (ap (λ i. memory_eq m (device i)) same))

  -- The effect of the loop from device `i` on, with `n` devices left.
  record Invalidates (m : MemoryId) (i n : ℕ) (c d : AccessState) : Type 0 where
    shrinks : Shrinks c d
    off :
        (k : ℕ)
        → i ≤ k
        → k < i + n
        → memory_eq m (device k) ≡ false
        → (d.buffer.device_entry k).is_valid ≡ false
    spared : (q : Place) → Spared m q → (entry d.buffer q).is_valid ≡ (entry c.buffer q).is_valid

  stays_off :
      {c d : AccessState} (p : Place)
      → Shrinks c d
      → (entry c.buffer p).is_valid ≡ false
      → (entry d.buffer p).is_valid ≡ false
  stays_off {c} {d} p s off = elim (Bool-cases (entry d.buffer p).is_valid) [
    | inl v ↦ absurd (cc (s.valid p v, off))
    | inr e ↦ e
  ]

  invalidate_others_lem :
      (m : MemoryId) (i n : ℕ) (c : AccessState)
      → Invalidates m i n c (invalidate_others memory m i n c)
  unfolding invalidate_others
  invalidate_others_lem m i zero c = record {
    shrinks = Shrinks-refl c;
    off = λ k h l. absurd (omega arith);
    spared = λ q s. refl;
  }
  invalidate_others_lem m i (suc n) c = elim (Bool-cases (memory_eq m (device i))) [
    | inl skip ↦
        let rest = invalidate_others_lem m (i + 1) n c in
        subst (Invalidates m i (suc n) c)
          (sym (ap (invalidate_others memory m (i + 1) n) (if_true _ _ skip)))
          (record {
            shrinks = rest.shrinks;
            off = λ k h l other. elim (ℕ_discrete i k) [
              | yes e ↦ absurd (cc (skip, other, ap (λ j. memory_eq m (device j)) e))
              | no ne ↦ rest.off k (omega arith) (omega arith) other
            ];
            spared = rest.spared;
          })
    | inr hit ↦
        let (s1, off1, same1) = invalidate_lem (on_device i) c in
        let rest = invalidate_others_lem m (i + 1) n (invalidate memory (on_device i) c) in
        subst (Invalidates m i (suc n) c)
          (sym (ap (invalidate_others memory m (i + 1) n) (if_false _ _ hit)))
          (record {
            shrinks = Shrinks-trans s1 rest.shrinks;
            off = λ k h l other. elim (ℕ_discrete i k) [
              | yes e ↦ stays_off (on_device k) rest.shrinks (
                  subst
                    (λ j.
                      ((invalidate memory (on_device i) c).buffer.device_entry j).is_valid ≡ false)
                    e off1)
              | no ne ↦ rest.off k (omega arith) (omega arith) other
            ];
            spared = λ q sp. rest.spared q sp ∙ same1 q (Spared-ne m i q hit sp);
          })
  ]

  Spared-place : (m : MemoryId) → Spared m (place m)
  unfolding memory_eq
  Spared-place m = elim (type-cases m) [
    | inl h ↦ subst (Spared m) (sym (ap kind h)) tt
    | inr d ↦ subst (Spared m) (sym (ap kind d)) (ground (arith, d))
  ]
    where
      kind : MemoryType → Place
      kind t = elim t [ host_type ↦ on_host | device_type ↦ on_device m.value ]

      type-cases : (m : MemoryId) → (m.type ≡ host_type) ⊎ (m.type ≡ device_type)
      type-cases m = ground arith

  -- A place that is in range and spared by an exact id is the id's own, or the host.
  Spared-cases : (m : MemoryId) (k : ℕ) → memory_eq m (device k) ≡ true → on_device k ≡ place m
  unfolding memory_eq
  Spared-cases m k e = ground arith

  host-place :
      (m : MemoryId) → memory_eq m host ≡ is_host m → memory_eq m host ≡ true → on_host ≡ place m
  host-place m exact e = ground arith

  ne-host : (m : MemoryId) → memory_eq m host ≡ false → on_host ≢ place m
  unfolding memory_eq
  ne-host m other e = ground arith

  -- The first step of exclusive access: the host's copy, unless the id compares equal to the host.
  record HostStep (m : MemoryId) (c d : AccessState) : Type 0 where
    shrinks : Shrinks c d
    own : Valid c.buffer (place m) → Valid d.buffer (place m)
    host_entry :
        d.buffer.host_entry.is_valid
        ≡ (if memory_eq m host then c.buffer.host_entry.is_valid else false)

  host_step :
      (m : MemoryId) (c : AccessState)
      → HostStep m c (if memory_eq m host then c else invalidate memory on_host c)
  host_step m c = elim (Bool-cases (memory_eq m host)) [
    | inl same ↦
        subst (HostStep m c) (sym (if_true _ _ same))
          (record { shrinks = Shrinks-refl c; own = λ v. v; host_entry = sym (if_true _ _ same) })
    | inr other ↦
        let (sh, off, kept) = invalidate_lem on_host c in
        subst (HostStep m c) (sym (if_false _ _ other)) (record {
          shrinks = sh;
          own = λ v. kept (place m) (ne-host m other) ∙ v;
          host_entry = off ∙ sym (if_false _ _ other);
        })
  ]

  -- What exclusive access leaves of the copies, for any id.
  pub record Excludes (m : MemoryId) (c d : AccessState) : Type 0 where
    pub shrinks : Shrinks c d
    pub own : Valid d.buffer (place m)
    pub devices :
        (k : ℕ)
        → k < max_devices
        → memory_eq m (device k) ≡ false
        → (d.buffer.device_entry k).is_valid ≡ false
    pub host_entry :
        d.buffer.host_entry.is_valid
        ≡ (if memory_eq m host then c.buffer.host_entry.is_valid else false)

  -- Making a valid entry exclusive: the other devices lose their copies, and the host does if the
  -- id does not compare equal to the host's.
  exclusive_lem :
      (m : MemoryId) (c : AccessState)
      → Valid c.buffer (place m)
      → Allocated c.buffer (place m)
      → (d : AccessState) × (make_entry_exclusive memory m c ≡ ok d) × Excludes m c d
  unfolding make_entry_exclusive make_entry_valid
  exclusive_lem m c v alloc =
      let c1 : AccessState = add_deps (entry c.buffer (place m)).epoch_event c in
      let rest : Result AccessState =
        if (entry c.buffer (place m)).is_valid then ok c1 else fetch memory (place m) c1 in
      let again : make_entry_valid memory m c ≡ ok c1 =
        ap (λ x. kmm_assert x >> rest) alloc ∙ if_true _ _ v in
      let c2 : AccessState = if memory_eq m host then c1 else invalidate memory on_host c1 in
      let h = host_step m c1 in
      let loop = invalidate_others_lem m 0 max_devices c2 in
      (
        invalidate_others memory m 0 max_devices c2,
        ap
            (λ (r : Result AccessState). r >>= λ x. ok (
              invalidate_others memory m 0 max_devices
                (if memory_eq m host then x else invalidate memory on_host x)))
            again,
        record {
          shrinks =
              Shrinks-trans (record { log = refl; allocated = λ p. refl; valid = λ p h. h })
                (Shrinks-trans h.shrinks loop.shrinks);
          own = loop.spared (place m) (Spared-place m) ∙ h.own v;
          devices = λ k lt other. loop.off k (omega arith) (omega arith) other;
          host_entry = loop.spared on_host tt ∙ h.host_entry;
        },
      )

module _ (init : Place → ℕ) (memory : MemorySystem) (m : MemoryId) (c : AccessState)
    (range : InRange (place m)) (alloc : Allocated c.buffer (place m)) (free : HostUnlocked c)
    (s : IsSound c.buffer) (a : Agree init c) where
  -- `make_entry_valid` brings a valid copy to the memory and keeps the others.
  pub make_entry_valid-Brings : Brings init memory c (place m) (make_entry_valid memory m c)
  unfolding make_entry_valid
  make_entry_valid-Brings =
      let c1 : AccessState = add_deps (entry c.buffer (place m)).epoch_event c in
      let rest : Result AccessState =
        if (entry c.buffer (place m)).is_valid then ok c1 else fetch memory (place m) c1 in
      let eq : make_entry_valid memory m c ≡ rest = ap (λ x. kmm_assert x >> rest) alloc in
      let k1 = Keeps-refl init c c1 refl refl s a in
      elim (Bool-cases (entry c.buffer (place m)).is_valid) [
        | inl v ↦ inl (c1, eq ∙ if_true _ _ v, k1, v)
        | inr off ↦
            let eq' = eq ∙ if_false _ _ off in
            elim (fetch-Brings init memory (place m) c1 range alloc off free s a) [
              | inl (d, e, k, v) ↦ inl (d, eq' ∙ e, Keeps-trans init k1 k, v)
              | inr e ↦ inr (eq' ∙ e)
            ]
      ]

  -- What an access to memory `m` finds and leaves.
  record Prepared (mode : AccessMode) (d : AccessState) : Type 0 where
    sound : IsSound d.buffer
    agree : Agree init d
    valid : Valid d.buffer (place m)
    fresh : (p : Place) → Valid c.buffer p → contents init d.log (place m) ≡ contents init c.log p
    readers : is_writer mode ≡ false → (p : Place) → Valid c.buffer p → Valid d.buffer p
    sole :
        is_writer mode ≡ true
        → memory_eq m host ≡ is_host m
        → (p : Place) → Valid d.buffer p
        → p ≡ place m

  module _ (mode : AccessMode) (d e : AccessState) (k : Keeps init c d)
      (v : Valid d.buffer (place m)) (x : Excludes memory m d e) where
    -- An id that compares with the host as it should leaves no other valid copy.
    sole_copy : memory_eq m host ≡ is_host m → (p : Place) → Valid e.buffer p → p ≡ place m
    sole_copy exact on_host h = elim (Bool-cases (memory_eq m host)) [
      | inl same ↦ host-place memory m exact same
      | inr other ↦ absurd (cc (h, x.host_entry ∙ if_false _ _ other))
    ]
    sole_copy exact (on_device j) h = elim (Bool-cases (memory_eq m (device j))) [
      | inl same ↦ Spared-cases memory m j same
      | inr other ↦ absurd (
          cc (
            h,
            x.devices j (k.sound.in_range (on_device j) (x.shrinks.valid (on_device j) h)) other,
          ))
    ]

    writer-Prepared : is_writer mode ≡ true → Prepared mode e
    writer-Prepared w = record {
      sound = record {
        allocated = λ p h. x.shrinks.allocated p ∙ k.sound.allocated p (x.shrinks.valid p h);
        in_range = λ p h. k.sound.in_range p (x.shrinks.valid p h);
      };
      agree =
          λ p q hp hq. rw x.shrinks.log (k.agree p q (x.shrinks.valid p hp) (x.shrinks.valid q hq));
      valid = x.own;
      fresh = λ p h. rw x.shrinks.log (k.agree (place m) p v (k.valid p h) ∙ k.same p h);
      readers = λ r. absurd (cc (w, r));
      sole = λ _. sole_copy;
    }

  reader-Prepared : (d : AccessState) → Keeps init c d → Valid d.buffer (place m) → Prepared read d
  reader-Prepared d k v = record {
    sound = k.sound;
    agree = k.agree;
    valid = v;
    fresh = λ p h. k.agree (place m) p v (k.valid p h) ∙ k.same p h;
    readers = λ _. k.valid;
    sole = λ w. absurd (cc w);
  }

  -- The cases of the mode at once.
  prepare_access_lem :
      (mode : AccessMode)
      → ((d : AccessState) × (prepare_access_to_buffer memory m mode c ≡ ok d) × Prepared mode d)
        ⊎ (prepare_access_to_buffer memory m mode c ≡ err out_of_host_memory)
  unfolding prepare_access_to_buffer
  prepare_access_lem mode = elim make_entry_valid-Brings [
    | inr e ↦ inr (>>=-err _ e)
    | inl (d, e, k, v) ↦
        let (x, ex, excludes) = exclusive_lem memory m d v (k.allocated (place m) alloc) in
        inl (by_mode d x e ex k v excludes mode)
  ]
    where
      by_mode :
          (d x : AccessState)
          → make_entry_valid memory m c ≡ ok d
          → make_entry_exclusive memory m d ≡ ok x
          → Keeps init c d
          → Valid d.buffer (place m)
          → Excludes memory m d x
          → (mode : AccessMode)
          → (y : AccessState) × (prepare_access_to_buffer memory m mode c ≡ ok y) × Prepared mode y
      by_mode d x e ex k v ne read = (d, ap (λ r. r >>= λ z. ok z) e, reader-Prepared d k v)
      by_mode d x e ex k v ne read_write = (
        x,
        ap (λ r. r >>= λ z. make_entry_exclusive memory m z >>= λ u. ok u) e
            ∙ ap (λ r. r >>= λ u. ok u) ex,
        writer-Prepared read_write d x k v ne refl,
      )
      by_mode d x e ex k v ne exclusive =
          let wait : AccessState → AccessState =
            λ z. add_deps (entry z.buffer (place m)).access_events z in
          let p = writer-Prepared exclusive d x k v ne refl in
          (
            wait x,
            ap (λ r. r >>= λ z. make_entry_exclusive memory m z >>= λ u. ok (wait u)) e
                ∙ ap (λ r. r >>= λ u. ok (wait u)) ex,
            record {
              sound = p.sound;
              agree = p.agree;
              valid = p.valid;
              fresh = p.fresh;
              readers = p.readers;
              sole = p.sole;
            },
          )

  -- What a reader finds: a valid copy in its memory, of what any valid copy held before, and every
  -- copy that was valid still so.
  pub record ReaderState (d : AccessState) : Type 0 where
    pub sound : IsSound d.buffer
    pub agree : Agree init d
    pub valid : Valid d.buffer (place m)
    pub fresh :
        (p : Place) → Valid c.buffer p → contents init d.log (place m) ≡ contents init c.log p
    pub kept : (p : Place) → Valid c.buffer p → Valid d.buffer p

  -- What a writer finds: the same, but its copy is the only valid one.
  pub record WriterState (d : AccessState) : Type 0 where
    pub sound : IsSound d.buffer
    pub agree : Agree init d
    pub valid : Valid d.buffer (place m)
    pub fresh :
        (p : Place) → Valid c.buffer p → contents init d.log (place m) ≡ contents init c.log p
    pub sole : (p : Place) → Valid d.buffer p → p ≡ place m

  -- A writer on allocated memory of a sound buffer whose valid copies agree and whose host entry is
  -- not locked while it has no memory, with an id that compares with the host id as it should, ends
  -- with the only valid copy, of what any valid copy held before, or fails because the host is out of
  -- memory.
  pub prepare_writer :
      (mode : AccessMode)
      → is_writer mode ≡ true
      → memory_eq m host ≡ is_host m
      → ((d : AccessState) × (prepare_access_to_buffer memory m mode c ≡ ok d) × WriterState d)
        ⊎ (prepare_access_to_buffer memory m mode c ≡ err out_of_host_memory)
  prepare_writer mode w exact = elim (prepare_access_lem mode) [
    | inr e ↦ inr e
    | inl (d, e, p) ↦ inl (
      d,
      e,
      record {
        sound = p.sound;
        agree = p.agree;
        valid = p.valid;
        fresh = p.fresh;
        sole = p.sole w exact;
      },
    )
  ]

  -- A reader on allocated memory of a sound buffer whose valid copies agree and whose host entry is
  -- not locked while it has no memory ends with a valid copy there, of what any valid copy held
  -- before, and with all valid copies kept, or fails because the host is out of memory.
  pub prepare_reader :
      ((d : AccessState) × (prepare_access_to_buffer memory m read c ≡ ok d) × ReaderState d)
      ⊎ (prepare_access_to_buffer memory m read c ≡ err out_of_host_memory)
  prepare_reader = elim (prepare_access_lem read) [
    | inr e ↦ inr e
    | inl (d, e, p) ↦ inl (
      d,
      e,
      record {
        sound = p.sound;
        agree = p.agree;
        valid = p.valid;
        fresh = p.fresh;
        kept = p.readers refl;
      },
    )
  ]

  -- For an id that compares equal to the host's, a valid copy on the host stays valid.
  stale_host :
      memory_eq m host ≡ true
      → Valid c.buffer on_host
      → ((d : AccessState) × (prepare_access_to_buffer memory m read_write c ≡ ok d)
          × Valid d.buffer on_host
          × Allocated d.buffer on_host)
        ⊎ (prepare_access_to_buffer memory m read_write c ≡ err out_of_host_memory)
  unfolding prepare_access_to_buffer
  stale_host same host_valid = elim make_entry_valid-Brings [
    | inr e ↦ inr (>>=-err _ e)
    | inl (d, e, k, v) ↦
        let (x, ex, excludes) = exclusive_lem memory m d v (k.allocated (place m) alloc) in
        inl (
          x,
          ap (λ r. r >>= λ z. make_entry_exclusive memory m z >>= λ u. ok u) e
              ∙ ap (λ r. r >>= λ u. ok u) ex,
          excludes.host_entry ∙ if_true _ _ same ∙ k.valid on_host host_valid,
          excludes.shrinks.allocated on_host ∙ k.allocated on_host (s.allocated on_host host_valid),
        )
  ]

-- A copy on the host of a sound buffer with memory on device 0 is still taken for valid after a
-- write on device 0 is prepared and finished: a read on the host then gives no command. Or preparing
-- the write fails because the host is out of memory.
pub stale_read :
    (init : Place → ℕ) (memory : MemorySystem) (c : AccessState) (event : DeviceEvent)
    → Allocated c.buffer (on_device 0)
    → IsSound c.buffer
    → Agree init c
    → Valid c.buffer on_host
    → ((d e : AccessState) × (prepare_access_to_buffer memory (device 0) read_write c ≡ ok d)
        × (prepare_access_to_buffer memory host read
              (record d { buffer = finalize_access_to_buffer (device 0) read_write event d.buffer })
            ≡ ok e)
        × (e.log ≡ d.log))
      ⊎ (prepare_access_to_buffer memory (device 0) read_write c ≡ err out_of_host_memory)
unfolding finalize_access_to_buffer prepare_access_to_buffer make_entry_valid memory_eq
stale_read init memory c event alloc s a v =
    let free : HostUnlocked c = λ h. absurd (cc (h, s.allocated on_host v)) in
    elim (stale_host init memory (device 0) c (omega arith) alloc free s a refl v) [
      | inr e ↦ inr e
      | inl (d, ed, host_valid, host_alloc) ↦
          let b = finalize_access_to_buffer (device 0) read_write event d.buffer in
          let d1 : AccessState = record d { buffer = b } in
          let e : AccessState = add_deps d.buffer.host_entry.epoch_event d1 in
          let rest : Result AccessState =
            if d.buffer.host_entry.is_valid then ok e else fetch memory on_host e in
          inl (
            d,
            e,
            ed,
            ap (λ r. r >>= λ z. ok z)
                (ap (λ x. kmm_assert x >> rest) host_alloc ∙ if_true _ _ host_valid),
            refl,
          )
    ]
