-- ===== src/Memory/Coherence/Transfer.antt =====
-- Each way in which make_entry_valid brings a valid copy to a place: no assertion fails, and the
-- only failure is that the host is out of memory.
use native.Mathlib.Decide.{ℕ_discrete}
use kmm.Prelude.{
  ℕ, zero, suc, ◌+◌, ◌<◌, ◌≤◌, ◌≡◌, ◌≢◌, refl, sym, ◌∙◌, ap, subst, if_true, if_false, ◌⊎◌, inl,
  inr, false, Option, none, some, List, ◌∷◌, arith, Bool-cases, Option-cases,
}
use kmm.Prelude.Results.{Result, ok, err, out_of_host_memory, ◌>>=◌, >>=-err}
use kmm.Streams.EventSet.{insert}
use kmm.Identifiers.{max_devices}
use kmm.Memory.Types.{
  Place, on_host, on_device, BufferEntry, Entries, entry, Command, allocate, MemorySystem,
  entry-set_self,
}
use kmm.Memory.Coherence.{
  AccessState, copied_to_device, copy_to_device, copied_to_host, copy_to_host, and_wait,
  host_allocated, allocate_host, find_valid_from, find_valid_device_entry, declare_valid,
  device_to_device, fetch,
}
use kmm.Memory.Coherence.Keeps.{
  Valid, Allocated, InRange, IsSound, Agree, Keeps, HostUnlocked, Keeps-trans, Keeps-refl,
  allocate-Keeps, declare-Keeps, copy-Keeps,
}

module _ (init : Place → ℕ) (memory : MemorySystem) where
  -- A step that ends with a valid copy at `p` and keeps the rest, or runs out of host memory.
  abbrev pub Brings : AccessState → Place → Result AccessState → Type 0
  Brings c p r =
      ((d : AccessState) × (r ≡ ok d) × Keeps init c d × Valid d.buffer p)
      ⊎ (r ≡ err out_of_host_memory)

  copy_to_device-Brings :
      (src : Place) (dst : ℕ) (c : AccessState)
      → src ≢ on_device dst
      → dst < max_devices
      → Valid c.buffer src
      → Allocated c.buffer (on_device dst)
      → (c.buffer.device_entry dst).is_valid ≡ false
      → IsSound c.buffer
      → Agree init c
      → Brings c (on_device dst) (and_wait memory (copy_to_device memory src dst c))
  unfolding and_wait copy_to_device
  copy_to_device-Brings src dst c ne lt from to_alloc to s a =
      let from_alloc = s.allocated src from in
      let d0 = copied_to_device memory src dst c in
      let d : AccessState = record d0 {
        deps_out = insert (memory.copy_event d0.log) d0.deps_out;
      } in
      let kept =
        copy-Keeps init c d src (on_device dst) _ _ refl refl lt from from from_alloc refl to_alloc
          to s a in
      inl (
        d,
        ground (arith, from, from_alloc, to, to_alloc),
        kept,
        rw (entry-set_self _ (on_device dst) _),
      )

  copy_to_host_lem :
      (src : ℕ) (c : AccessState)
      → Valid c.buffer (on_device src)
      → Allocated c.buffer on_host
      → c.buffer.host_entry.is_valid ≡ false
      → IsSound c.buffer
      → Agree init c
      → (d : AccessState) × (and_wait memory (copy_to_host memory src c) ≡ ok d)
        × Keeps init c d
        × Valid d.buffer on_host
        × ((i : ℕ) → (d.buffer.device_entry i).is_valid ≡ (c.buffer.device_entry i).is_valid)
  unfolding and_wait copy_to_host
  copy_to_host_lem src c from to_alloc to s a =
      let from_alloc = s.allocated (on_device src) from in
      let d0 = copied_to_host memory src c in
      let d : AccessState = record d0 {
        deps_out = insert (memory.copy_event d0.log) d0.deps_out;
      } in
      let kept =
        copy-Keeps init c d (on_device src) on_host _ _ refl refl tt from from from_alloc refl
          to_alloc to s a in
      (d, ground (arith, from, from_alloc, to, to_alloc), kept, refl, λ i. ground arith)

  -- The host's entry becomes allocated and stays invalid, unless memory runs out.
  allocate_host-Keeps :
      (c : AccessState)
      → c.buffer.host_entry.is_allocated ≡ false
      → c.buffer.host_entry.num_allocation_locks ≡ 0
      → IsSound c.buffer
      → Agree init c
      → ((d : AccessState) × (allocate_host memory c ≡ ok d)
          × Keeps init c d
          × Allocated d.buffer on_host
          × (d.buffer.host_entry.is_valid ≡ false)
          × (d.buffer.device_entry ≡ c.buffer.device_entry))
        ⊎ (allocate_host memory c ≡ err out_of_host_memory)
  unfolding allocate_host host_allocated
  allocate_host-Keeps c off unlocked s a =
      let invalid : c.buffer.host_entry.is_valid ≡ false =
        elim (Bool-cases c.buffer.host_entry.is_valid) [
          | inl v ↦ absurd (cc (off, s.allocated on_host v))
          | inr i ↦ i
        ] in
      let log : List Command = allocate on_host c.buffer.size_in_bytes ∷ c.log in
      elim (Option-cases (memory.allocate_at log)) [
        | inl n ↦ inr (ground (arith, n, off, unlocked))
        | inr ((address, events), q) ↦
            let d = host_allocated memory address events log c in
            let kept =
              allocate-Keeps init c d on_host _ refl (λ q. refl) tt invalid refl refl s a in
            inl (d, ground (arith, q, off, unlocked), kept, refl, refl, refl)
      ]

  -- A step that went well, and the rest of the way.
  pub Brings-next :
      (c d : AccessState) (q : Place) (r : Result AccessState)
      (f : AccessState → Result AccessState)
      → r ≡ ok d
      → Keeps init c d
      → Brings d q (f d)
      → Brings c q (r >>= f)
  Brings-next c d q r f e k (inl (x, ex, kx, vx)) = inl (x, rw e ex, Keeps-trans init k kx, vx)
  Brings-next c d q r f e k (inr ex) = inr (rw e ex)

  -- The detour through the host, once the host has memory.
  via_host-Brings :
      (src dst : ℕ) (c : AccessState)
      → dst < max_devices
      → Valid c.buffer (on_device src)
      → Allocated c.buffer on_host
      → c.buffer.host_entry.is_valid ≡ false
      → Allocated c.buffer (on_device dst)
      → (c.buffer.device_entry dst).is_valid ≡ false
      → IsSound c.buffer
      → Agree init c
      → Brings c (on_device dst) (
          and_wait memory (copy_to_host memory src c) >>= λ d.
          and_wait memory (copy_to_device memory on_host dst d))
  via_host-Brings src dst c lt from host_alloc host_to alloc to s a =
      let (d, e, k, v, same) = copy_to_host_lem src c from host_alloc host_to s a in
      Brings-next c d (on_device dst) _ _ e k (
        copy_to_device-Brings on_host dst d (λ e. cc) lt v (k.allocated (on_device dst) alloc)
          (same dst ∙ to) k.sound k.agree)

  device_to_device-Brings :
      (src dst : ℕ) (c : AccessState)
      → src ≢ dst
      → dst < max_devices
      → Valid c.buffer (on_device src)
      → c.buffer.host_entry.is_valid ≡ false
      → Allocated c.buffer (on_device dst)
      → (c.buffer.device_entry dst).is_valid ≡ false
      → HostUnlocked c
      → IsSound c.buffer
      → Agree init c
      → Brings c (on_device dst) (device_to_device memory src dst c)
  unfolding device_to_device
  device_to_device-Brings src dst c ne lt from host_to alloc to free s a =
      elim (Bool-cases (memory.is_copy_supported src dst)) [
        | inl direct ↦ subst (Brings c (on_device dst)) (sym (if_true _ _ direct)) (
            copy_to_device-Brings (on_device src) dst c (λ e. ne (ground arith)) lt from alloc to s
              a)
        | inr detour ↦
            subst (Brings c (on_device dst)) (sym (if_false _ _ detour))
              (elim (Bool-cases c.buffer.host_entry.is_allocated) [
                | inl has ↦
                    Brings-next c c (on_device dst) _ _ (if_true _ _ has)
                      (Keeps-refl init c c refl refl s a)
                      (via_host-Brings src dst c lt from has host_to alloc to s a)
                | inr lacks ↦ elim (allocate_host-Keeps c lacks (free lacks) s a) [
                  | inl (d, e, k, has, host_to', same) ↦
                      Brings-next c d (on_device dst) _ _ (if_false _ _ lacks ∙ e) k (
                        via_host-Brings src dst d lt (k.valid (on_device src) from) has host_to'
                          (k.allocated (on_device dst) alloc)
                          (ap (λ (f : ℕ → BufferEntry). (f dst).is_valid) same ∙ to) k.sound
                          k.agree)
                  | inr out ↦ inr (>>=-err _ (if_false _ _ lacks ∙ out))
                ]
              ])
      ]

  find_valid_from-eq :
      (i n : ℕ) (b : Entries)
      → ((k : ℕ) × (find_valid_from memory i n b ≡ some k) × Valid b (on_device k))
        ⊎ ((find_valid_from memory i n b ≡ none)
            × ((k : ℕ) → i ≤ k → k < i + n → (b.device_entry k).is_valid ≡ false))
  unfolding find_valid_from
  find_valid_from-eq i zero b = inr (refl, λ k h l. absurd (omega arith))
  find_valid_from-eq i (suc n) b = elim (Bool-cases (b.device_entry i).is_valid) [
    | inl v ↦ inl (i, rw v refl, v)
    | inr no_i ↦ elim (find_valid_from-eq (i + 1) n b) [
      | inl (k, e, v) ↦ inl (k, rw no_i e, v)
      | inr (e, rest) ↦ inr (
        rw no_i e,
        λ k h l. elim (ℕ_discrete i k) [
          | yes same ↦ rw (← same) no_i
          | no other ↦ rest k (omega arith) (omega arith)
        ],
      )
    ]
  ]

  find_valid_device_entry-eq :
      (b : Entries)
      → IsSound b
      → ((k : ℕ) × (find_valid_device_entry memory b ≡ some k) × Valid b (on_device k))
        ⊎ ((find_valid_device_entry memory b ≡ none)
            × ((k : ℕ) → (b.device_entry k).is_valid ≡ false))
  unfolding find_valid_device_entry
  find_valid_device_entry-eq b s = elim (find_valid_from-eq 0 max_devices b) [
    | inl found ↦ inl found
    | inr (e, rest) ↦ inr (
      e,
      λ k. elim (Bool-cases (b.device_entry k).is_valid) [
        | inl v ↦ absurd (cc (v, rest k (omega arith) (s.in_range (on_device k) v)))
        | inr i ↦ i
      ],
    )
  ]

  all_invalid :
      (b : Entries)
      → b.host_entry.is_valid ≡ false
      → ((k : ℕ) → (b.device_entry k).is_valid ≡ false)
      → (q : Place) → (entry b q).is_valid ≡ false
  all_invalid b h d on_host = h
  all_invalid b h d (on_device k) = d k

  -- The entry at `p` is allocated but not valid: `fetch` makes it so.
  pub fetch-Brings :
      (p : Place) (c : AccessState)
      → InRange p
      → Allocated c.buffer p
      → (entry c.buffer p).is_valid ≡ false
      → HostUnlocked c
      → IsSound c.buffer
      → Agree init c
      → Brings c p (fetch memory p c)
  unfolding fetch declare_valid
  fetch-Brings on_host c range alloc to free s a = elim (find_valid_device_entry-eq c.buffer s) [
    | inl (k, e, v) ↦
        let (d, ed, kd, vd, _) = copy_to_host_lem k c v alloc to s a in
        inl (d, ap (from_device c) e ∙ ed, kd, vd)
    | inr (e, none_valid) ↦
        let d = declare_valid memory on_host c in
        inl (
          d,
          ap (from_device c) e,
          declare-Keeps init c d on_host _ refl refl tt (all_invalid c.buffer to none_valid) alloc,
          refl,
        )
  ]
    where
      from_device : AccessState → Option ℕ → Result AccessState
      from_device c o = elim o [
        | some src ↦ and_wait memory (copy_to_host memory src c)
        | none ↦ ok (declare_valid memory on_host c)
      ]
  fetch-Brings (on_device dst) c range alloc to free s a =
      elim (Bool-cases c.buffer.host_entry.is_valid) [
        | inl v ↦
            subst (Brings c (on_device dst)) (sym (if_true _ _ v))
              (copy_to_device-Brings on_host dst c (λ e. cc) range v alloc to s a)
        | inr host_to ↦ elim (find_valid_device_entry-eq c.buffer s) [
          | inl (k, e, v) ↦
              subst (Brings c (on_device dst)) (sym (if_false _ _ host_to ∙ ap from_device e))
                (device_to_device-Brings k dst c (λ kd. cc) range v host_to alloc to free s a)
          | inr (e, none_valid) ↦
              let d = declare_valid memory (on_device dst) c in
              inl (
                d,
                if_false _ _ host_to ∙ ap from_device e,
                declare-Keeps init c d (on_device dst) _ refl refl range
                    (all_invalid c.buffer host_to none_valid) alloc,
                rw (entry-set_self c.buffer (on_device dst) _),
              )
        ]
      ]
    where
      from_device : Option ℕ → Result AccessState
      from_device o = elim o [
        | some src ↦ device_to_device memory src dst c
        | none ↦ ok (declare_valid memory (on_device dst) c)
      ]
