-- ===== src/Streams/EventSet/Removal.antt =====
-- remove_ready and remove_ready_trailing of src/runtime/stream_manager.cpp: what they report, and
-- that dropping ready events does not change what a wait for the set means.
use kmm.Prelude.{
  ℕ, zero, suc, ◌≡◌, refl, inl, inr, Bool, true, not, [], ◌∷◌, arith, ltb, length, get_elem?, take,
  all, keep, Option-cases, take-length, all-take-suc, take-suc-none,
}
use kmm.Streams.Event.{DeviceEvent}
use kmm.Streams.EventSet.{DeviceEventSet, remove_ready, trailing, remove_ready_trailing}

module _ (ready : DeviceEvent → Bool) where
  length-keep-not :
      (es : DeviceEventSet) → ltb 0 (length (keep (λ e. not (ready e)) es)) ≡ not (all ready es)
  length-keep-not [] = refl
  length-keep-not (e ∷ es) = ground (arith, length-keep-not es)

  -- The flag that `remove_ready` returns is true exactly when some event was not ready.
  pub remove_ready_flag : (es : DeviceEventSet) → (remove_ready ready es).1 ≡ not (all ready es)
  unfolding remove_ready
  remove_ready_flag es = length-keep-not es

  module _ (later : DeviceEvent → Bool)
      (grows : (e : DeviceEvent) → ready e ≡ true → later e ≡ true) where
    all-keep-not : (es : DeviceEventSet) → all later (keep (λ e. not (ready e)) es) ≡ all later es
    all-keep-not [] = refl
    all-keep-not (e ∷ es) = ground (arith, all-keep-not es, grows e)

    trailing_sound :
        (n : ℕ) (es : DeviceEventSet)
        → ((trailing n ready es).1 ≡ all ready (take n es))
          × (all later (trailing n ready es).0 ≡ all later (take n es))
    unfolding trailing
    trailing_sound zero es = (refl, refl)
    trailing_sound (suc n) es = elim (Option-cases (get_elem? es n)) [
      | inl q ↦ rw (q, trailing) (rw (take-suc-none n es q) (trailing_sound n es))
      | inr (e, q) ↦ ground (
        arith,
        q,
        all-take-suc ready n es q,
        all-take-suc later n es q,
        trailing_sound n es,
        grows e,
      )
    ]

    -- Both removals keep the meaning of the set: where the events that were ready stay ready,
    -- all of the events left are ready exactly when all of the old ones are.
    pub removal_keeps :
        (es : DeviceEventSet)
        → (all later (remove_ready ready es).0 ≡ all later es)
          × (all later (remove_ready_trailing ready es).0 ≡ all later es)
          × ((remove_ready_trailing ready es).1 ≡ all ready es)
    unfolding remove_ready remove_ready_trailing
    removal_keeps es =
        let t = trailing_sound (length es) es in
        (all-keep-not es, ground (arith, t, take-length es), ground (arith, t, take-length es))
