-- ===== src/Streams/EventSet/Readiness.antt =====
-- Sets of events compared by what a wait for them means: when all of their events are ready.
use kmm.Prelude.{
  ℕ, suc, ◌+◌, ◌<◌, ◌^◌, ◌≡◌, refl, sym, ap, ==_iff, All, All-append, All-set, All-get, ◌⊎◌, inl,
  inr, Bool, true, ◌&&◌, Option, none, some, [], ◌∷◌, arith, ltb, ◌==◌, if◌then◌else◌, length,
  get_elem?, take, all, all-append, all-set, get_elem?-take, Option-cases, Bool-cases,
}
use kmm.Streams.Event.{DeviceEvent, is_null, stream, index, max_event, index_mono}
use kmm.Streams.EventSet.{
  DeviceEventSet, find_stream, put, insert, insert_from, insert_all, insert_move, union,
}

-- Readiness of an event where `first` gives the first pending index of each stream.
abbrev pub ready_at : (ℕ → ℕ) → DeviceEvent → Bool
ready_at first e = ltb (index e) (first (stream e))

-- The word of an event fits uint64_t.
abbrev pub IsWord : DeviceEvent → Type 0
IsWord e = e < 2 ^ 64

-- The search finds an event of the stream.
find_stream-eq-some :
    (s i : ℕ) (found : Option ℕ) (xs : DeviceEventSet) {j : ℕ}
    → find_stream s i found xs ≡ some j
    → (found ≡ some j)
      ⊎ ((k : ℕ) × (x : DeviceEvent) × (j ≡ i + k) × (get_elem? xs k ≡ some x) × (stream x ≡ s))
unfolding find_stream
find_stream-eq-some s i found [] e = inl e
find_stream-eq-some s i found (x ∷ xs) {j} e = grind (
  arith,
  find_stream-eq-some s (suc i) (if stream x == s then some i else found) xs {j = j} e,
  ==_iff (stream x) s,
)

-- The position that `put` is given: none, or that of an event on the same stream.
abbrev Fits : DeviceEvent → DeviceEventSet → Option ℕ → Type 0
Fits e es found =
    (found ≡ none)
    ⊎ ((j : ℕ) × (x : DeviceEvent) × (found ≡ some j)
        × (get_elem? es j ≡ some x)
        × (stream x ≡ stream e))

find_stream-Fits :
    (e : DeviceEvent) (es : DeviceEventSet) → Fits e es (find_stream (stream e) 0 none es)
find_stream-Fits e es = elim (Option-cases (find_stream (stream e) 0 none es)) [
  | inl n ↦ inl n
  | inr (j, q) ↦ elim (find_stream-eq-some (stream e) 0 none es q) [
    | inl bad ↦ absurd (cc)
    | inr (k, x, at, got, same) ↦ inr (k, x, ground (arith, q, at), got, same)
  ]
]

find_stream-take-Fits :
    (e : DeviceEvent) (n : ℕ) (es : DeviceEventSet)
    → Fits e es (find_stream (stream e) 0 none (take n es))
find_stream-take-Fits e n es = elim (find_stream-Fits e (take n es)) [
  | inl n ↦ inl n
  | inr (j, x, q, got, same) ↦ inr (j, x, q, get_elem?-take n es j got, same)
]

put-IsWord :
    (found : Option ℕ) (e : DeviceEvent) (es : DeviceEventSet)
    → IsWord e
    → All IsWord es
    → All IsWord (put found e es)
unfolding put max_event
put-IsWord none e es he h = All-append IsWord es (e ∷ []) h (he, tt)
put-IsWord (some i) e es he h = elim (Option-cases (get_elem? es i)) [
  | inl n ↦ rw (n, put) h
  | inr (x, q) ↦ rw (q, put) (All-set IsWord es i _ h (ground (arith, All-get IsWord es i h q)))
]

module _ (first : ℕ → ℕ) where
  -- Events of one stream complete in order, so the later of two stands for both.
  ready-max :
      (a e : DeviceEvent)
      → IsWord a
      → IsWord e
      → stream a ≡ stream e
      → ready_at first (max_event a e) ≡ (ready_at first a && ready_at first e)
  unfolding max_event
  ready-max a e ha he h =
      ground (arith, index_mono a e ha he h, index_mono e a he ha (sym h), ap first h)

  ready-put :
      (found : Option ℕ) (e : DeviceEvent) (es : DeviceEventSet)
      → IsWord e
      → All IsWord es
      → Fits e es found
      → all (ready_at first) (put found e es) ≡ (ready_at first e && all (ready_at first) es)
  unfolding put
  ready-put found e es he h (inl n) = rw n (ground (arith, all-append (ready_at first) es (e ∷ [])))
  ready-put found e es he h (inr (j, x, q, got, same)) =
      rw (q, put)
        (rw got (
          all-set (ready_at first) (ready_at first e) es j got
            (ready-max x e (All-get IsWord es j h got) he same)))

  -- A null event is ready from the start, since every stream's first pending index is at least 1.
  ready-null : (e : DeviceEvent) → 0 < first 0 → is_null e ≡ true → ready_at first e ≡ true
  unfolding is_null index stream
  ready-null e h n = ground arith

  -- Waiting for a set after `insert` is waiting for the new event and for the old set, at any
  -- state of the streams in which stream 0 has its first pending index above zero.
  pub ready-insert :
      (e : DeviceEvent) (es : DeviceEventSet)
      → IsWord e
      → All IsWord es
      → 0 < first 0
      → all (ready_at first) (insert e es) ≡ (ready_at first e && all (ready_at first) es)
  unfolding insert
  ready-insert e es he h f = elim (Bool-cases (is_null e)) [
    | inl n ↦ rw n (rw (ready-null e f n))
    | inr n ↦ rw n (ready-put _ e es he h (find_stream-Fits e es))
  ]

  ready-insert_from :
      (n : ℕ) (that es : DeviceEventSet)
      → All IsWord that
      → All IsWord es
      → all (ready_at first) (insert_from n that es)
        ≡ (all (ready_at first) that && all (ready_at first) es)
  unfolding insert_from
  ready-insert_from n [] es ht h = refl
  ready-insert_from n (e ∷ that) es ht h =
      let found = find_stream (stream e) 0 none (take n es) in
      ground (
        arith,
        ready-insert_from n that (put found e es) ht.1 (put-IsWord found e es ht.0 h),
        ready-put found e es ht.0 h (find_stream-take-Fits e n es),
      )

  pub ready-insert_all :
      (that es : DeviceEventSet)
      → All IsWord that
      → All IsWord es
      → all (ready_at first) (insert_all that es)
        ≡ (all (ready_at first) that && all (ready_at first) es)
  unfolding insert_all
  ready-insert_all that es ht h = ready-insert_from (length es) that es ht h

  -- Waiting for the union of two sets, made by `operator|` or by either `insert` method for sets,
  -- is waiting for both.
  pub ready-union :
      (a b : DeviceEventSet)
      → All IsWord a
      → All IsWord b
      → (all (ready_at first) (union a b) ≡ (all (ready_at first) a && all (ready_at first) b))
        × (all (ready_at first) (insert_move b a)
            ≡ (all (ready_at first) a && all (ready_at first) b))
  unfolding union insert_move
  ready-union a b ha hb = (
    ground (arith, ready-insert_all b a hb ha),
    ground (arith, ready-insert_all b a hb ha, ready-insert_all a b ha hb),
  )
