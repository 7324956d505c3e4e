-- ===== src/Planner/Reads.antt =====
-- One task of a launch at a time: what it waits for, and what the commit of reads leaves.
use mathlib.Core.List.{Memᴰ}
use mathlib.Core.List.Memᴰ
use native.Mathlib.Decide.{ℕ_discrete}
use mathlib.Core.Option.{some-injective}
use kmm.Prelude.{
  ℕ, ◌≡◌, ◌≢◌, refl, sym, ap, ◌∙◌, subst, ◌⊎◌, inl, inr, Option, none, some, List, [], ◌∷◌, ◌++◌,
  get_elem?, set, get_elem?-lt, get_elem?-set_self, get_elem?-set_ne, Option-cases,
}
use kmm.Prelude.Results.{ok, ◌>>=◌}
use kmm.Planner.{BufferDescriptor}
use kmm.Planner.Read.{set_last, add_access, update_at, commit}

-- A buffer after a write through a reference.
pub update_at-get :
    (k : ℕ) (f : BufferDescriptor → BufferDescriptor) (buffers : List BufferDescriptor) (j : ℕ)
    (b : BufferDescriptor)
    → get_elem? (update_at k f buffers) j ≡ some b
    → (old : BufferDescriptor) × (get_elem? buffers j ≡ some old)
      × (((k ≡ j) × (b ≡ f old)) ⊎ ((k ≢ j) × (b ≡ old)))
unfolding update_at
update_at-get k f buffers j b h = elim (Option-cases (get_elem? buffers k)) [
  | inl out ↦
      let there : get_elem? buffers j ≡ some b =
        subst (λ bs. get_elem? bs j ≡ some b) (ap written out) h in
      (b, there, inr (λ e. absurd (cc (out, there, e)), refl))
  | inr (old, at) ↦
      let run : get_elem? (set buffers k (f old)) j ≡ some b =
        subst (λ bs. get_elem? bs j ≡ some b) (ap written at) h in
      elim (ℕ_discrete k j) [
        | yes e ↦
            let there : get_elem? (set buffers k (f old)) k ≡ some (f old) =
              get_elem?-set_self buffers k (f old) (get_elem?-lt buffers k at) in
            (
              old,
              subst (λ i. get_elem? buffers i ≡ some old) e at,
              inl (
                e,
                some-injective b (f old) (
                    sym run
                    ∙ subst (λ i. get_elem? (set buffers k (f old)) i ≡ some (f old)) e there),
              ),
            )
        | no n ↦ (b, sym (get_elem?-set_ne buffers k j (f old) n) ∙ run, inr (n, refl))
      ]
]
  where
    written : Option BufferDescriptor → List BufferDescriptor
    written o = elim o [ none ↦ buffers | some old ↦ set buffers k (f old) ]

pub set_last-append :
    (event k : ℕ) (accesses : List (ℕ × ℕ))
    → set_last event (accesses ++ (k, 0) ∷ []) ≡ ok (accesses ++ (k, event) ∷ [])
unfolding set_last
set_last-append event k [] = refl
set_last-append event k (x ∷ []) = refl
set_last-append event k (x ∷ y ∷ rest) =
    ap (λ r. r >>= λ rest. ok (x ∷ rest)) (set_last-append event k (y ∷ rest))

-- After the commit of reads a buffer keeps its last write and its accesses, and has the new ones.
pub record HasReads (accesses : List (ℕ × ℕ)) (k : ℕ) (old b : BufferDescriptor) : Type 0 where
  pub same_write : b.last_write_event ≡ old.last_write_event
  pub keeps : (e : ℕ) → Memᴰ e old.last_access_events → Memᴰ e b.last_access_events
  pub has_new : (e : ℕ) → Memᴰ (k, e) accesses → Memᴰ e b.last_access_events

pub commit-HasReads :
    (accesses : List (ℕ × ℕ)) (buffers : List BufferDescriptor) (k : ℕ) (b : BufferDescriptor)
    → get_elem? (commit accesses buffers) k ≡ some b
    → (old : BufferDescriptor) × (get_elem? buffers k ≡ some old) × HasReads accesses k old b
unfolding commit add_access
commit-HasReads [] buffers k b h =
    (b, h, record { same_write = refl; keeps = λ e m. m; has_new = λ e m. absurd (Memᴰ.not-nil m) })
commit-HasReads ((j, event) ∷ rest) buffers k b h =
    let (mid, at_mid, r) = commit-HasReads rest (update_at j (add_access event) buffers) k b h in
    let (old, at, how) = update_at-get j (add_access event) buffers k mid at_mid in
    (
      old,
      at,
      elim how [
        | inl (e, is_mid) ↦ record {
          same_write = r.same_write ∙ ap (λ (x : BufferDescriptor). x.last_write_event) is_mid;
          keeps = λ x m. r.keeps x (
              subst (λ (y : BufferDescriptor). Memᴰ x y.last_access_events) (sym is_mid)
                (Memᴰ.append_left (event ∷ []) m));
          has_new = λ x m. elim (Memᴰ.cases_cons m) [
            | inl same ↦ r.keeps x (
                subst (λ (y : BufferDescriptor). Memᴰ x y.last_access_events) (sym is_mid)
                  (Memᴰ.append_right old.last_access_events (Memᴰ.head (ap (λ p. p.1) same))))
            | inr later ↦ r.has_new x later
          ];
        }
        | inr (n, is_mid) ↦ record {
          same_write = r.same_write ∙ ap (λ (x : BufferDescriptor). x.last_write_event) is_mid;
          keeps = λ x m.
              r.keeps x
                (subst (λ (y : BufferDescriptor). Memᴰ x y.last_access_events) (sym is_mid) m);
          has_new = λ x m. elim (Memᴰ.cases_cons m) [
            | inl same ↦ absurd (n (sym (ap (λ p. p.0) same)))
            | inr later ↦ r.has_new x later
          ];
        }
      ],
    )
