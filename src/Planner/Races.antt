-- ===== src/Planner/Races.antt =====
-- Launches on an array run without races: of two accesses to one chunk, one of them a write, the
-- later one follows the earlier one in the graph of tasks.
use mathlib.Core.List.{Memᴰ}
use kmm.Prelude.{ℕ, ◌≡◌, ◌⊎◌, some, List, [], ◌∷◌, get_elem?}
use kmm.TaskGraph.{Node}
use kmm.Planner.{BufferDescriptor}
use kmm.Planner.Launch.{Access, reading, writing}
use kmm.Planner.Follows.{Follows, Includes, Follows-mono}

-- The launches so far with the chunk and the event of each of their accesses, newest first.
abbrev pub History : Type 0
History = List (Access × List (ℕ × ℕ))

-- An access to chunk `k`, and a write to it, by a launch of the history.
abbrev pub Accessed : History → ℕ → ℕ → Type 0
Accessed [] k e = ⊥
Accessed ((_, accesses) ∷ older) k e = Memᴰ (k, e) accesses ⊎ Accessed older k e

abbrev pub Written : History → ℕ → ℕ → Type 0
Written [] k e = ⊥
Written ((reading, accesses) ∷ older) k e = Written older k e
Written ((writing, accesses) ∷ older) k e = Memᴰ (k, e) accesses ⊎ Written older k e

-- The earlier accesses that an access of the given kind must wait for.
abbrev pub Conflicts : Access → History → ℕ → ℕ → Type 0
Conflicts reading older = Written older
Conflicts writing older = Accessed older

abbrev pub RaceFree : List Node → History → Type 0
RaceFree nodes [] = Unit {0}
RaceFree nodes ((access, accesses) ∷ older) =
    ((k e x : ℕ) → Memᴰ (k, e) accesses → Conflicts access older k x → Follows nodes e x)
    × RaceFree nodes older

-- The events of a buffer stand for all that came before.
abbrev pub Stands : List Node → History → ℕ → BufferDescriptor → Type 0
Stands nodes h k b =
    ((x : ℕ) → Written h k x → Follows nodes b.last_write_event x)
    × ((x : ℕ) → Accessed h k x → (a : ℕ) × Memᴰ a b.last_access_events × Follows nodes a x)

abbrev pub Tracked : List Node → List BufferDescriptor → History → Type 0
Tracked nodes buffers h =
    (k : ℕ) (b : BufferDescriptor) → get_elem? buffers k ≡ some b → Stands nodes h k b

pub RaceFree-mono :
    {nodes more : List Node} (h : History)
    → Includes nodes more
    → RaceFree nodes h
    → RaceFree more h
RaceFree-mono [] f r = tt
RaceFree-mono ((access, accesses) ∷ older) f r =
    (λ k e x m c. Follows-mono f (r.0 k e x m c), RaceFree-mono older f r.1)

pub Stands-mono :
    {nodes more : List Node} (h : History) (k : ℕ) (b : BufferDescriptor)
    → Includes nodes more
    → Stands nodes h k b
    → Stands more h k b
Stands-mono h k b f s = (
  λ x w. Follows-mono f (s.0 x w),
  λ x a. let (e, m, follows) = s.1 x a in (e, m, Follows-mono f follows),
)
