-- ===== src/Planner/Runs.antt =====
-- Launch after launch, with the commits of planner and stage, the accesses to an array stay ordered.
use mathlib.Core.List.{Memᴰ}
use mathlib.Core.List.Memᴰ
use kmm.Prelude.{ℕ, List, [], ◌∷◌}
use kmm.TaskGraph.{Node, TaskGraph}
use kmm.Planner.{ArrayDescriptor}
use kmm.Planner.Read.{Prepared, finalize_access}
use kmm.Planner.Read
use kmm.Planner.Write
use kmm.Planner.Launch.{Access, Submission}
use kmm.Planner.Follows.{Follows}
use kmm.Planner.Races.{History, RaceFree, Tracked}
use kmm.Planner.Service.{Served, Keeps}

-- The order of the accesses so far, what the buffers know of it, and the nodes of the accesses.
record Ordered {N : ℕ} (start : ArrayDescriptor N) (done : List (Access × List (Submission N)))
    (nodes : List Node) (a : ArrayDescriptor N) (h : History) : Type 0 where
  races : RaceFree nodes h
  tracked : Tracked nodes a.buffers h
  kept : Keeps start a
  served : Served nodes start done h

-- The launches, the last one first, on top of earlier ones.
abbrev pub newest_first :
    {N : ℕ}
    → List (Access × List (Submission N))
    → List (Access × List (Submission N))
    → List (Access × List (Submission N))
newest_first [] done = done
newest_first (l ∷ launches) done = newest_first launches (l ∷ done)
