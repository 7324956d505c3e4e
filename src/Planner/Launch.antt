-- ===== src/Planner/Launch.antt =====
-- include/kmm/api/parallel_submit.hpp with one array as argument, read or written by every task of
-- the launch, and the commit of its stage in src/runtime/runtime.cpp.
use kmm.Prelude.{ℕ, List, [], ◌∷◌, ◌++◌}
use kmm.Prelude.Results.{Result, ok, ◌>>=◌}
use kmm.Identifiers.{MemoryId}
use kmm.Geometry.Bounds.{Bounds}
use kmm.TaskGraph.{Node, TaskGraph, join_events, insert_compute_task}
use kmm.TaskGraph
use kmm.Planner.{BufferDescriptor, ArrayDescriptor}
use kmm.Planner.Read.{Prepared, finalize_access}
use kmm.Planner.Read
use kmm.Planner.Write

pub data Access : Type 0 where
  reading writing : Access

-- A task of a launch: where it runs, and the part of the array that it accesses there.
pub record Submission (N : ℕ) : Type 0 where
  pub processor_id : ℕ
  pub memory_id : MemoryId
  pub region : Bounds N
  pub task : ℕ

-- A launch as it returns: its event, the accesses of its planner, the array and the stage.
pub record Launched (N : ℕ) : Type 0 where
  pub event : ℕ
  pub accesses : List (ℕ × ℕ)
  pub array : ArrayDescriptor N
  pub stage : TaskGraph

-- An array, the last stage, whose counters the next one goes on from, and the nodes that the
-- scheduler has been given.
pub record System (N : ℕ) : Type 0 where
  pub array : ArrayDescriptor N
  pub stage : TaskGraph
  pub submitted : List Node

-- The commit of the planner.
unfoldable pub commit_accesses :
    Access → List (ℕ × ℕ) → List BufferDescriptor → TaskGraph → List BufferDescriptor × TaskGraph
unfolding Read.commit Write.commit
commit_accesses reading accesses buffers stage = (Read.commit accesses buffers, stage)
commit_accesses writing accesses buffers stage = Write.commit accesses buffers stage

module _ (N : ℕ) where
  unfoldable pub prepare_access :
      Access → ArrayDescriptor N → MemoryId → Bounds N → List (ℕ × ℕ) → Result (Prepared N)
  unfolding Read.prepare_access Write.prepare_access
  prepare_access reading = Read.prepare_access N
  prepare_access writing = Write.prepare_access N

  -- The loop over the chunks of the domain, with the events and the accesses so far.
  unfoldable pub submit_tasks :
      Access
      → ArrayDescriptor N
      → List (Submission N)
      → List ℕ
      → List (ℕ × ℕ)
      → TaskGraph
      → Result (List ℕ × List (ℕ × ℕ) × TaskGraph)
  unfolding prepare_access insert_compute_task finalize_access
  submit_tasks access a [] events accesses stage = ok (events, accesses, stage)
  submit_tasks access a (t ∷ ts) events accesses stage = do
    p ← prepare_access access a t.memory_id t.region accesses
    let (id, stage1) =
        insert_compute_task t.processor_id t.task (p.requirement ∷ []) p.dependencies stage
    finalized ← finalize_access id p.events
    submit_tasks access a ts (events ++ id ∷ []) finalized stage1

  unfoldable pub parallel_submit :
      Access → ArrayDescriptor N → List (Submission N) → TaskGraph → Result (Launched N)
  unfolding submit_tasks commit_accesses join_events
  parallel_submit access a ts stage = do
    (events, accesses, stage1) ← submit_tasks access a ts [] [] stage
    let (buffers, stage2) = commit_accesses access accesses a.buffers stage1
    let (id, stage3) = join_events events stage2
    ok (record {
      event = id;
      accesses = accesses;
      array = record a { buffers = buffers };
      stage = stage3;
    })

  -- Runtime::schedule of a launch, on a stage of its own: the nodes of the stage go to the scheduler.
  -- A launch that throws is the end here.
  unfoldable pub schedule :
      Access → List (Submission N) → System N → Result (System N × List (ℕ × ℕ))
  unfolding parallel_submit TaskGraph.commit
  schedule access ts s = do
    let fresh =
        TaskGraph.new_stage s.stage.next_buffer_id s.stage.next_event_id s.stage.last_barrier_id
    launched ← parallel_submit access s.array ts fresh
    let (barrier, nodes, buffers, stage) = TaskGraph.commit launched.stage
    ok (
      record { array = launched.array; stage = stage; submitted = s.submitted ++ nodes },
      launched.accesses,
    )

  -- Launches one after the other, with the accesses of each, newest first.
  unfoldable pub run :
      List (Access × List (Submission N))
      → System N
      → List (Access × List (ℕ × ℕ))
      → Result (System N × List (Access × List (ℕ × ℕ)))
  unfolding schedule
  run [] s history = ok (s, history)
  run ((access, ts) ∷ launches) s history = do
    (s1, accesses) ← schedule access ts s
    run launches s1 ((access, accesses) ∷ history)
