-- ===== src/Examples/Planner.antt =====
-- Examples for src/planner.
use kmm.Prelude.{ℕ, ◌≡◌, refl, true, List, [], ◌∷◌}
use kmm.Prelude.Results.{is_ok, is_ok-value}
use kmm.Prelude.Int.{pos, ◌+ℤ◌, ◌*ℤ◌}
use kmm.Identifiers.{device}
use kmm.TaskGraph.{initial}
use kmm.Planner.{BufferDescriptor}
use kmm.Planner.Launch.{Access, reading, writing, Submission, System, run}
use kmm.Planner.Races.{History}

abbrev buffer : ℕ → BufferDescriptor
buffer id = record {
  id = id;
  layout = record { size_in_bytes = 40; alignment = 4 };
  last_write_event = 0;
  last_access_events = [];
}

-- An array of 20 elements in chunks of 10 on two devices.
abbrev idle : System 1
idle = record {
  array = record {
    distribution = record {
      array_size = (pos 20, tt);
      chunk_size = (pos 10, tt);
      chunks_count = (2, tt);
      memories = device 0 ∷ device 1 ∷ [];
    };
    dtype = record { size_in_bytes = 4; alignment = 4 };
    buffers = buffer 1 ∷ buffer 2 ∷ [];
  };
  stage = initial;
  submitted = [];
}

abbrev over : ℕ → ℕ → Submission 1
over begin end = record {
  processor_id = 1;
  memory_id = device 0;
  region = (record { begin = pos begin; end = pos end }, tt);
  task = 7;
}

-- Two writes of the first chunk and one of the second, then reads of both, then a write.
abbrev launches : List (Access × List (Submission 1))
launches =
    (writing, over 5 10 ∷ over 10 20 ∷ over 0 5 ∷ [])
    ∷ (reading, over 0 10 ∷ over 12 14 ∷ [])
    ∷ (writing, over 0 2 ∷ [])
    ∷ []

succeeds : is_ok (run 1 launches idle []) ≡ true
unfolding run ◌+ℤ◌ ◌*ℤ◌
succeeds = refl

abbrev outcome : System 1 × History
outcome = (is_ok-value (run 1 launches idle []) succeeds).0
