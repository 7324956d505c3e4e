-- ===== src/Tasks/Host.antt =====
-- HostTask of src/runtime/task.cpp. Its subclasses give `submit`, which is a call of the executor.
use kmm.Prelude.{ℕ, Bool, true, false, List, if◌then◌else◌}
use kmm.Prelude.Results.{Error, Result, ok, err, assertion}
use kmm.Streams.EventSet.{DeviceEventSet}
use kmm.TaskGraph.{BufferRequirement}
use kmm.Registry.{poison_all, create_requests, poll_requests, access_requests, release_requests}
use kmm.Tasks.{
  Status, init, create_buffers, polling_buffers, polling_dependencies, running, completing,
  completed, World, Services, Step, pending, next, ◌and_then◌,
}

pub record HostTask : Type 0 where
  pub id : ℕ
  pub status : Status
  pub buffers : List BufferRequirement
  pub requests : List ℕ
  pub dependencies : DeviceEventSet
  pub future : ℕ

-- start, which asserts that the task is new.
unfoldable pub start : DeviceEventSet → HostTask → Result HostTask
start input_events t = elim t.status [
  | init ↦ ok (record t { dependencies = input_events; status = create_buffers })
  | _ ↦ err assertion
]

module _ {M E : Type 0} (services : Services M E) where
  -- The handlers: the buffers that the task writes are poisoned, and it goes on to complete.
  unfoldable pub fail : Error → HostTask → World M E → HostTask × World M E
  unfolding poison_all
  fail e t w = (
    record t { status = completing },
    record w { buffers = poison_all t.buffers (services.make_poison_exception t.id e) w.buffers },
  )

  abbrev pub failed : Error → HostTask → World M E → Step HostTask (World M E)
  failed e t w = let r = fail e t w in next r.0 r.1

  unfoldable pub create_stage : HostTask → World M E → Step HostTask (World M E)
  unfolding create_requests fail
  create_stage t w = elim t.status [
    | create_buffers ↦
        let (m, made) = create_requests services.memory t.buffers w.buffers w.manager in
        elim made [
          | ok requests ↦
              next (record t { requests = requests; status = polling_buffers })
                (record w { manager = m })
          | err e ↦ failed e t (record w { manager = m })
        ]
    | _ ↦ next t w
  ]

  unfoldable pub poll_stage : HostTask → World M E → Step HostTask (World M E)
  unfolding poll_requests fail
  poll_stage t w = elim t.status [
    | polling_buffers ↦
        let (m, deps, polled) = poll_requests services.memory t.requests t.dependencies w.manager in
        let t1 : HostTask = record t { dependencies = deps } in
        let w1 : World M E = record w { manager = m } in
        elim polled [
          | ok true ↦ next (record t1 { status = polling_dependencies }) w1
          | ok false ↦ pending t1 w1
          | err e ↦ failed e t1 w1
        ]
    | _ ↦ next t w
  ]

  -- The accesses may fail, and so may the submission.
  unfoldable pub submit : HostTask → World M E → Step HostTask (World M E)
  unfolding access_requests fail
  submit t w = elim (access_requests services.memory t.requests w.manager) [
    | err e ↦ failed e t w
    | ok accessors ↦
        let (x, submitted) = services.executors.submit_host t.id accessors w.executor in
        let w1 : World M E = record w { executor = x } in
        elim submitted [
          | ok future ↦ next (record t { future = future; status = running }) w1
          | err e ↦ failed e t w1
        ]
  ]

  unfoldable pub dependencies_stage : HostTask → World M E → Step HostTask (World M E)
  unfolding submit
  dependencies_stage t w = elim t.status [
    | polling_dependencies ↦
        let (x, deps, is_ready) = services.executors.is_ready t.dependencies w.executor in
        let t1 : HostTask = record t { dependencies = deps } in
        let w1 : World M E = record w { executor = x } in
        if is_ready then submit t1 w1 else pending t1 w1
    | _ ↦ next t w
  ]

  unfoldable pub running_stage : HostTask → World M E → Step HostTask (World M E)
  unfolding fail
  running_stage t w = elim t.status [
    | running ↦
        let (x, waited) = services.executors.wait_is_timeout t.future w.executor in
        let w1 : World M E = record w { executor = x } in
        elim waited [
          | ok true ↦ pending t w1
          | ok false ↦ next (record t { status = completing }) w1
          | err e ↦ failed e t w1
        ]
    | _ ↦ next t w
  ]

  unfoldable pub completing_stage : HostTask → World M E → HostTask × World M E
  unfolding release_requests
  completing_stage t w = elim t.status [
    | completing ↦
        let (m, requests) = release_requests services.memory t.requests 0 w.manager in
        (record t { requests = requests; status = completed }, record w { manager = m })
    | _ ↦ (t, w)
  ]

  -- The end of a poll: true is Poll::Ready.
  unfoldable pub finish : Step HostTask (World M E) → Bool × HostTask × World M E
  unfolding completing_stage
  finish (pending t w) = (false, t, w)
  finish (next t w) = let r = completing_stage t w in (true, r.0, r.1)

  unfoldable pub poll : HostTask → World M E → Bool × HostTask × World M E
  unfolding create_stage poll_stage dependencies_stage running_stage finish
  poll t w =
      finish
        (create_stage t w and_then poll_stage and_then dependencies_stage and_then running_stage)
