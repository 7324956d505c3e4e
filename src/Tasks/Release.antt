-- ===== src/Tasks/Release.antt =====
-- However a host task ends, it gives all of its requests back before it is ready.
use kmm.Prelude.{
  ℕ, ◌≤◌, ◌≡◌, refl, sym, ap, subst, Bool, true, false, List, [], arith, if◌then◌else◌,
}
use kmm.Prelude.Results.{Error, Result, ok, err}
use kmm.Streams.EventSet.{DeviceEventSet}
use kmm.Registry.{create_requests, poll_requests, access_requests, release_requests}
use kmm.Registry.Held.{
  ManagerCall, observed, Holds, Created, create_requests-Created, poll_requests-Holds,
  release_all-Holds,
}
use kmm.Tasks.{
  Status, init, create_buffers, polling_buffers, polling_dependencies, running, completing,
  completed, World, Services, Step, pending, next, ◌and_then◌,
}
use kmm.Tasks.Host.{
  HostTask, fail, failed, create_stage, poll_stage, submit, dependencies_stage, running_stage,
  completing_stage, finish, poll,
}

-- How far a task has come.
abbrev pub rank : Status → ℕ
rank init = 0
rank create_buffers = 1
rank polling_buffers = 2
rank polling_dependencies = 3
rank running = 4
rank completing = 5
rank completed = 6

-- A task that has come at least so far and is not completed.
abbrev pub Between : ℕ → Status → Type 0
Between k s = (k ≤ rank s) × (rank s ≤ 5)

-- The memory manager of the services, with the calls that it has been given.
abbrev pub watched : {M E : Type 0} → Services M E → Services (M × List ManagerCall) E
watched plain = record {
  memory = observed plain.memory;
  executors = plain.executors;
  make_poison_exception = plain.make_poison_exception;
}

module _ {M E : Type 0} (plain : Services M E) (base : ℕ → ℕ) where
  abbrev services : Services (M × List ManagerCall) E
  services = watched plain

  -- The requests of the task are made and not released, beside those of others.
  abbrev pub Owns : HostTask → World (M × List ManagerCall) E → Type 0
  Owns t w = Holds plain.memory base t.requests w.manager

  -- The task has none yet while it is to create them.
  abbrev pub Good : HostTask → World (M × List ManagerCall) E → Type 0
  Good t w = (t.status ≡ create_buffers → t.requests ≡ []) × Owns t w

  later :
      (t : HostTask) (w : World (M × List ManagerCall) E) → 2 ≤ rank t.status → Owns t w → Good t w
  later t w h o = (λ c. absurd (omega (arith, h, ap rank c)), o)

  abbrev After : ℕ → Step HostTask (World (M × List ManagerCall) E) → Type 0
  After k (pending t w) = Owns t w × Between 2 t.status
  After k (next t w) = Owns t w × Between k t.status

  fail-After :
      (k : ℕ) (e : Error) (t : HostTask) (w : World (M × List ManagerCall) E)
      → k ≤ 5
      → Owns t w
      → After k (failed services e t w)
  unfolding fail
  fail-After k e t w h o = (o, (h, omega arith))

  create_stage-After :
      (t : HostTask) (w : World (M × List ManagerCall) E)
      → Good t w
      → Between 1 t.status
      → After 2 (create_stage services t w)
  unfolding create_stage fail
  create_stage-After t w g h = by_status t.status refl
    where
      made :
          (M × List ManagerCall) × Result (List ℕ) → Step HostTask (World (M × List ManagerCall) E)
      made r = elim r.1 [
        | ok requests ↦
            next (record t { requests = requests; status = polling_buffers })
              (record w { manager = r.0 })
        | err e ↦ failed services e t (record w { manager = r.0 })
      ]

      by_result :
          (r : (M × List ManagerCall) × Result (List ℕ))
          → t.requests ≡ []
          → Created plain.memory base r
          → After 2 (made r)
      by_result (m, ok requests) none_yet c = (c, (omega arith, omega arith))
      by_result (m, err e) none_yet c =
          fail-After 2 e t (record w { manager = m }) (omega arith)
            (subst (λ rs. Holds plain.memory base rs m) (sym none_yet) c)

      stage : Status → Step HostTask (World (M × List ManagerCall) E)
      stage s = elim s [
        | create_buffers ↦ made (create_requests services.memory t.buffers w.buffers w.manager)
        | _ ↦ next t w
      ]

      by_status : (s : Status) → t.status ≡ s → After 2 (stage s)
      by_status create_buffers e =
          by_result (create_requests services.memory t.buffers w.buffers w.manager) (g.0 e) (
            create_requests-Created plain.memory t.buffers w.buffers w.manager base
              (subst (λ rs. Holds plain.memory base rs w.manager) (g.0 e) g.1))
      by_status init e =
          (g.1, (omega (arith, h.0, h.1, ap rank e), omega (arith, h.0, h.1, ap rank e)))
      by_status polling_buffers e =
          (g.1, (omega (arith, h.0, h.1, ap rank e), omega (arith, h.0, h.1, ap rank e)))
      by_status polling_dependencies e =
          (g.1, (omega (arith, h.0, h.1, ap rank e), omega (arith, h.0, h.1, ap rank e)))
      by_status running e =
          (g.1, (omega (arith, h.0, h.1, ap rank e), omega (arith, h.0, h.1, ap rank e)))
      by_status completing e =
          (g.1, (omega (arith, h.0, h.1, ap rank e), omega (arith, h.0, h.1, ap rank e)))
      by_status completed e =
          (g.1, (omega (arith, h.0, h.1, ap rank e), omega (arith, h.0, h.1, ap rank e)))

  poll_stage-After :
      (t : HostTask) (w : World (M × List ManagerCall) E)
      → Owns t w
      → Between 2 t.status
      → After 3 (poll_stage services t w)
  unfolding poll_stage fail
  poll_stage-After t w o h = by_status t.status refl
    where
      made :
          (M × List ManagerCall) × DeviceEventSet × Result Bool
          → Step HostTask (World (M × List ManagerCall) E)
      made r =
          let t1 : HostTask = record t { dependencies = r.1 } in
          let w1 : World (M × List ManagerCall) E = record w { manager = r.0 } in
          elim r.2 [
            | ok true ↦ next (record t1 { status = polling_dependencies }) w1
            | ok false ↦ pending t1 w1
            | err e ↦ failed services e t1 w1
          ]

      by_result :
          (r : (M × List ManagerCall) × DeviceEventSet × Result Bool)
          → Holds plain.memory base t.requests r.0
          → After 3 (made r)
      by_result (m, deps, ok true) c = (c, (omega arith, omega arith))
      by_result (m, deps, ok false) c = (c, h)
      by_result (m, deps, err e) c = (c, (omega arith, omega arith))

      stage : Status → Step HostTask (World (M × List ManagerCall) E)
      stage s = elim s [
        | polling_buffers ↦ made (poll_requests services.memory t.requests t.dependencies w.manager)
        | _ ↦ next t w
      ]

      by_status : (s : Status) → t.status ≡ s → After 3 (stage s)
      by_status polling_buffers e =
          by_result (poll_requests services.memory t.requests t.dependencies w.manager)
            (poll_requests-Holds plain.memory t.requests t.dependencies w.manager base t.requests o)
      by_status init e =
          (o, (omega (arith, h.0, h.1, ap rank e), omega (arith, h.0, h.1, ap rank e)))
      by_status create_buffers e =
          (o, (omega (arith, h.0, h.1, ap rank e), omega (arith, h.0, h.1, ap rank e)))
      by_status polling_dependencies e =
          (o, (omega (arith, h.0, h.1, ap rank e), omega (arith, h.0, h.1, ap rank e)))
      by_status running e =
          (o, (omega (arith, h.0, h.1, ap rank e), omega (arith, h.0, h.1, ap rank e)))
      by_status completing e =
          (o, (omega (arith, h.0, h.1, ap rank e), omega (arith, h.0, h.1, ap rank e)))
      by_status completed e =
          (o, (omega (arith, h.0, h.1, ap rank e), omega (arith, h.0, h.1, ap rank e)))

  submit-After :
      (t : HostTask) (w : World (M × List ManagerCall) E) → Owns t w → After 4 (submit services t w)
  unfolding submit fail
  submit-After t w o = by_access (access_requests services.memory t.requests w.manager)
    where
      submitted : E × Result ℕ → Step HostTask (World (M × List ManagerCall) E)
      submitted r =
          let w1 : World (M × List ManagerCall) E = record w { executor = r.0 } in
          elim r.1 [
            | ok future ↦ next (record t { future = future; status = running }) w1
            | err e ↦ failed services e t w1
          ]

      by_submission : (r : E × Result ℕ) → After 4 (submitted r)
      by_submission (x, ok future) = (o, (omega arith, omega arith))
      by_submission (x, err e) = (o, (omega arith, omega arith))

      stage : Result (List ℕ) → Step HostTask (World (M × List ManagerCall) E)
      stage r = elim r [
        | err e ↦ failed services e t w
        | ok accessors ↦ submitted (services.executors.submit_host t.id accessors w.executor)
      ]

      by_access : (r : Result (List ℕ)) → After 4 (stage r)
      by_access (err e) = (o, (omega arith, omega arith))
      by_access (ok accessors) =
          by_submission (services.executors.submit_host t.id accessors w.executor)

  dependencies_stage-After :
      (t : HostTask) (w : World (M × List ManagerCall) E)
      → Owns t w
      → Between 3 t.status
      → After 4 (dependencies_stage services t w)
  unfolding dependencies_stage
  dependencies_stage-After t w o h = by_status t.status refl
    where
      checked : E × DeviceEventSet × Bool → Step HostTask (World (M × List ManagerCall) E)
      checked r =
          let t1 : HostTask = record t { dependencies = r.1 } in
          let w1 : World (M × List ManagerCall) E = record w { executor = r.0 } in
          if r.2 then submit services t1 w1 else pending t1 w1

      by_result : (r : E × DeviceEventSet × Bool) → After 4 (checked r)
      by_result (x, deps, true) =
          submit-After (record t { dependencies = deps }) (record w { executor = x }) o
      by_result (x, deps, false) = (o, (omega (arith, h.0), h.1))

      stage : Status → Step HostTask (World (M × List ManagerCall) E)
      stage s = elim s [
        | polling_dependencies ↦ checked (services.executors.is_ready t.dependencies w.executor)
        | _ ↦ next t w
      ]

      by_status : (s : Status) → t.status ≡ s → After 4 (stage s)
      by_status polling_dependencies e =
          by_result (services.executors.is_ready t.dependencies w.executor)
      by_status init e =
          (o, (omega (arith, h.0, h.1, ap rank e), omega (arith, h.0, h.1, ap rank e)))
      by_status create_buffers e =
          (o, (omega (arith, h.0, h.1, ap rank e), omega (arith, h.0, h.1, ap rank e)))
      by_status polling_buffers e =
          (o, (omega (arith, h.0, h.1, ap rank e), omega (arith, h.0, h.1, ap rank e)))
      by_status running e =
          (o, (omega (arith, h.0, h.1, ap rank e), omega (arith, h.0, h.1, ap rank e)))
      by_status completing e =
          (o, (omega (arith, h.0, h.1, ap rank e), omega (arith, h.0, h.1, ap rank e)))
      by_status completed e =
          (o, (omega (arith, h.0, h.1, ap rank e), omega (arith, h.0, h.1, ap rank e)))

  running_stage-After :
      (t : HostTask) (w : World (M × List ManagerCall) E)
      → Owns t w
      → Between 4 t.status
      → After 5 (running_stage services t w)
  unfolding running_stage fail
  running_stage-After t w o h = by_status t.status refl
    where
      waited : E × Result Bool → Step HostTask (World (M × List ManagerCall) E)
      waited r =
          let w1 : World (M × List ManagerCall) E = record w { executor = r.0 } in
          elim r.1 [
            | ok true ↦ pending t w1
            | ok false ↦ next (record t { status = completing }) w1
            | err e ↦ failed services e t w1
          ]

      by_result : (r : E × Result Bool) → After 5 (waited r)
      by_result (x, ok true) = (o, (omega (arith, h.0), h.1))
      by_result (x, ok false) = (o, (omega arith, omega arith))
      by_result (x, err e) = (o, (omega arith, omega arith))

      stage : Status → Step HostTask (World (M × List ManagerCall) E)
      stage s = elim s [
        | running ↦ waited (services.executors.wait_is_timeout t.future w.executor)
        | _ ↦ next t w
      ]

      by_status : (s : Status) → t.status ≡ s → After 5 (stage s)
      by_status running e = by_result (services.executors.wait_is_timeout t.future w.executor)
      by_status init e =
          (o, (omega (arith, h.0, h.1, ap rank e), omega (arith, h.0, h.1, ap rank e)))
      by_status create_buffers e =
          (o, (omega (arith, h.0, h.1, ap rank e), omega (arith, h.0, h.1, ap rank e)))
      by_status polling_buffers e =
          (o, (omega (arith, h.0, h.1, ap rank e), omega (arith, h.0, h.1, ap rank e)))
      by_status polling_dependencies e =
          (o, (omega (arith, h.0, h.1, ap rank e), omega (arith, h.0, h.1, ap rank e)))
      by_status completing e =
          (o, (omega (arith, h.0, h.1, ap rank e), omega (arith, h.0, h.1, ap rank e)))
      by_status completed e =
          (o, (omega (arith, h.0, h.1, ap rank e), omega (arith, h.0, h.1, ap rank e)))

  -- What a poll leaves: a task that is not ready goes on owning its requests; one that is ready is
  -- completed and has none.
  abbrev pub Polled : Bool × HostTask × World (M × List ManagerCall) E → Type 0
  Polled (false, t, w) = Good t w × Between 2 t.status
  Polled (true, t, w) =
      (t.status ≡ completed) × (t.requests ≡ []) × Holds plain.memory base [] w.manager

  finish-Polled :
      (s : Step HostTask (World (M × List ManagerCall) E)) → After 5 s → Polled (finish services s)
  unfolding finish completing_stage release_requests
  finish-Polled (pending t w) a = (later t w (a.1).0 a.0, a.1)
  finish-Polled (next t w) a = by_status t.status refl
    where
      completion : Status → HostTask × World (M × List ManagerCall) E
      completion s = elim s [
        | completing ↦
            let r = release_requests services.memory t.requests 0 w.manager in
            (record t { requests = r.1; status = completed }, record w { manager = r.0 })
        | _ ↦ (t, w)
      ]

      by_status : (s : Status) → t.status ≡ s → Polled (true, (completion s).0, (completion s).1)
      by_status completing e =
          (refl, refl, release_all-Holds plain.memory base t.requests 0 w.manager a.0)
      by_status init e = absurd (omega (arith, (a.1).0, (a.1).1, ap rank e))
      by_status create_buffers e = absurd (omega (arith, (a.1).0, (a.1).1, ap rank e))
      by_status polling_buffers e = absurd (omega (arith, (a.1).0, (a.1).1, ap rank e))
      by_status polling_dependencies e = absurd (omega (arith, (a.1).0, (a.1).1, ap rank e))
      by_status running e = absurd (omega (arith, (a.1).0, (a.1).1, ap rank e))
      by_status completed e = absurd (omega (arith, (a.1).0, (a.1).1, ap rank e))

  and_then-After :
      (j k : ℕ) (s : Step HostTask (World (M × List ManagerCall) E))
      (rest : HostTask
        → World (M × List ManagerCall) E
        → Step HostTask (World (M × List ManagerCall) E))
      → After j s
      → ((t : HostTask) (w : World (M × List ManagerCall) E)
          → Owns t w
          → Between j t.status
          → After k (rest t w))
      → After k (s and_then rest)
  and_then-After j k (pending t w) rest a f = a
  and_then-After j k (next t w) rest a f = f t w a.0 a.1

  -- A poll of a host task that has been started and is not completed, whatever fails on the way and
  -- whatever the memory manager does: when it answers Pending, the requests that have been made for
  -- the task and not released are those that it lists, each once, and it may be polled again; when it
  -- answers Ready, the task is completed and each of its requests has been released, once.
  pub poll-Polled :
      (t : HostTask) (w : World (M × List ManagerCall) E)
      → Good t w
      → Between 1 t.status
      → Polled (poll (watched plain) t w)
  unfolding poll
  poll-Polled t w g h = finish-Polled _ (
      and_then-After 4 5 _ (running_stage services)
        (and_then-After 3 4 _ (dependencies_stage services)
          (and_then-After 2 3 _ (poll_stage services) (create_stage-After t w g h) poll_stage-After)
          dependencies_stage-After)
        running_stage-After)
