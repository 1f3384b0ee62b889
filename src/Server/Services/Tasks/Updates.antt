-- ===== src/Server/Services/Tasks/Updates.antt =====
-- What a report of an agent does to a task, in the service and in MemoryStore, which share it.
use wireguard_babeld_igp.Base.{
  ◌≡◌, ◌≢◌, refl, String, none, some, true, arith, ◌=?◌, string_key, nat_key, ap, if_pos, ◌∙◌,
}
use wireguard_babeld_igp.Data.Heap.{Ptr, Heap, write}
use wireguard_babeld_igp.Data.Map.{get, put, get-put}
use wireguard_babeld_igp.Errors.{Code, ok, grpc, message}
use wireguard_babeld_igp.Types.{Time, Task, TaskStatus, task_status_failed}
use wireguard_babeld_igp.Store.Memory.{MemoryStore}
use wireguard_babeld_igp.Store.Memory.Tasks.{get_task}
use wireguard_babeld_igp.Store.Memory.Tasks.Results.{update_task_held, update_task_gone}
use wireguard_babeld_igp.Store.Interface.{MapOrders, memory_store}
use wireguard_babeld_igp.Server.Services.Tasks.{
  TaskService, reported, saved, report, update_task_status,
}

module _ (orders : MapOrders) (now later : Time) (id : String) (status : TaskStatus)
    (error : String) (t : TaskService MemoryStore) where
  reported_lem :
      (task : Task)
      → let task' = reported (memory_store orders) now status error task in
        (task'.id ≡ task.id)
        × (task'.completed_at ≡ some now)
        × (error ≡ "" → (task'.status ≡ status) × (task'.message ≡ task.message))
        × (error ≢ "" → (task'.status ≡ task_status_failed) × (task'.message ≡ error))
  unfolding reported
  reported_lem task = (ground arith, ground arith, λ e. ground arith, λ n. ground arith)

  -- The heap after the write through the pointer.
  abbrev after : Ptr → Heap Task
  after p = write t.heap p (reported (memory_store orders) now status error (t.heap.cell p))

  after_self :
      (p : Ptr) → (after p).cell p ≡ reported (memory_store orders) now status error (t.heap.cell p)
  after_self p = if_pos (p =? p) refl _ (t.heap.cell p)

  after_id : (p : Ptr) → (t.heap.cell p).id ≡ id → ((after p).cell p).id ≡ id
  after_id p e = ap (λ (x : Task). x.id) (after_self p) ∙ (reported_lem (t.heap.cell p)).0 ∙ e

  update_held :
      (p : Ptr)
      → get t.tasks id ≡ some p
      → get t.store.tasks id ≡ some p
      → (t.heap.cell p).id ≡ id
      → update_task_status (memory_store orders) now later id status error t ≡ (
        some (record { success = true; message = message "Task status updated" }),
        none,
        record t { heap = after p; store = record t.store { tasks = put t.store.tasks id p } },
      )
  unfolding update_task_status
  update_held p held stored same =
      let e = update_task_held (after p) p t.store p (rw (after_id p same) stored) in
      rw (held, report, e, after_id p same, saved)

  -- A report on a task that the service and the store hold under its identifier is acknowledged. The
  -- task is complete from then on, failed with the error's text if there is one and with the reported
  -- status if not; the store still answers with it, and no other task changes.
  pub update_task_status_lem :
      (p : Ptr)
      → get t.tasks id ≡ some p
      → get t.store.tasks id ≡ some p
      → (t.heap.cell p).id ≡ id
      → let (r, e, t') = update_task_status (memory_store orders) now later id status error t in
        let task = t.heap.cell p in
        let task' = t'.heap.cell p in
        (r ≡ some (record { success = true; message = message "Task status updated" }))
        × (e ≡ none)
        × (get_task id t'.store ≡ ok p)
        × (task'.completed_at ≡ some now)
        × (error ≡ "" → (task'.status ≡ status) × (task'.message ≡ task.message))
        × (error ≢ "" → (task'.status ≡ task_status_failed) × (task'.message ≡ error))
        × ((q : Ptr) → q ≢ p → t'.heap.cell q ≡ t.heap.cell q)
  unfolding update_task_status get_task
  update_task_status_lem p held stored same =
      let (_, complete, plain, failed) = reported_lem (t.heap.cell p) in
      let e = after_self p in
      rw (update_held p held stored same) (
        refl,
        refl,
        ground (arith, get-put t.store.tasks id id p),
        rw e complete,
        rw e plain,
        rw e failed,
        λ q n. ground arith,
      )

  -- A report on a task that the service does not hold is refused, and changes nothing.
  pub update_task_status_unknown :
      get t.tasks id ≡ none
      → update_task_status (memory_store orders) now later id status error t
        ≡ (none, some (grpc Code.not_found "task not found"), t)
  unfolding update_task_status report
  update_task_status_unknown e = ground (arith, e)

  -- A report on a task that the store has dropped changes the task of the service, and is answered
  -- by an internal error.
  pub update_task_status_dropped :
      (p : Ptr)
      → get t.tasks id ≡ some p
      → get t.store.tasks id ≡ none
      → (t.heap.cell p).id ≡ id
      → let (r, e, t') = update_task_status (memory_store orders) now later id status error t in
        (e ≡ some (grpc Code.internal "failed to update task"))
        × (t'.store ≡ t.store)
        × ((t'.heap.cell p).completed_at ≡ some now)
  unfolding update_task_status
  update_task_status_dropped p held gone same =
      let e = update_task_gone (after p) p t.store (rw (after_id p same) gone) in
      rw (held, report, e, saved) (refl, refl, rw (after_self p) (reported_lem (t.heap.cell p)).1)
