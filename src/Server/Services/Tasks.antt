-- ===== src/Server/Services/Tasks.antt =====
-- pkg/server/services/task_service.go: the nodes that are connected, and the tasks sent to them.
-- Each function is one method, run without another in between; SubscribeTasks, which waits for its
-- stream to end, is two. A gRPC stream is a number, and `send` says whether a message to it arrives.
pub mod Delivery
pub mod Queue
pub mod Streams
pub mod Updates
use Prim.Native.String.{◌++◌}
use wireguard_babeld_igp.Base.{
  ℕ, ◌<◌, String, Bool, true, false, Option, none, some, List, [], ◌∷◌, ite, if◌then◌else◌, ◌=?◌,
  string_key, ltb,
}
use wireguard_babeld_igp.Base.Int.{ℤ, int_key, to_int32}
use wireguard_babeld_igp.Data.Heap.{Ptr, Heap, alloc, write}
use wireguard_babeld_igp.Data.Map.{Map, get, put}
use wireguard_babeld_igp.Data.Map as Map
use wireguard_babeld_igp.Data.Map.Range.{length, range}
use wireguard_babeld_igp.Data.Text.{show_ℕ}
use wireguard_babeld_igp.Errors.{
  Code, Error, Result, ok, err, grpc, wrap, message, node_offline, stream_missing, wrapped,
}
use wireguard_babeld_igp.Types.{
  Time, Task, TaskType, TaskStatus, zero_task, task_status_pending, task_status_failed,
  task_type_update,
}
use wireguard_babeld_igp.Store.Interface.{Store}
use wireguard_babeld_igp.Server.Middleware.Node.{validate_token}

abbrev pub Stream : Type 0
Stream = ℕ

pub record NodeState : Type 0 where
  pub token : String
  pub last_seen : Time
  pub stream : Option Stream

-- The message `task.Task` of api/proto/task/task.proto, as far as the server fills it.
pub record PbTask : Type 0 where
  pub id : String
  pub type : String

-- `sent` lists what the streams carried, the last message first. `heap` holds the tasks to which the
-- service and the store point.
pub record TaskService (S : Type 0) : Type 0 where
  pub nodes : Map ℤ NodeState
  pub tasks : Map String Ptr
  pub task_chan : List Ptr
  pub store : S
  pub heap : Heap Task
  pub sent : List (Stream × PbTask)

abbrev pub new_task_service : {S : Type 0} → S → Heap Task → TaskService S
new_task_service s h = record {
  nodes = Map.empty;
  tasks = Map.empty;
  task_chan = [];
  store = s;
  heap = h;
  sent = [];
}

-- make(chan *types.Task, 100)
abbrev pub chan_size : ℕ
chan_size = 100

-- A text of the reply is written as the `Error` that formats it.
pub record Reply : Type 0 where
  pub success : Bool
  pub message : Error

-- A call that ends, or one that waits for ever.
pub data Outcome (A : Type 0) : Type 0 where
  done : Result A → Outcome A
  blocked : Outcome A

-- fmt.Sprintf("%s_%d", taskType, time.Now().UnixNano())
unfoldable pub generate_task_id : TaskType → Time → String
generate_task_id type nanos = type ++ ("_" ++ show_ℕ nanos)

module _ {S : Type 0} (store : Store S) where
  unfoldable pub register : Time → ℤ → String → TaskService S → Reply × Option Error × TaskService S
  register now id token t =
      if validate_token store id token t.store
      then (
        record { success = true; message = message "Registration successful" },
        none,
        record t {
          nodes = put t.nodes id (record { token = token; last_seen = now; stream = none });
        },
      )
      else (
        record { success = false; message = message "Invalid credentials" },
        some (grpc Code.unauthenticated "invalid credentials"),
        t,
      )

  attach : Time → ℤ → Stream → Option NodeState → TaskService S → Option Error × TaskService S
  attach now id stream none t = (some (grpc Code.not_found "node not registered"), t)
  attach now id stream (some node) t = (
    none,
    record t { nodes = put t.nodes id (record node { stream = some stream; last_seen = now }) },
  )

  -- SubscribeTasks up to its wait; `none` is that it waits.
  unfoldable pub subscribe :
      Time → ℤ → String → Stream → TaskService S → Option Error × TaskService S
  unfolding attach
  subscribe now id token stream t =
      if validate_token store id token t.store
      then attach now id stream (get t.nodes id) t
      else (some (grpc Code.unauthenticated "invalid credentials"), t)

  detach : ℤ → Option NodeState → TaskService S → TaskService S
  detach id none t = t
  detach id (some node) t = record t { nodes = put t.nodes id (record node { stream = none }) }

  -- SubscribeTasks from the end of its wait.
  unfoldable pub unsubscribe : ℤ → TaskService S → TaskService S
  unfolding detach
  unsubscribe id t = detach id (get t.nodes id) t

  -- The task after a report of the agent.
  unfoldable pub reported : Time → TaskStatus → String → Task → Task
  reported now status error task =
      ite (error =? "") (record task { status = status; completed_at = some now })
        (record task { status = task_status_failed; message = error; completed_at = some now })

  saved :
      Result (Unit {0}) × (Heap Task × S)
      → TaskService S
      → Option Reply × Option Error × TaskService S
  saved (err e, (h, s)) t = (
    some (record { success = false; message = wrap "Failed to update task" e }),
    some (grpc Code.internal "failed to update task"),
    record t { heap = h; store = s },
  )
  saved (ok _, (h, s)) t = (
    some (record { success = true; message = message "Task status updated" }),
    none,
    record t { heap = h; store = s },
  )

  report :
      Time
      → Time
      → TaskStatus
      → String
      → Option Ptr
      → TaskService S
      → Option Reply × Option Error × TaskService S
  unfolding saved reported
  report now later status error none t = (none, some (grpc Code.not_found "task not found"), t)
  report now later status error (some p) t =
      let h = write t.heap p (reported now status error (t.heap.cell p)) in
      saved (store.update_task later p h t.store) t

  -- `later` is the clock's answer to the store.
  unfoldable pub update_task_status :
      Time
      → Time
      → String
      → TaskStatus
      → String
      → TaskService S
      → Option Reply × Option Error × TaskService S
  unfolding report
  update_task_status now later id status error t = report now later status error (get t.tasks id) t

  -- The task that CreateTask makes.
  abbrev pub new_task : TaskType → ℤ → Time → Task
  new_task type node nanos = record zero_task {
    id = generate_task_id type nanos;
    type = type;
    node_id = node;
    status = task_status_pending;
  }

  unfoldable pub stored :
      Ptr → Result (Unit {0}) × (Heap Task × S) → TaskService S → Outcome Ptr × TaskService S
  stored p (err e, (h, s)) t = (done (err (wrap "saving task" e)), record t { heap = h; store = s })
  stored p (ok _, (h, s)) t = (done (ok p), record t { heap = h; store = s })

  -- The send on a full channel waits for a receiver, and nothing in the program receives from it.
  unfoldable pub create_task :
      Time → Time → TaskType → ℤ → TaskService S → Outcome Ptr × TaskService S
  unfolding stored
  create_task nanos now type node t =
      let task = new_task type node nanos in
      let (p, h) = alloc t.heap task in
      let t' = record t { tasks = put t.tasks task.id p; heap = h } in
      if ltb (length t.task_chan) chan_size
      then stored p (store.create_task now p h t.store) (record t' { task_chan = p ∷ t.task_chan })
      else (blocked, t')

  -- What a stream does with a message is the environment's choice.
  module _ (send : Stream → PbTask → Result (Unit {0})) where
    abbrev pub pb_task : Task → PbTask
    pb_task task = record { id = task.id; type = task.type }

    unfoldable pub delivered :
        Stream → PbTask → Result (Unit {0}) → TaskService S → Result (Unit {0}) × TaskService S
    delivered stream m (err e) t = (err (wrap "sending task" e), t)
    delivered stream m (ok _) t = (ok tt, record t { sent = (stream, m) ∷ t.sent })

    unfoldable pub push_stream :
        ℤ → PbTask → Option Stream → TaskService S → Result (Unit {0}) × TaskService S
    unfolding delivered
    push_stream id m none t = (err (stream_missing id), t)
    push_stream id m (some stream) t = delivered stream m (send stream m) t

    unfoldable pub push_to :
        ℤ → PbTask → Option NodeState → TaskService S → Result (Unit {0}) × TaskService S
    unfolding push_stream
    push_to id m none t = (err (node_offline id), t)
    push_to id m (some node) t = push_stream id m node.stream t

    -- The result of the store is dropped. `later` is the clock's answer to the store.
    unfoldable pub push_task : Time → Time → Ptr → TaskService S → Result (Unit {0}) × TaskService S
    unfolding push_to
    push_task now later p t =
        let task = record (t.heap.cell p) { started_at = some now } in
        let (_, (h, s)) = store.update_task later p (write t.heap p task) t.store in
        let id = to_int32 task.node_id in
        push_to id (pb_task task) (get t.nodes id) (record t { heap = h; store = s })

    broadcast_to : PbTask → List (ℤ × NodeState) → TaskService S → TaskService S
    unfolding delivered
    broadcast_to m [] t = t
    broadcast_to m ((_, node) ∷ l) t =
        broadcast_to m l
          (elim node.stream [ none ↦ t | some stream ↦ (delivered stream m (send stream m) t).1 ])

    -- A failed send is logged and skipped.
    unfoldable pub broadcast_task :
        (List (ℤ × NodeState) → List (ℤ × NodeState))
        → Ptr
        → TaskService S
        → Result (Unit {0}) × TaskService S
    unfolding broadcast_to
    broadcast_task visit p t =
        (ok tt, broadcast_to (pb_task (t.heap.cell p)) (range visit t.nodes) t)
