-- ===== src/Server/Services/Nodes/Trigger.antt =====
-- TriggerConfigUpdate from end to end, over MemoryStore.
use wireguard_babeld_igp.Base.{
  ◌<◌, ◌≡◌, ◌∙◌, refl, ap, some, true, arith, ◌∷◌, ◌=?◌, string_key, nat_key, if_pos, ltb,
}
use wireguard_babeld_igp.Base.Int.{ℤ, int_key, IsInt32, to_int32, to_int32_self}
use wireguard_babeld_igp.Data.Heap.{Ptr, Heap, alloc, write}
use wireguard_babeld_igp.Data.Map.{get, put, get-put}
use wireguard_babeld_igp.Data.Map.Range.{length}
use wireguard_babeld_igp.Errors.{Result, ok}
use wireguard_babeld_igp.Types.{Time, Task, TaskType, task_type_update}
use wireguard_babeld_igp.Store.Memory.{MemoryStore}
use wireguard_babeld_igp.Store.Memory.Tasks
use wireguard_babeld_igp.Store.Memory.Tasks.Results.{update_task_held}
use wireguard_babeld_igp.Store.Interface.{MapOrders, memory_store}
use wireguard_babeld_igp.Server.Services.Nodes.{
  Times, trigger_config_update, push_created, wrapped_push,
}
use wireguard_babeld_igp.Server.Services.Tasks.{
  Stream, PbTask, NodeState, TaskService, done, chan_size, new_task, stored, create_task, push_task,
  push_to, push_stream, delivered,
}

module _ (orders : MapOrders) (nanos now : Time) (type : TaskType) (node : ℤ)
    (t : TaskService MemoryStore) (room : length t.task_chan < chan_size) where
  abbrev pub task : Task
  task = new_task (memory_store orders) type node nanos

  -- The state after CreateTask, by the task that the store reads its key from.
  abbrev made_for : Task → TaskService MemoryStore
  made_for x = record t {
    tasks = put t.tasks task.id t.heap.next;
    task_chan = t.heap.next ∷ t.task_chan;
    store = record t.store { tasks = put t.store.tasks x.id t.heap.next };
    heap = (alloc t.heap task).1;
  }

  pub created_cell : (alloc t.heap task).1.cell t.heap.next ≡ task
  created_cell = if_pos (t.heap.next =? t.heap.next) refl task (t.heap.cell t.heap.next)

  pub create_task_room :
      create_task (memory_store orders) nanos now type node t
      ≡ (done (ok t.heap.next), made_for task)
  unfolding create_task Tasks.create_task stored
  create_task_room =
      let small : ltb (length t.task_chan) chan_size ≡ true = ground (arith, room) in
      rw small (ap (λ x. (done (ok t.heap.next), made_for x)) created_cell)

module _ (orders : MapOrders) (times : Times) (node : ℤ) (t : TaskService MemoryStore)
    (send : Stream → PbTask → Result (Unit {0})) (room : length t.task_chan < chan_size) where
  abbrev pub update : Task
  update = new_task (memory_store orders) task_type_update node times.nanos

  abbrev pub started : Task
  started = record update { started_at = some times.started }

  abbrev made : TaskService MemoryStore
  made = made_for orders times.nanos times.stored task_type_update node t room update

  -- The state before PushTask looks for the node.
  abbrev saved : TaskService MemoryStore
  saved = record made {
    heap = write made.heap t.heap.next started;
    store = record made.store { tasks = put made.store.tasks update.id t.heap.next };
  }

  started_cell : saved.heap.cell t.heap.next ≡ started
  started_cell = if_pos (t.heap.next =? t.heap.next) refl started (made.heap.cell t.heap.next)

  saves :
      (memory_store orders).update_task times.updated t.heap.next saved.heap made.store
      ≡ (ok tt, (saved.heap, saved.store))
  saves =
      let p : Ptr = t.heap.next in
      let keyed = ap (λ (x : Task). x.id) started_cell in
      let held =
        ap (λ i. get made.store.tasks i) keyed
        ∙ get-put t.store.tasks update.id update.id p
        ∙ if_pos (update.id =? update.id) refl (some p) (get t.store.tasks update.id) in
      ap (λ (r : Result (Unit {0}) × MemoryStore). (r.0, (saved.heap, r.1)))
        (update_task_held saved.heap p made.store p held
          ∙ ap (λ i. (ok tt, record made.store { tasks = put made.store.tasks i p })) keyed)

  kept : Tasks.get_task update.id saved.store ≡ ok t.heap.next
  unfolding Tasks.get_task
  kept = ground (arith, get-put made.store.tasks update.id update.id t.heap.next)

  abbrev pub message : PbTask
  message = record { id = update.id; type = task_type_update }

  pushes :
      push_task (memory_store orders) send times.started times.updated t.heap.next made
      ≡ push_to
          (memory_store orders)
          send
          (to_int32 node)
          message
          (get t.nodes (to_int32 node))
          saved
  unfolding push_task
  pushes =
      let k : Task → Result (Unit {0}) × TaskService MemoryStore = λ x.
        let (_, (h, s)) =
          (memory_store orders).update_task times.updated t.heap.next
            (write made.heap t.heap.next (record x { started_at = some times.started }))
            made.store in
        push_to (memory_store orders) send (to_int32 x.node_id)
          (record { id = x.id; type = x.type }) (get t.nodes (to_int32 x.node_id))
          (record made { heap = h; store = s }) in
      ap k (created_cell orders times.nanos times.stored task_type_update node t room)
      ∙ ap
          (λ (r : Result (Unit {0}) × (Heap Task × MemoryStore)).
            push_to (memory_store orders) send (to_int32 node) message (get t.nodes (to_int32 node))
              (record made { heap = r.1.0; store = r.1.1 }))
          saves

  -- While the channel has room, an update of a connected node whose stream takes the message succeeds.
  -- The stream gets the new task, and nothing else is sent; the store holds the task under its
  -- identifier, pending for the node and started.
  pub trigger_config_update_lem :
      (n : NodeState) (stream : Stream)
      → IsInt32 node
      → get t.nodes node ≡ some n
      → n.stream ≡ some stream
      → send stream message ≡ ok tt
      → let (r, t') = trigger_config_update (memory_store orders) send times node t in
        (r ≡ done (ok tt))
        × (t'.sent ≡ (stream, message) ∷ t.sent)
        × (Tasks.get_task message.id t'.store ≡ ok t.heap.next)
        × (t'.heap.cell t.heap.next ≡ started)
  unfolding trigger_config_update Tasks.get_task push_created wrapped_push push_to push_stream
      delivered
  trigger_config_update_lem n stream small here streams takes =
      rw
        (
          create_task_room orders times.nanos times.stored task_type_update node t room,
          pushes,
          to_int32_self node small,
          here,
          streams,
          takes,
        )
        (refl, refl, kept, started_cell)
