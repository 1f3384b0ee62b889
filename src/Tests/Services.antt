-- ===== src/Tests/Services.antt =====
-- The theorems on tasks and on the creation of nodes, over MemoryStore with one node.
use wireguard_babeld_igp.Data.Map.Range.{length, In}
use wireguard_babeld_igp.Server.Services.Tasks.{done, chan_size}
use wireguard_babeld_igp.Base.{
  ◌<◌, ℕ, zero, suc, ◌≡◌, ◌≢◌, refl, List, ◌∷◌, [], String, none, some, arith, true, string_key,
  String_discrete, ◌/◌,
}
use wireguard_babeld_igp.Base.Int.{pos, to_int32, int_key, ℤ_discrete, inc}
use wireguard_babeld_igp.Data.Map.Range.{In}
use wireguard_babeld_igp.Data.Map.{get, put}
use wireguard_babeld_igp.Data.Map as Map
use wireguard_babeld_igp.Data.Heap.{Ptr}
use wireguard_babeld_igp.Errors.{Result, ok, err, message, stream_missing}
use wireguard_babeld_igp.Types.{Task, zero_task, Floats, task_status_failed}
use wireguard_babeld_igp.Store.Memory.{MemoryStore, new_memory_store}
use wireguard_babeld_igp.Store.Memory.Nodes
use wireguard_babeld_igp.Store.Memory.Tasks.{get_task}
use wireguard_babeld_igp.Store.Interface.{memory_store}
use wireguard_babeld_igp.Server.Middleware.Node.{validate_token, validate_token_lem}
use wireguard_babeld_igp.Server.Services.Tasks.{
  Stream, NodeState, PbTask, TaskService, blocked, new_task_service, subscribe, unsubscribe,
  create_task, push_task, update_task_status,
}
use wireguard_babeld_igp.Server.Services.Tasks.Queue.{Call, creates, run, create_task-blocked}
use wireguard_babeld_igp.Server.Services.Tasks.Streams.{stale_unsubscribe}
use wireguard_babeld_igp.Server.Services.Tasks.Delivery.{Pushed, push_task-Pushed}
use wireguard_babeld_igp.Server.Services.Tasks.Updates.{update_task_status_lem}
use wireguard_babeld_igp.Server.Services.Nodes.Trigger.{
  message as pushed, started, trigger_config_update_lem,
}
use wireguard_babeld_igp.Server.Services.Nodes.{
  Times, trigger_config_update, Fresh, CreateRequest, Created,
}
use wireguard_babeld_igp.Tests.Fixtures.{map_orders, gateway, one_node, no_tasks}

abbrev takes : Stream → PbTask → Result (Unit {0})
takes stream m = ok tt

abbrev service : TaskService MemoryStore
service = new_task_service one_node no_tasks

found : Nodes.get_node (pos 1) one_node ≡ ok gateway
unfolding Nodes.get_node get put ℤ_discrete
found = refl

valid : validate_token (memory_store map_orders) (pos 1) "secret" one_node ≡ true
valid =
    (validate_token_lem (memory_store map_orders) (pos 1) "secret" one_node).1
      (gateway, found, refl)

abbrev many : ℕ → List Call
many zero = []
many (suc n) = creates n n "update" (pos 1) ∷ many n

create_task-blocked_example :
    let (r, t') =
      create_task
        (memory_store map_orders)
        5
        6
        "update"
        (pos 1)
        (run (memory_store map_orders) takes service (many 100)) in
    (r ≡ blocked) × (t'.store ≡ (run (memory_store map_orders) takes service (many 100)).store)
create_task-blocked_example =
    create_task-blocked (memory_store map_orders) takes (many 100) service 5 6 "update" (pos 1)
      (omega arith) (omega arith)

abbrev old_stream : NodeState
old_stream = record { token = "secret"; last_seen = 5; stream = some 7 }

abbrev update : Task
update = record zero_task { id = "update_1"; node_id = pos 1; type = "update"; status = "pending" }

abbrev connected : TaskService MemoryStore
connected = record service {
  nodes = put Map.empty (pos 1) old_stream;
  tasks = put Map.empty "update_1" 0;
  store = record one_node { tasks = put Map.empty "update_1" 0 };
  heap = record { cell = λ p. update; next = 1 };
}

connected_found : Nodes.get_node (pos 1) connected.store ≡ ok gateway
unfolding Nodes.get_node get put ℤ_discrete
connected_found = refl

connected_valid : validate_token (memory_store map_orders) (pos 1) "secret" connected.store ≡ true
connected_valid =
    (validate_token_lem (memory_store map_orders) (pos 1) "secret" connected.store).1
      (gateway, connected_found, refl)

stale_unsubscribe_example :
    let (e, t') = subscribe (memory_store map_orders) 6 (pos 1) "secret" 8 connected in
    let t'' = unsubscribe (memory_store map_orders) (pos 1) t' in
    (e ≡ none)
    × (get t'.nodes (pos 1) ≡ some (record old_stream { stream = some 8; last_seen = 6 }))
    × ((push_task (memory_store map_orders) takes 6 7 0 t'').0 ≡ err (stream_missing (pos 1)))
unfolding get put ℤ_discrete
stale_unsubscribe_example =
    stale_unsubscribe (memory_store map_orders) (pos 1) "secret" connected connected_valid takes
      old_stream refl (omega arith) 6 7 8 0 refl

push_task-Pushed_example :
    let (r, t') = push_task (memory_store map_orders) takes 6 7 0 connected in
    Pushed
      (memory_store map_orders)
      takes
      (pos 1)
      (record { id = "update_1"; type = "update" })
      (get connected.nodes (pos 1))
      []
      t'.sent
      r
unfolding to_int32
push_task-Pushed_example = push_task-Pushed (memory_store map_orders) takes 6 7 0 connected

abbrev no_error : String
no_error = ""

update_task_status_lem_example :
    let (r, e, t') =
      update_task_status (memory_store map_orders) 8 9 "update_1" "success" "" connected in
    let task' = t'.heap.cell 0 in
    (r ≡ some (record { success = true; message = message "Task status updated" }))
    × (e ≡ none)
    × (get_task "update_1" t'.store ≡ ok 0)
    × (task'.completed_at ≡ some 8)
    × (no_error ≡ "" → (task'.status ≡ "success") × (task'.message ≡ ""))
    × (no_error ≢ "" → (task'.status ≡ task_status_failed) × (task'.message ≡ ""))
    × ((q : Ptr) → q ≢ 0 → t'.heap.cell q ≡ update)
unfolding get put String_discrete
update_task_status_lem_example =
    update_task_status_lem map_orders 8 9 "update_1" "success" "" connected 0 refl refl refl

abbrev pub floats : Floats
floats = record { mul = λ x y. x; div = λ x y. x; round = λ x. x / 2 }

abbrev keys : Fresh
keys = record { token = ok "new"; keys = ok ("private", "public"); marshal = λ l. "" }

abbrev pub request : CreateRequest
request = record { id = pos 0; name = "branch"; endpoint = "10.0.0.2" }

abbrev pub empty_service : TaskService MemoryStore
empty_service = new_task_service new_memory_store no_tasks

abbrev account : Created
account = record { id = inc (pos 0); name = "branch"; token = "new"; public_key = "public" }

abbrev times : Times
times = record { nanos = 10; stored = 11; started = 12; updated = 13 }

room : length connected.task_chan < chan_size
room = omega arith

trigger_config_update_lem_example :
    let (r, t') = trigger_config_update (memory_store map_orders) takes times (pos 1) connected in
    let sent = pushed map_orders times (pos 1) connected takes room in
    (r ≡ done (ok tt))
    × (t'.sent ≡ (7, sent) ∷ [])
    × (get_task sent.id t'.store ≡ ok 1)
    × (t'.heap.cell 1 ≡ started map_orders times (pos 1) connected takes room)
unfolding get put ℤ_discrete
trigger_config_update_lem_example =
    trigger_config_update_lem map_orders times (pos 1) connected takes room old_stream 7
      (omega arith) refl refl refl
