-- ===== src/Tests/Sessions.antt =====
-- The theorems on the agent's session, with a server that drops the first stream and one that does
-- not know the node.
use Prim.Native.String.{◌++◌}
use wireguard_babeld_igp.Base.{
  ◌≡◌, ◌≢◌, refl, arith, List, ◌∷◌, [], String, none, some, Option, true, ite, ◌=?◌, nat_key,
  string_key, ℕ_discrete, ◌<◌,
}
use wireguard_babeld_igp.Base.Int.{pos, int_key, ℤ_discrete, to_int32, to_int64}
use wireguard_babeld_igp.Data.Map.{get, put}
use wireguard_babeld_igp.Data.Text.{contains}
use wireguard_babeld_igp.Errors.{ok, Error, Result, Code, grpc, message}
use wireguard_babeld_igp.Types.{Time, SystemMetrics}
use wireguard_babeld_igp.Store.Memory.{MemoryStore}
use wireguard_babeld_igp.Store.Memory.Nodes
use wireguard_babeld_igp.Store.Memory.Statuses as Memory
use wireguard_babeld_igp.Store.Interface.{memory_store}
use wireguard_babeld_igp.Server.Middleware.Node.{validate_token, validate_token_lem}
use wireguard_babeld_igp.Server.Services.Tasks as Server
use wireguard_babeld_igp.Server.Services.Tasks.{Stream, TaskService, new_task_service, PbTask}
use wireguard_babeld_igp.Server.Services.Tasks.Streams.{unknown_refused, register_succeeds}
use wireguard_babeld_igp.Server.Services.Statuses as Statuses
use wireguard_babeld_igp.Server.Services.Statuses.{PbStatus, StatusService, new_status_service}
use wireguard_babeld_igp.Agent.System.{and_then, wrapped_in}
use wireguard_babeld_igp.Agent.Session.{
  Call, Grpc, task, failed, reading, Session, new_agent, start, connect, credentials, dial_with,
  dialed, register, registered, subscribe_tasks, subscribed, rejoin, reconnect, close_conn,
  subscribe, register_node, receive,
}
use wireguard_babeld_igp.Agent.Stream.{advance, handle_received, continue_or_return, Steps, Step}
use wireguard_babeld_igp.Agent.Stream.Readers.{Flows, steps-start-Flows}
use wireguard_babeld_igp.Agent.Stream.Connections.{IsClosed}
use wireguard_babeld_igp.Agent.Stream.Clients.{stale_handler_client}
use wireguard_babeld_igp.Agent.Stream.Calls.{Careful, steps-start-Careful}
use wireguard_babeld_igp.Agent.Stream.Drained.{Settled, settle-start}
use wireguard_babeld_igp.Agent.Stream.Rejoin.{reader_rejoins}
use wireguard_babeld_igp.Agent.Metrics.{
  Machine, collect_metrics, measured, metrics_of, returns, report_status, report_of, node_status,
}
use wireguard_babeld_igp.Agent.Metrics.Delivered.{client_answer, report_status-report_status}
use wireguard_babeld_igp.Tests.Fixtures.{map_orders, gateway, one_node, no_tasks}
use wireguard_babeld_igp.Tests.Agents.{config}

abbrev update : PbTask
update = record { id = "update_1"; type = "update" }

-- The first stream breaks, and the others carry tasks.
abbrev network : Grpc
network = record {
  load_error = λ l. none;
  dial_error = λ l. none;
  close_error = λ l. none;
  registration = λ l. ok (true, "Registration successful");
  subscribe_error = λ l. none;
  received = λ l n. ite (n =? 1) (failed (message "unavailable")) (task update);
  text_of = λ e. "unavailable";
}

abbrev started : Session
started = (start network config (new_agent config (ok "host"))).1

abbrev reconnected : Session
reconnected = advance network config (reading 1) (record started { readers = [] })

started_ok : start network config (new_agent config (ok "host")) ≡ (ok tt, started)
unfolding start connect credentials dial_with dialed register registered subscribe_tasks subscribed
    and_then wrapped_in new_agent
started_ok = refl

path : Steps network config started reconnected
unfolding start connect credentials dial_with dialed register registered subscribe_tasks subscribed
    and_then wrapped_in new_agent
path = Steps.then Steps.here (Step.read [] [] (reading 1) refl)

steps-start-Flows_example : Flows reconnected
steps-start-Flows_example =
    steps-start-Flows network config (ok "host") started reconnected started_ok path

two_opened : 1 < reconnected.opened
unfolding start connect credentials dial_with dialed register registered subscribe_tasks subscribed
    and_then wrapped_in new_agent advance handle_received continue_or_return reconnect rejoin
    close_conn ℕ_discrete contains
two_opened = omega arith

stale_handler_client_example :
    IsClosed reconnected.task_client reconnected × (reconnected.task_client ≢ reconnected.client)
stale_handler_client_example =
    stale_handler_client network config (ok "host") started reconnected started_ok path two_opened

steps-start-Careful_example : Careful config reconnected
steps-start-Careful_example = steps-start-Careful config network (ok "host") reconnected path

-- A server that has lost its registrations.
abbrev restarted : TaskService MemoryStore
restarted = new_task_service one_node no_tasks

abbrev text_of : Error → String
text_of e = "rpc error: code = NotFound desc = " ++ "node not registered"

abbrev forgetful : Grpc
forgetful = record network {
  received = λ l n. failed (grpc Code.not_found "node not registered");
  text_of = text_of;
}

found : Nodes.get_node (to_int32 (pos 1)) one_node ≡ ok gateway
unfolding Nodes.get_node get put ℤ_discrete to_int32
found = refl

node_valid : validate_token (memory_store map_orders) (to_int32 (pos 1)) "secret" one_node ≡ true
node_valid =
    (validate_token_lem (memory_store map_orders) (to_int32 (pos 1)) "secret" one_node).1
      (gateway, found, refl)

unknown : get restarted.nodes (to_int32 (pos 1)) ≡ none
unfolding get
unknown = refl

registration_ok :
    (now : Time) (l : List Call)
    → let (r, e, t') =
        Server.register (memory_store map_orders) now (to_int32 (pos 1)) "secret" restarted in
      forgetful.registration l ≡ ok (r.success, "Registration successful")
registration_ok now l =
    rw
      (register_succeeds (memory_store map_orders) (to_int32 (pos 1)) "secret" restarted node_valid
        now)
      refl

reader_rejoins_example :
    let (r, x, t') =
      Server.register (memory_store map_orders) 5 (to_int32 (pos 1)) "secret" restarted in
    let (x', t'') = Server.subscribe (memory_store map_orders) 6 (to_int32 (pos 1)) "secret" 2 t' in
    ((advance forgetful config (reading 1) (record started { readers = [] })).readers
      ≡ reading 2 ∷ [])
    × ((advance forgetful config (reading 1) (record started { readers = [] })).calls
        ≡ subscribe started.client (to_int32 (pos 1)) "secret"
          ∷ register_node started.client (to_int32 (pos 1)) "secret"
          ∷ receive 1 (failed (grpc Code.not_found "node not registered"))
          ∷ started.calls)
    × (x' ≡ none)
    × (get t''.nodes (to_int32 (pos 1))
        ≡ some (record { token = "secret"; last_seen = 6; stream = some 2 }))
unfolding start connect credentials dial_with dialed register registered subscribe_tasks subscribed
    and_then wrapped_in new_agent
reader_rejoins_example =
    reader_rejoins (memory_store map_orders) forgetful config restarted node_valid unknown
      (λ e. "Registration successful") registration_ok (λ l. refl)
      "rpc error: code = NotFound desc = " refl 4 5 6 1 (record started { readers = [] })
      (grpc Code.not_found "node not registered")
      (unknown_refused (memory_store map_orders) (to_int32 (pos 1)) "secret" restarted node_valid 4
        1 unknown)
      refl

abbrev machine : Machine
machine = record {
  cpu_percent = ok (7 ∷ []);
  virtual_memory = ok 8;
  disk_usage = λ path. ok 9;
  host_uptime = ok 10;
  go_version = "go1.22";
}

abbrev metrics : SystemMetrics
metrics = record { cpu_usage = 7; memory_usage = 8; disk_usage = 9; uptime = to_int64 (pos 10) }

abbrev takes : Stream → Option PbStatus → Result (Unit {0})
takes stream m = ok tt

abbrev statuses : StatusService MemoryStore
statuses = new_status_service one_node

abbrev delivered : PbStatus
delivered = node_status config started "go1.22" (pos 11) metrics

metrics_ok : collect_metrics machine ≡ returns (ok metrics)
unfolding collect_metrics measured metrics_of
metrics_ok = refl

report_status-report_status_example :
    let store = memory_store map_orders in
    let answer =
      Statuses.report_status store takes (λ l. l) (report_of config delivered) statuses in
    (report_status config machine
        (λ req.
          client_answer
            (λ e. "")
            (message "lost")
            (Statuses.report_status store takes (λ l. l) req statuses).0)
        (pos 11)
        started
      ≡ returns (ok tt))
    × (Statuses.get_node_status store takes (to_int32 (pos 1)) answer.1 ≡ some (some delivered))
    × (Memory.get_node_status (to_int32 (pos 1)) answer.1.store
        ≡ ok (Statuses.node_status delivered metrics))
report_status-report_status_example =
    report_status-report_status map_orders takes (λ l. l) (λ e. "") (message "lost") config machine
      (pos 11) started statuses metrics metrics_ok node_valid

still_handling : reconnected.handling ≡ true
unfolding start connect credentials dial_with dialed register registered subscribe_tasks subscribed
    and_then wrapped_in new_agent advance handle_received continue_or_return reconnect rejoin
    close_conn ℕ_discrete contains
still_handling = refl

settle-start_example : Settled network config reconnected
settle-start_example =
    settle-start network config (ok "host") started reconnected started_ok path still_handling
