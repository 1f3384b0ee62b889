-- ===== src/Tests/Statuses.antt =====
-- The theorems on StatusService, at a node that reports to two subscribers.
use wireguard_babeld_igp.Base.{
  ◌≡◌, ◌≢◌, ◌↔◌, refl, ◌∷◌, [], Option, none, some, arith, true, string_key, inl, inr,
}
use wireguard_babeld_igp.Base.Int.{ℤ, pos, int_key, ℤ_discrete}
use wireguard_babeld_igp.Data.Map.{get, put}
use wireguard_babeld_igp.Data.Map as Map
use wireguard_babeld_igp.Data.Map.Range.{In}
use wireguard_babeld_igp.Errors.{Result, ok}
use wireguard_babeld_igp.Types.{SystemMetrics}
use wireguard_babeld_igp.Store.Memory.{MemoryStore}
use wireguard_babeld_igp.Store.Memory.Nodes
use wireguard_babeld_igp.Store.Memory.Statuses as Memory
use wireguard_babeld_igp.Store.Interface.{memory_store}
use wireguard_babeld_igp.Server.Middleware.Node.{validate_token, validate_token_lem}
use wireguard_babeld_igp.Server.Services.Tasks.{Stream}
use wireguard_babeld_igp.Server.Services.Statuses.{
  PbStatus, StatusReport, StatusService, new_status_service, panics, node_status, report_status,
  get_node_status, answered,
}
use wireguard_babeld_igp.Server.Services.Statuses.Reports.{
  HasMetrics, report_status_lem, report_status_panics,
}
use wireguard_babeld_igp.Tests.Fixtures.{map_orders, gateway, one_node}

abbrev takes : Stream → Option PbStatus → Result (Unit {0})
takes stream m = ok tt

abbrev metrics : SystemMetrics
metrics = record { cpu_usage = 1; memory_usage = 2; disk_usage = 3; uptime = pos 4 }

abbrev running : PbStatus
running = record {
  node_id = pos 1;
  hostname = "host";
  ip_address = "10.0.0.1";
  metrics = some metrics;
  running_tasks = [];
  status = "running";
  version = "1";
  timestamp = pos 5;
}

abbrev report : StatusReport
report = record { node_id = pos 1; token = "secret"; status = some running }

abbrev service : StatusService MemoryStore
service = record (new_status_service one_node) { subscribers = put Map.empty "viewer" (7 ∷ 8 ∷ []) }

found : Nodes.get_node (pos 1) one_node ≡ ok gateway
unfolding Nodes.get_node get put ℤ_discrete
found = refl

service_valid : validate_token (memory_store map_orders) (pos 1) "secret" one_node ≡ true
service_valid =
    (validate_token_lem (memory_store map_orders) (pos 1) "secret" one_node).1
      (gateway, found, refl)

report_status_lem_example :
    let (r, t) = report_status (memory_store map_orders) takes (λ l. l) report service in
    (r ≡ answered (memory_store map_orders) takes)
    × (get_node_status (memory_store map_orders) takes (pos 1) t ≡ some (some running))
    × ((j : ℤ)
        → j ≢ pos 1
        → get_node_status (memory_store map_orders) takes j t
          ≡ get_node_status (memory_store map_orders) takes j service)
    × (Memory.get_node_status (pos 1) t.store ≡ ok (node_status running metrics))
    × ((j : ℤ) → j ≢ pos 1 → Memory.get_node_status j t.store ≡ Memory.get_node_status j one_node)
report_status_lem_example =
    report_status_lem map_orders takes (λ l. l) report service running metrics service_valid refl
      refl

report_status_panics_example :
    ((report_status
        (memory_store map_orders)
        takes
        (λ l. l)
        (record report { status = none })
        service).0
      ≡ panics)
    ↔ (¬ HasMetrics map_orders takes (λ l. l) none)
report_status_panics_example =
    report_status_panics map_orders takes (λ l. l) (record report { status = none }) service
      service_valid

absent : ¬ In {A = Stream} 9 (7 ∷ 8 ∷ [])
absent (inl e) = absurd (omega (arith, e))
absent (inr (inl e)) = absurd (omega (arith, e))
absent (inr (inr e)) = e

abbrev reported : StatusService MemoryStore
reported = record service { node_statuses = put Map.empty (pos 1) (some running) }
