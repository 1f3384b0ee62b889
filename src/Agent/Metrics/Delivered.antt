-- ===== src/Agent/Metrics/Delivered.antt =====
-- The agent's status report, answered by the server's ReportStatus over MemoryStore.
use wireguard_babeld_igp.Base.{◌≡◌, refl, true, Bool, String, Option, none, some, List}
use wireguard_babeld_igp.Base.Int.{ℤ, to_int32}
use wireguard_babeld_igp.Errors.{Error, Result, ok, err}
use wireguard_babeld_igp.Types.{SystemMetrics}
use wireguard_babeld_igp.Config.{AgentConfig}
use wireguard_babeld_igp.Store.Memory.{MemoryStore}
use wireguard_babeld_igp.Store.Memory.Statuses as Memory
use wireguard_babeld_igp.Store.Interface.{MapOrders, memory_store}
use wireguard_babeld_igp.Server.Middleware.Node.{validate_token}
use wireguard_babeld_igp.Server.Services.Tasks.{Stream}
use wireguard_babeld_igp.Server.Services.Statuses as Server
use wireguard_babeld_igp.Server.Services.Statuses.{PbStatus, StatusReport, StatusService, Answer}
use wireguard_babeld_igp.Server.Services.Statuses.Reports.{report_status_lem}
use wireguard_babeld_igp.Agent.Session.{Session}
use wireguard_babeld_igp.Agent.Metrics.{
  Machine, returns, collect_metrics, report_status, report_of, node_status, acknowledged, reported,
}

-- What gRPC hands to the client: the error of the handler, or its reply. A handler that panics ends
-- the server, and the client gets some error.
unfoldable pub client_answer : (Error → String) → Error → Answer → Result (Bool × String)
client_answer text lost Server.panics = err lost
client_answer text lost (Server.replied reply (some e)) = err e
client_answer text lost (Server.replied reply none) = ok (reply.success, text reply.message)

module _ (orders : MapOrders) (send : Stream → Option PbStatus → Result (Unit {0}))
    (visit : List (String × List Stream) → List (String × List Stream)) (text : Error → String)
    (lost : Error) (cfg : AgentConfig) (m : Machine) (now : ℤ) (s : Session)
    (t : StatusService MemoryStore) where
  abbrev served : StatusReport → Answer × StatusService MemoryStore
  served req = Server.report_status (memory_store orders) send visit req t

  abbrev sent_status : SystemMetrics → PbStatus
  sent_status metrics = node_status cfg s m.go_version now metrics

  -- A node whose token is valid at the server and that can measure itself gets its report through: its
  -- reportStatus returns nil, and the server and its store have the status for the node, online, with
  -- the metrics measured.
  pub report_status-report_status :
      (metrics : SystemMetrics)
      → collect_metrics m ≡ returns (ok metrics)
      → validate_token (memory_store orders) (to_int32 cfg.node_id) cfg.token t.store ≡ true
      → let after = (served (report_of cfg (sent_status metrics))).1 in
        (report_status cfg m (λ req. client_answer text lost (served req).0) now s
          ≡ returns (ok tt))
        × (Server.get_node_status (memory_store orders) send (to_int32 cfg.node_id) after
            ≡ some (some (sent_status metrics)))
        × (Memory.get_node_status (to_int32 cfg.node_id) after.store
            ≡ ok (Server.node_status (sent_status metrics) metrics))
  unfolding report_status report_of reported acknowledged client_answer node_status
  report_status-report_status metrics c v =
      let h =
        report_status_lem orders send visit (report_of cfg (sent_status metrics)) t
          (sent_status metrics) metrics v refl refl in
      (rw (c, h.0) refl, h.1, h.3)
