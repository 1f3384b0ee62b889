-- ===== src/Agent/Metrics.antt =====
-- reportStatus and collectMetrics of pkg/agent/agent.go. What the node measures and what the server
-- answers are parameters.
pub mod Delivered
use Prim.Native.String.{◌++◌}
use wireguard_babeld_igp.Base.{ℕ, String, Bool, true, false, some, List, [], ◌∷◌}
use wireguard_babeld_igp.Base.Int.{ℤ, pos, to_int32, to_int64}
use wireguard_babeld_igp.Errors.{Error, Result, ok, err, wrap, message}
use wireguard_babeld_igp.Types.{Float64, SystemMetrics}
use wireguard_babeld_igp.Config.{AgentConfig}
use wireguard_babeld_igp.Server.Services.Statuses.{PbStatus, StatusReport}
use wireguard_babeld_igp.Agent.Session.{Session}

-- The packages cpu, mem, disk and host of gopsutil, and runtime.Version. An uptime is a `uint64`.
pub record Machine : Type 0 where
  pub cpu_percent : Result (List Float64)
  pub virtual_memory : Result Float64
  pub disk_usage : String → Result Float64
  pub host_uptime : Result ℕ
  pub go_version : String

-- A function that returns, or the panic of an index out of range.
pub data Attempt (A : Type 0) : Type 0 where
  returns : Result A → Attempt A
  panics : Attempt A

-- `if err != nil { return nil, fmt.Errorf("s: %w", err) }`, then the rest
unfoldable pub measured : {A B : Type 0} → String → Result A → (A → Attempt B) → Attempt B
measured s (err e) rest = returns (err (wrap s e))
measured s (ok v) rest = rest v

-- `cpuPercent[0]` is the first entry of the slice.
unfoldable pub metrics_of : List Float64 → Float64 → Float64 → ℕ → Attempt SystemMetrics
metrics_of [] memory disk uptime = panics
metrics_of (cpu ∷ l) memory disk uptime = returns (
    ok (record {
      cpu_usage = cpu;
      memory_usage = memory;
      disk_usage = disk;
      uptime = to_int64 (pos uptime);
    }))

unfoldable pub collect_metrics : Machine → Attempt SystemMetrics
unfolding measured metrics_of
collect_metrics m = measured "getting CPU usage" m.cpu_percent (λ cpu.
    measured "getting memory info" m.virtual_memory (λ memory.
      measured "getting disk info" (m.disk_usage "/")
        (λ disk. measured "getting host info" m.host_uptime (metrics_of cpu memory disk))))

unfoldable pub node_status : AgentConfig → Session → String → ℤ → SystemMetrics → PbStatus
node_status cfg s version now metrics = record {
  node_id = to_int32 cfg.node_id;
  hostname = s.hostname;
  ip_address = s.ip_address;
  metrics = some metrics;
  running_tasks = s.running_tasks;
  status = "online";
  version = version;
  timestamp = now;
}

unfoldable pub report_of : AgentConfig → PbStatus → StatusReport
report_of cfg st = record { node_id = to_int32 cfg.node_id; token = cfg.token; status = some st }

unfoldable pub acknowledged : Result (Bool × String) → Attempt (Unit {0})
acknowledged (err e) = returns (err (wrap "reporting status" e))
acknowledged (ok (false, text)) = returns (err (message ("status report failed: " ++ text)))
acknowledged (ok (true, text)) = returns (ok tt)

unfoldable pub reported : {A B : Type 0} → Attempt A → (A → Attempt B) → Attempt B
reported panics rest = panics
reported (returns (err e)) rest = returns (err (wrap "collecting metrics" e))
reported (returns (ok v)) rest = rest v

-- `send` is the answer of ReportStatus, and `now` that of time.Now in nanoseconds since 1970.
unfoldable pub report_status :
    AgentConfig
    → Machine
    → (StatusReport → Result (Bool × String))
    → ℤ
    → Session
    → Attempt (Unit {0})
unfolding acknowledged reported
report_status cfg m send now s =
    reported (collect_metrics m)
      (λ metrics. acknowledged (send (report_of cfg (node_status cfg s m.go_version now metrics))))
