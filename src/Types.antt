-- ===== src/Types.antt =====
-- pkg/types: the records that the store keeps. A `time.Time` is its nanoseconds since the zero time;
-- a `float64` is its bit pattern, which the model only passes on. A string type is a string.
use wireguard_babeld_igp.Base.{ℕ, String, Option, none, List, [], ◌*◌, ◌^◌, ◌+◌}
use wireguard_babeld_igp.Base.Int.{ℤ, pos}

abbrev pub Time : Type 0
Time = ℕ

abbrev pub Float64 : Type 0
Float64 = ℕ

-- The operations on float64 that the code uses: `*`, `/` and math.Round.
pub record Floats : Type 0 where
  pub mul : Float64 → Float64 → Float64
  pub div : Float64 → Float64 → Float64
  pub round : Float64 → Float64

-- The bits of 100.0: the exponent 6 with the bias 1023, and 100 / 64 without its leading one.
abbrev pub hundred : Float64
hundred = 1029 * 2 ^ 52 + 9 * 2 ^ 48

abbrev pub TaskType : Type 0
TaskType = String

abbrev pub TaskStatus : Type 0
TaskStatus = String

abbrev pub task_type_update : TaskType
task_type_update = "update"

abbrev pub task_type_status : TaskType
task_type_status = "status"

abbrev pub task_status_pending : TaskStatus
task_status_pending = "pending"

abbrev pub task_status_running : TaskStatus
task_status_running = "running"

abbrev pub task_status_success : TaskStatus
task_status_success = "success"

abbrev pub task_status_failed : TaskStatus
task_status_failed = "failed"

abbrev pub task_status_canceled : TaskStatus
task_status_canceled = "canceled"

pub record SystemMetrics : Type 0 where
  pub cpu_usage : Float64
  pub memory_usage : Float64
  pub disk_usage : Float64
  pub uptime : ℤ

pub record NodeStatus : Type 0 where
  pub node_id : ℤ
  pub hostname : String
  pub ip_address : String
  pub metrics : SystemMetrics
  pub running_tasks : List String
  pub status : String
  pub version : String
  pub timestamp : Time

pub record NodeConfig : Type 0 where
  pub id : ℤ
  pub created_at : Time
  pub updated_at : Time
  pub name : String
  pub token : String
  pub ipv4 : String
  pub ipv6 : String
  pub peers : String
  pub endpoints : String
  pub public_key : String
  pub private_key : String
  pub wireguard : String
  pub babel : String
  pub mtu : ℤ
  pub base_port : ℤ
  pub link_local_net : String
  pub babel_port : ℤ
  pub babel_interval : ℤ
  pub status : NodeStatus

pub record WireguardConnection : Type 0 where
  pub id : ℤ
  pub created_at : Time
  pub updated_at : Time
  pub node_id : ℤ
  pub peer_id : ℤ
  pub port : ℤ
  pub node : NodeConfig
  pub peer : NodeConfig

pub record Task : Type 0 where
  pub id : String
  pub node_id : ℤ
  pub type : TaskType
  pub status : TaskStatus
  pub message : String
  pub created_at : Time
  pub updated_at : Time
  pub started_at : Option Time
  pub completed_at : Option Time
  pub node : NodeConfig

pub record TaskResult : Type 0 where
  pub id : ℤ
  pub task_id : String
  pub status : TaskStatus
  pub details : String
  pub error : String
  pub timestamp : Time

pub record User : Type 0 where
  pub id : ℤ
  pub username : String
  pub password : String
  pub created_at : Time
  pub updated_at : Time

-- The zero values, which a composite literal gives to the fields that it leaves out.
abbrev pub zero_status : NodeStatus
zero_status = record {
  node_id = pos 0;
  hostname = "";
  ip_address = "";
  metrics = record { cpu_usage = 0; memory_usage = 0; disk_usage = 0; uptime = pos 0 };
  running_tasks = [];
  status = "";
  version = "";
  timestamp = 0;
}

abbrev pub zero_node : NodeConfig
zero_node = record {
  id = pos 0;
  created_at = 0;
  updated_at = 0;
  name = "";
  token = "";
  ipv4 = "";
  ipv6 = "";
  peers = "";
  endpoints = "";
  public_key = "";
  private_key = "";
  wireguard = "";
  babel = "";
  mtu = pos 0;
  base_port = pos 0;
  link_local_net = "";
  babel_port = pos 0;
  babel_interval = pos 0;
  status = zero_status;
}

abbrev pub zero_connection : WireguardConnection
zero_connection = record {
  id = pos 0;
  created_at = 0;
  updated_at = 0;
  node_id = pos 0;
  peer_id = pos 0;
  port = pos 0;
  node = zero_node;
  peer = zero_node;
}

abbrev pub zero_task : Task
zero_task = record {
  id = "";
  node_id = pos 0;
  type = "";
  status = "";
  message = "";
  created_at = 0;
  updated_at = 0;
  started_at = none;
  completed_at = none;
  node = zero_node;
}

abbrev pub zero_result : TaskResult
zero_result = record {
  id = pos 0;
  task_id = "";
  status = "";
  details = "";
  error = "";
  timestamp = 0;
}

abbrev pub zero_user : User
zero_user = record { id = pos 0; username = ""; password = ""; created_at = 0; updated_at = 0 }
