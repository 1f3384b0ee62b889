-- ===== src/Agent/Session.antt =====
-- pkg/agent/agent.go: the agent's connection to the server, from New to Stop. The answers of the
-- network and of the server are a parameter, which sees all calls made so far. Logs are left out.
pub mod Ends
pub mod Frame
use Prim.Native.String.{◌++◌}
use wireguard_babeld_igp.Base.{
  ℕ, zero, suc, String, Bool, true, false, Option, none, some, List, [], ◌∷◌, ite, if◌then◌else◌,
  ◌=?◌, string_key, nat_key,
}
use wireguard_babeld_igp.Base.Int.{ℤ, to_int32}
use wireguard_babeld_igp.Errors.{Error, Result, ok, err, wrap, message}
use wireguard_babeld_igp.Config.{AgentConfig}
use wireguard_babeld_igp.Server.Services.Tasks.{PbTask}
use wireguard_babeld_igp.Agent.System.{Outcome, and_then, wrapped_in}

-- What Recv answers.
pub data Received : Type 0 where
  task : PbTask → Received
  failed : Error → Received

-- insecure.NewCredentials, credentials.NewTLS(nil), and the certificates of a file
pub data Credentials : Type 0 where
  insecure system_tls : Credentials
  file_tls : String → Credentials

-- The calls of packages that are not modelled. Connections and streams have the numbers 1, 2, ... in
-- the order in which they are opened; a pointer to a connection that is nil is 0.
pub data Call : Type 0 where
  load_cert : String → Call
  dial : Credentials → String → Call
  close : ℕ → Call
  register_node : ℕ → ℤ → String → Call
  subscribe : ℕ → ℤ → String → Call
  receive : ℕ → Received → Call
  sleep : ℕ → Call
  cancel : Call

-- Each answer depends on the calls so far, the one that it answers first.
pub record Grpc : Type 0 where
  pub load_error : List Call → Option Error
  pub dial_error : List Call → Option Error
  pub close_error : List Call → Option Error
  pub registration : List Call → Result (Bool × String)
  pub subscribe_error : List Call → Option Error
  pub received : List Call → ℕ → Received
  pub text_of : Error → String

-- Where a goroutine stands that runs handleTaskStream: before Recv on its stream, or in EnqueueTask.
pub data Reader : Type 0 where
  reading : ℕ → Reader
  sending : ℕ → PbTask → Reader

-- `task_client` is the client of the task handler, `queue` the content of its channel, the oldest task
-- first, and `started` the tasks given to HandleTask, the last first. `handling` and `reporting` say
-- that the goroutines of processTasksLoop and of startStatusReporting run.
pub record Session : Type 0 where
  pub hostname : String
  pub ip_address : String
  pub running_tasks : List String
  pub conn : ℕ
  pub client : ℕ
  pub status_client : ℕ
  pub task_client : ℕ
  pub opened : ℕ
  pub streams : ℕ
  pub readers : List Reader
  pub queue : List PbTask
  pub started : List PbTask
  pub handling : Bool
  pub reporting : Bool
  pub calls : List Call

hostname_or : Result String → String
hostname_or (ok name) = name
hostname_or (err e) = "unknown"

-- `name` is what os.Hostname answers.
unfoldable pub new_agent : AgentConfig → Result String → Session
unfolding hostname_or
new_agent cfg name = record {
  hostname = hostname_or name;
  ip_address = cfg.grpc_address;
  running_tasks = [];
  conn = 0;
  client = 0;
  status_client = 0;
  task_client = 0;
  opened = 0;
  streams = 0;
  readers = [];
  queue = [];
  started = [];
  handling = false;
  reporting = false;
  calls = [];
}

abbrev pub log_call : Call → Session → Session
log_call c s = record s { calls = c ∷ s.calls }

-- NewTaskHandler and its Start
abbrev pub start_handler : Session → Session
start_handler s = record s { task_client = s.client; handling = true }

unfoldable pub close_conn : Session → Session
close_conn s = ite (s.conn =? 0) s (log_call (close s.conn) s)

module _ (grpc : Grpc) (cfg : AgentConfig) where
  unfoldable pub loaded : String → Option Error → Session → Result Credentials × Session
  loaded path none s = (ok (file_tls path), s)
  loaded path (some e) s = (err (wrap "loading CA cert" e), s)

  unfoldable pub load_credentials : String → Session → Result Credentials × Session
  unfolding loaded
  load_credentials path s =
      let t = log_call (load_cert path) s in loaded path (grpc.load_error t.calls) t

  unfoldable pub credentials : Session → Result Credentials × Session
  unfolding load_credentials
  credentials s =
      if cfg.tls_enabled
      then ite (cfg.ca_cert =? "") (ok system_tls, s) (load_credentials cfg.ca_cert s)
      else (ok insecure, s)

  unfoldable pub dialed : Option Error → Session → Outcome Session
  dialed (some e) s = (err (wrap "connecting to server" e), s)
  dialed none s =
      let n = suc s.opened in
      (ok tt, record s { opened = n; conn = n; client = n; status_client = n })

  unfoldable pub dial_with : Result Credentials × Session → Outcome Session
  unfolding dialed
  dial_with (err e, s) = (err e, s)
  dial_with (ok c, s) =
      let t = log_call (dial c cfg.grpc_address) s in dialed (grpc.dial_error t.calls) t

  unfoldable pub connect : Session → Outcome Session
  unfolding dial_with credentials
  connect s = dial_with (credentials s)

  unfoldable pub registered : Result (Bool × String) → Session → Outcome Session
  registered (err e) s = (err e, s)
  registered (ok (false, text)) s = (err (message ("registration failed: " ++ text)), s)
  registered (ok (true, text)) s = (ok tt, s)

  unfoldable pub register : Session → Outcome Session
  unfolding registered
  register s =
      let t = log_call (register_node s.client (to_int32 cfg.node_id) cfg.token) s in
      registered (grpc.registration t.calls) t

  -- The goroutine that it starts is one more reader.
  unfoldable pub subscribed : Option Error → Session → Outcome Session
  subscribed (some e) s = (err e, s)
  subscribed none s =
      let n = suc s.streams in (ok tt, record s { streams = n; readers = reading n ∷ s.readers })

  unfoldable pub subscribe_tasks : Session → Outcome Session
  unfolding subscribed
  subscribe_tasks s =
      let t = log_call (subscribe s.client (to_int32 cfg.node_id) cfg.token) s in
      subscribed (grpc.subscribe_error t.calls) t

  -- The two calls by which the stream's reader joins again.
  unfoldable pub rejoin : Session → Outcome Session
  rejoin s = and_then (register s) subscribe_tasks

  unfoldable pub reconnect : Session → Outcome Session
  reconnect s = and_then (connect (close_conn s)) rejoin

  abbrev pub start_reporting : Session → Outcome Session
  start_reporting s = (ok tt, record s { reporting = true })

  unfoldable pub start : Session → Outcome Session
  start s = and_then (wrapped_in "connecting to server" (connect s)) (λ t.
      and_then (wrapped_in "registering node" (register (start_handler t)))
        (λ u. and_then (wrapped_in "subscribing to tasks" (subscribe_tasks u)) start_reporting))

  option_result : Option Error → Result (Unit {0})
  option_result none = ok tt
  option_result (some e) = err e

  unfoldable pub close_last : Session → Outcome Session
  unfolding option_result
  close_last s =
      let t = log_call (close s.conn) s in
      ite (s.conn =? 0) (ok tt, s) (option_result (grpc.close_error t.calls), t)

  unfoldable pub stop : Session → Outcome Session
  unfolding close_last
  stop s = close_last (log_call cancel s)
