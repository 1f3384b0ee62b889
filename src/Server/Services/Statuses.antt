-- ===== src/Server/Services/Statuses.antt =====
-- pkg/server/services/status_service.go: the last status of each node, and who is told of it. Each
-- function is one method, run without another in between; SubscribeStatus, which waits for its stream
-- to end, is two. `send` says whether a stream takes a message; a message that it refuses is logged.
pub mod Reports
pub mod Subscribers
use wireguard_babeld_igp.Base.{
  ℕ, ◌+◌, ◌-◌, ◌*◌, String, Bool, true, false, Option, none, some, List, [], ◌∷◌, ◌++◌, ite,
  if◌then◌else◌, ◌=?◌, string_key, nat_key,
}
use wireguard_babeld_igp.Base.Int.{ℤ, pos, negsuc, int_key}
use wireguard_babeld_igp.Data.Map.{Map, get, put}
use wireguard_babeld_igp.Data.Map as Map
use wireguard_babeld_igp.Data.Map.Range.{range}
use wireguard_babeld_igp.Errors.{Code, Error, Result, ok, err, grpc, message}
use wireguard_babeld_igp.Types.{Time, NodeStatus, SystemMetrics}
use wireguard_babeld_igp.Store.Interface.{Store}
use wireguard_babeld_igp.Server.Middleware.Node.{validate_token}
use wireguard_babeld_igp.Server.Services.Tasks.{Stream, Reply}

-- The message `status.NodeStatus` of api/proto/status/status.proto. A message within a message is a
-- pointer, nil where the sender left it out.
pub record PbStatus : Type 0 where
  pub node_id : ℤ
  pub hostname : String
  pub ip_address : String
  pub metrics : Option SystemMetrics
  pub running_tasks : List String
  pub status : String
  pub version : String
  pub timestamp : ℤ

pub record StatusReport : Type 0 where
  pub node_id : ℤ
  pub token : String
  pub status : Option PbStatus

-- `sent` lists what the streams took, the last message first.
pub record StatusService (S : Type 0) : Type 0 where
  pub node_statuses : Map ℤ (Option PbStatus)
  pub subscribers : Map String (List Stream)
  pub store : S
  pub sent : List (Stream × Option PbStatus)

abbrev pub new_status_service : {S : Type 0} → S → StatusService S
new_status_service s = record {
  node_statuses = Map.empty;
  subscribers = Map.empty;
  store = s;
  sent = [];
}

-- A call that returns, or the panic of a field of a nil pointer.
pub data Answer : Type 0 where
  replied : Reply → Option Error → Answer
  panics : Answer

-- time.Unix(0, n), from the nanoseconds between the zero time and 1970
abbrev pub unix_nanos : ℤ → Time
unix_nanos (pos n) = 62135596800000000000 + n
unix_nanos (negsuc n) = 62135596800000000000 - (n + 1)

abbrev pub node_status : PbStatus → SystemMetrics → NodeStatus
node_status st m = record {
  node_id = st.node_id;
  hostname = st.hostname;
  ip_address = st.ip_address;
  metrics = m;
  running_tasks = st.running_tasks;
  status = st.status;
  version = st.version;
  timestamp = unix_nanos st.timestamp;
}

-- A missing entry of the map reads as an empty slice.
abbrev pub streams_of : Option (List Stream) → List Stream
streams_of none = []
streams_of (some l) = l

unfoldable pub remove_first : Stream → List Stream → List Stream
remove_first stream [] = []
remove_first stream (x ∷ l) = let rest = remove_first stream l in ite (x =? stream) l (x ∷ rest)

unfoldable pub validate_subscriber : String → Bool
validate_subscriber token = ite (token =? "") false true

module _ {S : Type 0} (store : Store S) (send : Stream → Option PbStatus → Result (Unit {0})) where
  unfoldable pub offer :
      Stream
      → Option PbStatus
      → Result (Unit {0})
      → List (Stream × Option PbStatus)
      → List (Stream × Option PbStatus)
  offer stream m (ok _) sent = (stream, m) ∷ sent
  offer stream m (err e) sent = sent

  unfoldable pub send_to :
      Option PbStatus
      → List Stream
      → List (Stream × Option PbStatus)
      → List (Stream × Option PbStatus)
  unfolding offer
  send_to m [] sent = sent
  send_to m (stream ∷ l) sent = send_to m l (offer stream m (send stream m) sent)

  unfoldable pub send_to_all :
      Option PbStatus
      → List (String × List Stream)
      → List (Stream × Option PbStatus)
      → List (Stream × Option PbStatus)
  send_to_all m [] sent = sent
  send_to_all m ((_, streams) ∷ l) sent = send_to_all m l (send_to m streams sent)

  abbrev pub answered : Answer
  answered =
      replied (record { success = true; message = message "Status updated successfully" }) none

  -- The store's error is logged.
  save_metrics : PbStatus → Option SystemMetrics → StatusService S → Answer × StatusService S
  save_metrics st none t = (panics, t)
  save_metrics st (some m) t =
      let (_, s) = store.update_node_status st.node_id (node_status st m) t.store in
      (answered, record t { store = s })

  save_status : Option PbStatus → StatusService S → Answer × StatusService S
  unfolding save_metrics
  save_status none t = (panics, t)
  save_status (some st) t = save_metrics st st.metrics t

  unfoldable pub report_status :
      (List (String × List Stream) → List (String × List Stream))
      → StatusReport
      → StatusService S
      → Answer × StatusService S
  unfolding save_status
  report_status visit req t =
      if validate_token store req.node_id req.token t.store
      then save_status req.status (record t {
        node_statuses = put t.node_statuses req.node_id req.status;
        sent = send_to_all req.status (range visit t.subscribers) t.sent;
      })
      else (
        replied (record { success = false; message = message "Invalid credentials" })
            (some (grpc Code.unauthenticated "invalid credentials")),
        t,
      )

  send_each :
      Stream
      → List (ℤ × Option PbStatus)
      → List (Stream × Option PbStatus)
      → List (Stream × Option PbStatus)
  unfolding offer
  send_each stream [] sent = sent
  send_each stream ((_, m) ∷ l) sent = send_each stream l (offer stream m (send stream m) sent)

  -- SubscribeStatus up to its wait; `none` is that it waits.
  unfoldable pub subscribe :
      (List (ℤ × Option PbStatus) → List (ℤ × Option PbStatus))
      → String
      → Stream
      → StatusService S
      → Option Error × StatusService S
  unfolding send_each
  subscribe visit token stream t =
      if validate_subscriber token
      then (
        none,
        record t {
          subscribers =
              put t.subscribers token (streams_of (get t.subscribers token) ++ (stream ∷ []));
          sent = send_each stream (range visit t.node_statuses) t.sent;
        },
      )
      else (some (grpc Code.unauthenticated "invalid subscriber token"), t)

  unfoldable pub left : String → Stream → Option (List Stream) → StatusService S → StatusService S
  left token stream none t = t
  left token stream (some l) t = record t {
    subscribers = put t.subscribers token (remove_first stream l);
  }

  -- SubscribeStatus from the end of its wait. A list that the stream is not in stays as it is.
  unfoldable pub unsubscribe : String → Stream → StatusService S → StatusService S
  unfolding left
  unsubscribe token stream t = left token stream (get t.subscribers token) t

  unfoldable pub get_node_status : ℤ → StatusService S → Option (Option PbStatus)
  get_node_status id t = get t.node_statuses id

  -- The copy is the map itself, which no later change of the service reaches.
  unfoldable pub get_all_node_statuses : StatusService S → Map ℤ (Option PbStatus)
  get_all_node_statuses t = t.node_statuses
