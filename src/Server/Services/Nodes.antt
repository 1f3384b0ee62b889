-- ===== src/Server/Services/Nodes.antt =====
-- pkg/server/services/node_service.go: nodes, and the tasks that tell them to fetch their
-- configuration. A function that starts a goroutine returns the goroutine's work beside its result.
pub mod Creation
pub mod Handlers
pub mod Keys
pub mod Listing
pub mod Trigger
use wireguard_babeld_igp.Base.{String, List, ◌∷◌, [], if◌then◌else◌}
use wireguard_babeld_igp.Base.Int.{ℤ}
use wireguard_babeld_igp.Data.Heap.{Ptr}
use wireguard_babeld_igp.Data.Text.{contains_char}
use wireguard_babeld_igp.Errors.{Result, ok, err, wrap, wrapped}
use wireguard_babeld_igp.Types.{Time, task_type_update, NodeConfig, zero_node}
use wireguard_babeld_igp.Store.Interface.{Store}
use wireguard_babeld_igp.Server.Services.Tasks.{
  Stream, PbTask, TaskService, Outcome, done, blocked, create_task, push_task,
}

-- What the packages that are not modelled make for a new node: crypto/rand with encoding/base64, and
-- curve25519 with them. `marshal` is json.Marshal on a list of strings.
pub record Fresh : Type 0 where
  pub token : Result String
  -- the private key and the public key
  pub keys : Result (String × String)
  pub marshal : List String → String

pub record CreateRequest : Type 0 where
  pub id : ℤ
  pub name : String
  pub endpoint : String

pub record Created : Type 0 where
  pub id : ℤ
  pub name : String
  pub token : String
  pub public_key : String

-- The clock's answers to CreateTask, its store, PushTask and its store.
pub record Times : Type 0 where
  pub nanos : Time
  pub stored : Time
  pub started : Time
  pub updated : Time

-- The node that the handler builds.
unfoldable pub new_node : Fresh → Time → CreateRequest → String → String × String → NodeConfig
new_node f now req token (private, public) = record zero_node {
  id = req.id;
  name = req.name;
  token = token;
  peers = f.marshal [];
  endpoints = f.marshal (req.endpoint ∷ []);
  ipv4 = if contains_char b'.' req.endpoint then req.endpoint else "";
  ipv6 = if contains_char b'.' req.endpoint then "" else req.endpoint;
  created_at = now;
  updated_at = now;
  private_key = private;
  public_key = public;
}

module _ {S : Type 0} (store : Store S) (send : Stream → PbTask → Result (Unit {0})) where
  wrapped_push : Result (Unit {0}) × TaskService S → Outcome (Unit {0}) × TaskService S
  wrapped_push (r, t) = (done (wrapped "saving task" r), t)

  push_created : Time → Time → Outcome Ptr × TaskService S → Outcome (Unit {0}) × TaskService S
  unfolding wrapped_push push_task
  push_created now later (blocked, t) = (blocked, t)
  push_created now later (done (err e), t) = (done (err (wrap "creating update task" e)), t)
  push_created now later (done (ok p), t) = wrapped_push (push_task store send now later p t)

  -- TriggerConfigUpdate of pkg/server/services/node_service.go.
  unfoldable pub trigger_config_update :
      Times → ℤ → TaskService S → Outcome (Unit {0}) × TaskService S
  unfolding push_created create_task
  trigger_config_update times node t =
      push_created times.started times.updated
        (create_task store times.nanos times.stored task_type_update node t)

  unless_blocked : Outcome (Unit {0}) → TaskService S → TaskService S → TaskService S
  unless_blocked (done r) rest t = rest
  unless_blocked blocked rest t = t

  -- The loop of the goroutines: a failure is logged and skipped, and a call that waits for ever
  -- leaves the rest undone.
  unfoldable pub trigger_each : (ℤ → Times) → List ℤ → TaskService S → TaskService S
  unfolding unless_blocked
  trigger_each times [] t = t
  trigger_each times (id ∷ ids) t =
      let (o, t') = trigger_config_update (times id) id t in
      let rest = trigger_each times ids t' in unless_blocked o rest t'
