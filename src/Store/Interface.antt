-- ===== src/Store/Interface.antt =====
-- The interface `Store` of pkg/store/store.go over the state `S` of an implementation, and the
-- implementation that MemoryStore gives. A call gets the clock's answers and the pointers to tasks
-- as arguments, and returns what it changes.
use wireguard_babeld_igp.Base.{String, Bool, Option, List}
use wireguard_babeld_igp.Base.Int.{ℤ}
use wireguard_babeld_igp.Data.Heap.{Ptr, Heap}
use wireguard_babeld_igp.Errors.{Result, ok}
use wireguard_babeld_igp.Types.{Time, NodeConfig, WireguardConnection, NodeStatus, Task, User}
use wireguard_babeld_igp.Store.Memory.{MemoryStore}
use wireguard_babeld_igp.Store.Memory.Nodes
use wireguard_babeld_igp.Store.Memory.Connections
use wireguard_babeld_igp.Store.Memory.Statuses
use wireguard_babeld_igp.Store.Memory.Tasks
use wireguard_babeld_igp.Store.Memory.Tasks.{TaskFilter}
use wireguard_babeld_igp.Store.Memory.Users

pub record Store (S : Type 0) : Type 0 where
  pub create_node : NodeConfig → S → NodeConfig × (Result (Unit {0}) × S)
  pub get_node : ℤ → S → Result NodeConfig
  pub update_node : ℤ → NodeConfig → S → Result (Unit {0}) × S
  pub delete_node : ℤ → S → Result (Unit {0}) × S
  pub list_nodes : S → Result (List NodeConfig)
  -- A change of the nodes behind the pointers that ListNodes answers with.
  pub change_listed : (NodeConfig → NodeConfig) → S → S
  pub get_or_create_connection : Option WireguardConnection → ℤ → S → Result WireguardConnection × S
  pub update_node_status : ℤ → NodeStatus → S → Result (Unit {0}) × S
  pub get_node_status : ℤ → S → Result NodeStatus
  pub list_node_status : S → Result (List NodeStatus)
  pub create_task : Time → Ptr → Heap Task → S → Result (Unit {0}) × (Heap Task × S)
  pub update_task : Time → Ptr → Heap Task → S → Result (Unit {0}) × (Heap Task × S)
  pub get_task : String → Heap Task → S → Result Ptr × Heap Task
  pub list_tasks : TaskFilter → Heap Task → S → Result (List Ptr)
  pub delete_task : String → S → Result (Unit {0}) × S
  pub cleanup_tasks : Time → Heap Task → S → Result (Unit {0}) × S
  pub create_user : Time → Time → User → S → User × (Result (Unit {0}) × S)
  pub get_user : ℤ → S → Result User
  pub get_user_by_username : String → S → Result (Option User)
  pub check_user_exists : String → S → Result Bool
  pub update_user : Time → User → S → Result (Unit {0}) × S
  pub delete_user : ℤ → S → Result (Unit {0}) × S
  pub close : S → Result (Unit {0})

-- The orders of the loops of MemoryStore.
pub record MapOrders : Type 0 where
  pub nodes : List (ℤ × NodeConfig) → List (ℤ × NodeConfig)
  pub connections : Connections.Orders
  pub statuses : List (ℤ × NodeStatus) → List (ℤ × NodeStatus)
  pub tasks : Tasks.Visits
  pub cleanup : Tasks.Visits

abbrev with_heap :
    Heap Task → Result (Unit {0}) × MemoryStore → Result (Unit {0}) × (Heap Task × MemoryStore)
with_heap h (r, s) = (r, (h, s))

abbrev pub memory_store : MapOrders → Store MemoryStore
memory_store o = record {
  create_node = Nodes.create_node;
  get_node = Nodes.get_node;
  update_node = Nodes.update_node;
  delete_node = Nodes.delete_node;
  list_nodes = λ s. ok (Nodes.list_nodes o.nodes s);
  change_listed = Nodes.change_nodes;
  get_or_create_connection = Connections.get_or_create o.connections;
  update_node_status = Statuses.update_node_status;
  get_node_status = Statuses.get_node_status;
  list_node_status = λ s. ok (Statuses.list_node_status o.statuses s);
  create_task = λ now p h s. with_heap h (Tasks.create_task h p s);
  update_task = λ now p h s. with_heap h (Tasks.update_task h p s);
  get_task = λ id h s. (Tasks.get_task id s, h);
  list_tasks = λ f h s. ok (Tasks.list_tasks o.tasks h f s);
  delete_task = Tasks.delete_task;
  cleanup_tasks = λ now h s. (ok tt, Tasks.cleanup_tasks o.cleanup h now s);
  create_user = Users.create_user;
  get_user = Users.get_user;
  get_user_by_username = Users.get_user_by_username;
  check_user_exists = Users.check_user_exists;
  update_user = Users.update_user;
  delete_user = Users.delete_user;
  close = Statuses.close;
}
