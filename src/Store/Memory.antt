-- ===== src/Store/Memory.antt =====
-- The state of pkg/store/memory_store.go. Each method runs under the store's lock: it is one function
-- from the state to the result and the new state, in a child module. Nodes, connections, statuses
-- and users are held by value, since no holder of their pointers writes to them once the store has
-- them; tasks are held by pointer into a heap that the task service shares.
pub mod Nodes
pub mod Connections
pub mod Statuses
pub mod Tasks
pub mod Users
use wireguard_babeld_igp.Base.{String}
use wireguard_babeld_igp.Base.Int.{ℤ, pos}
use wireguard_babeld_igp.Data.Map.{Map}
use wireguard_babeld_igp.Data.Map
use wireguard_babeld_igp.Data.Heap.{Ptr}
use wireguard_babeld_igp.Types.{NodeConfig, WireguardConnection, NodeStatus, User}

pub record MemoryStore : Type 0 where
  pub nodes : Map ℤ NodeConfig
  pub connections : Map ℤ WireguardConnection
  pub tasks : Map String Ptr
  pub status : Map ℤ NodeStatus
  pub users : Map ℤ User
  pub usernames : Map String ℤ
  pub last_user_id : ℤ
  pub max_node_id : ℤ

abbrev pub new_memory_store : MemoryStore
new_memory_store = record {
  nodes = Map.empty;
  connections = Map.empty;
  tasks = Map.empty;
  status = Map.empty;
  users = Map.empty;
  usernames = Map.empty;
  last_user_id = pos 0;
  max_node_id = pos 0;
}
