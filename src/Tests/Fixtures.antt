-- ===== src/Tests/Fixtures.antt =====
-- The inputs that the tests share: loops in the order of the lists, and a store with one node.
use mathlib.Core.List.Permᴰ
use wireguard_babeld_igp.Base.Int.{pos, int_key}
use wireguard_babeld_igp.Data.Map.{Map, put}
use wireguard_babeld_igp.Data.Map as Map
use wireguard_babeld_igp.Data.Map.Range.{IsOrder}
use wireguard_babeld_igp.Data.Heap.{Heap}
use wireguard_babeld_igp.Types.{NodeConfig, Task, zero_node, zero_task}
use wireguard_babeld_igp.Store.Memory.{MemoryStore, new_memory_store}
use wireguard_babeld_igp.Store.Memory.Connections.{Orders}
use wireguard_babeld_igp.Store.Memory.Connections.Pairs.{AreOrders}
use wireguard_babeld_igp.Store.Interface.{MapOrders}

pub as_listed : {A : Type 0} → IsOrder {A = A} (λ l. l)
as_listed l = Permᴰ.refl l

abbrev pub orders : Orders
orders = record { by_port = λ l. l; by_pair = λ l. l; for_port = λ l. l }

pub orders-AreOrders : AreOrders orders
orders-AreOrders = record { by_port = as_listed; by_pair = as_listed; for_port = as_listed }

abbrev pub map_orders : MapOrders
map_orders = record {
  nodes = λ l. l;
  connections = orders;
  statuses = λ l. l;
  tasks = λ l. l;
  cleanup = λ l. l;
}

abbrev pub gateway : NodeConfig
gateway = record zero_node {
  id = pos 1;
  name = "gateway";
  token = "secret";
  public_key = "key";
  endpoints = "host";
}

abbrev pub branch : NodeConfig
branch = record zero_node {
  id = pos 2;
  name = "branch";
  token = "other";
  public_key = "lock";
  endpoints = "site";
}

abbrev pub one_node : MemoryStore
one_node = record new_memory_store { nodes = put Map.empty (pos 1) gateway; max_node_id = pos 1 }

abbrev pub no_tasks : Heap Task
no_tasks = record { cell = λ p. zero_task; next = 0 }
