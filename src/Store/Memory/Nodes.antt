-- ===== src/Store/Memory/Nodes.antt =====
-- CreateNode, GetNode, UpdateNode, DeleteNode and ListNodes of pkg/store/memory_store.go.
pub mod Ids
use wireguard_babeld_igp.Base.{Bool, Option, none, some, List, map, ite, if◌then◌else◌, ◌=?◌}
use wireguard_babeld_igp.Base.Int.{ℤ, pos, ltb_ℤ, inc, int_key}
use wireguard_babeld_igp.Data.Map.{Map, get, put, delete, change_values}
use wireguard_babeld_igp.Data.Map.Range.{range}
use wireguard_babeld_igp.Errors.{Result, ok, err, node_exists, node_missing}
use wireguard_babeld_igp.Types.{NodeConfig}
use wireguard_babeld_igp.Store.Memory.{MemoryStore}

-- The identifier that a node gets, and the largest one after it.
assign_id : ℤ → ℤ → ℤ × ℤ
assign_id id top = ite (id =? pos 0) (inc top, inc top) (id, if ltb_ℤ top id then id else top)

insert_node : NodeConfig → MemoryStore → Option NodeConfig → Result (Unit {0}) × MemoryStore
insert_node node s (some _) = (err (node_exists node.id), s)
insert_node node s none = (ok tt, record s { nodes = put s.nodes node.id node })

-- The first part is the caller's node, whose identifier the call sets on the error path too.
unfoldable pub create_node :
    NodeConfig → MemoryStore → NodeConfig × (Result (Unit {0}) × MemoryStore)
unfolding assign_id insert_node
create_node node s =
    let (id, top) = assign_id node.id s.max_node_id in
    let numbered = record node { id = id } in
    (numbered, insert_node numbered (record s { max_node_id = top }) (get s.nodes id))

or_node_missing : ℤ → Option NodeConfig → Result NodeConfig
or_node_missing id none = err (node_missing id)
or_node_missing id (some node) = ok node

unfoldable pub get_node : ℤ → MemoryStore → Result NodeConfig
unfolding or_node_missing
get_node id s = or_node_missing id (get s.nodes id)

-- The write of UpdateNode and DeleteNode, behind their test that the node is there.
if_node : ℤ → Option NodeConfig → MemoryStore → MemoryStore → Result (Unit {0}) × MemoryStore
if_node id none s written = (err (node_missing id), s)
if_node id (some _) s written = (ok tt, written)

unfoldable pub update_node : ℤ → NodeConfig → MemoryStore → Result (Unit {0}) × MemoryStore
unfolding if_node
update_node id node s = if_node id (get s.nodes id) s (record s { nodes = put s.nodes id node })

unfoldable pub delete_node : ℤ → MemoryStore → Result (Unit {0}) × MemoryStore
unfolding if_node
delete_node id s = if_node id (get s.nodes id) s (record s { nodes = delete s.nodes id })

-- What a caller's change of the nodes that ListNodes hands out does to the map, which holds the same
-- pointers.
unfoldable pub change_nodes : (NodeConfig → NodeConfig) → MemoryStore → MemoryStore
change_nodes f s = record s { nodes = change_values f s.nodes }

-- `visit` is the order in which the loop visits the map.
unfoldable pub list_nodes :
    (List (ℤ × NodeConfig) → List (ℤ × NodeConfig)) → MemoryStore → List NodeConfig
list_nodes visit s = map (λ p. p.1) (range visit s.nodes)
