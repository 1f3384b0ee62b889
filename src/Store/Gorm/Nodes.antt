-- ===== src/Store/Gorm/Nodes.antt =====
-- CreateNode to ListNodeStatus of pkg/store/gorm_store.go, and Close.
use wireguard_babeld_igp.Base.{Bool, Option, List}
use wireguard_babeld_igp.Base.Int.{ℤ, int_key}
use wireguard_babeld_igp.Errors.{Error, Result, ok, wrapped, node_missing, status_missing}
use wireguard_babeld_igp.Types.{NodeConfig, NodeStatus}
use wireguard_babeld_igp.Store.Memory.Connections.{eq_ℤ}
use wireguard_babeld_igp.Store.Gorm.{Database, written, affected, found}

abbrev pub has_id : ℤ → NodeConfig → Bool
has_id id n = eq_ℤ n.id id

abbrev pub is_of : ℤ → NodeStatus → Bool
is_of id st = eq_ℤ st.node_id id

module _ {D : Type 0} (db : Database D) where
  created : NodeConfig × (Option Error × D) → NodeConfig × (Result (Unit {0}) × D)
  created (n, r) = (n, written "creating node" r)

  unfoldable pub create_node : NodeConfig → D → NodeConfig × (Result (Unit {0}) × D)
  unfolding created
  create_node n d = created (db.nodes.create n d)

  unfoldable pub get_node : ℤ → D → Result NodeConfig
  get_node id d = found "querying node" (node_missing id) (db.nodes_with_status.first (has_id id) d)

  unfoldable pub update_node : ℤ → NodeConfig → D → Result (Unit {0}) × D
  update_node id n d = affected "updating node" (node_missing id) (db.nodes.updates (has_id id) n d)

  unfoldable pub delete_node : ℤ → D → Result (Unit {0}) × D
  delete_node id d = affected "deleting node" (node_missing id) (db.nodes.delete (has_id id) d)

  unfoldable pub list_nodes : D → Result (List NodeConfig)
  list_nodes d = wrapped "querying nodes" (db.nodes_with_status.find d)

  unfoldable pub update_node_status : ℤ → NodeStatus → D → Result (Unit {0}) × D
  update_node_status id st d =
      written "upserting node status" (db.statuses.save (record st { node_id = id }) d)

  unfoldable pub get_node_status : ℤ → D → Result NodeStatus
  get_node_status id d =
      found "querying node status" (status_missing id) (db.statuses.query.first (is_of id) d)

  unfoldable pub list_node_status : D → Result (List NodeStatus)
  list_node_status d = wrapped "querying node status" (db.statuses.query.find d)

  unfoldable pub close : D → Result (Unit {0})
  close d = ok tt
