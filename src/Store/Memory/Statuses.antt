-- ===== src/Store/Memory/Statuses.antt =====
-- UpdateNodeStatus, GetNodeStatus, ListNodeStatus and Close of pkg/store/memory_store.go.
use wireguard_babeld_igp.Base.{Option, none, some, List, map}
use wireguard_babeld_igp.Base.Int.{ℤ, int_key}
use wireguard_babeld_igp.Data.Map.{get, put}
use wireguard_babeld_igp.Data.Map.Range.{range}
use wireguard_babeld_igp.Errors.{Result, ok, err, status_missing}
use wireguard_babeld_igp.Types.{NodeStatus}
use wireguard_babeld_igp.Store.Memory.{MemoryStore}

unfoldable pub update_node_status : ℤ → NodeStatus → MemoryStore → Result (Unit {0}) × MemoryStore
update_node_status id status s = (ok tt, record s { status = put s.status id status })

abbrev pub or_status_missing : ℤ → Option NodeStatus → Result NodeStatus
or_status_missing id none = err (status_missing id)
or_status_missing id (some status) = ok status

unfoldable pub get_node_status : ℤ → MemoryStore → Result NodeStatus
get_node_status id s = or_status_missing id (get s.status id)

unfoldable pub list_node_status :
    (List (ℤ × NodeStatus) → List (ℤ × NodeStatus)) → MemoryStore → List NodeStatus
list_node_status visit s = map (λ p. p.1) (range visit s.status)

unfoldable pub close : MemoryStore → Result (Unit {0})
close s = ok tt
