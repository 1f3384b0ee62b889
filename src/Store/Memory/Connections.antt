-- ===== src/Store/Memory/Connections.antt =====
-- GetOrCreateWireguardConnection of pkg/store/memory_store.go. Its three loops visit the map in
-- orders that the caller of the model chooses. The method takes and gives back the lock between its
-- loops: in this file it runs without another method in between, and Steps has its steps.
pub mod Loops
pub mod Pairs
pub mod Ports
pub mod Repeats
pub mod Steps
pub mod Answers
pub mod Races
use wireguard_babeld_igp.Base.{
  ℕ, Bool, ◌&&◌, not, Option, none, some, List, [], ◌∷◌, ite, if◌then◌else◌, ◌=?◌, true, false,
}
use wireguard_babeld_igp.Base.Int.{ℤ, pos, ltb_ℤ, inc, int_key}
use wireguard_babeld_igp.Data.Map.{Map, get, put}
use wireguard_babeld_igp.Data.Map.Range.{range, first, len}
use wireguard_babeld_igp.Errors.{Result, ok, err, nil_connection, invalid_connection}
use wireguard_babeld_igp.Types.{WireguardConnection, zero_connection}
use wireguard_babeld_igp.Store.Memory.{MemoryStore}

abbrev pub Visits : Type 0
Visits = List (ℤ × WireguardConnection) → List (ℤ × WireguardConnection)

-- The orders of the three loops.
pub record Orders : Type 0 where
  pub by_port : Visits
  pub by_pair : Visits
  pub for_port : Visits

abbrev pub eq_ℤ : ℤ → ℤ → Bool
eq_ℤ a b = ite (a =? b) true false

-- The test of the first loop.
abbrev pub has_port : WireguardConnection → WireguardConnection → Bool
has_port wanted c = eq_ℤ c.node_id wanted.node_id && eq_ℤ c.port wanted.port

-- The test of the second loop.
abbrev pub joins : ℤ × ℤ → WireguardConnection → Bool
joins (node, peer) c = eq_ℤ c.node_id node && eq_ℤ c.peer_id peer

-- The swap before the second loop.
abbrev pub sorted_pair : WireguardConnection → ℤ × ℤ
sorted_pair c = if ltb_ℤ c.peer_id c.node_id then (c.peer_id, c.node_id) else (c.node_id, c.peer_id)

abbrev pub found_or : WireguardConnection → Option WireguardConnection → WireguardConnection
found_or conn none = conn
found_or conn (some c) = c

abbrev pub lookup_by_port : Visits → WireguardConnection → MemoryStore → WireguardConnection
lookup_by_port visit wanted s =
    if eq_ℤ wanted.port (pos 0)
    then zero_connection
    else found_or zero_connection (first (has_port wanted) (range visit s.connections))

abbrev pub lookup_by_pair :
    Visits → WireguardConnection → WireguardConnection → MemoryStore → WireguardConnection
lookup_by_pair visit conn wanted s =
    found_or conn (first (joins (sorted_pair wanted)) (range visit s.connections))

-- The third loop.
unfoldable pub max_port : ℤ → List (ℤ × WireguardConnection) → ℤ
max_port top [] = top
max_port top ((_, c) ∷ l) = max_port (if ltb_ℤ top c.port then c.port else top) l

unfoldable pub new_port : Visits → ℤ → MemoryStore → ℤ
new_port visit base s =
    let top = max_port base (range visit s.connections) in if ltb_ℤ base top then inc top else base

abbrev pub new_connection : WireguardConnection → ℤ → WireguardConnection
new_connection wanted port = record zero_connection {
  node_id = wanted.node_id;
  peer_id = wanted.peer_id;
  port = port;
}

abbrev pub add_connection : WireguardConnection → MemoryStore → MemoryStore
add_connection c s = record s { connections = put s.connections (pos (len s.connections)) c }

unfoldable pub create_connection :
    Visits → WireguardConnection → ℤ → MemoryStore → Result WireguardConnection × MemoryStore
create_connection visit wanted base s =
    let c = new_connection wanted (new_port visit base s) in (ok c, add_connection c s)

-- The body of the second `if`, over the connection that the first loop left.
unfoldable pub by_pair_or_create :
    Orders
    → WireguardConnection
    → WireguardConnection
    → ℤ
    → MemoryStore
    → Result WireguardConnection × MemoryStore
unfolding create_connection
by_pair_or_create o conn wanted base s =
    let conn' = lookup_by_pair o.by_pair conn wanted s in
    if not (eq_ℤ conn'.node_id (pos 0)) && not (eq_ℤ conn'.peer_id (pos 0))
    then (ok conn', s)
    else create_connection o.for_port wanted base s

unfoldable pub get_or_create :
    Orders → Option WireguardConnection → ℤ → MemoryStore → Result WireguardConnection × MemoryStore
unfolding by_pair_or_create
get_or_create o none base s = (err nil_connection, s)
get_or_create o (some wanted) base s =
    let conn = lookup_by_port o.by_port wanted s in
    if eq_ℤ conn.node_id (pos 0) && eq_ℤ conn.peer_id (pos 0)
    then by_pair_or_create o conn wanted base s
    else (err invalid_connection, s)
