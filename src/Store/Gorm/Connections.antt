-- ===== src/Store/Gorm/Connections.antt =====
-- GetOrCreateWireguardConnection of pkg/store/gorm_store.go.
use wireguard_babeld_igp.Base.{Bool, not, ◌&&◌, ◌||◌, Option, none, some, if◌then◌else◌}
use wireguard_babeld_igp.Base.Int.{ℤ, pos, ltb_ℤ, inc, int_key}
use wireguard_babeld_igp.Errors.{
  Error, Result, ok, err, wrap, is_not_found, nil_connection, invalid_connection, port_missing,
}
use wireguard_babeld_igp.Types.{WireguardConnection}
use wireguard_babeld_igp.Store.Memory.Connections.{eq_ℤ, new_connection}
use wireguard_babeld_igp.Store.Gorm.{Database, found}

abbrev pub has_port : ℤ → WireguardConnection → Bool
has_port port c = eq_ℤ c.port port

-- The two nodes, in either order.
abbrev pub joins : ℤ → ℤ → WireguardConnection → Bool
joins a b c = (eq_ℤ c.node_id a && eq_ℤ c.peer_id b) || (eq_ℤ c.node_id b && eq_ℤ c.peer_id a)

unfoldable pub next_port : ℤ → ℤ → ℤ
next_port base top = if ltb_ℤ top base then base else inc top

module _ {D : Type 0} (db : Database D) where
  unfoldable pub inserted :
      WireguardConnection × (Option Error × D) → Result WireguardConnection × D
  inserted (c, (none, d)) = (ok c, d)
  inserted (c, (some e, d)) = (err (wrap "creating wireguard connection" e), d)

  unfoldable pub create_above :
      WireguardConnection → ℤ → Result ℤ → D → Result WireguardConnection × D
  unfolding inserted
  create_above wanted base (err e) d = (err (wrap "getting max port" e), d)
  create_above wanted base (ok top) d =
      inserted (db.connections.create (new_connection wanted (next_port base top)) d)

  unfoldable pub create_connection : WireguardConnection → ℤ → D → Result WireguardConnection × D
  unfolding create_above
  create_connection wanted base d = create_above wanted base (db.max_port d) d

  unfoldable pub found_or_create :
      WireguardConnection → ℤ → Result WireguardConnection → D → Result WireguardConnection × D
  found_or_create wanted base (ok c) d = (ok c, d)
  found_or_create wanted base (err e) d =
      if is_not_found e
      then create_connection wanted base d
      else (err (wrap "querying wireguard connection" e), d)

  unfoldable pub by_pair_or_create : WireguardConnection → ℤ → D → Result WireguardConnection × D
  unfolding found_or_create
  by_pair_or_create wanted base d =
      found_or_create wanted base
        (db.connections.query.first (joins wanted.node_id wanted.peer_id) d) d

  unfoldable pub by_port : ℤ → D → Result WireguardConnection
  by_port port d =
      found "querying wireguard connection by port" (port_missing port)
        (db.connections.query.first (has_port port) d)

  unfoldable pub get_or_create : Option WireguardConnection → ℤ → D → Result WireguardConnection × D
  get_or_create none base d = (err nil_connection, d)
  get_or_create (some wanted) base d =
      if not (eq_ℤ wanted.port (pos 0))
      then (by_port wanted.port d, d)
      else if not (eq_ℤ wanted.node_id (pos 0)) && not (eq_ℤ wanted.peer_id (pos 0))
      then by_pair_or_create wanted base d
      else (err invalid_connection, d)
