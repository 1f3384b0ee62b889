-- ===== src/Store/Gorm.antt =====
-- The database of pkg/store/gorm_store.go as its methods use it through gorm, and what they make of
-- gorm's results. A query's condition is a test on the rows.
pub mod Users
pub mod Tasks
pub mod Nodes
pub mod Connections
pub mod Filled
pub mod Links
use wireguard_babeld_igp.Base.{ℕ, String, Bool, Option, none, some, List, if◌then◌else◌, ltb}
use wireguard_babeld_igp.Base.Int.{ℤ}
use wireguard_babeld_igp.Errors.{Error, Result, ok, err, wrap, wrapped, is_not_found}
use wireguard_babeld_igp.Types.{NodeConfig, WireguardConnection, NodeStatus, Task, User}

-- First and Find on the rows of one model.
pub record Query (X D : Type 0) : Type 0 where
  pub first : (X → Bool) → D → Result X
  pub find : D → Result (List X)

-- Create also gives the struct that it has completed. Count, and the RowsAffected of a write, are
-- numbers that are not negative.
pub record Table (X D : Type 0) : Type 0 where
  pub query : Query X D
  pub create : X → D → X × (Option Error × D)
  pub save : X → D → Option Error × D
  pub updates : (X → Bool) → X → D → Result ℕ × D
  pub delete : (X → Bool) → D → Result ℕ × D
  pub count : (X → Bool) → D → Result ℕ

-- `nodes_with_status` is the nodes' table under Preload("Status"), and `max_port` the query
-- `SELECT COALESCE(MAX(port), 0)` on the connections.
pub record Database (D : Type 0) : Type 0 where
  pub auto_migrate : D → Option Error × D
  pub users : Table User D
  pub tasks : Table Task D
  pub nodes : Table NodeConfig D
  pub nodes_with_status : Query NodeConfig D
  pub statuses : Table NodeStatus D
  pub connections : Table WireguardConnection D
  pub max_port : D → Result ℤ

-- `if result.Error != nil { return fmt.Errorf("s: %w", result.Error) }`, at the end of a method.
unfoldable pub written : {D : Type 0} → String → Option Error × D → Result (Unit {0}) × D
written s (none, d) = (ok tt, d)
written s (some e, d) = (err (wrap s e), d)

-- The same for a deletion whose count nobody reads.
unfoldable pub deleted : {D : Type 0} → String → Result ℕ × D → Result (Unit {0}) × D
deleted s (ok n, d) = (ok tt, d)
deleted s (err e, d) = (err (wrap s e), d)

-- For a write that must affect a row.
unfoldable pub affected : {D : Type 0} → String → Error → Result ℕ × D → Result (Unit {0}) × D
affected s absent (err e, d) = (err (wrap s e), d)
affected s absent (ok n, d) = (if ltb 0 n then ok tt else err absent, d)

-- The error of a query that has an error of its own for a row that is not there.
unfoldable pub found : {X : Type 0} → String → Error → Result X → Result X
found s absent (ok x) = ok x
found s absent (err e) = err (if is_not_found e then absent else wrap s e)

module _ {D : Type 0} (db : Database D) where
  unfoldable pub initialize : D → Result (Unit {0}) × D
  unfolding written
  initialize d = written "auto migrating tables" (db.auto_migrate d)

  opened : Result (Unit {0}) × D → Result D
  opened (ok _, d) = ok d
  opened (err e, d) = err (wrap "initializing database" e)

  -- The answer of gorm.Open is the parameter.
  unfoldable pub new_gorm_store : Result D → Result D
  unfolding opened
  new_gorm_store (err e) = err (wrap "opening database" e)
  new_gorm_store (ok d) = opened (initialize d)
