-- ===== src/Store/Gorm/Links.antt =====
-- What GetOrCreateWireguardConnection promises: a ledger that gives each two nodes one port. And what
-- pkg/store/gorm_store.go relies on of its database to keep such a ledger.
pub mod Rows
pub mod Refines
pub mod Agrees
pub mod Distinct
use wireguard_babeld_igp.Base.{
  ◌≡◌, Bool, true, false, ◌&&◌, ◌||◌, Option, none, some, List, [], ◌∷◌, ◌++◌, if◌then◌else◌,
}
use wireguard_babeld_igp.Base.Int.{ℤ, pos, ltb_ℤ, inc, int_key, ◌<ℤ◌, ◌≤ℤ◌}
use wireguard_babeld_igp.Errors.{Error, Result, ok, err, record_not_found}
use wireguard_babeld_igp.Types.{WireguardConnection, zero_connection}
use wireguard_babeld_igp.Store.Memory.Connections.{eq_ℤ}
use wireguard_babeld_igp.Store.Gorm.{Database}
use wireguard_babeld_igp.Store.Gorm.Connections.{joins, next_port, get_or_create}

-- The port of any two nodes, in either order, and the largest port so far, 0 at first.
pub record Ledger : Type 0 where
  pub port_of : ℤ → ℤ → Option ℤ
  pub top : ℤ

-- Whether `x` and `y` are `a` and `b`.
abbrev pub same_pair : ℤ → ℤ → ℤ → ℤ → Bool
same_pair a b x y = (eq_ℤ a x && eq_ℤ b y) || (eq_ℤ a y && eq_ℤ b x)

abbrev pub larger : ℤ → ℤ → ℤ
larger a b = if ltb_ℤ a b then b else a

abbrev pub extended : ℤ → ℤ → ℤ → Ledger → Ledger
extended a b port s = record {
  port_of = λ x y. if same_pair a b x y then some port else s.port_of x y;
  top = larger s.top port;
}

-- A request is answered by the port that the two nodes have; or by a new one, the base port while it
-- is above all others, and else the number after the largest; or it fails, and nothing changes.
pub data Serves (base a b : ℤ) (s : Ledger) : Result ℤ → Ledger → Type 0 where
  known : {port : ℤ} → s.port_of a b ≡ some port → Serves base a b s (ok port) s
  at_base : s.port_of a b ≡ none → s.top <ℤ base → Serves base a b s (ok base) (extended a b base s)
  after_top :
      s.port_of a b ≡ none
      → base ≤ℤ s.top
      → Serves base a b s (ok (inc s.top)) (extended a b (inc s.top) s)
  refused : (e : Error) → Serves base a b s (err e) s

pub data ServesAll (base : ℤ) : Ledger → List (ℤ × ℤ) → List (Result ℤ) → Ledger → Type 0 where
  done : {s : Ledger} → ServesAll base s [] [] s
  then :
      {s t u : Ledger} {a b : ℤ} {l : List (ℤ × ℤ)} {r : Result ℤ} {rs : List (Result ℤ)}
      → Serves base a b s r t
      → ServesAll base t l rs u
      → ServesAll base s ((a, b) ∷ l) (r ∷ rs) u

-- The rows of a table, in the order of their keys.
unfoldable pub first_of {ℓ} : {X : Type ℓ} → (X → Bool) → List X → Option X
first_of p [] = none
first_of p (x ∷ l) = let rest = first_of p l in if p x then some x else rest

abbrev pub or_not_found {ℓ} : {X : Type ℓ} → Option X → Result X
or_not_found none = err record_not_found
or_not_found (some x) = ok x

unfoldable pub largest : ℤ → List WireguardConnection → ℤ
largest top [] = top
largest top (c ∷ l) = largest (larger top c.port) l

unfoldable pub top_of : List WireguardConnection → ℤ
unfolding largest
top_of [] = pos 0
top_of (c ∷ l) = largest c.port l

abbrev pub port_in : Option WireguardConnection → Option ℤ
port_in none = none
port_in (some c) = some c.port

-- The ledger that the rows stand for.
abbrev pub ledger_of : List WireguardConnection → Ledger
ledger_of l = record { port_of = λ a b. port_in (first_of (joins a b) l); top = top_of l }

abbrev pub wanted : ℤ → ℤ → WireguardConnection
wanted a b = record zero_connection { node_id = a; peer_id = b }

abbrev pub port_result : Result WireguardConnection → Result ℤ
port_result (ok c) = ok c.port
port_result (err e) = err e

module _ {D : Type 0} (db : Database D) (rows : D → List WireguardConnection) where
  -- What Create may do: a new last row with the struct's nodes and port, or an error without a row.
  unfoldable pub Creates :
      WireguardConnection → D → WireguardConnection × (Option Error × D) → Type 0
  Creates c d (c', (none, d')) =
      (c'.node_id ≡ c.node_id)
      × (c'.peer_id ≡ c.peer_id)
      × (c'.port ≡ c.port)
      × (rows d' ≡ rows d ++ (c' ∷ []))
  Creates c d (c', (some e, d')) = rows d' ≡ rows d

  -- Queries answer from the rows, by the order of the keys, and a new row gets the largest key.
  pub record IsTable : Type 0 where
    pub first :
        (p : WireguardConnection → Bool) (d : D)
        → db.connections.query.first p d ≡ or_not_found (first_of p (rows d))
    pub max : (d : D) → db.max_port d ≡ ok (top_of (rows d))
    pub create : (c : WireguardConnection) (d : D) → Creates c d (db.connections.create c d)

  abbrev pub ledger : D → Ledger
  ledger d = ledger_of (rows d)

  -- Requests one after the other, and the ports that they get.
  unfoldable pub serve : ℤ → List (ℤ × ℤ) → D → List (Result ℤ) × D
  serve base [] d = ([], d)
  serve base ((a, b) ∷ l) d =
      let (r, d') = get_or_create db (some (wanted a b)) base d in
      let (rs, d'') = serve base l d' in (port_result r ∷ rs, d'')

  -- A database that takes each new connection.
  pub Succeeds : Option Error → Type 0
  Succeeds none = Unit
  Succeeds (some e) = ⊥

  pub Accepts : Type 0
  Accepts = (c : WireguardConnection) (d : D) → Succeeds (db.connections.create c d).1.0

-- No request was refused.
pub AreServed : List (Result ℤ) → Type 0
AreServed [] = Unit
AreServed (ok port ∷ rs) = AreServed rs
AreServed (err e ∷ rs) = ⊥
