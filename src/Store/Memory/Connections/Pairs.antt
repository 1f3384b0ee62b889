-- ===== src/Store/Memory/Connections/Pairs.antt =====
-- Which connection a call for a pair of nodes answers with.
use wireguard_babeld_igp.Base.{
  ◌≡◌, ◌≢◌, inl, inr, arith, false, true, some, none, Option-cases, Bool,
}
use wireguard_babeld_igp.Base.Int.{ℤ, pos, int_key}
use wireguard_babeld_igp.Data.Map.{get}
use wireguard_babeld_igp.Data.Map.Range.{
  first, range, IsOrder, first-In, first-none, get-range, range-get,
}
use wireguard_babeld_igp.Errors.{ok}
use wireguard_babeld_igp.Types.{WireguardConnection}
use wireguard_babeld_igp.Store.Memory.{MemoryStore}
use wireguard_babeld_igp.Store.Memory.Connections.{
  Orders, joins, sorted_pair, new_connection, add_connection, new_port, create_connection,
  get_or_create,
}

-- Every order is one in which a loop may visit the map.
pub record AreOrders (o : Orders) : Type 0 where
  pub by_port : IsOrder o.by_port
  pub by_pair : IsOrder o.by_pair
  pub for_port : IsOrder o.for_port

-- A connection of the map passes the test, or none does.
pub record Stored (test : WireguardConnection → Bool) (s : MemoryStore) (c : WireguardConnection)
    : Type 0 where
  pub key : ℤ
  pub at_key : get s.connections key ≡ some c
  pub passes : test c ≡ true

abbrev pub Missing : (WireguardConnection → Bool) → MemoryStore → Type 0
Missing test s = (k : ℤ) (c : WireguardConnection) → get s.connections k ≡ some c → test c ≡ false

module _ {o : Orders} (v : AreOrders o) (s : MemoryStore) where
  pub first-Missing :
      (test : WireguardConnection → Bool)
      → Missing test s
      → first test (range o.by_pair s.connections) ≡ none
  first-Missing test m = elim (Option-cases (first test (range o.by_pair s.connections))) [
    | inl e ↦ e
    | inr (c, e) ↦
        let (k, at, passes) = first-In test (range o.by_pair s.connections) c e in
        absurd (ground (arith, m k c (get-range o.by_pair s.connections k c v.by_pair at)))
  ]

  first-Stored :
      (test : WireguardConnection → Bool) {c : WireguardConnection}
      → Stored test s c
      → (d : WireguardConnection) × (first test (range o.by_pair s.connections) ≡ some d)
        × Stored test s d
  first-Stored test {c} h = elim (Option-cases (first test (range o.by_pair s.connections))) [
    | inl e ↦ absurd (
        ground (
          arith,
          first-none test (range o.by_pair s.connections) h.key c e
              (range-get o.by_pair s.connections h.key c v.by_pair h.at_key),
          h.passes,
        ))
    | inr (d, e) ↦
        let (k, at, passes) = first-In test (range o.by_pair s.connections) d e in
        (
          d,
          e,
          record {
            key = k;
            at_key = get-range o.by_pair s.connections k d v.by_pair at;
            passes = passes;
          },
        )
  ]

  module _ (wanted : WireguardConnection) (base : ℤ) (no_port : wanted.port ≡ pos 0) where
    -- A call for a pair that no connection joins, in the order of the lookup, stores a new one.
    pub get_or_create-Missing :
        Missing (joins (sorted_pair wanted)) s
        → let c = new_connection wanted (new_port o.for_port base s) in
          get_or_create o (some wanted) base s ≡ (ok c, add_connection c s)
    unfolding get_or_create create_connection
    get_or_create-Missing m = ground (arith, first-Missing (joins (sorted_pair wanted)) m)

    -- A call for a stored pair answers with a stored connection of that pair, and changes nothing.
    pub get_or_create-Stored :
        {c : WireguardConnection}
        → wanted.node_id ≢ pos 0
        → wanted.peer_id ≢ pos 0
        → Stored (joins (sorted_pair wanted)) s c
        → (d : WireguardConnection) × (get_or_create o (some wanted) base s ≡ (ok d, s))
          × Stored (joins (sorted_pair wanted)) s d
    unfolding get_or_create
    get_or_create-Stored n p h =
        let (d, e, st) = first-Stored (joins (sorted_pair wanted)) h in
        (d, ground (arith, e, st.passes), st)
