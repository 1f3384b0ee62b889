-- ===== src/Store/Memory/Connections/Ports.antt =====
-- The port that a new connection gets.
use wireguard_babeld_igp.Base.{
  false, ◌≡◌, ◌≢◌, refl, ap, ◌∙◌, inl, inr, arith, List, [], ◌∷◌, some, Option, Bool-cases, not,
  ◌&&◌, none,
}
use wireguard_babeld_igp.Base.Int.{ℤ, pos, ◌≤ℤ◌, int_key}
use wireguard_babeld_igp.Data.Map.{get, get-put, get-empty}
use wireguard_babeld_igp.Data.Map.Range.{IsOrder, range, get-range, len}
use wireguard_babeld_igp.Errors.{ok}
use wireguard_babeld_igp.Types.{WireguardConnection}
use wireguard_babeld_igp.Store.Memory.{MemoryStore, new_memory_store}
use wireguard_babeld_igp.Store.Memory.Connections.{
  Visits, Orders, joins, sorted_pair, new_port, new_connection, add_connection, get_or_create,
  by_pair_or_create, create_connection, lookup_by_pair, lookup_by_port, eq_ℤ,
}
use wireguard_babeld_igp.Store.Memory.Connections.Loops.{max_port_self}
use wireguard_babeld_igp.Store.Memory.Connections.Repeats.{add_connection-Missing}
use wireguard_babeld_igp.Store.Memory.Connections.Pairs.{AreOrders, Missing, get_or_create-Missing}

-- Every stored port satisfies the predicate.
abbrev pub AllPorts : (ℤ → Type 0) → MemoryStore → Type 0
AllPorts P s = (k : ℤ) (c : WireguardConnection) → get s.connections k ≡ some c → P c.port

module _ (visit : Visits) (order : IsOrder visit) (base : ℤ) (s : MemoryStore) where
  new_port-base : AllPorts (λ p. p ≤ℤ base) s → new_port visit base s ≡ base
  unfolding new_port
  new_port-base h = ground (
    arith,
    max_port_self base (range visit s.connections)
        (λ k c m. h k c (get-range visit s.connections k c order m)),
  )

module _ {o : Orders} (v : AreOrders o) (s : MemoryStore) (wanted : WireguardConnection) (base : ℤ)
    (no_port : wanted.port ≡ pos 0) (missing : Missing (joins (sorted_pair wanted)) s) where
  base_port :
      AllPorts (λ p. p ≤ℤ base) s
      → get_or_create o (some wanted) base s
        ≡ (ok (new_connection wanted base), add_connection (new_connection wanted base) s)
  base_port h =
      get_or_create-Missing v s wanted base no_port missing
      ∙ ap (λ p. (ok (new_connection wanted p), add_connection (new_connection wanted p) s))
          (new_port-base o.for_port v.for_port base s h)

-- A new connection does not join another pair.
other_pair :
    (wanted wanted' : WireguardConnection) (p : ℤ)
    → sorted_pair wanted ≢ sorted_pair wanted'
    → joins (sorted_pair wanted') (new_connection wanted p) ≡ false
other_pair wanted wanted' p n = ground arith

module _ {o o' : Orders} (v : AreOrders o) (v' : AreOrders o') (s : MemoryStore)
    (wanted wanted' : WireguardConnection) (base : ℤ) where
  -- While no stored port is above the base port, the new connections of two pairs of nodes both get
  -- the base port.
  pub ports_collide :
      wanted.port ≡ pos 0
      → wanted'.port ≡ pos 0
      → sorted_pair wanted ≢ sorted_pair wanted'
      → Missing (joins (sorted_pair wanted)) s
      → Missing (joins (sorted_pair wanted')) s
      → AllPorts (λ p. p ≤ℤ base) s
      → let (r, s') = get_or_create o (some wanted) base s in
        (r ≡ ok (new_connection wanted base))
        × ((get_or_create o' (some wanted') base s').0 ≡ ok (new_connection wanted' base))
  ports_collide e e' n m m' h =
      let c : WireguardConnection = new_connection wanted base in
      let m'' =
        add_connection-Missing (joins (sorted_pair wanted')) c s (other_pair wanted wanted' base n)
          m' in
      let ports : AllPorts (λ p. p ≤ℤ base) (add_connection c s) =
        λ k d g. ground (arith, h k d, get-put s.connections (pos (len s.connections)) k c) in
      rw (base_port v s wanted base e m h)
        (refl, ap (λ x. x.0) (base_port v' (add_connection c s) wanted' base e' m'' ports))

-- A call of the method: the orders of its loops, and its argument.
abbrev pub Request : Type 0
Request = Orders × Option WireguardConnection

-- Calls one after the other, with one base port.
unfoldable pub call_all : ℤ → List Request → MemoryStore → MemoryStore
call_all base [] s = s
call_all base ((o, wanted) ∷ l) s = call_all base l (get_or_create o wanted base s).1

unfoldable pub AllOrders : List Request → Type 0
AllOrders [] = Unit
AllOrders ((o, wanted) ∷ l) = AreOrders o × AllOrders l

module _ (base : ℤ) where
  abbrev pub OnlyBase : MemoryStore → Type 0
  OnlyBase s = AllPorts (λ p. p ≡ base) s

  create_connection-OnlyBase :
      (visit : Visits) (wanted : WireguardConnection) (s : MemoryStore)
      → IsOrder visit
      → OnlyBase s
      → OnlyBase (create_connection visit wanted base s).1
  unfolding create_connection
  create_connection-OnlyBase visit wanted s order h k c e =
      let port = new_port-base visit order base s (λ j d g. ground (arith, h j d g)) in
      ground (
        arith,
        h k c,
        port,
        e,
        get-put s.connections (pos (len s.connections)) k
            (new_connection wanted (new_port visit base s)),
      )

  by_pair_or_create-OnlyBase :
      (o : Orders) (conn wanted : WireguardConnection) (s : MemoryStore)
      → AreOrders o
      → OnlyBase s
      → OnlyBase (by_pair_or_create o conn wanted base s).1
  unfolding by_pair_or_create
  by_pair_or_create-OnlyBase o conn wanted s v h =
      let conn' = lookup_by_pair o.by_pair conn wanted s in
      elim (Bool-cases (not (eq_ℤ conn'.node_id (pos 0)) && not (eq_ℤ conn'.peer_id (pos 0)))) [
        | inl t ↦ rw t h
        | inr f ↦ rw f (create_connection-OnlyBase o.for_port wanted s v.for_port h)
      ]

  get_or_create-OnlyBase :
      (o : Orders) (wanted : Option WireguardConnection) (s : MemoryStore)
      → AreOrders o
      → OnlyBase s
      → OnlyBase (get_or_create o wanted base s).1
  unfolding get_or_create
  get_or_create-OnlyBase o none s v h = h
  get_or_create-OnlyBase o (some wanted) s v h =
      let conn = lookup_by_port o.by_port wanted s in
      elim (Bool-cases (eq_ℤ conn.node_id (pos 0) && eq_ℤ conn.peer_id (pos 0))) [
        | inl t ↦ rw t (by_pair_or_create-OnlyBase o conn wanted s v h)
        | inr f ↦ rw f h
      ]

  call_all-OnlyBase :
      (l : List Request) (s : MemoryStore) → AllOrders l → OnlyBase s → OnlyBase (call_all base l s)
  unfolding call_all AllOrders
  call_all-OnlyBase [] s v h = h
  call_all-OnlyBase ((o, wanted) ∷ l) s (v, w) h =
      call_all-OnlyBase l (get_or_create o wanted base s).1 w
        (get_or_create-OnlyBase o wanted s v h)

  -- After any calls of GetOrCreateWireguardConnection, one after the other, on a new store with one base
  -- port, for whatever nodes and ports, every stored connection has the base port: no two get different ones.
  pub call_all_share :
      (l : List Request)
      → AllOrders l
      → (k : ℤ) (c : WireguardConnection)
      → get (call_all base l new_memory_store).connections k ≡ some c
      → c.port ≡ base
  call_all_share l v =
      call_all-OnlyBase l new_memory_store v (λ k c e. cc (get-empty {V = WireguardConnection} k))
