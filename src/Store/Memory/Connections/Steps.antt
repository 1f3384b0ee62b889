-- ===== src/Store/Memory/Connections/Steps.antt =====
-- GetOrCreateWireguardConnection of pkg/store/memory_store.go as the steps between which the method
-- gives the lock back, and several calls that take their steps in any order.
use wireguard_babeld_igp.Base.{
  ℕ, zero, suc, Bool, ◌&&◌, not, some, List, [], ◌∷◌, ite, if◌then◌else◌, ◌=?◌, nat_key, ◌≡◌, refl,
  Bool-cases, inl, inr,
}
use wireguard_babeld_igp.Base.Int.{ℤ, pos, int_key}
use wireguard_babeld_igp.Errors.{Result, ok, err, invalid_connection}
use wireguard_babeld_igp.Types.{WireguardConnection}
use wireguard_babeld_igp.Store.Memory.{MemoryStore}
use wireguard_babeld_igp.Store.Memory.Connections.{
  Orders, eq_ℤ, lookup_by_port, lookup_by_pair, new_port, new_connection, add_connection,
  get_or_create, by_pair_or_create, create_connection,
}

-- Where a call stands: before the loop by port, before the loop by pair with the connection found so
-- far, before the loop for the largest port, before the write with the port chosen, at its end.
pub data Phase : Type 0 where
  starting : Phase
  searching : WireguardConnection → Phase
  choosing : Phase
  adding : ℤ → Phase
  ended : Result WireguardConnection → Phase

-- The arguments of a call, and the orders of its loops.
pub record Call : Type 0 where
  pub orders : Orders
  pub wanted : WireguardConnection
  pub base : ℤ

abbrev pub has_none : WireguardConnection → Bool
has_none c = eq_ℤ c.node_id (pos 0) && eq_ℤ c.peer_id (pos 0)

abbrev pub has_both : WireguardConnection → Bool
has_both c = not (eq_ℤ c.node_id (pos 0)) && not (eq_ℤ c.peer_id (pos 0))

unfoldable pub after_port : WireguardConnection → Phase
after_port conn = if has_none conn then searching conn else ended (err invalid_connection)

unfoldable pub after_pair : WireguardConnection → Phase
after_pair conn = if has_both conn then ended (ok conn) else choosing

-- One step under the lock.
unfoldable pub advance : Call → Phase → MemoryStore → Phase × MemoryStore
unfolding after_port after_pair
advance call starting s = (after_port (lookup_by_port call.orders.by_port call.wanted s), s)
advance call (searching conn) s =
    (after_pair (lookup_by_pair call.orders.by_pair conn call.wanted s), s)
advance call choosing s = (adding (new_port call.orders.for_port call.base s), s)
advance call (adding port) s =
    let c = new_connection call.wanted port in (ended (ok c), add_connection c s)
advance call (ended r) s = (ended r, s)

unfoldable pub alone : ℕ → Call → Phase → MemoryStore → Phase × MemoryStore
unfolding advance
alone zero call p s = (p, s)
alone (suc n) call p s = let (p', s') = advance call p s in alone n call p' s'

-- Four steps without another call in between are the method.
pub alone-get_or_create :
    (call : Call) (s : MemoryStore)
    → let (r, s') = get_or_create call.orders (some call.wanted) call.base s in
      alone 4 call starting s ≡ (ended r, s')
unfolding alone advance after_port after_pair get_or_create by_pair_or_create create_connection
alone-get_or_create call s =
    let conn = lookup_by_port call.orders.by_port call.wanted s in
    let conn' = lookup_by_pair call.orders.by_pair conn call.wanted s in
    elim (Bool-cases (has_none conn)) [
      | inl n ↦ elim (Bool-cases (has_both conn')) [
        | inl b ↦ rw (n, b) refl
        | inr f ↦ rw (n, f) refl
      ]
      | inr e ↦ rw e refl
    ]

-- The calls by number.
abbrev pub Calls : Type 0
Calls = ℕ → Phase

module _ (calls : ℕ → Call) where
  -- Call `i` takes a step.
  unfoldable pub move : ℕ → Calls × MemoryStore → Calls × MemoryStore
  unfolding advance
  move i (ps, s) = let (p, s') = advance (calls i) (ps i) s in (λ j. ite (i =? j) p (ps j), s')

  -- The steps of a schedule.
  unfoldable pub run : List ℕ → Calls × MemoryStore → Calls × MemoryStore
  run [] x = x
  run (i ∷ l) x = run l (move i x)
