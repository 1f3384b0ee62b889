-- ===== src/Store/Memory/Connections/Repeats.antt =====
-- What a second call for the same two nodes answers with.
use wireguard_babeld_igp.Base.{
  ◌≡◌, ◌≢◌, ◌<◌, ◌+◌, suc, ap, ◌∙◌, inl, inr, arith, false, true, some, none, Option-cases, Bool,
}
use wireguard_babeld_igp.Base.Int.{ℤ, pos, ◌<ℤ◌, ◌≤ℤ◌, int_key, pos_part, neg_part}
use wireguard_babeld_igp.Data.Map.{get, get-put, get-empty}
use wireguard_babeld_igp.Data.Map.Range.{len, len-put_new}
use wireguard_babeld_igp.Errors.{ok}
use wireguard_babeld_igp.Types.{WireguardConnection}
use wireguard_babeld_igp.Store.Memory.{MemoryStore, new_memory_store}
use wireguard_babeld_igp.Store.Memory.Connections.{
  Orders, joins, sorted_pair, new_connection, add_connection, new_port, get_or_create,
}
use wireguard_babeld_igp.Store.Memory.Connections.Pairs.{
  AreOrders, Stored, Missing, get_or_create-Missing, get_or_create-Stored,
}

-- The keys of the map of connections are below its length.
pub record IsDense (s : MemoryStore) : Type 0 where
  pub below :
      (k : ℤ) (c : WireguardConnection)
      → get s.connections k ≡ some c
      → (neg_part k ≡ 0) × (pos_part k < len s.connections)

pub new-IsDense : IsDense new_memory_store
new-IsDense = record { below = λ k c h. cc (get-empty {V = WireguardConnection} k) }

module _ (s : MemoryStore) (c : WireguardConnection) (v : IsDense s) where
  last : ℤ
  last = pos (len s.connections)

  last_free : get s.connections last ≡ none
  unfolding last
  last_free = elim (Option-cases (get s.connections last)) [
    | inl e ↦ e
    | inr (d, e) ↦ absurd (omega (arith, (v.below last d e).1))
  ]

  pub len_free : get s.connections (pos (len s.connections)) ≡ none
  unfolding last
  len_free = last_free

  pub len-add_connection : len (add_connection c s).connections ≡ suc (len s.connections)
  unfolding last
  len-add_connection = len-put_new s.connections last c last_free

  pub add_connection-IsDense : IsDense (add_connection c s)
  add_connection-IsDense = record {
    below = λ k d h. ground (
      arith,
      len-add_connection,
      v.below k d,
      get-put s.connections (pos (len s.connections)) k c,
    );
  }

module _ (test : WireguardConnection → Bool) (c : WireguardConnection) (s : MemoryStore) where
  pub add_connection-Missing : test c ≡ false → Missing test s → Missing test (add_connection c s)
  add_connection-Missing f m k d h =
      ground (arith, m k d, get-put s.connections (pos (len s.connections)) k c)

  add_connection-Stored : test c ≡ true → Stored test (add_connection c s) c
  add_connection-Stored t = record {
    key = pos (len s.connections);
    at_key =
        ground (arith, get-put s.connections (pos (len s.connections)) (pos (len s.connections)) c);
    passes = t;
  }

  add_connection_only :
      Missing test s → {d : WireguardConnection} → Stored test (add_connection c s) d → d ≡ c
  add_connection_only m {d} h = ground (
    arith,
    m h.key d,
    h.at_key,
    h.passes,
    get-put s.connections (pos (len s.connections)) h.key c,
  )

module _ {o o' : Orders} (v : AreOrders o) (v' : AreOrders o') (s : MemoryStore)
    (wanted wanted' : WireguardConnection) (base base' : ℤ) (no_port : wanted.port ≡ pos 0)
    (no_port' : wanted'.port ≡ pos 0) (same : sorted_pair wanted' ≡ sorted_pair wanted)
    (missing : Missing (joins (sorted_pair wanted)) s) where
  -- Where no connection joins two nodes, a first call creates one; a second call for the same nodes, in
  -- either order, answers with it and changes nothing. The calls name no port, the second names no node
  -- by zero, and the first names the smaller identifier first.
  pub second_call_agrees :
      wanted.node_id ≤ℤ wanted.peer_id
      → wanted'.node_id ≢ pos 0
      → wanted'.peer_id ≢ pos 0
      → let (r, s') = get_or_create o (some wanted) base s in
        get_or_create o' (some wanted') base' s' ≡ (r, s')
  second_call_agrees le n p =
      let c : WireguardConnection = new_connection wanted (new_port o.for_port base s) in
      let t = add_connection-Stored (joins (sorted_pair wanted)) c s (ground arith) in
      let t' : Stored (joins (sorted_pair wanted')) (add_connection c s) c = rw same t in
      let (d, e, st) = get_or_create-Stored v' (add_connection c s) wanted' base' no_port' n p t' in
      let st' : Stored (joins (sorted_pair wanted)) (add_connection c s) d = rw same at st in
      rw (get_or_create-Missing v s wanted base no_port missing) (
        e
        ∙ ap (λ x. (ok x, add_connection c s))
            (add_connection_only (joins (sorted_pair wanted)) c s missing st'))

  -- Where the first call names the larger identifier first, the second call for the same nodes does
  -- not find its connection: both calls create one.
  pub second_call_repeats :
      wanted.peer_id <ℤ wanted.node_id
      → IsDense s
      → let (r, s') = get_or_create o (some wanted) base s in
        let (r', s'') = get_or_create o' (some wanted') base' s' in
        len s''.connections ≡ len s.connections + 2
  second_call_repeats lt d =
      let c : WireguardConnection = new_connection wanted (new_port o.for_port base s) in
      let s' : MemoryStore = add_connection c s in
      let m = add_connection-Missing (joins (sorted_pair wanted)) c s (ground arith) missing in
      let c' : WireguardConnection = new_connection wanted' (new_port o'.for_port base' s') in
      rw
        (
          get_or_create-Missing v s wanted base no_port missing,
          get_or_create-Missing v' s' wanted' base' no_port' (rw same m),
        )
        (omega (
          arith,
          len-add_connection s c d,
          len-add_connection s' c' (add_connection-IsDense s c d),
        ))
