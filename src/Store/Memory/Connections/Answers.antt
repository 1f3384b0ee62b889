-- ===== src/Store/Memory/Connections/Answers.antt =====
-- Calls of GetOrCreateWireguardConnection that take turns: what their answers keep.
use wireguard_babeld_igp.Base.{
  ℕ, true, some, List, [], ◌∷◌, ite, ◌=?◌, nat_key, ◌≡◌, arith, Bool-cases, Option-cases, inl, inr,
  if_pos, if_neg,
}
use wireguard_babeld_igp.Base.Int.{ℤ, pos, int_key}
use wireguard_babeld_igp.Data.Map.{get, get-put}
use wireguard_babeld_igp.Data.Map.Range.{range, first, len, get-range, first-In}
use wireguard_babeld_igp.Errors.{ok, err}
use wireguard_babeld_igp.Types.{WireguardConnection}
use wireguard_babeld_igp.Store.Memory.{MemoryStore}
use wireguard_babeld_igp.Store.Memory.Connections.{
  Orders, joins, sorted_pair, lookup_by_port, lookup_by_pair, new_connection, add_connection,
}
use wireguard_babeld_igp.Store.Memory.Connections.Pairs.{AreOrders}
use wireguard_babeld_igp.Store.Memory.Connections.Repeats.{
  IsDense, len_free, add_connection-IsDense,
}
use wireguard_babeld_igp.Store.Memory.Connections.Steps.{
  Phase, starting, searching, choosing, adding, ended, Call, has_none, has_both, after_port,
  after_pair, advance, Calls, move, run,
}

-- The store has the connection under some key.
abbrev pub Has : MemoryStore → WireguardConnection → Type 0
Has s c = (k : ℤ) × (get s.connections k ≡ some c)

-- What a call in a phase may rely on.
abbrev pub Answered : MemoryStore → Phase → Type 0
Answered s starting = Unit
Answered s (searching conn) = conn.node_id ≡ pos 0
Answered s choosing = Unit
Answered s (adding port) = Unit
Answered s (ended (ok c)) = Has s c
Answered s (ended (err e)) = Unit

Has-add_connection :
    (s : MemoryStore) (c d : WireguardConnection) → IsDense s → Has s c → Has (add_connection d s) c
Has-add_connection s c d v (k, at) =
    (k, ground (arith, at, get-put s.connections (pos (len s.connections)) k d, len_free s d v))

Answered-add_connection :
    (s : MemoryStore) (d : WireguardConnection)
    → IsDense s
    → (p : Phase) → Answered s p
    → Answered (add_connection d s) p
Answered-add_connection s d v starting h = h
Answered-add_connection s d v (searching conn) h = h
Answered-add_connection s d v choosing h = h
Answered-add_connection s d v (adding port) h = h
Answered-add_connection s d v (ended (ok c)) h = Has-add_connection s c d v h
Answered-add_connection s d v (ended (err e)) h = h

after_port-Answered : (s : MemoryStore) (conn : WireguardConnection) → Answered s (after_port conn)
unfolding after_port
after_port-Answered s conn = elim (Bool-cases (has_none conn)) [
  | inl t ↦ rw t (ground (arith, t))
  | inr f ↦ rw f tt
]

after_pair-Answered :
    (s : MemoryStore) (conn : WireguardConnection)
    → (has_both conn ≡ true → Has s conn)
    → Answered s (after_pair conn)
unfolding after_pair
after_pair-Answered s conn h = elim (Bool-cases (has_both conn)) [
  | inl t ↦ rw t (h t)
  | inr f ↦ rw f tt
]

-- What the loop by pair ends with is stored, unless it is what the loop began with.
lookup_by_pair-Has :
    (o : Orders) (v : AreOrders o) (s : MemoryStore) (conn wanted : WireguardConnection)
    → conn.node_id ≡ pos 0
    → has_both (lookup_by_pair o.by_pair conn wanted s) ≡ true
    → Has s (lookup_by_pair o.by_pair conn wanted s)
lookup_by_pair-Has o v s conn wanted none_yet h =
    let test = joins (sorted_pair wanted) in
    elim (Option-cases (first test (range o.by_pair s.connections))) [
      | inl e ↦ absurd (ground (arith, none_yet, (rw e at h)))
      | inr (c, e) ↦
          let (k, at, _) = first-In test (range o.by_pair s.connections) c e in
          rw e (k, get-range o.by_pair s.connections k c v.by_pair at)
    ]

record Keeps (x : Phase × MemoryStore) (s : MemoryStore) : Type 0 where
  dense : IsDense x.1
  answered : Answered x.1 x.0
  kept : (p : Phase) → Answered s p → Answered x.1 p

advance-Keeps :
    (call : Call) (v : AreOrders call.orders) (p : Phase) (s : MemoryStore)
    → IsDense s
    → Answered s p
    → Keeps (advance call p s) s
unfolding advance
advance-Keeps call v starting s d h = record {
  dense = d;
  answered = after_port-Answered s (lookup_by_port call.orders.by_port call.wanted s);
  kept = λ p a. a;
}
advance-Keeps call v (searching conn) s d h = record {
  dense = d;
  answered =
      after_pair-Answered s (lookup_by_pair call.orders.by_pair conn call.wanted s)
        (lookup_by_pair-Has call.orders v s conn call.wanted h);
  kept = λ p a. a;
}
advance-Keeps call v choosing s d h = record { dense = d; answered = tt; kept = λ p a. a }
advance-Keeps call v (adding port) s d h =
    let c : WireguardConnection = new_connection call.wanted port in
    record {
      dense = add_connection-IsDense s c d;
      answered = (
        pos (len s.connections),
        ground (arith, get-put s.connections (pos (len s.connections)) (pos (len s.connections)) c),
      );
      kept = Answered-add_connection s c d;
    }
advance-Keeps call v (ended r) s d h = record { dense = d; answered = h; kept = λ p a. a }

module _ (calls : ℕ → Call) (v : (i : ℕ) → AreOrders (calls i).orders) where
  run-Answered :
      (schedule : List ℕ) (ps : Calls) (s : MemoryStore)
      → IsDense s
      → ((i : ℕ) → Answered s (ps i))
      → let (ps', s') = run calls schedule (ps, s) in (i : ℕ) → Answered s' (ps' i)
  unfolding run move
  run-Answered [] ps s d h = h
  run-Answered (j ∷ schedule) ps s d h =
      let k = advance-Keeps (calls j) (v j) (ps j) s d (h j) in
      let (p, s') = advance (calls j) (ps j) s in
      run-Answered schedule (λ i. ite (j =? i) p (ps i)) s' k.dense
        (λ i. elim (j =? i) [
          | yes e ↦ rw (if_pos (j =? i) e p (ps i)) k.answered
          | no n ↦ rw (if_neg (j =? i) n p (ps i)) (k.kept (ps i) (h i))
        ])

  -- Whatever the order in which any number of calls take their steps, a call that has ended with a
  -- connection has one that the store holds.
  pub run-Has :
      (schedule : List ℕ) (s : MemoryStore) (i : ℕ) (c : WireguardConnection)
      → IsDense s
      → let (ps, s') = run calls schedule (λ j. starting, s) in
        ps i ≡ ended (ok c) → (k : ℤ) × (get s'.connections k ≡ some c)
  run-Has schedule s i c d e = rw e at (run-Answered schedule (λ j. starting) s d (λ j. tt) i)
