-- ===== src/Store/Memory/Connections/Races.antt =====
-- Two calls of GetOrCreateWireguardConnection for the same nodes that take turns.
use wireguard_babeld_igp.Base.{
  ℕ, zero, suc, [], ◌∷◌, ite, ◌=?◌, nat_key, ◌≡◌, ◌≢◌, ◌∙◌, refl, arith, ap, if_pos, if_neg, ◌+◌,
}
use wireguard_babeld_igp.Base.Int.{ℤ, pos, int_key, ℤ_discrete}
use wireguard_babeld_igp.Data.Map.Range.{len}
use wireguard_babeld_igp.Errors.{ok}
use wireguard_babeld_igp.Types.{WireguardConnection, zero_connection}
use wireguard_babeld_igp.Store.Memory.{MemoryStore}
use wireguard_babeld_igp.Store.Memory.Connections.{
  joins, sorted_pair, new_port, new_connection, add_connection,
}
use wireguard_babeld_igp.Store.Memory.Connections.Pairs.{AreOrders, Missing, first-Missing}
use wireguard_babeld_igp.Store.Memory.Connections.Repeats.{
  IsDense, add_connection-IsDense, len-add_connection,
}
use wireguard_babeld_igp.Store.Memory.Connections.Steps.{
  Phase, starting, searching, choosing, adding, ended, Call, after_port, after_pair, advance, Calls,
  move, run,
}

advance-starting :
    (call : Call) (s : MemoryStore)
    → call.wanted.port ≡ pos 0
    → advance call starting s ≡ (searching zero_connection, s)
unfolding advance after_port ℤ_discrete
advance-starting call s e = rw e refl

advance-searching :
    (call : Call) (v : AreOrders call.orders) (s : MemoryStore)
    → Missing (joins (sorted_pair call.wanted)) s
    → advance call (searching zero_connection) s ≡ (choosing, s)
unfolding advance after_pair ℤ_discrete
advance-searching call v s missing =
    rw (first-Missing v s (joins (sorted_pair call.wanted)) missing) refl

advance-choosing :
    (call : Call) (s : MemoryStore)
    → advance call choosing s ≡ (adding (new_port call.orders.for_port call.base s), s)
unfolding advance
advance-choosing call s = refl

advance-adding :
    (call : Call) (s : MemoryStore) (port : ℤ)
    → let c : WireguardConnection = new_connection call.wanted port in
      advance call (adding port) s ≡ (ended (ok c), add_connection c s)
unfolding advance
advance-adding call s port = refl

own_phase : (i : ℕ) (p q : Phase) → ite (i =? i) p q ≡ p
own_phase i p q = if_pos (i =? i) refl p q

other_phase : (i j : ℕ) (p q : Phase) → i ≢ j → ite (i =? j) p q ≡ q
other_phase i j p q n = if_neg (i =? j) n p q

module _ (a b : Call) where
  -- The calls: number 0 is the first, every other number is the second.
  abbrev pub both : ℕ → Call
  both zero = a
  both (suc _) = b

  -- Where the two calls and the store stand.
  record At (x : Calls × MemoryStore) (p q : Phase) (s : MemoryStore) : Type 0 where
    first_call : x.0 0 ≡ p
    second_call : x.0 1 ≡ q
    store : x.1 ≡ s

  move_first :
      {x : Calls × MemoryStore} {p p' q : Phase} {s s' : MemoryStore}
      → At x p q s
      → advance a p s ≡ (p', s')
      → At (move both 0 x) p' q s'
  unfolding move
  move_first {x} {p} {p'} {q} {s} {s'} h e =
      let f : advance a (x.0 0) x.1 ≡ (p', s') = rw (h.first_call, h.store) e in
      record {
        first_call = own_phase 0 (advance a (x.0 0) x.1).0 (x.0 0) ∙ ap (λ y. y.0) f;
        second_call =
            other_phase 0 1 (advance a (x.0 0) x.1).0 (x.0 1) (λ n. absurd (omega (arith, n)))
            ∙ h.second_call;
        store = ap (λ y. y.1) f;
      }

  move_second :
      {x : Calls × MemoryStore} {p q q' : Phase} {s s' : MemoryStore}
      → At x p q s
      → advance b q s ≡ (q', s')
      → At (move both 1 x) p q' s'
  unfolding move
  move_second {x} {p} {q} {q'} {s} {s'} h e =
      let f : advance b (x.0 1) x.1 ≡ (q', s') = rw (h.second_call, h.store) e in
      record {
        first_call =
            other_phase 1 0 (advance b (x.0 1) x.1).0 (x.0 0) (λ n. absurd (omega (arith, n)))
            ∙ h.first_call;
        second_call = own_phase 1 (advance b (x.0 1) x.1).0 (x.0 1) ∙ ap (λ y. y.0) f;
        store = ap (λ y. y.1) f;
      }

  module _ (v : AreOrders a.orders) (w : AreOrders b.orders) (s : MemoryStore) where
    -- Two calls for the same nodes, in either order, that name no port take their four steps in turn,
    -- where no connection joins the nodes before: each creates a connection, at the port that it would
    -- have chosen alone.
    pub calls_race :
        a.wanted.port ≡ pos 0
        → b.wanted.port ≡ pos 0
        → sorted_pair b.wanted ≡ sorted_pair a.wanted
        → Missing (joins (sorted_pair a.wanted)) s
        → IsDense s
        → let c : WireguardConnection =
            new_connection a.wanted (new_port a.orders.for_port a.base s) in
          let c' : WireguardConnection =
            new_connection b.wanted (new_port b.orders.for_port b.base s) in
          let (ps, s') = run both (0 ∷ 1 ∷ 0 ∷ 1 ∷ 0 ∷ 1 ∷ 0 ∷ 1 ∷ []) (λ j. starting, s) in
          (ps 0 ≡ ended (ok c))
          × (ps 1 ≡ ended (ok c'))
          × (len s'.connections ≡ len s.connections + 2)
    unfolding run
    calls_race no_port no_port' same missing d =
        let c : WireguardConnection =
          new_connection a.wanted (new_port a.orders.for_port a.base s) in
        let c' : WireguardConnection =
          new_connection b.wanted (new_port b.orders.for_port b.base s) in
        let missing' : Missing (joins (sorted_pair b.wanted)) s = rw same missing in
        let x0 : At (λ j. starting, s) starting starting s = record {
          first_call = refl;
          second_call = refl;
          store = refl;
        } in
        let x1 = move_first x0 (advance-starting a s no_port) in
        let x2 = move_second x1 (advance-starting b s no_port') in
        let x3 = move_first x2 (advance-searching a v s missing) in
        let x4 = move_second x3 (advance-searching b w s missing') in
        let x5 = move_first x4 (advance-choosing a s) in
        let x6 = move_second x5 (advance-choosing b s) in
        let x7 = move_first x6 (advance-adding a s (new_port a.orders.for_port a.base s)) in
        let x8 =
          move_second x7
            (advance-adding b (add_connection c s) (new_port b.orders.for_port b.base s)) in
        (
          x8.first_call,
          x8.second_call,
          ap (λ (t : MemoryStore). len t.connections) x8.store
              ∙ len-add_connection (add_connection c s) c' (add_connection-IsDense s c d)
              ∙ ap suc (len-add_connection s c d)
              ∙ omega arith,
        )
