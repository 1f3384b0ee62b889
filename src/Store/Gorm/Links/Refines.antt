-- ===== src/Store/Gorm/Links/Refines.antt =====
-- GormStore keeps the ledger of its ports.
use mathlib.Core.Path.{subst}
use wireguard_babeld_igp.Base.{
  inl, inr, Bool-cases, ◌≡◌, ◌≢◌, refl, sym, ◌∙◌, ap, arith, Option, none, some, List, [], ◌∷◌,
  Bool-cases,
}
use wireguard_babeld_igp.Base.Int.{ℤ, pos, int_key, ltb_ℤ}
use wireguard_babeld_igp.Errors.{Error, Result, ok, err, wrap, is_not_found}
use wireguard_babeld_igp.Types.{WireguardConnection}
use wireguard_babeld_igp.Store.Memory.Connections.{new_connection}
use wireguard_babeld_igp.Store.Gorm.{Database}
use wireguard_babeld_igp.Store.Gorm.Connections.{
  joins, next_port, get_or_create, by_pair_or_create, found_or_create, create_connection,
  create_above, inserted,
}
use wireguard_babeld_igp.Store.Gorm.Links.{
  extended, Serves, ServesAll, Succeeds, Accepts, AreServed, first_of, or_not_found, top_of,
  Creates, IsTable, port_in, ledger, ledger_of, wanted, port_result, serve, Ledger,
}
use wireguard_babeld_igp.Store.Gorm.Links.Rows.{ledger_last}

-- Both nodes of each request have an identifier.
abbrev pub AreNumbered : List (ℤ × ℤ) → Type 0
AreNumbered [] = Unit
AreNumbered ((a, b) ∷ l) = (a ≢ pos 0) × (b ≢ pos 0) × AreNumbered l

assigned :
    (base a b : ℤ) (s : Ledger)
    → s.port_of a b ≡ none
    → Serves base a b s (ok (next_port base s.top)) (extended a b (next_port base s.top) s)
unfolding next_port
assigned base a b s h = elim (Bool-cases (ltb_ℤ s.top base)) [
  | inl e ↦ rw e (Serves.at_base h (ground (arith, e)))
  | inr e ↦ rw e (Serves.after_top h (ground (arith, e)))
]

module _ {D : Type 0} (db : Database D) (rows : D → List WireguardConnection)
    (table : IsTable db rows) where
  -- Which result and state the method ends with, when the first query has answered.
  abbrev pub answer :
      WireguardConnection → ℤ → Option WireguardConnection → D → Result WireguardConnection × D
  answer w base o d = found_or_create db w base (or_not_found o) d

  pub pair_answer :
      (w : WireguardConnection) (base : ℤ) (d : D)
      → w.port ≡ pos 0
      → w.node_id ≢ pos 0
      → w.peer_id ≢ pos 0
      → get_or_create db (some w) base d
        ≡ answer w base (first_of (joins w.node_id w.peer_id) (rows d)) d
  unfolding get_or_create by_pair_or_create
  pair_answer w base d e n m =
      rw (sym (table.first (joins w.node_id w.peer_id) d)) (ground (arith, e, n, m))

  module _ (base a b : ℤ) (d : D) where
    abbrev Served : Result WireguardConnection × D → Type 0
    Served (r, d') = Serves base a b (ledger db rows d) (port_result r) (ledger db rows d')

    inserted-Served :
        (x : WireguardConnection × (Option Error × D))
        → first_of (joins a b) (rows d) ≡ none
        → Creates db rows (new_connection (wanted a b) (next_port base (top_of (rows d)))) d x
        → Served (inserted db x)
    unfolding Creates inserted
    inserted-Served (c, (none, d')) h (e, f, p, r) =
        let port = next_port base (top_of (rows d)) in
        let grown =
          ap ledger_of r
          ∙ ledger_last base a b (rows d) c e f p h
          ∙ ap (λ q. extended a b q (ledger db rows d)) p in
        subst (λ q. Serves base a b (ledger db rows d) (ok q) (ledger db rows d')) (sym p)
          (subst (λ s. Serves base a b (ledger db rows d) (ok port) s) (sym grown)
            (assigned base a b (ledger db rows d) (ap port_in h)))
    inserted-Served (c, (some e, d')) h r =
        subst
          (λ s. Serves base a b (ledger db rows d) (err (wrap "creating wireguard connection" e)) s)
          (sym (ap ledger_of r)) (Serves.refused _)

    answer-Served :
        (o : Option WireguardConnection)
        → first_of (joins a b) (rows d) ≡ o
        → Served (answer (wanted a b) base o d)
    unfolding found_or_create create_connection create_above is_not_found
    answer-Served none h = rw (table.max d) (inserted-Served _ h (table.create _ d))
    answer-Served (some c) h = Serves.known (ap port_in h)

    -- A request for two nodes is answered as the ledger of the rows says, if the database answers.
    get_or_create-Served :
        a ≢ pos 0 → b ≢ pos 0 → Served (get_or_create db (some (wanted a b)) base d)
    get_or_create-Served n m = rw (pair_answer (wanted a b) base d refl n m) (answer-Served _ refl)

  module _ (full : Accepts db rows) where
    abbrev Granted : Result WireguardConnection × D → Type 0
    Granted (r, d') = AreServed (port_result r ∷ [])

    inserted-Granted :
        (x : WireguardConnection × (Option Error × D))
        → Succeeds db rows x.1.0
        → Granted (inserted db x)
    unfolding inserted Succeeds AreServed
    inserted-Granted (c, (none, d')) h = tt
    inserted-Granted (c, (some e, d')) h = h

    answer-Granted :
        (w : WireguardConnection) (base : ℤ) (o : Option WireguardConnection) (d : D)
        → Granted (answer w base o d)
    unfolding found_or_create create_connection create_above is_not_found AreServed Accepts
    answer-Granted w base none d = rw (table.max d) (inserted-Granted _ (full _ d))
    answer-Granted w base (some c) d = tt

    served_first :
        (r : Result ℤ) (rs : List (Result ℤ))
        → AreServed (r ∷ [])
        → AreServed rs
        → AreServed (r ∷ rs)
    unfolding AreServed
    served_first (ok port) rs h g = g
    served_first (err e) rs h g = h

    serve-AreServed :
        (base : ℤ) (l : List (ℤ × ℤ)) (d : D) → AreNumbered l → AreServed (serve db rows base l d).0
    unfolding serve AreServed
    serve-AreServed base [] d n = tt
    serve-AreServed base ((a, b) ∷ l) d (n, m, ns) =
        served_first (port_result (get_or_create db (some (wanted a b)) base d).0)
          (serve db rows base l (get_or_create db (some (wanted a b)) base d).1).0
          (rw (pair_answer (wanted a b) base d refl n m) (answer-Granted (wanted a b) base _ d))
          (serve-AreServed base l (get_or_create db (some (wanted a b)) base d).1 ns)

  serve_lem :
      (base : ℤ) (l : List (ℤ × ℤ)) (d : D)
      → AreNumbered l
      → let (rs, d') = serve db rows base l d in
        ServesAll base (ledger db rows d) l rs (ledger db rows d')
  unfolding serve
  serve_lem base [] d n = ServesAll.done
  serve_lem base ((a, b) ∷ l) d (n, m, ns) =
      ServesAll.then (get_or_create-Served base a b d n m)
        (serve_lem base l (get_or_create db (some (wanted a b)) base d).1 ns)

  -- Requests for any nodes with identifiers, one after the other, are answered as the ledger of the
  -- rows at the start says, and at the end the rows stand for the ledger that these answers lead to:
  -- a port that the two nodes have, in whichever order, or the base port if it is above all others, or
  -- the number after the largest port; a request that the database refuses gets an error and changes
  -- nothing. A database that takes each new connection refuses no request.
  pub serve-ServesAll :
      (base : ℤ) (l : List (ℤ × ℤ)) (d : D)
      → AreNumbered l
      → let (rs, d') = serve db rows base l d in
        ServesAll base (ledger db rows d) l rs (ledger db rows d')
        × (Accepts db rows → AreServed rs)
  serve-ServesAll base l d n = (serve_lem base l d n, λ full. serve-AreServed full base l d n)
