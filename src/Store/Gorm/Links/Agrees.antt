-- ===== src/Store/Gorm/Links/Agrees.antt =====
-- Two calls of GormStore's GetOrCreateWireguardConnection for the same two nodes.
use wireguard_babeld_igp.Base.{
  ◌≡◌, ◌≢◌, ◌⊎◌, refl, sym, ◌∙◌, ap, arith, Option, none, some, List, inl, inr,
}
use wireguard_babeld_igp.Base.Int.{ℤ, pos, int_key}
use wireguard_babeld_igp.Errors.{Error, ok, is_not_found}
use wireguard_babeld_igp.Types.{WireguardConnection}
use wireguard_babeld_igp.Store.Memory.Connections.{new_connection}
use wireguard_babeld_igp.Store.Gorm.{Database}
use wireguard_babeld_igp.Store.Gorm.Connections.{
  joins, next_port, get_or_create, found_or_create, create_connection, create_above, inserted,
}
use wireguard_babeld_igp.Store.Gorm.Links.{first_of, top_of, Creates, IsTable}
use wireguard_babeld_igp.Store.Gorm.Links.Rows.{first_of_same, first_of_last, joins_swapped}
use wireguard_babeld_igp.Store.Gorm.Links.Refines.{answer, pair_answer}

-- The same two nodes, in the same order or in the other.
unfoldable pub SameNodes : WireguardConnection → WireguardConnection → Type 0
SameNodes v w =
    ((v.node_id ≡ w.node_id) × (v.peer_id ≡ w.peer_id))
    ⊎ ((v.node_id ≡ w.peer_id) × (v.peer_id ≡ w.node_id))

-- A request by two nodes with identifiers.
pub record ByPair (w : WireguardConnection) : Type 0 where
  pub port : w.port ≡ pos 0
  pub node : w.node_id ≢ pos 0
  pub peer : w.peer_id ≢ pos 0

SameNodes-joins :
    (v w : WireguardConnection)
    → SameNodes v w
    → (c : WireguardConnection) → joins v.node_id v.peer_id c ≡ joins w.node_id w.peer_id c
unfolding SameNodes
SameNodes-joins v w (inl (e, f)) c = rw (e, f) refl
SameNodes-joins v w (inr (e, f)) c = rw (e, f) (joins_swapped w.peer_id w.node_id c)

module _ {D : Type 0} (db : Database D) (rows : D → List WireguardConnection)
    (table : IsTable db rows) (w : WireguardConnection) (base : ℤ) (d : D) (c : WireguardConnection)
    (d' : D) where
  abbrev found_in : D → Option WireguardConnection
  found_in e = first_of (joins w.node_id w.peer_id) (rows e)

  inserted_found :
      (x : WireguardConnection × (Option Error × D))
      → found_in d ≡ none
      → Creates db rows (new_connection w (next_port base (top_of (rows d)))) d x
      → inserted db x ≡ (ok c, d')
      → found_in d' ≡ some c
  unfolding Creates inserted
  inserted_found (c1, (none, d1)) h (e, f, p, r) g =
      let here : found_in d1 ≡ some c1 =
        ap (first_of (joins w.node_id w.peer_id)) r
        ∙ first_of_last (joins w.node_id w.peer_id) (rows d) c1
        ∙ ground (arith, h, e, f) in
      ground (arith, here, g)
  inserted_found (c1, (some x, d1)) h r g = cc

  answer_found :
      (o : Option WireguardConnection)
      → found_in d ≡ o
      → answer db rows table w base o d ≡ (ok c, d')
      → found_in d' ≡ some c
  unfolding found_or_create create_connection create_above is_not_found
  answer_found none h g =
      inserted_found _ h (table.create _ d)
        (ap (λ t. create_above db w base t d) (sym (table.max d)) ∙ g)
  answer_found (some x) h g = ground (arith, h, g)

  -- Two nodes keep their connection: once a call for them has succeeded, every further call for them,
  -- in either order and with any base port, answers with the same connection and changes nothing.
  pub second_get_or_create :
      (v : WireguardConnection) (other : ℤ)
      → ByPair w
      → ByPair v
      → SameNodes v w
      → get_or_create db (some w) base d ≡ (ok c, d')
      → get_or_create db (some v) other d' ≡ (ok c, d')
  unfolding found_or_create
  second_get_or_create v other p q s g =
      let found =
        answer_found (found_in d) refl
          (sym (pair_answer db rows table w base d p.port p.node p.peer) ∙ g) in
      pair_answer db rows table v other d' q.port q.node q.peer
      ∙ ap (λ o. answer db rows table v other o d')
          (first_of_same _ _ (rows d') (SameNodes-joins v w s) ∙ found)
