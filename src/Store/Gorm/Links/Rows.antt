-- ===== src/Store/Gorm/Links/Rows.antt =====
-- First, and the largest port, on a list of rows.
use wireguard_babeld_igp.Base.{
  Bool-cases, inl, inr, ◌≡◌, refl, ◌∙◌, arith, Bool, true, Option, none, some, List, [], ◌∷◌, ◌++◌,
  if◌then◌else◌,
}
use wireguard_babeld_igp.Base.Int.{ℤ, pos, ltb_ℤ, int_key, inc_parts}
use wireguard_babeld_igp.Types.{WireguardConnection}
use wireguard_babeld_igp.Store.Gorm.Connections.{joins, next_port}
use wireguard_babeld_igp.Store.Gorm.Links.{
  first_of, largest, top_of, larger, same_pair, port_in, ledger_of, extended,
}

module _ {ℓ} {X : Type ℓ} where
  pub first_of_same :
      (p q : X → Bool) (l : List X) → ((x : X) → p x ≡ q x) → first_of p l ≡ first_of q l
  unfolding first_of
  first_of_same p q [] h = refl
  first_of_same p q (x ∷ l) h = rw (h x, first_of_same p q l h) refl

  abbrev pub or_last : (X → Bool) → X → Option X → Option X
  or_last p c none = if p c then some c else none
  or_last p c (some x) = some x

  pub first_of_last :
      (p : X → Bool) (l : List X) (c : X) → first_of p (l ++ (c ∷ [])) ≡ or_last p c (first_of p l)
  unfolding first_of
  first_of_last p [] c = refl
  first_of_last p (x ∷ l) c = ground (arith, first_of_last p l c)

pub joins_swapped : (a b : ℤ) (c : WireguardConnection) → joins a b c ≡ joins b a c
joins_swapped a b c = ground arith

pub joins_new :
    (a b x y : ℤ) (c : WireguardConnection)
    → c.node_id ≡ a
    → c.peer_id ≡ b
    → joins x y c ≡ same_pair a b x y
joins_new a b x y c e f = ground (arith, e, f)

pub largest_last :
    (top : ℤ) (l : List WireguardConnection) (c : WireguardConnection)
    → largest top (l ++ (c ∷ [])) ≡ larger (largest top l) c.port
unfolding largest
largest_last top [] c = refl
largest_last top (x ∷ l) c = largest_last (larger top x.port) l c

first_port : (base : ℤ) → ltb_ℤ (pos 0) (next_port base (pos 0)) ≡ true
unfolding next_port
first_port base = ground (arith, inc_parts (pos 0))

pub top_of_last :
    (base : ℤ) (l : List WireguardConnection) (c : WireguardConnection)
    → c.port ≡ next_port base (top_of l)
    → top_of (l ++ (c ∷ [])) ≡ larger (top_of l) c.port
unfolding top_of largest
top_of_last base [] c e = ground (arith, e, first_port base)
top_of_last base (x ∷ l) c e = largest_last x.port l c

same_joins :
    (a b x y : ℤ) → same_pair a b x y ≡ true → (c : WireguardConnection) → joins x y c ≡ joins a b c
same_joins a b x y h c = ground (arith, h)

-- The port of any two nodes after a row for two nodes that had none.
port_of_last :
    (a b : ℤ) (l : List WireguardConnection) (c : WireguardConnection)
    → c.node_id ≡ a
    → c.peer_id ≡ b
    → first_of (joins a b) l ≡ none
    → (x y : ℤ)
    → port_in (first_of (joins x y) (l ++ (c ∷ [])))
      ≡ (if same_pair a b x y then some c.port else port_in (first_of (joins x y) l))
port_of_last a b l c e f h x y = elim (Bool-cases (same_pair a b x y)) [
  | inl s ↦
      let g = first_of_same (joins x y) (joins a b) l (same_joins a b x y s) ∙ h in
      ground (arith, first_of_last (joins x y) l c, g, joins_new a b x y c e f, s)
  | inr s ↦ ground (arith, first_of_last (joins x y) l c, joins_new a b x y c e f, s)
]

pub ledger_last :
    (base a b : ℤ) (l : List WireguardConnection) (c : WireguardConnection)
    → c.node_id ≡ a
    → c.peer_id ≡ b
    → c.port ≡ next_port base (top_of l)
    → first_of (joins a b) l ≡ none
    → ledger_of (l ++ (c ∷ [])) ≡ extended a b c.port (ledger_of l)
ledger_last base a b l c e f p h = λ i. record {
  port_of = λ x y. port_of_last a b l c e f h x y i;
  top = top_of_last base l c p i;
}
