-- ===== src/Store/Gorm/Links/Distinct.antt =====
-- No two pairs of nodes share a port of the ledger.
use wireguard_babeld_igp.Base.{
  ◌≡◌, sym, ◌∙◌, ap, arith, true, Bool-cases, some, List, if◌then◌else◌, inl, inr,
}
use wireguard_babeld_igp.Base.Int.{
  ℤ, pos, int_key, ◌≤ℤ◌, ◌<ℤ◌, max_int, IsInt, inc_parts, inc_bounds, inc,
}
use wireguard_babeld_igp.Errors.{Result}
use wireguard_babeld_igp.Types.{WireguardConnection}
use wireguard_babeld_igp.Store.Gorm.{Database}
use wireguard_babeld_igp.Store.Gorm.Links.{
  Ledger, same_pair, larger, extended, Serves, ServesAll, IsTable, ledger, serve,
}
use wireguard_babeld_igp.Store.Gorm.Links.Refines.{AreNumbered, serve-ServesAll}

-- Each port is at most the top, and belongs to one pair of nodes.
pub record IsDistinct (s : Ledger) : Type 0 where
  pub below : (x y p : ℤ) → s.port_of x y ≡ some p → p ≤ℤ s.top
  pub one :
      (x y u v p : ℤ) → s.port_of x y ≡ some p → s.port_of u v ≡ some p → same_pair x y u v ≡ true
  pub top_IsInt : IsInt s.top

inc_above : (top : ℤ) → IsInt top → top <ℤ pos max_int → top <ℤ inc top
inc_above top i l = ground (arith, inc_parts top)

one_pair :
    (a b x y u v : ℤ)
    → same_pair a b x y ≡ true
    → same_pair a b u v ≡ true
    → same_pair x y u v ≡ true
one_pair a b x y u v h g = ground (arith, h, g)

module _ (a b port : ℤ) (s : Ledger) (above : s.top <ℤ port) (i : IsInt port)
    (h : IsDistinct s) where
  extended_below : (x y p : ℤ) → (extended a b port s).port_of x y ≡ some p → p ≤ℤ larger s.top port
  extended_below x y p e = elim (Bool-cases (same_pair a b x y)) [
    | inl t ↦ ground (arith, above, t, e)
    | inr t ↦ ground (arith, above, t, e, h.below x y p)
  ]

  extended_one :
      (x y u v p : ℤ)
      → (extended a b port s).port_of x y ≡ some p
      → (extended a b port s).port_of u v ≡ some p
      → same_pair x y u v ≡ true
  extended_one x y u v p e f = elim (Bool-cases (same_pair a b x y)) [
    | inl t ↦ elim (Bool-cases (same_pair a b u v)) [
      | inl r ↦ one_pair a b x y u v t r
      | inr r ↦ absurd (
          clash u v p (sym (ap (λ z. if z then some port else s.port_of x y) t) ∙ e)
            (sym (ap (λ z. if z then some port else s.port_of u v) r) ∙ f))
    ]
    | inr t ↦ elim (Bool-cases (same_pair a b u v)) [
      | inl r ↦ absurd (
          clash x y p (sym (ap (λ z. if z then some port else s.port_of u v) r) ∙ f)
            (sym (ap (λ z. if z then some port else s.port_of x y) t) ∙ e))
      | inr r ↦
          h.one x y u v p (sym (ap (λ z. if z then some port else s.port_of x y) t) ∙ e)
            (sym (ap (λ z. if z then some port else s.port_of u v) r) ∙ f)
    ]
  ]
    where
      clash : (x y p : ℤ) → some port ≡ some p → s.port_of x y ≡ some p → ⊥
      clash x y p e f = ground (arith, above, e, h.below x y p f)

  extended-IsDistinct : IsDistinct (extended a b port s)
  extended-IsDistinct = record {
    below = extended_below;
    one = extended_one;
    top_IsInt = ground (arith, i, h.top_IsInt);
  }

module _ (base : ℤ) (i : IsInt base) where
  serves_top : (a b : ℤ) (s t : Ledger) (r : Result ℤ) → Serves base a b s r t → s.top ≤ℤ t.top
  serves_top a b s t r (Serves.known e) = omega arith
  serves_top a b s t r (Serves.at_base e f) = ground arith
  serves_top a b s t r (Serves.after_top e f) = ground arith
  serves_top a b s t r (Serves.refused e) = omega arith

  serves_all_top :
      (s t : Ledger) (l : List (ℤ × ℤ)) (rs : List (Result ℤ))
      → ServesAll base s l rs t
      → s.top ≤ℤ t.top
  serves_all_top s t l rs ServesAll.done = omega arith
  serves_all_top s t l rs (ServesAll.then p q) =
      let first = serves_top _ _ s _ _ p in
      let rest = serves_all_top _ t _ _ q in omega (arith, first, rest)

  Serves-IsDistinct :
      (a b : ℤ) (s t : Ledger) (r : Result ℤ)
      → Serves base a b s r t
      → s.top <ℤ pos max_int
      → IsDistinct s
      → IsDistinct t
  Serves-IsDistinct a b s t r (Serves.known e) l h = h
  Serves-IsDistinct a b s t r (Serves.at_base e f) l h = extended-IsDistinct a b base s f i h
  Serves-IsDistinct a b s t r (Serves.after_top e f) l h =
      extended-IsDistinct a b (inc s.top) s (inc_above s.top h.top_IsInt l) (inc_bounds s.top) h
  Serves-IsDistinct a b s t r (Serves.refused e) l h = h

  ServesAll-IsDistinct :
      (s t : Ledger) (l : List (ℤ × ℤ)) (rs : List (Result ℤ))
      → ServesAll base s l rs t
      → t.top <ℤ pos max_int
      → IsDistinct s
      → IsDistinct t
  ServesAll-IsDistinct s t l rs ServesAll.done m h = h
  ServesAll-IsDistinct s t l rs (ServesAll.then p q) m h =
      let first = serves_top _ _ s _ _ p in
      let rest = serves_all_top _ t _ _ q in
      ServesAll-IsDistinct _ t _ _ q m
        (Serves-IsDistinct _ _ s _ _ p (omega (arith, first, rest)) h)

  -- Where the rows of the table give no port to two pairs of nodes, no requests for nodes with
  -- identifiers lead to rows that do, as long as the largest port stays below the largest `int`.
  pub serve-IsDistinct :
      {D : Type 0} (db : Database D) (rows : D → List WireguardConnection)
      → IsTable db rows
      → (l : List (ℤ × ℤ)) (d : D) → AreNumbered l
      → let (rs, d') = serve db rows base l d in
        (ledger db rows d').top <ℤ pos max_int
        → IsDistinct (ledger db rows d)
        → IsDistinct (ledger db rows d')
  serve-IsDistinct db rows table l d n m h =
      ServesAll-IsDistinct _ _ _ _ (serve-ServesAll db rows table base l d n).0 m h
