-- ===== src/Store/Memory/Connections/Loops.antt =====
-- What the loops over the connections find.
use wireguard_babeld_igp.Base.{◌≡◌, refl, inl, inr, List, [], ◌∷◌, arith, ap, if◌then◌else◌}
use wireguard_babeld_igp.Base.Int.{ℤ, ◌≤ℤ◌, ltb_ℤ}
use wireguard_babeld_igp.Data.Map.Range.{In}
use wireguard_babeld_igp.Types.{WireguardConnection}
use wireguard_babeld_igp.Store.Memory.Connections.{max_port}

pub max_port_ge : (top : ℤ) (l : List (ℤ × WireguardConnection)) → top ≤ℤ max_port top l
unfolding max_port
max_port_ge top [] = omega arith
max_port_ge top ((k, c) ∷ l) =
    ground (arith, max_port_ge (if ltb_ℤ top c.port then c.port else top) l)

pub max_port_In :
    (top : ℤ) (l : List (ℤ × WireguardConnection)) (k : ℤ) (c : WireguardConnection)
    → In (k, c) l
    → c.port ≤ℤ max_port top l
unfolding max_port
max_port_In top ((i, d) ∷ l) k c (inl e) = ground (
  arith,
  ap (λ (p : ℤ × WireguardConnection). p.1) e,
  max_port_ge (if ltb_ℤ top d.port then d.port else top) l,
)
max_port_In top ((i, d) ∷ l) k c (inr m) =
    max_port_In (if ltb_ℤ top d.port then d.port else top) l k c m
max_port_In top [] k c m = absurd m

-- With no port above it, the loop leaves its start.
pub max_port_self :
    (top : ℤ) (l : List (ℤ × WireguardConnection))
    → ((k : ℤ) (c : WireguardConnection) → In (k, c) l → c.port ≤ℤ top)
    → max_port top l ≡ top
unfolding max_port
max_port_self top [] h = refl
max_port_self top ((i, d) ∷ l) h =
    ground (arith, h i d (inl refl), max_port_self top l (λ k c m. h k c (inr m)))
