-- ===== src/Config/Checks.antt =====
-- What a configuration that loads holds.
use mathlib.Core.Path.{subst}
use wireguard_babeld_igp.Base.{
  ◌≡◌, ◌≢◌, ◌↔◌, refl, String, Bool, arith, Option, ◌=?◌, string_key, if_neg,
}
use wireguard_babeld_igp.Base.Int.{ℤ, pos, int_key, ◌<ℤ◌}
use wireguard_babeld_igp.Errors.{Error, Result, ok, err, wrapped, ◌>>=◌, ◌>>◌}
use wireguard_babeld_igp.Config.{
  ServerConfig, required, positive, validate, load_config, load_server_config,
  resolve_relative_paths,
}

-- The fields that Validate asks for.
abbrev pub IsComplete : ServerConfig → Type 0
IsComplete c =
    (c.server.host ≢ "")
    × (pos 0 <ℤ c.server.port)
    × (pos 0 <ℤ c.network.base_port)
    × (c.network.ipv4_range ≢ "")
    × (c.network.ipv6_range ≢ "")
    × (c.storage.type ≢ "")

required_lem : (text s : String) → (required text s ≡ ok tt) ↔ (s ≢ "")
unfolding required
required_lem text s = (λ h e. ground arith, λ n. if_neg (s =? "") n _ _)

positive_lem : (text : String) (z : ℤ) → (positive text z ≡ ok tt) ↔ (pos 0 <ℤ z)
unfolding positive
positive_lem text z = (λ h. ground arith, λ h. ground arith)

then_lem : (m k : Result (Unit {0})) → ((m >> k) ≡ ok tt) ↔ ((m ≡ ok tt) × (k ≡ ok tt))
then_lem (ok u) k = (λ h. (refl, h), λ h. h.1)
then_lem (err e) k = (λ h. cc, λ h. cc)

-- Validate accepts a configuration exactly when it has a host, an IPv4 range, an IPv6 range and a
-- storage type, and its two ports are positive.
pub validate_lem : (c : ServerConfig) → (validate c ≡ ok tt) ↔ IsComplete c
unfolding validate
validate_lem c =
    let host = required_lem "server.host is required" c.server.host in
    let port = positive_lem "invalid server.port: " c.server.port in
    let base = positive_lem "invalid network.base_port: " c.network.base_port in
    let ipv4 = required_lem "network.ipv4_range is required" c.network.ipv4_range in
    let ipv6 = required_lem "network.ipv6_range is required" c.network.ipv6_range in
    let storage = required_lem "storage.type is required" c.storage.type in
    let r1 : Result (Unit {0}) = required "server.host is required" c.server.host in
    let r2 : Result (Unit {0}) = r1 >> positive "invalid server.port: " c.server.port in
    let r3 : Result (Unit {0}) = r2 >> positive "invalid network.base_port: " c.network.base_port in
    let r4 : Result (Unit {0}) =
      r3 >> required "network.ipv4_range is required" c.network.ipv4_range in
    let r5 : Result (Unit {0}) =
      r4 >> required "network.ipv6_range is required" c.network.ipv6_range in
    (
      λ h.
          let (h5, t) = (then_lem r5 (required "storage.type is required" c.storage.type)).0 h in
          let (h4, v6) =
            (then_lem r4 (required "network.ipv6_range is required" c.network.ipv6_range)).0 h5 in
          let (h3, v4) =
            (then_lem r3 (required "network.ipv4_range is required" c.network.ipv4_range)).0 h4 in
          let (h2, b) =
            (then_lem r2 (positive "invalid network.base_port: " c.network.base_port)).0 h3 in
          let (h1, p) = (then_lem r1 (positive "invalid server.port: " c.server.port)).0 h2 in
          (host.0 h1, port.0 p, base.0 b, ipv4.0 v4, ipv6.0 v6, storage.0 t),
      λ (h, p, b, v4, v6, t).
          rw (host.1 h, port.1 p, base.1 b, ipv4.1 v4, ipv6.1 v6, storage.1 t) refl,
    )

then_ok :
    {A : Type 0} (text : String) (m : Result (Unit {0})) (a b : A)
    → (wrapped text m >> ok a) ≡ ok b
    → (m ≡ ok tt) × (a ≡ b)
then_ok text (ok u) a b h = (refl, cc)
then_ok text (err e) a b h = cc

wrapped_ok : {A : Type 0} (text : String) (r : Result A) (a : A) → wrapped text r ≡ ok a → r ≡ ok a
wrapped_ok text (ok b) a h = h
wrapped_ok text (err e) a h = cc

bind_ok :
    {A B : Type 0} (r : Result A) (f : A → Result B) (b : B)
    → (r >>= f) ≡ ok b
    → (a : A) × (r ≡ ok a) × (f a ≡ ok b)
bind_ok (ok a) f b h = (a, refl, h)
bind_ok (err e) f b h = cc

-- A server's configuration that loads is complete, before its paths are resolved.
pub load_server_config-IsComplete :
    (is_abs : String → Bool) (join : String → String → String)
    (parse : String → Result ServerConfig) (mkdir : String → Option Error) (base : String)
    (read : Result String) (c : ServerConfig)
    → load_server_config is_abs join parse mkdir base read ≡ ok c
    → (c' : ServerConfig) × IsComplete c'
      × (resolve_relative_paths is_abs join mkdir base c' ≡ ok c)
unfolding load_server_config load_config
load_server_config-IsComplete is_abs join parse mkdir base read c h =
    let (c', e, f) = bind_ok (load_config parse validate read) _ c h in
    let (d, r, e2) = bind_ok (wrapped "reading config file" read) _ c' e in
    let (c2, p, e3) = bind_ok (wrapped "parsing config file" (parse d)) _ c' e2 in
    let (valid, same) = then_ok "validating config" (validate c2) c2 c' e3 in
    (c', subst IsComplete same ((validate_lem c2).0 valid), wrapped_ok "resolving paths" _ c f)
