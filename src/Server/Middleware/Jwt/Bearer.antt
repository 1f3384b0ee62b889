-- ===== src/Server/Middleware/Jwt/Bearer.antt =====
-- Which requests to the dashboard pass, given what the JWT library documents.
use wireguard_babeld_igp.Base.{
  String, Bool, true, false, Option, none, some, ◌≡◌, refl, ◌≤◌, ◌<◌, ◌+◌, ◌%◌, arith, ◌=?◌,
  string_key, sym,
}
use wireguard_babeld_igp.Base.Int.{ℤ}
use wireguard_babeld_igp.Data.Text.{split_space}
use wireguard_babeld_igp.Errors.{Result, ok, err, Error, message}
use wireguard_babeld_igp.Types.{Time}
use wireguard_babeld_igp.Store.Memory.Tasks.{day}
use wireguard_babeld_igp.Server.Http.{next, abort}
use wireguard_babeld_igp.Server.Middleware.Jwt.{
  Claims, Method, hmac, JwtLibrary, generate_token, jwt_auth, check_parts, check_valid, key_for,
  numeric_date, other,
}

abbrev pub second : Time
second = 1_000_000_000

-- A token that was signed under a key parses under it until it expires, and not from then on, if its
-- times are whole seconds, as the text of a token has them.
pub record IsJwt (jwt : JwtLibrary) : Type 0 where
  pub before :
      (claims : Claims) (key token : String) (now : Time) (keys : Method → Result String)
      → jwt.signed_string claims key ≡ ok token
      → claims.expires_at % second ≡ 0
      → claims.issued_at % second ≡ 0
      → keys hmac ≡ ok key
      → now < claims.expires_at
      → jwt.parse_with_claims now token keys ≡ ok (claims, true)
  pub after :
      (claims : Claims) (key token : String) (now : Time) (keys : Method → Result String)
      → jwt.signed_string claims key ≡ ok token
      → claims.expires_at % second ≡ 0
      → keys hmac ≡ ok key
      → claims.expires_at ≤ now
      → (e : Error) × (jwt.parse_with_claims now token keys ≡ err e)

-- A text is found valid only under the key that the key function gives for the method that the text
-- names. `valid now token method key claims` says that the text names this method, that its signature
-- is right under the key, and that it has these claims, which are valid at the time.
abbrev pub IsKeyed : JwtLibrary → (Time → String → Method → String → Claims → Bool) → Type 0
IsKeyed jwt valid =
    (now : Time) (token : String) (keys : Method → Result String) (claims : Claims)
    → jwt.parse_with_claims now token keys ≡ ok (claims, true)
    → (m : Method) × (key : String) × (keys m ≡ ok key) × (valid now token m key claims ≡ true)

-- The key function gives the secret, and for HMAC methods alone.
key_for_sound :
    (secret key : String) (m : Method) → key_for secret m ≡ ok key → (m ≡ hmac) × (secret ≡ key)
unfolding key_for
key_for_sound secret key hmac e = (refl, cc)
key_for_sound secret key other e = cc

numeric_date_whole : (t : Time) → numeric_date t % second ≡ 0
unfolding numeric_date
numeric_date_whole t = omega arith

numeric_date_near : (t : Time) → (numeric_date t ≤ t) × (t < numeric_date t + second)
unfolding numeric_date
numeric_date_near t = (omega arith, omega arith)

split_space_empty : split_space "" ≡ none
unfolding split_space
split_space_empty = refl

module _ (jwt : JwtLibrary) (secret : String) where
  check_valid_sound :
      (r : Result (Claims × Bool)) (id : ℤ) (username : String)
      → check_valid jwt secret r ≡ next (id, username)
      → (claims : Claims) × (r ≡ ok (claims, true))
        × (claims.user_id ≡ id)
        × (claims.username ≡ username)
  unfolding check_valid
  check_valid_sound (err e) id username h = cc
  check_valid_sound (ok (claims, true)) id username h = (claims, refl, ground arith, ground arith)
  check_valid_sound (ok (claims, false)) id username h = cc

  check_parts_sound :
      (now : Time) (parts : Option (String × String)) (id : ℤ) (username : String)
      → check_parts jwt secret now parts ≡ next (id, username)
      → (token : String) × (claims : Claims) × (parts ≡ some ("Bearer", token))
        × (jwt.parse_with_claims now token (key_for secret) ≡ ok (claims, true))
        × (claims.user_id ≡ id)
        × (claims.username ≡ username)
  unfolding check_parts
  check_parts_sound now none id username h = cc
  check_parts_sound now (some (scheme, token)) id username h = elim (scheme =? "Bearer") [
    | yes e ↦
        let (claims, f, g, k) =
          check_valid_sound (jwt.parse_with_claims now token (key_for secret)) id username
            (ground arith) in
        (token, claims, ground arith, f, g, k)
    | no n ↦ absurd (ground arith)
  ]

  jwt_auth_parsed :
      (now : Time) (header : String) (id : ℤ) (username : String)
      → jwt_auth jwt secret now header ≡ next (id, username)
      → (token : String) × (claims : Claims) × (split_space header ≡ some ("Bearer", token))
        × (jwt.parse_with_claims now token (key_for secret) ≡ ok (claims, true))
        × (claims.user_id ≡ id)
        × (claims.username ≡ username)
  unfolding jwt_auth
  jwt_auth_parsed now header id username h = elim (header =? "") [
    | yes e ↦ absurd (ground arith)
    | no n ↦ check_parts_sound now (split_space header) id username (ground arith)
  ]

  -- Where the library finds a text valid only under the key that it is given for the text's method: a
  -- request that passes carries behind "Bearer" a text that names an HMAC method and is signed under
  -- the server's secret, with claims that are valid at the time, and acts for the user of these claims.
  pub jwt_auth_sound :
      (valid : Time → String → Method → String → Claims → Bool)
      → IsKeyed jwt valid
      → (now : Time) (header : String) (id : ℤ) (username : String)
      → jwt_auth jwt secret now header ≡ next (id, username)
      → (token : String) × (claims : Claims) × (split_space header ≡ some ("Bearer", token))
        × (valid now token hmac secret claims ≡ true)
        × (claims.user_id ≡ id)
        × (claims.username ≡ username)
  jwt_auth_sound valid keyed now header id username h =
      let (token, claims, e, parsed, f, g) = jwt_auth_parsed now header id username h in
      let (m, key, k, v) = keyed now token (key_for secret) claims parsed in
      let (is_hmac, same) = key_for_sound secret key m k in
      (token, claims, e, (rw (is_hmac, sym same) at v), f, g)

  jwt_auth_bearer :
      (now : Time) (header token : String)
      → split_space header ≡ some ("Bearer", token)
      → jwt_auth jwt secret now header
        ≡ check_valid jwt secret (jwt.parse_with_claims now token (key_for secret))
  unfolding jwt_auth check_parts
  jwt_auth_bearer now header token e = elim (header =? "") [
    | yes f ↦ absurd (ground (arith, split_space_empty))
    | no n ↦ ground arith
  ]

  module _ (lib : IsJwt jwt) (now later : Time) (id : ℤ) (username token header : String)
      (made : generate_token jwt secret now later id username ≡ ok token)
      (sent : split_space header ≡ some ("Bearer", token)) where
    passes_before :
        (t : Time)
        → t < numeric_date (now + day)
        → jwt_auth jwt secret t header ≡ next (id, username)
    unfolding generate_token key_for check_valid
    passes_before t h = rw (
      jwt_auth_bearer t header token sent,
      lib.before _ secret token t (key_for secret) made (numeric_date_whole (now + day))
          (numeric_date_whole later) refl h,
      check_valid,
    )

    refused_after :
        (t : Time)
        → numeric_date (now + day) ≤ t
        → jwt_auth jwt secret t header ≡ abort 401 (message "Invalid or expired token")
    unfolding generate_token key_for check_valid
    refused_after t h =
        let (e, f) =
          lib.after _ secret token t (key_for secret) made (numeric_date_whole (now + day)) refl
            h in
        rw (jwt_auth_bearer t header token sent, f, check_valid)

    -- A token of GenerateToken passes for its user until a second before a day has gone by since it
    -- was made, and is refused once the day has gone by. Its expiry is cut to whole seconds, so that
    -- within the last second either may be the case.
    pub jwt_auth-generate_token :
        (t : Time)
        → (t + second ≤ now + day → jwt_auth jwt secret t header ≡ next (id, username))
          × (now + day ≤ t
              → jwt_auth jwt secret t header ≡ abort 401 (message "Invalid or expired token"))
    jwt_auth-generate_token t =
        let (lower, upper) = numeric_date_near (now + day) in
        (
          λ h. passes_before t (omega (arith, h, upper)),
          λ h. refused_after t (omega (arith, h, lower)),
        )
