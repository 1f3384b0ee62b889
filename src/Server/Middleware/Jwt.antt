-- ===== src/Server/Middleware/Jwt.antt =====
-- pkg/server/middleware/jwt.go: a user of the dashboard shows a signed token.
pub mod Bearer
use wireguard_babeld_igp.Base.{
  String, Bool, Option, none, some, ite, ◌=?◌, string_key, ◌+◌, ◌-◌, ◌%◌, if◌then◌else◌,
}
use wireguard_babeld_igp.Base.Int.{ℤ}
use wireguard_babeld_igp.Data.Text.{split_space}
use wireguard_babeld_igp.Errors.{Result, ok, err, message}
use wireguard_babeld_igp.Types.{Time}
use wireguard_babeld_igp.Store.Memory.Tasks.{day}
use wireguard_babeld_igp.Server.Http.{Filter, next, abort}

pub record Claims : Type 0 where
  pub user_id : ℤ
  pub username : String
  pub expires_at : Time
  pub issued_at : Time

-- The signing method that a token names in its header.
pub data Method : Type 0 where
  hmac other : Method

-- github.com/golang-jwt/jwt/v5. `signed_string` signs claims under HS256. `parse_with_claims` is
-- given the key function: it fails if the text is no token, if the key function fails, or if the
-- token is not valid under the key at the time, and answers with the claims and `token.Valid`.
pub record JwtLibrary : Type 0 where
  pub signed_string : Claims → String → Result String
  pub parse_with_claims : Time → String → (Method → Result String) → Result (Claims × Bool)

-- NewNumericDate of the library: a time in whole seconds.
unfoldable pub numeric_date : Time → Time
numeric_date t = t - t % 1_000_000_000

-- The key function: a key for HMAC methods alone.
unfoldable pub key_for : String → Method → Result String
key_for secret hmac = ok secret
key_for secret other = err (message "invalid signing method")

module _ (jwt : JwtLibrary) (secret : String) where
  -- `later` is the clock's second answer.
  unfoldable pub generate_token : Time → Time → ℤ → String → Result String
  unfolding numeric_date
  generate_token now later id username =
      jwt.signed_string
        (record {
          user_id = id;
          username = username;
          expires_at = numeric_date (now + day);
          issued_at = numeric_date later;
        })
        secret

  check_valid : Result (Claims × Bool) → Filter (ℤ × String)
  check_valid (err e) = abort 401 (message "Invalid or expired token")
  check_valid (ok (claims, valid)) =
      if valid then next (claims.user_id, claims.username) else abort 401 (message "Invalid token")

  check_parts : Time → Option (String × String) → Filter (ℤ × String)
  unfolding check_valid key_for
  check_parts now none = abort 401 (message "Invalid authorization header format")
  check_parts now (some (scheme, token)) =
      ite (scheme =? "Bearer") (check_valid (jwt.parse_with_claims now token (key_for secret)))
        (abort 401 (message "Invalid authorization header format"))

  -- The middleware, on the value of the Authorization header, which is empty if there is none.
  unfoldable pub jwt_auth : Time → String → Filter (ℤ × String)
  unfolding check_parts
  jwt_auth now header =
      ite (header =? "") (abort 401 (message "Authorization header is required"))
        (check_parts now (split_space header))
