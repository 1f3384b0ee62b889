-- ===== src/Server/Services/Users.antt =====
-- pkg/server/services/user_service.go: registration and login, with the functions of password.go and
-- the GenerateToken of jwt.go that they call. A request is `none` if it does not bind.
pub mod Accounts
use wireguard_babeld_igp.Base.{String, Bool, true, false, Option, none, some, if◌then◌else◌}
use wireguard_babeld_igp.Base.Int.{ℤ}
use wireguard_babeld_igp.Errors.{Result, ok, err, is_missing, message}
use wireguard_babeld_igp.Types.{Time, User, zero_user}
use wireguard_babeld_igp.Store.Interface.{Store}
use wireguard_babeld_igp.Password.{
  Bytes, Crypto, Call, returns, panics, hash_password, verify_password,
}
use wireguard_babeld_igp.Server.Middleware.Jwt.{JwtLibrary, generate_token}
use wireguard_babeld_igp.Server.Http.{Response, respond, reject, panic}

-- The body of both requests.
pub record Credentials : Type 0 where
  pub username : String
  pub password : String

-- The body of the answer to a registration; a login adds the token.
pub record Account : Type 0 where
  pub id : ℤ
  pub username : String

module _ {S : Type 0} (store : Store S) where
  created : User × (Result (Unit {0}) × S) → Response Account × S
  created (user, (err e, s)) = (reject 500 (message "Internal server error"), s)
  created (user, (ok _, s)) = (respond 201 (record { id = user.id; username = user.username }), s)

  create_hashed : Time → Time → String → Call String → S → Response Account × S
  unfolding created
  create_hashed now later username panics s = (panic, s)
  create_hashed now later username (returns (err e)) s =
      (reject 500 (message "Internal server error"), s)
  create_hashed now later username (returns (ok hashed)) s =
      created (
        store.create_user now later (record zero_user { username = username; password = hashed }) s)

  module _ (crypto : Crypto) where
    -- `salt` is the answer of rand.Read in HashPassword.
    create_unless_exists :
        Result Bytes → Time → Time → Credentials → Result Bool → S → Response Account × S
    unfolding create_hashed
    create_unless_exists salt now later req (err e) s =
        (reject 500 (message "Internal server error"), s)
    create_unless_exists salt now later req (ok true) s =
        (reject 409 (message "Username already exists"), s)
    create_unless_exists salt now later req (ok false) s =
        create_hashed now later req.username (hash_password crypto salt req.password) s

    unfoldable pub handle_register :
        Result Bytes → Time → Time → Option Credentials → S → Response Account × S
    unfolding create_unless_exists
    handle_register salt now later none s = (reject 400 (message "Invalid request body"), s)
    handle_register salt now later (some req) s =
        create_unless_exists salt now later req (store.check_user_exists req.username s) s

  signed : User → Result String → Response (String × Account)
  signed user (err e) = reject 500 (message "Internal server error")
  signed user (ok token) = respond 200 (token, record { id = user.id; username = user.username })

  -- `sign` is GenerateToken, with the secret and the clock's answers.
  verified : (ℤ → String → Result String) → User → Call Bool → Response (String × Account)
  unfolding signed
  verified sign user panics = panic
  verified sign user (returns (err e)) = reject 500 (message "Internal server error")
  verified sign user (returns (ok false)) = reject 401 (message "Invalid username or password")
  verified sign user (returns (ok true)) = signed user (sign user.id user.username)

  found :
      Crypto
      → (ℤ → String → Result String)
      → String
      → Result (Option User)
      → Response (String × Account)
  unfolding verified
  found crypto sign password (err e) =
      if is_missing e
      then reject 401 (message "Invalid username or password")
      else reject 500 (message "Internal server error")
  -- user.Password through a nil pointer
  found crypto sign password (ok none) = panic
  found crypto sign password (ok (some user)) =
      verified sign user (verify_password crypto password user.password)

  unfoldable pub handle_login :
      Crypto
      → JwtLibrary
      → String
      → Time
      → Time
      → Option Credentials
      → S
      → Response (String × Account)
  unfolding found
  handle_login crypto jwt secret now later none s = reject 400 (message "Invalid request body")
  handle_login crypto jwt secret now later (some req) s =
      found crypto (generate_token jwt secret now later) req.password
        (store.get_user_by_username req.username s)
