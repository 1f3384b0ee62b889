-- ===== src/Server/Services/Users/Accounts.antt =====
-- Registration followed by login, over MemoryStore.
use wireguard_babeld_igp.Base.{
  String, Bool, true, false, Option, none, some, ◌≡◌, ◌≢◌, refl, inl, inr, arith, string_key,
}
use wireguard_babeld_igp.Base.Int.{ℤ, inc, int_key}
use wireguard_babeld_igp.Errors.{Result, ok, err, message}
use wireguard_babeld_igp.Types.{Time, User, zero_user}
use wireguard_babeld_igp.Store.Memory.{MemoryStore}
use wireguard_babeld_igp.Store.Memory.Users.{check_user_exists}
use wireguard_babeld_igp.Store.Memory.Users.Index.{
  IsIndexed, get_user_by_username_cases, create_user_free,
}
use wireguard_babeld_igp.Store.Interface.{Store, MapOrders, memory_store}
use wireguard_babeld_igp.Password.{
  Bytes, Crypto, Call, returns, panics, verify_password, encoded_hash, time, memory, threads,
  key_len,
}
use wireguard_babeld_igp.Password.RoundTrip.{verify-hash, hash_password_lem}
use wireguard_babeld_igp.Data.Text.{contains_char}
use wireguard_babeld_igp.Data.Map.Range.{length}
use wireguard_babeld_igp.Server.Middleware.Jwt.{JwtLibrary, generate_token}
use wireguard_babeld_igp.Server.Http.{respond, reject, panic}
use wireguard_babeld_igp.Server.Services.Users.{
  Credentials, Account, handle_register, handle_login, verified, signed, found,
}

module _ {S : Type 0} (store : Store S) (crypto : Crypto) (sign : ℤ → String → Result String) where
  signed_sound :
      (user : User) (r : Result String) (token : String) (a : Account)
      → signed store user r ≡ respond 200 (token, a)
      → (r ≡ ok token) × (a.id ≡ user.id) × (a.username ≡ user.username)
  unfolding signed
  signed_sound user (err e) token a h = absurd (ground arith)
  signed_sound user (ok t) token a h = ground arith

  verified_sound :
      (user : User) (r : Call Bool) (token : String) (a : Account)
      → verified store sign user r ≡ respond 200 (token, a)
      → (r ≡ returns (ok true))
        × (sign user.id user.username ≡ ok token)
        × (a.id ≡ user.id)
        × (a.username ≡ user.username)
  unfolding verified
  verified_sound user panics token a h = absurd (ground arith)
  verified_sound user (returns (err e)) token a h = absurd (ground arith)
  verified_sound user (returns (ok false)) token a h = absurd (ground arith)
  verified_sound user (returns (ok true)) token a h =
      let (e, f, g) = signed_sound user (sign user.id user.username) token a h in (refl, e, f, g)

  found_sound :
      (password : String) (r : Result (Option User)) (token : String) (a : Account)
      → found store crypto sign password r ≡ respond 200 (token, a)
      → (user : User) × (r ≡ ok (some user))
        × (verify_password crypto password user.password ≡ returns (ok true))
        × (sign user.id user.username ≡ ok token)
        × (a.id ≡ user.id)
        × (a.username ≡ user.username)
  unfolding found
  found_sound password (err e) token a h = absurd (ground arith)
  found_sound password (ok none) token a h = absurd (ground arith)
  found_sound password (ok (some user)) token a h =
      let (e, f, g, k) =
        verified_sound user (verify_password crypto password user.password) token a h in
      (user, refl, e, f, g, k)

  verified_no_panic :
      (user : User) (r : Call Bool) → r ≢ panics → verified store sign user r ≢ panic
  unfolding verified signed
  verified_no_panic user r n e = ground (arith, n)

module _ {S : Type 0} (store : Store S) (crypto : Crypto) (jwt : JwtLibrary) (secret : String)
    (now later : Time) where
  -- A login that is answered with a token found a user in the store under the name, whose stored
  -- hash the password passes, and the token was signed for that user.
  pub login_sound :
      (req : Credentials) (s : S) (token : String) (a : Account)
      → handle_login store crypto jwt secret now later (some req) s ≡ respond 200 (token, a)
      → (user : User) × (store.get_user_by_username req.username s ≡ ok (some user))
        × (verify_password crypto req.password user.password ≡ returns (ok true))
        × (generate_token jwt secret now later user.id user.username ≡ ok token)
        × (a.id ≡ user.id)
        × (a.username ≡ user.username)
  unfolding handle_login
  login_sound req s token a h =
      found_sound store crypto (generate_token jwt secret now later) req.password
        (store.get_user_by_username req.username s) token a h

module _ (orders : MapOrders) (crypto : Crypto) (jwt : JwtLibrary) (secret : String)
    (s : MemoryStore) (v : IsIndexed s) where
  abbrev store : Store MemoryStore
  store = memory_store orders

  -- A login panics only where Argon2 does.
  pub login_no_panic :
      (now later : Time) (req : Option Credentials)
      → ((password hashed : String) → verify_password crypto password hashed ≢ panics)
      → handle_login store crypto jwt secret now later req s ≢ panic
  unfolding handle_login
  login_no_panic now later none n e = absurd (ground arith)
  login_no_panic now later (some req) n e = elim (get_user_by_username_cases s v req.username) [
    | inl (f, _) ↦ absurd (ground (arith, f))
    | inr (u, f, _, _, _) ↦ absurd (
        verified_no_panic store crypto (generate_token jwt secret now later) u
          (verify_password crypto req.password u.password) (n req.password u.password)
          (rw (f, found) at e))
  ]

  module _ (salt : Result Bytes) (now later : Time) (username password : String) where
    abbrev req : Option Credentials
    req = some (record { username = username; password = password })

    -- Where base64 decodes what it encodes, and encodes without a dollar sign, and where Argon2 gives a
    -- key of the length asked for and the random salt can be read: who registers under a free name, and
    -- logs in with the same password, gets a token for the account that the registration answered
    -- with, if the token can be signed.
    pub login-register :
        ((x : Bytes) → crypto.decode (crypto.encode x) ≡ ok x)
        → ((x : Bytes) → contains_char 36 (crypto.encode x) ≡ false)
        → (bytes key : Bytes) → salt ≡ ok bytes
        → crypto.id_key password bytes time memory threads key_len ≡ some key
        → length key ≡ key_len
        → (t u : Time) (token : String)
        → generate_token jwt secret t u (inc s.last_user_id) username ≡ ok token
        → check_user_exists username s ≡ ok false
        → let (r, s') = handle_register store crypto salt now later req s in
          let account : Account = record { id = inc s.last_user_id; username = username } in
          (r ≡ respond 201 account)
          × (handle_login store crypto jwt secret t u req s' ≡ respond 200 (token, account))
    unfolding handle_register handle_login
    login-register decodes no_dollar bytes key e k len t u token q f =
        let hashed : String = encoded_hash crypto bytes key in
        let h = hash_password_lem crypto bytes key password k in
        let p =
          (verify-hash crypto decodes no_dollar bytes key key password password hashed h k len k).1
            refl in
        let user : User = record zero_user { username = username; password = hashed } in
        let (s', c, g) = create_user_free now later user s f in ground (arith, e, h, p, q, f, c, g)

    -- A name that is taken is refused, and nothing changes.
    pub register_taken :
        check_user_exists username s ≡ ok true
        → handle_register store crypto salt now later req s
          ≡ (reject 409 (message "Username already exists"), s)
    unfolding handle_register
    register_taken e = ground (arith, e)
