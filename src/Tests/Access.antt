-- ===== src/Tests/Access.antt =====
-- The theorems on tokens, passwords, registration and login.
use Prim.Native.Char.{code}
use Prim.Native.String.{[], ◌∷◌}
use wireguard_babeld_igp.Base.{
  zero, suc, leb, ap, ◌∙◌, String_discrete, ℕ, ◌≡◌, ◌↔◌, ◌+◌, ltb, refl, ◌∷◌, [], String, Option,
  some, arith, true, false, Bool, string_key, nat_key, ◌=?◌, ite, if◌then◌else◌, ◌≤◌, ◌⊎◌, inl, inr,
}
use wireguard_babeld_igp.Base.Int.{ℤ_discrete, pos, int_key, inc}
use wireguard_babeld_igp.Data.Map.{get}
use wireguard_babeld_igp.Data.Text.{split_space, contains_char}
use wireguard_babeld_igp.Errors.{Result, ok, err, message, ◌>>=◌, Error}
use wireguard_babeld_igp.Types.{User, Time}
use wireguard_babeld_igp.Store.Memory.{MemoryStore, new_memory_store}
use wireguard_babeld_igp.Store.Memory.Users.{check_user_exists}
use wireguard_babeld_igp.Store.Memory.Users.Index.{new-IsIndexed}
use wireguard_babeld_igp.Store.Memory.Tasks.{day}
use wireguard_babeld_igp.Store.Interface.{memory_store}
use wireguard_babeld_igp.Server.Http.{next, respond, abort}
use wireguard_babeld_igp.Server.Middleware.Jwt.{
  Claims, Method, hmac, other, JwtLibrary, generate_token, jwt_auth, numeric_date,
}
use wireguard_babeld_igp.Server.Middleware.Jwt.Bearer.{
  IsJwt, IsKeyed, second, jwt_auth_sound, jwt_auth-generate_token,
}
use wireguard_babeld_igp.Server.Services.Users.{Credentials, Account, handle_register, handle_login}
use wireguard_babeld_igp.Server.Services.Users.Accounts.{login_sound, login-register}
use wireguard_babeld_igp.Password.{
  Bytes, Crypto, returns, hash_password, verify_password, encoded_hash,
}
use wireguard_babeld_igp.Password.RoundTrip.{verify-hash}
use wireguard_babeld_igp.Tests.Fixtures.{map_orders}

abbrev alices : Claims
alices = record { user_id = pos 1; username = "alice"; expires_at = day; issued_at = 0 }

-- A library that signs one token under one key.
abbrev one_token : JwtLibrary
one_token = record {
  signed_string = λ claims key.
      ite (claims.user_id =? pos 1)
        (ite (claims.username =? "alice")
          (ite (claims.expires_at =? day)
            (ite (claims.issued_at =? 0) (ite (key =? "key") (ok "token") (err (message "no")))
              (err (message "no")))
            (err (message "no")))
          (err (message "no")))
        (err (message "no"));
  parse_with_claims = λ now token keys.
      ite (token =? "token")
        (keys hmac >>= λ key.
          ite (key =? "key") (if ltb now day then ok (alices, true) else err (message "expired"))
            (err (message "no")))
        (err (message "no"));
}

one_token-IsJwt : IsJwt one_token
one_token-IsJwt = record {
  before = λ claims key token now keys s w w' k h. ground arith;
  after = λ claims key token now keys s w k h. (message "expired", ground arith);
}

jwt_auth-generate_token_example :
    (9 + second ≤ 7 + day → jwt_auth one_token "key" 9 "Bearer token" ≡ next (pos 1, "alice"))
    × (7 + day ≤ 9
        → jwt_auth one_token "key" 9 "Bearer token"
          ≡ abort 401 (message "Invalid or expired token"))
unfolding generate_token numeric_date split_space ℤ_discrete String_discrete
jwt_auth-generate_token_example =
    jwt_auth-generate_token one_token "key" one_token-IsJwt 7 8 (pos 1) "alice" "token"
      "Bearer token" refl refl 9

jwt_auth-passes : jwt_auth one_token "key" 9 "Bearer token" ≡ next (pos 1, "alice")
unfolding generate_token numeric_date split_space ℤ_discrete String_discrete
jwt_auth-passes =
    (jwt_auth-generate_token one_token "key" one_token-IsJwt 7 8 (pos 1) "alice" "token"
        "Bearer token" refl refl 9).0
      (omega arith)

Result-cases : {A : Type 0} (r : Result A) → ((a : A) × (r ≡ ok a)) ⊎ ((e : Error) × (r ≡ err e))
Result-cases (ok a) = inl (a, refl)
Result-cases (err e) = inr (e, refl)

is_hmac : Method → Bool
is_hmac hmac = true
is_hmac other = false

-- What the library tests of a text that it finds valid.
abbrev one_valid : Time → String → Method → String → Claims → Bool
one_valid now token method key claims =
    ite (token =? "token") (ite (key =? "key") (is_hmac method) false) false

one_token-IsKeyed : IsKeyed one_token one_valid
unfolding is_hmac
one_token-IsKeyed now token keys claims h = elim (Result-cases (keys hmac)) [
  | inl (key, e) ↦ (hmac, key, e, ground (arith, e, h))
  | inr (x, e) ↦ absurd (ground (arith, e, h))
]

jwt_auth_sound_example :
    (token : String) × (claims : Claims) × (split_space "Bearer token" ≡ some ("Bearer", token))
    × (one_valid 9 token hmac "key" claims ≡ true)
    × (claims.user_id ≡ pos 1)
    × (claims.username ≡ "alice")
jwt_auth_sound_example =
    jwt_auth_sound one_token "key" one_valid one_token-IsKeyed 9 "Bearer token" (pos 1) "alice"
      jwt_auth-passes

-- A codec for lists of numbers, in base one.
unary : ℕ → String → String
unary zero s = s
unary (suc n) s = "A" ∷ unary n s

unfoldable pub encode_unary : Bytes → String
unfolding unary
encode_unary [] = []
encode_unary (n ∷ l) = unary n ("B" ∷ encode_unary l)

pub decode_from : ℕ → String → Bytes
decode_from n [] = []
decode_from n (c ∷ s) =
    let ends = decode_from 0 s in
    let more = decode_from (n + 1) s in if leb (code c) 65 then more else n ∷ ends

unary_no_dollar :
    (n : ℕ) (s : String) → contains_char 36 s ≡ false → contains_char 36 (unary n s) ≡ false
unfolding contains_char unary
unary_no_dollar zero s h = h
unary_no_dollar (suc n) s h = unary_no_dollar n s h

encode_no_dollar : (l : Bytes) → contains_char 36 (encode_unary l) ≡ false
unfolding contains_char encode_unary
encode_no_dollar [] = refl
encode_no_dollar (n ∷ l) = unary_no_dollar n _ (encode_no_dollar l)

decode_unary : (n m : ℕ) (s : String) → decode_from m (unary n s) ≡ decode_from (m + n) s
unfolding decode_from unary
decode_unary zero m s = ap (λ k. decode_from k s) (omega arith)
decode_unary (suc n) m s = decode_unary n (m + 1) s ∙ ap (λ k. decode_from k s) (omega arith)

pub decode-encode : (l : Bytes) → decode_from 0 (encode_unary l) ≡ l
unfolding decode_from encode_unary
decode-encode [] = refl
decode-encode (n ∷ l) =
    let at : 0 + n ≡ n = omega arith in
    decode_unary n 0 _ ∙ rw at (ap (λ r. n ∷ r) (decode-encode l))

abbrev fill : ℕ → ℕ → Bytes
fill zero n = []
fill (suc k) n = n ∷ fill k n

abbrev toy : Crypto
toy = record {
  id_key = λ password salt t m p len. some (fill len (ite (password =? "pw") 1 0));
  encode = encode_unary;
  decode = λ s. ok (decode_from 0 s);
}

verify-hash_example :
    (verify_password toy "pw" (encoded_hash toy (3 ∷ []) (fill 32 1)) ≡ returns (ok true))
    ↔ (fill 32 1 ≡ fill 32 1)
unfolding String_discrete hash_password
verify-hash_example =
    verify-hash toy (λ l. ap ok (decode-encode l)) encode_no_dollar (3 ∷ []) (fill 32 1) (fill 32 1)
      "pw" "pw" (encoded_hash toy (3 ∷ []) (fill 32 1)) refl refl refl refl

abbrev alice : Option Credentials
alice = some (record { username = "alice"; password = "pw" })

signed : generate_token one_token "key" 7 8 (inc (pos 0)) "alice" ≡ ok "token"
unfolding generate_token numeric_date ℤ_discrete String_discrete inc
signed = refl

free : check_user_exists "alice" new_memory_store ≡ ok false
unfolding check_user_exists get String_discrete
free = refl

login-register_example :
    let (r, s') =
      handle_register (memory_store map_orders) toy (ok (3 ∷ [])) 5 6 alice new_memory_store in
    let account : Account = record { id = inc (pos 0); username = "alice" } in
    (r ≡ respond 201 account)
    × (handle_login (memory_store map_orders) toy one_token "key" 7 8 alice s'
        ≡ respond 200 ("token", account))
unfolding String_discrete
login-register_example =
    login-register map_orders toy one_token "key" new_memory_store new-IsIndexed (ok (3 ∷ [])) 5 6
      "alice" "pw" (λ l. ap ok (decode-encode l)) encode_no_dollar (3 ∷ []) (fill 32 1) refl refl
      refl 7 8 "token" signed free

abbrev registered : MemoryStore
registered =
    (handle_register (memory_store map_orders) toy (ok (3 ∷ [])) 5 6 alice new_memory_store).1

registered_login :
    handle_login (memory_store map_orders) toy one_token "key" 7 8 alice registered
    ≡ respond 200 ("token", record { id = inc (pos 0); username = "alice" })
unfolding String_discrete
registered_login =
    (login-register map_orders toy one_token "key" new_memory_store new-IsIndexed (ok (3 ∷ [])) 5 6
      "alice" "pw" (λ l. ap ok (decode-encode l)) encode_no_dollar (3 ∷ []) (fill 32 1) refl refl
      refl 7 8 "token" signed free).1

login_sound_example :
    (user : User) × ((memory_store map_orders).get_user_by_username "alice" registered
      ≡ ok (some user))
    × (verify_password toy "pw" user.password ≡ returns (ok true))
    × (generate_token one_token "key" 7 8 user.id user.username ≡ ok "token")
    × (inc (pos 0) ≡ user.id)
    × ("alice" ≡ user.username)
login_sound_example =
    login_sound (memory_store map_orders) toy one_token "key" 7 8
      (record { username = "alice"; password = "pw" }) registered "token"
      (record { id = inc (pos 0); username = "alice" }) registered_login
