-- ===== src/Password.antt =====
-- pkg/utils/password/password.go: how a password is kept. Argon2 (golang.org/x/crypto/argon2), the
-- base64 of encoding/base64 and the random salt are parameters.
pub mod RoundTrip
use Prim.Native.String.{◌∷◌, ◌++◌}
use wireguard_babeld_igp.Base.{
  ℕ, zero, suc, ◌+◌, ◌-◌, ◌*◌, ◌%◌, ◌^◌, String, Bool, true, false, Option, none, some, List, [],
  ite, if◌then◌else◌, ◌=?◌, string_key, nat_key,
}
use wireguard_babeld_igp.Base.{◌∷◌}
use wireguard_babeld_igp.Base.Int.{ℤ, pos, negsuc, int_key}
use wireguard_babeld_igp.Data.Map.Range.{length}
use wireguard_babeld_igp.Data.Text.{show_ℕ}
use wireguard_babeld_igp.Data.Text.Scan.{split, scan_after}
use wireguard_babeld_igp.Errors.{Result, ok, err, Error, message, ◌>>=◌, ◌>>◌}

abbrev pub Bytes : Type 0
Bytes = List ℕ

-- argon2.IDKey(password, salt, time, memory, threads, keyLen), with `none` for its panic.
pub record Crypto : Type 0 where
  pub id_key : String → Bytes → ℕ → ℕ → ℕ → ℕ → Option Bytes
  pub encode : Bytes → String
  pub decode : String → Result Bytes

abbrev pub time : ℕ
time = 1

abbrev pub memory : ℕ
memory = 65536

abbrev pub threads : ℕ
threads = 4

abbrev pub key_len : ℕ
key_len = 32

-- argon2.Version
abbrev pub argon_version : ℕ
argon_version = 19

-- A call that returns, or the panic of argon2.
pub data Call (A : Type 0) : Type 0 where
  returns : Result A → Call A
  panics : Call A

abbrev version_text : String
version_text = "v=" ++ show_ℕ argon_version

abbrev params_text : String
params_text = ((("m=" ++ show_ℕ memory) ++ ",t=") ++ show_ℕ time) ++ (",p=" ++ show_ℕ threads)

-- subtle.ConstantTimeCompare(a, b) == 1
unfoldable pub same_bytes : Bytes → Bytes → Bool
same_bytes [] [] = true
same_bytes [] (y ∷ b) = false
same_bytes (x ∷ a) [] = false
same_bytes (x ∷ a) (y ∷ b) = let rest = same_bytes a b in ite (x =? y) rest false

-- The conversion of an `int` to an unsigned integer of `w` bits.
unfoldable pub to_unsigned : ℕ → ℤ → ℕ
to_unsigned w (pos n) = n % 2 ^ w
to_unsigned w (negsuc n) = (2 ^ w - 1) - n % 2 ^ w

check : String → Bool → Result (Unit {0})
check text true = ok tt
check text false = err (message text)

scanned : {A : Type 0} → Option A → Result A
scanned none = err (message "input does not match format")
scanned (some a) = ok a

scan_version : String → Option ℤ
scan_version s = elim (scan_after "v=" s) [ none ↦ none | some (v, _) ↦ some v ]

scan_threads : ℤ → ℤ → Option (ℤ × String) → Option (ℤ × ℤ × ℤ)
scan_threads m t none = none
scan_threads m t (some (p, _)) = some (m, t, p)

scan_time : ℤ → Option (ℤ × String) → Option (ℤ × ℤ × ℤ)
unfolding scan_threads
scan_time m none = none
scan_time m (some (t, s)) = scan_threads m t (scan_after ",p=" s)

scan_params : Option (ℤ × String) → Option (ℤ × ℤ × ℤ)
unfolding scan_time
scan_params none = none
scan_params (some (m, s)) = scan_time m (scan_after ",t=" s)

module _ (crypto : Crypto) where
  -- fmt.Sprintf("$argon2id$v=%d$m=%d,t=%d,p=%d$%s$%s", ...)
  unfoldable pub encoded_hash : Bytes → Bytes → String
  encoded_hash salt hash =
      "$"
      ∷ ("argon2id"
          ++ ("$"
              ∷ (version_text
                  ++ ("$"
                      ∷ (params_text
                          ++ ("$" ∷ (crypto.encode salt ++ ("$" ∷ crypto.encode hash))))))))

  hashed : Bytes → Option Bytes → Call String
  hashed salt none = panics
  hashed salt (some hash) = returns (ok (encoded_hash salt hash))

  -- The first argument is the answer of rand.Read.
  unfoldable pub hash_password : Result Bytes → String → Call String
  unfolding hashed
  hash_password (err e) password = returns (err e)
  hash_password (ok salt) password =
      hashed salt (crypto.id_key password salt time memory threads key_len)

  compared : Bytes → Option Bytes → Call Bool
  compared hash none = panics
  compared hash (some key) = returns (ok (same_bytes hash key))

  with_fields : String → Result ((ℤ × ℤ × ℤ) × Bytes × Bytes) → Call Bool
  unfolding compared
  with_fields password (err e) = returns (err e)
  with_fields password (ok ((m, t, p), salt, hash)) = compared hash (
      crypto.id_key password salt (to_unsigned 32 t) (to_unsigned 32 m) (to_unsigned 8 p)
        (length hash % 2 ^ 32))

  unfoldable pub fields : List String → Result ((ℤ × ℤ × ℤ) × Bytes × Bytes)
  unfolding check scanned scan_version scan_params
  fields (_ ∷ kind ∷ version ∷ params ∷ salt ∷ hash ∷ []) =
      check "unsupported hash type" (ite (kind =? "argon2id") true false)
      >> (scanned (scan_version version) >>= λ v.
          check "incompatible argon2id version" (ite (v =? pos argon_version) true false)
          >> (scanned (scan_params (scan_after "m=" params)) >>= λ numbers.
              crypto.decode salt >>= λ salt'.
              crypto.decode hash >>= λ hash'. ok (numbers, salt', hash')))
  fields _ = err (message "invalid hash format")

  unfoldable pub verify_password : String → String → Call Bool
  unfolding with_fields
  verify_password password encoded = with_fields password (fields (split 36 encoded))
