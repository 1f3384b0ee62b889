-- ===== src/Errors.antt =====
-- Go's `error` values, and the results of functions that return one.
use wireguard_babeld_igp.Base.{String, Bool, true, false}
use wireguard_babeld_igp.Base.Int.{ℤ}

-- The codes of google.golang.org/grpc/codes that the services return.
pub data Code : Type 0 where
  not_found unauthenticated internal : Code

-- Each text that the program formats is a constructor over what it is formatted from.
pub data Error : Type 0 where
  -- store.ErrNotFound
  missing : Error
  -- gorm.ErrRecordNotFound
  record_not_found : Error
  node_exists node_missing status_missing id_taken : ℤ → Error
  task_missing username_exists : String → Error
  nil_connection invalid_connection : Error
  node_offline stream_missing : ℤ → Error
  unknown_task_type unsupported_store : String → Error
  port_missing : ℤ → Error
  bad_status : ℤ → Error
  -- status.Error(code, message)
  grpc : Code → String → Error
  -- errors.New, and the errors of packages that are not modelled
  message : String → Error
  -- fmt.Errorf("...: %w", err)
  wrap : String → Error → Error
  -- fmt.Errorf("...%s", err)
  formatted : String → Error → Error

-- errors.Is(err, store.ErrNotFound)
unfoldable pub is_missing : Error → Bool
is_missing missing = true
is_missing (wrap s e) = is_missing e
is_missing _ = false

-- err == gorm.ErrRecordNotFound
unfoldable pub is_not_found : Error → Bool
is_not_found record_not_found = true
is_not_found _ = false

-- The pair of a value and an error that is nil, or of an error.
pub data Result {ℓ} (V : Type ℓ) : Type ℓ where
  err : Error → Result V
  ok : V → Result V

-- `if err != nil { return fmt.Errorf("s: %w", err) }`
abbrev pub wrapped {ℓ} : {V : Type ℓ} → String → Result V → Result V
wrapped s (err e) = err (wrap s e)
wrapped s (ok v) = ok v

-- `if err != nil { return err }`, then the rest of the function, which reads the value or does not
infixl 5 ◌>>=◌
abbrev pub ◌>>=◌ {ℓ κ} : {V : Type ℓ} {W : Type κ} → Result V → (V → Result W) → Result W
err e >>= rest = err e
ok v >>= rest = rest v

infixl 5 ◌>>◌
abbrev pub ◌>>◌ {κ} : {W : Type κ} → Result (Unit {0}) → Result W → Result W
err e >> rest = err e
ok _ >> rest = rest
