-- ===== src/Server/Http.antt =====
-- What a handler of github.com/gin-gonic/gin does with a request: it answers, or it passes the
-- request on. A panic is caught by gin.Recovery (pkg/server/server.go), which answers 500.
use Prim.Native.String.{◌∷◌, ◌++◌}
use Prim.Native.String.append
use wireguard_babeld_igp.Base.{◌≡◌, ◌∙◌, ap, refl, false, ℕ, String, Option, none, some}
use wireguard_babeld_igp.Data.Text.Scan.{cut, cut_first, strip_fold, strip_fold_self}
use wireguard_babeld_igp.Data.Text.{contains_char}
use wireguard_babeld_igp.Errors.{Error, Result, ok, err}

pub data Response {ℓ} (A : Type ℓ) : Type ℓ where
  -- c.JSON(status, body)
  respond : ℕ → A → Response A
  -- c.JSON(status, gin.H{"error": ...})
  reject : ℕ → Error → Response A
  panic : Response A

pub data Filter {ℓ} (A : Type ℓ) : Type ℓ where
  -- c.Next(), with what the middleware adds to the context
  next : A → Filter A
  -- c.JSON(status, gin.H{"error": ...}); c.Abort()
  abort : ℕ → Error → Filter A

credentials_of : Result String → Option (String × String)
credentials_of (err e) = none
credentials_of (ok text) = cut b':' text

after_scheme : (String → Result String) → Option String → Option (String × String)
unfolding credentials_of
after_scheme decode none = none
after_scheme decode (some text) = credentials_of (decode text)

-- Request.BasicAuth of net/http, on the value of the Authorization header; `decode` decodes base64.
unfoldable pub basic_auth : (String → Result String) → String → Option (String × String)
unfolding after_scheme
basic_auth decode header = after_scheme decode (strip_fold "Basic " header)

pub basic_auth_lem :
    (decode : String → Result String) (text user password : String)
    → decode text ≡ ok (user ++ (":" ++ password))
    → contains_char b':' user ≡ false
    → basic_auth decode ("Basic " ++ text) ≡ some (user, password)
unfolding basic_auth after_scheme credentials_of
basic_auth_lem decode text user password e h =
    ap (after_scheme decode) (strip_fold_self "Basic " text)
    ∙ ap credentials_of e
    ∙ ap (λ t. cut b':' (user ++ t))
        (append.cons ":" "" password ∙ ap (λ t. ":" ∷ t) (append.nil password))
    ∙ cut_first b':' user password ":" h refl
