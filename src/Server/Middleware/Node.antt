-- ===== src/Server/Middleware/Node.antt =====
-- pkg/server/middleware/node.go: a node shows its identifier and its token.
use wireguard_babeld_igp.Data.Text.{atoi}
use wireguard_babeld_igp.Base.{
  if_pos, sym, String, Bool, true, false, Option, none, some, ite, if◌then◌else◌, ◌=?◌, string_key,
  ◌≡◌, ◌↔◌, refl, arith,
}
use wireguard_babeld_igp.Base.Int.{ℤ}
use wireguard_babeld_igp.Errors.{Result, ok, err, message}
use wireguard_babeld_igp.Types.{NodeConfig}
use wireguard_babeld_igp.Store.Interface.{Store}
use wireguard_babeld_igp.Server.Http.{Filter, next, abort}

token_is : String → Result NodeConfig → Bool
token_is token (err _) = false
token_is token (ok node) = ite (token =? node.token) true false

token_is_sound :
    (token : String) (r : Result NodeConfig)
    → token_is token r ≡ true
    → (node : NodeConfig) × (r ≡ ok node) × (node.token ≡ token)
unfolding token_is
token_is_sound token (err e) h = cc
token_is_sound token (ok node) h = (node, refl, ground arith)

module _ {S : Type 0} (store : Store S) where
  unfoldable pub validate_token : ℤ → String → S → Bool
  unfolding token_is
  validate_token id token s = token_is token (store.get_node id s)

  -- A token is accepted exactly when the store has the node and the token is the node's.
  pub validate_token_lem :
      (id : ℤ) (token : String) (s : S)
      → (validate_token id token s ≡ true)
        ↔ ((node : NodeConfig) × (store.get_node id s ≡ ok node) × (node.token ≡ token))
  unfolding validate_token
  validate_token_lem id token s = (
    token_is_sound token (store.get_node id s),
    λ (node, e, t). rw e (if_pos (token =? node.token) (sym t) true false),
  )

  check_id : Option ℤ → String → S → Filter (Unit {0})
  check_id none token s = abort 400 (message "Invalid node ID")
  check_id (some id) token s =
      if validate_token id token s then next tt else abort 401 (message "Invalid node token")

  -- The credentials are those of Request.BasicAuth.
  unfoldable pub node_auth : Option (String × String) → S → Filter (Unit {0})
  unfolding check_id
  node_auth none s = abort 401 (message "Basic authentication is required")
  node_auth (some (user, token)) s = check_id (atoi user) token s

  check_id_sound :
      (i : Option ℤ) (token : String) (s : S)
      → check_id i token s ≡ next tt
      → (id : ℤ) × (i ≡ some id) × (validate_token id token s ≡ true)
  unfolding check_id
  check_id_sound none token s h = cc
  check_id_sound (some id) token s h = (id, refl, ground arith)

  -- A request passes exactly when its user name is the decimal identifier of a stored node and its
  -- password is that node's token.
  pub node_auth_lem :
      (user token : String) (s : S)
      → (node_auth (some (user, token)) s ≡ next tt) ↔ (
          (id : ℤ) × (node : NodeConfig) × (atoi user ≡ some id)
          × (store.get_node id s ≡ ok node)
          × (node.token ≡ token))
  unfolding node_auth check_id
  node_auth_lem user token s = (
    λ h.
        let (id, e, t) = check_id_sound (atoi user) token s h in
        let (node, f, g) = (validate_token_lem id token s).0 t in (id, node, e, f, g),
    λ (id, node, e, f, g). rw e (rw ((validate_token_lem id token s).1 (node, f, g))),
  )
