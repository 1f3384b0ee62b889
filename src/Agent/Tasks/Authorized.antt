-- ===== src/Agent/Tasks/Authorized.antt =====
-- The agent's request for its configuration, on its way through the server's routes.
use Prim.Native.String.{[], ◌∷◌}
use mathlib.Core.List.{List, [], ◌∷◌}
use wireguard_babeld_igp.Base.{◌≡◌, ◌≢◌, refl, sym, ap, ◌∙◌, arith, String, none, some, string_key}
use wireguard_babeld_igp.Base.Int.{ℤ, IsInt}
use wireguard_babeld_igp.Data.Text.{atoi, show_ℤ}
use wireguard_babeld_igp.Data.Text.Decimal.{NotDecimal, atoi-show_ℤ, no_char-show_ℤ}
use wireguard_babeld_igp.Data.Text.Scan.{split, split_last, split-append, append_moved}
use wireguard_babeld_igp.Errors.{Result, ok}
use wireguard_babeld_igp.Types.{Time, NodeConfig}
use wireguard_babeld_igp.Config.{AgentConfig}
use wireguard_babeld_igp.Store.Interface.{Store}
use wireguard_babeld_igp.Server.Http.{basic_auth, basic_auth_lem}
use wireguard_babeld_igp.Server.Middleware.Jwt.{JwtLibrary}
use wireguard_babeld_igp.Server.Middleware.Node.{node_auth_lem}
use wireguard_babeld_igp.Server.Routes.{Request, dispatch, runs, get_config}
use wireguard_babeld_igp.Server.Routes.Guards.{config_request, any_config_reached}
use wireguard_babeld_igp.Agent.System.{System}
use wireguard_babeld_igp.Agent.Tasks.{config_path, auth_header}

-- The segments of a path, after its first slash.
abbrev segments : List String → List String
segments [] = []
segments (s ∷ l) = l

module _ (sys : System) (cfg : AgentConfig) (decode : String → Result String) where
  show_ℤ_not_empty : (z : ℤ) → IsInt z → show_ℤ z ≢ ""
  unfolding atoi
  show_ℤ_not_empty z i e = let f : none ≡ some z = ap atoi (sym e) ∙ atoi-show_ℤ z i in cc

  -- The request as the server's net/http reads it.
  unfoldable pub agent_request : Request
  agent_request = record {
    verb = "GET";
    path = segments (split b'/' (config_path sys cfg));
    authorization = auth_header sys cfg;
    basic_auth = basic_auth decode (auth_header sys cfg);
  }

  path_split :
      split b'/' (config_path sys cfg)
      ≡ "" ∷ "api" ∷ "agent" ∷ "config" ∷ split b'/' (show_ℤ cfg.node_id)
  unfolding config_path split
  path_split =
      ap (split b'/') (append_moved "/api/agent/config" (show_ℤ cfg.node_id) "/")
      ∙ split-append b'/' "/api/agent/config" (show_ℤ cfg.node_id) "/" refl

  id_segment : split b'/' (show_ℤ cfg.node_id) ≡ show_ℤ cfg.node_id ∷ []
  unfolding NotDecimal
  id_segment = split_last b'/' (show_ℤ cfg.node_id) (no_char-show_ℤ b'/' cfg.node_id (ground arith))

  header_read :
      ((text : String) → decode (sys.encode_base64 text) ≡ ok text)
      → basic_auth decode (auth_header sys cfg) ≡ some (show_ℤ cfg.node_id, cfg.token)
  unfolding auth_header NotDecimal
  header_read law =
      basic_auth_lem decode _ (show_ℤ cfg.node_id) cfg.token (law _)
        (no_char-show_ℤ b':' cfg.node_id (ground arith))

  request_lem :
      ((text : String) → decode (sys.encode_base64 text) ≡ ok text)
      → (S : Type 0) (store : Store S) (jwt : JwtLibrary) (secret : String)
      → agent_request
        ≡ config_request store jwt secret
            (show_ℤ cfg.node_id)
            (auth_header sys cfg)
            (some (show_ℤ cfg.node_id, cfg.token))
  unfolding agent_request
  request_lem law S store jwt secret = rw (path_split, id_segment, header_read law) refl

  -- The request of a node that the store has under the agent's identifier and token reaches the
  -- handler of that node's configuration, which reads the identifier back.
  pub agent_request_reaches :
      {S : Type 0} (store : Store S) (jwt : JwtLibrary) (secret : String) (now : Time) (s : S)
      (n : NodeConfig)
      → ((text : String) → decode (sys.encode_base64 text) ≡ ok text)
      → IsInt cfg.node_id
      → store.get_node cfg.node_id s ≡ ok n
      → n.token ≡ cfg.token
      → (dispatch store jwt secret now agent_request s ≡ runs get_config (show_ℤ cfg.node_id ∷ []))
        × (atoi (show_ℤ cfg.node_id) ≡ some cfg.node_id)
  agent_request_reaches {S} store jwt secret now s n law i e f = (
    rw (request_lem law S store jwt secret) (
        any_config_reached store jwt secret now s (show_ℤ cfg.node_id) (auth_header sys cfg)
          (some (show_ℤ cfg.node_id, cfg.token)) (show_ℤ_not_empty cfg.node_id i)
          ((node_auth_lem store (show_ℤ cfg.node_id) cfg.token s).1
            (cfg.node_id, n, atoi-show_ℤ cfg.node_id i, e, f))),
    atoi-show_ℤ cfg.node_id i,
  )
