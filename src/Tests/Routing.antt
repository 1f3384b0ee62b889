-- ===== src/Tests/Routing.antt =====
-- The theorems on the server's routes, at a request of one node for the configuration of another, and
-- at a request without a route.
use wireguard_babeld_igp.Base.{
  ◌≡◌, ◌≢◌, arith, refl, ap, true, false, some, ◌∷◌, [], String, string_key, none,
}
use wireguard_babeld_igp.Base.Int.{pos, int_key, ℤ_discrete}
use wireguard_babeld_igp.Data.Text.{show_ℤ, atoi, contains_char}
use wireguard_babeld_igp.Data.Map.{get, put}
use wireguard_babeld_igp.Errors.{ok, err, message}
use wireguard_babeld_igp.Store.Memory.Nodes
use wireguard_babeld_igp.Store.Interface.{memory_store}
use wireguard_babeld_igp.Server.Http.{next}
use wireguard_babeld_igp.Server.Middleware.Jwt.{JwtLibrary}
use wireguard_babeld_igp.Server.Middleware.Node.{node_auth, node_auth_lem}
use wireguard_babeld_igp.Server.Routes.{dispatch, runs, get_config, node_guard, Request, text}
use wireguard_babeld_igp.Server.Routes.Guards.{
  Passes, dispatch-Passes, config_request, any_config_reached,
}
use wireguard_babeld_igp.Agent.Tasks.Authorized.{agent_request, agent_request_reaches}
use wireguard_babeld_igp.Tests.Agents.{config, works}
use wireguard_babeld_igp.Tests.Fixtures.{map_orders, gateway, one_node}

abbrev no_tokens : JwtLibrary
no_tokens = record {
  signed_string = λ claims key. err (message "no");
  parse_with_claims = λ now token keys. err (message "no");
}

atoi_one : atoi "1" ≡ some (pos 1)
unfolding atoi
atoi_one = refl

found : Nodes.get_node (pos 1) one_node ≡ ok gateway
unfolding Nodes.get_node get put ℤ_discrete
found = refl

gateway_passes : node_auth (memory_store map_orders) (some ("1", "secret")) one_node ≡ next tt
gateway_passes =
    (node_auth_lem (memory_store map_orders) "1" "secret" one_node).1
      (pos 1, gateway, atoi_one, found, refl)

abbrev branch_id : String
branch_id = "2"

two_not_empty : branch_id ≢ ""
unfolding contains_char
two_not_empty e = let f : true ≡ false = ap (contains_char b'2') e in cc

any_config_reached_example :
    dispatch
      (memory_store map_orders)
      no_tokens
      "key"
      9
      (config_request (memory_store map_orders) no_tokens "key" "2" "" (some ("1", "secret")))
      one_node
    ≡ runs get_config ("2" ∷ [])
any_config_reached_example =
    any_config_reached (memory_store map_orders) no_tokens "key" 9 one_node "2" ""
      (some ("1", "secret")) two_not_empty gateway_passes

dispatch-Passes_example :
    Passes
      (memory_store map_orders)
      no_tokens
      "key"
      node_guard
      9
      (config_request (memory_store map_orders) no_tokens "key" "2" "" (some ("1", "secret")))
      one_node
dispatch-Passes_example =
    dispatch-Passes (memory_store map_orders) no_tokens "key" 9
      (config_request (memory_store map_orders) no_tokens "key" "2" "" (some ("1", "secret")))
      one_node get_config ("2" ∷ [])
      (any_config_reached (memory_store map_orders) no_tokens "key" 9 one_node "2" ""
        (some ("1", "secret")) two_not_empty gateway_passes)

agent_request_reaches_example :
    (dispatch
        (memory_store map_orders)
        no_tokens
        "key"
        9
        (agent_request works config (λ s. ok s))
        one_node
      ≡ runs get_config (show_ℤ (pos 1) ∷ []))
    × (atoi (show_ℤ (pos 1)) ≡ some (pos 1))
agent_request_reaches_example =
    agent_request_reaches works config (λ s. ok s) (memory_store map_orders) no_tokens "key" 9
      one_node gateway (λ text. refl) (omega arith) found refl

abbrev login_request : Request
login_request = record {
  verb = "POST";
  path = "api" ∷ "auth" ∷ "login" ∷ "" ∷ [];
  authorization = "";
  basic_auth = none;
}
