-- ===== src/Tests/NodeKeys.antt =====
-- The theorems on the keys of a new node, which is created without an identifier, and on ListNodes.
use mathlib.Core.Option.{none}
use wireguard_babeld_igp.Server.Middleware.Node.{validate_token}
use wireguard_babeld_igp.Store.Memory.{MemoryStore}
use wireguard_babeld_igp.Data.Map.{get}
use wireguard_babeld_igp.Server.Services.Nodes.Listing.{list_nodes_lem}
use wireguard_babeld_igp.Base.{◌≡◌, refl, ap, ◌∷◌, [], some, arith}
use wireguard_babeld_igp.Base.Int.{pos, inc, int_key}
use wireguard_babeld_igp.Errors.{ok}
use wireguard_babeld_igp.Password.{Bytes}
use wireguard_babeld_igp.Types.{NodeConfig, hundred}
use wireguard_babeld_igp.Store.Memory.Nodes
use wireguard_babeld_igp.Store.Memory.Nodes.Ids.{new-IsNumbered}
use wireguard_babeld_igp.Store.Interface.{memory_store}
use wireguard_babeld_igp.Server.Http.{respond}
use wireguard_babeld_igp.Server.Services.Nodes.{Created}
use wireguard_babeld_igp.Server.Services.Nodes.Handlers.{handle_create_node, list_nodes}
use wireguard_babeld_igp.Server.Services.Nodes.Creation.{handle_create_node_auto}
use wireguard_babeld_igp.Server.Services.Nodes.Keys.{
  KeyLibrary, fresh, generate_node_token, generate_key_pair, handle_create_node_keys,
}
use wireguard_babeld_igp.Tests.Access.{encode_unary, decode_from, decode-encode}
use wireguard_babeld_igp.Tests.Fixtures.{map_orders, one_node}
use wireguard_babeld_igp.Tests.Services.{request, empty_service, floats}

abbrev library : KeyLibrary
library = record {
  encode = encode_unary;
  url_encode = encode_unary;
  scalar_base_mult = λ secret. 9 ∷ secret;
  marshal = λ l. "";
}

abbrev token : Bytes
token = 7 ∷ []

abbrev secret_key : Bytes
secret_key = 3 ∷ 4 ∷ []

abbrev keyed : Created
keyed = record {
  id = inc (pos 0);
  name = "branch";
  token = encode_unary token;
  public_key = encode_unary (9 ∷ secret_key);
}

keyed_ok :
    (handle_create_node
      (memory_store map_orders)
      floats
      (fresh library (ok token) (ok secret_key))
      5
      (some request)
      empty_service).0
    ≡ respond 200 keyed
unfolding generate_node_token generate_key_pair
keyed_ok =
    (handle_create_node_auto map_orders floats (fresh library (ok token) (ok secret_key)) 5
      empty_service request (encode_unary token) (encode_unary secret_key)
      (encode_unary (9 ∷ secret_key)) refl refl refl new-IsNumbered (omega arith)).0

handle_create_node_keys_example :
    let (_, _, t') =
      handle_create_node
        (memory_store map_orders)
        floats
        (fresh library (ok token) (ok secret_key))
        5
        (some request)
        empty_service in
    (secret : Bytes) × (node : NodeConfig) × (ok secret_key ≡ ok secret)
    × (Nodes.get_node keyed.id t'.store ≡ ok node)
    × (ok (decode_from 0 node.private_key) ≡ ok secret)
    × (ok (decode_from 0 node.public_key) ≡ ok (9 ∷ secret))
    × (keyed.public_key ≡ node.public_key)
handle_create_node_keys_example =
    handle_create_node_keys library (λ s. ok (decode_from 0 s)) (λ x. ap ok (decode-encode x))
      map_orders floats 5 (ok token) (ok secret_key) empty_service request keyed keyed_ok

abbrev listed : MemoryStore
listed = (list_nodes (memory_store map_orders) floats one_node).1

list_nodes_lem_example :
    (get one_node.nodes (pos 1) ≡ none → get listed.nodes (pos 1) ≡ none)
    × ((n : NodeConfig)
        → get one_node.nodes (pos 1) ≡ some n
        → let m = n.status.metrics in
          get listed.nodes (pos 1)
          ≡ some (record n {
            status = record n.status {
              metrics = record m {
                cpu_usage = floats.div (floats.round (floats.mul m.cpu_usage hundred)) hundred;
                disk_usage = floats.div (floats.round (floats.mul m.disk_usage hundred)) hundred;
              };
            };
          }))
    × (listed ≡ record one_node { nodes = listed.nodes })
    × (validate_token (memory_store map_orders) (pos 1) "secret" listed
        ≡ validate_token (memory_store map_orders) (pos 1) "secret" one_node)
list_nodes_lem_example = list_nodes_lem map_orders floats one_node (pos 1) "secret"
