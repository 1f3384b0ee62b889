-- ===== src/Server/Services/Configs.antt =====
-- pkg/server/services/config_service.go: the WireGuard and babeld configurations of a node. The
-- templates are the server's configuration, and the formats are packages', so what they give is a
-- parameter.
pub mod Interfaces
pub mod Routes
use Prim.Native.String.{◌++◌}
use wireguard_babeld_igp.Base.{
  String, Option, none, some, List, [], ◌∷◌, ite, ◌=?◌, string_key, if◌then◌else◌,
}
use wireguard_babeld_igp.Base.{◌++◌ as append}
use wireguard_babeld_igp.Base.Int.{ℤ, int_key}
use wireguard_babeld_igp.Config.{Network}
use wireguard_babeld_igp.Data.Map.{Map, put}
use wireguard_babeld_igp.Data.Map as Map
use wireguard_babeld_igp.Data.Text.{atoi, contains_char, replace_all, show_hex, show_ℤ}
use wireguard_babeld_igp.Errors.{Error, Result, ok, err, message, wrap, wrapped}
use wireguard_babeld_igp.Types.{
  Time, Floats, NodeConfig, WireguardConnection, zero_connection, zero_status,
}
use wireguard_babeld_igp.Store.Interface.{Store}
use wireguard_babeld_igp.Server.Http.{Response, respond, reject}
use wireguard_babeld_igp.Server.Services.Nodes.Handlers.{list_nodes}

pub record PeerData : Type 0 where
  pub public_key : String
  pub allowed_ips : String
  pub endpoint : String
  pub id : ℤ

pub record WireguardData : Type 0 where
  pub private_key : String
  pub listen_port : ℤ
  pub ipv4_address : String
  pub ipv6_address : String
  pub node_id : ℤ
  pub peer : PeerData

pub record Route : Type 0 where
  pub network : String
  pub prefix_len : String
  pub metric : String

pub record BabelData : Type 0 where
  pub node_id : ℤ
  pub port : ℤ
  pub update_interval : ℤ
  pub interfaces : List String
  pub ipv4_routes : List Route
  pub ipv6_routes : List Route

-- The two templates, and the JSON of endpoints and of configurations.
pub record Formats : Type 0 where
  pub wireguard : WireguardData → Result String
  pub babel : BabelData → Result String
  pub decode_endpoints : String → Result (List String)
  pub encode_configs : Map String String → String

unfoldable pub endpoint_of : Result (List String) → ℤ → String
endpoint_of (err e) port = "error:" ++ show_ℤ port
endpoint_of (ok []) port = "unknown:" ++ show_ℤ port
endpoint_of (ok (host ∷ _)) port =
    if contains_char 46 host
    then host ++ (":" ++ show_ℤ port)
    else if contains_char 58 host
    then "[" ++ (host ++ ("]:" ++ show_ℤ port))
    else host ++ (":" ++ show_ℤ port)

module _ (network : Network) (formats : Formats) where
  -- The text of a template for a pair of nodes.
  unfoldable pub address : String → ℤ → ℤ → String
  address template node peer =
      replace_all "{peer}" (show_ℤ peer) (replace_all "{node}" (show_ℤ node) template)

  unfoldable pub ipv6_network : NodeConfig → String
  ipv6_network peer = replace_all "{node}" (show_ℤ peer.id) network.ipv6_node_template

  unfoldable pub peer_data : NodeConfig → ℤ → PeerData
  unfolding ipv6_network
  peer_data peer port = record {
    public_key = peer.public_key;
    allowed_ips =
        replace_all "{node}" (show_ℤ peer.id) network.ipv4_node_template
        ++ ("," ++ ipv6_network peer);
    endpoint = endpoint_of (formats.decode_endpoints peer.endpoints) port;
    id = peer.id;
  }

  unfoldable pub wireguard_data : NodeConfig → NodeConfig → WireguardConnection → WireguardData
  wireguard_data node peer connection = record {
    private_key = node.private_key;
    listen_port = connection.port;
    ipv4_address = address network.ipv4_template node.id peer.id;
    ipv6_address = address network.ipv6_template node.id peer.id;
    node_id = node.id;
    peer = peer_data peer connection.port;
  }

  unfoldable pub ipv6_route : NodeConfig → Route
  ipv6_route node = record {
    network = replace_all "{node}" (show_hex node.id) network.ipv6_node_template;
    prefix_len = "80";
    metric = "128";
  }

  -- The loop that collects the interfaces, after those it has.
  unfoldable pub add_interfaces : NodeConfig → List NodeConfig → List String → List String
  add_interfaces node [] names = names
  add_interfaces node (peer ∷ l) names =
      add_interfaces node l (ite (peer.id =? node.id) names (append names (peer.name ∷ [])))

  unfoldable pub babel_data : NodeConfig → List NodeConfig → BabelData
  babel_data node peers = record {
    node_id = node.id;
    port = network.babel_port;
    update_interval = node.babel_interval;
    interfaces = add_interfaces node peers [];
    ipv4_routes =
        record {
          network = replace_all "{node}" (show_ℤ node.id) network.ipv4_node_template;
          prefix_len = "32";
          metric = "128";
        }
        ∷ [];
    ipv6_routes = ipv6_route node ∷ [];
  }

  unfoldable pub generate_babel : NodeConfig → List NodeConfig → Result String
  generate_babel node peers =
      wrapped "executing babel template" (formats.babel (babel_data node peers))

  module _ {S : Type 0} (store : Store S) where
    unfoldable pub generate_connection : ℤ → ℤ → S → Result WireguardConnection × S
    generate_connection node peer s =
        let (r, s') =
          store.get_or_create_connection
            (some (record zero_connection { node_id = node; peer_id = peer })) network.base_port
            s in
        (wrapped "get or create wireguard connection" r, s')

    unfoldable pub executed :
        String → Result String → Map String String → Result (Map String String)
    executed name (err e) configs = err (wrap "executing wireguard template" e)
    executed name (ok text) configs = ok (put configs name text)

    unfoldable pub connected :
        NodeConfig
        → NodeConfig
        → Result WireguardConnection
        → Map String String
        → Result (Map String String)
    unfolding executed
    connected node peer (err e) configs = err (wrap "generating wireguard connection" e)
    connected node peer (ok connection) configs =
        executed peer.name (formats.wireguard (wireguard_data node peer connection)) configs

    -- The body of the loop for one peer.
    unfoldable pub add_config :
        NodeConfig → NodeConfig → Map String String → S → Result (Map String String) × S
    add_config node peer configs s =
        ite (peer.id =? node.id) (ok configs, s)
          (let (r, s') = generate_connection node.id peer.id s in
            (connected node peer r configs, s'))

    -- `if err != nil { return nil, err }`, then the rest of the loop
    unfoldable pub continue :
        Result (Map String String) × S
        → (Map String String → S → Result (Map String String) × S)
        → Result (Map String String) × S
    continue (err e, s) k = (err e, s)
    continue (ok configs, s) k = k configs s

    unfoldable pub add_configs :
        NodeConfig → List NodeConfig → Map String String → S → Result (Map String String) × S
    add_configs node [] configs s = (ok configs, s)
    add_configs node (peer ∷ l) configs s =
        continue (add_config node peer configs s) (add_configs node l)

    unfoldable pub generate_wireguard :
        NodeConfig → List NodeConfig → S → Result (Map String String) × S
    generate_wireguard node peers s = add_configs node peers Map.empty s

    finish : Time → NodeConfig → Map String String → Result String → Result NodeConfig
    finish now node configs (err e) = err (wrap "generating babel config" e)
    finish now node configs (ok babel) = ok (record node {
      wireguard = formats.encode_configs configs;
      babel = babel;
      updated_at = now;
      status = zero_status;
    })

    with_configs :
        Time → NodeConfig → List NodeConfig → Result (Map String String) × S → Result NodeConfig × S
    unfolding finish
    with_configs now node nodes (err e, s) = (err (wrap "generating wireguard config" e), s)
    with_configs now node nodes (ok configs, s) =
        (finish now node configs (generate_babel node nodes), s)

    with_nodes : Time → NodeConfig → Result (List NodeConfig) × S → Result NodeConfig × S
    unfolding with_configs
    with_nodes now node (err e, s) = (err (wrap "list nodes" e), s)
    with_nodes now node (ok nodes, s) =
        with_configs now node nodes (generate_wireguard node nodes s)

    with_node : Floats → Time → Result NodeConfig → S → Result NodeConfig × S
    unfolding with_nodes
    with_node floats now (err e) s = (err (wrap "getting node info" e), s)
    with_node floats now (ok node) s = with_nodes now node (list_nodes store floats s)

    unfoldable pub generate_node_config : Floats → Time → ℤ → S → Result NodeConfig × S
    unfolding with_node
    generate_node_config floats now id s = with_node floats now (store.get_node id s) s

    config_response : Result NodeConfig × S → Response NodeConfig × S
    config_response (err e, s) = (reject 500 e, s)
    config_response (ok config, s) = (respond 200 config, s)

    -- The argument is the `id` of the path.
    unfoldable pub handle_get_config : Floats → Time → String → S → Response NodeConfig × S
    unfolding config_response
    handle_get_config floats now param s = elim (atoi param) [
      | none ↦ (reject 400 (message "Invalid node ID"), s)
      | some id ↦ config_response (generate_node_config floats now id s)
    ]
