-- ===== src/Tests/Configs.antt =====
-- The theorems on configurations: the server's own, and those of a node with one peer.
use Prim.Native.Char.{code}
use Prim.Native.String.{◌∷◌, []}
use wireguard_babeld_igp.Base.{
  ◌≡◌, refl, ◌∷◌, [], String, Option, none, some, false, Bool, string_key, String_discrete, leb,
  ◌&&◌,
}
use wireguard_babeld_igp.Base.Int.{ℤ_discrete}
use wireguard_babeld_igp.Data.Map.{Map, get}
use wireguard_babeld_igp.Data.Map as Map
use wireguard_babeld_igp.Data.Map.Range.{In, first}
use wireguard_babeld_igp.Errors.{Result, ok, err, Error}
use wireguard_babeld_igp.Config.{
  ServerConfig, Network, default_server_config, validate, load_config, load_server_config,
  resolve_relative_paths, required, positive, resolve_log,
}
use wireguard_babeld_igp.Store.Memory.{MemoryStore}
use wireguard_babeld_igp.Store.Memory.Connections.{
  get_or_create, by_pair_or_create, create_connection,
}
use wireguard_babeld_igp.Store.Interface.{memory_store}
use wireguard_babeld_igp.Server.Services.Configs.{
  Formats, babel_data, add_configs, add_config, continue, generate_connection, connected, executed,
  generate_wireguard,
}
use wireguard_babeld_igp.Server.Services.Configs.Interfaces.{Origin, generate_wireguard-interfaces}
use wireguard_babeld_igp.Tests.Fixtures.{map_orders, gateway, branch, one_node}

abbrev rooted : String → Bool
rooted [] = false
rooted (c ∷ path) = leb 47 (code c) && leb (code c) 47

abbrev join : String → String → String
join base path = "/" ∷ path

abbrev no_error : String → Option Error
no_error path = none

abbrev parse : String → Result ServerConfig
parse text = ok default_server_config

abbrev resolved : ServerConfig
resolved = record default_server_config {
  log = record { debug = false; file = "/data/mesh-server.log" };
  storage = record default_server_config.storage { sqlite_path = "/data/mesh.db" };
}

loaded : load_server_config rooted join parse no_error "/srv" (ok "yaml") ≡ ok resolved
unfolding load_server_config load_config validate resolve_relative_paths String_discrete required
    positive resolve_log
loaded = refl

resolves : resolve_relative_paths rooted join no_error "/srv" default_server_config ≡ ok resolved
unfolding resolve_relative_paths String_discrete resolve_log
resolves = refl

abbrev network : Network
network = record default_server_config.network { ipv6_node_template = "fd00:{node}::/80" }

abbrev formats : Formats
formats = record {
  wireguard = λ data_. ok data_.peer.endpoint;
  babel = λ data_. ok "";
  decode_endpoints = λ text. ok (text ∷ []);
  encode_configs = λ configs. "";
}

abbrev made : Result (Map String String) × MemoryStore
made =
    generate_wireguard network formats (memory_store map_orders) gateway (gateway ∷ branch ∷ [])
      one_node

abbrev configs : Result (Map String String) → Map String String
configs (ok m) = m
configs (err e) = Map.empty

made_ok : made ≡ (ok (configs made.0), made.1)
unfolding generate_wireguard add_configs add_config continue generate_connection connected executed
    get_or_create by_pair_or_create create_connection ℤ_discrete first Map.pairs
made_ok = refl

generate_wireguard-interfaces_example :
    ((name : String)
      → In name (babel_data network formats gateway (gateway ∷ branch ∷ [])).interfaces
      → (text : String) × (get (configs made.0) name ≡ some text))
    × ((name text : String)
        → get (configs made.0) name ≡ some text
        → Origin network formats gateway (gateway ∷ branch ∷ []) name text)
generate_wireguard-interfaces_example =
    generate_wireguard-interfaces network formats gateway (memory_store map_orders)
      (gateway ∷ branch ∷ []) one_node made.1 (configs made.0) made_ok
