-- ===== src/Config.antt =====
-- pkg/config: the configurations of the server and of the agent. Reading a file and parsing its YAML
-- are parameters, and so are the paths of path/filepath.
pub mod Checks
pub mod Paths
use wireguard_babeld_igp.Base.{
  String, Bool, true, false, ite, if◌then◌else◌, ◌=?◌, string_key, ◌&&◌, not, Option, none, some,
}
use wireguard_babeld_igp.Base.Int.{ℤ, pos, int_key, ltb_ℤ}
use wireguard_babeld_igp.Data.Text.{show_ℤ}
use wireguard_babeld_igp.Errors.{
  Error, Result, ok, err, message, formatted, wrap, wrapped, ◌>>=◌, ◌>>◌,
}
use Prim.Native.String.{◌++◌}

pub record Tls : Type 0 where
  pub enabled : Bool
  pub cert : String
  pub key : String

pub record ServerSection : Type 0 where
  pub host : String
  pub port : ℤ
  pub tls : Tls
  pub secret_key : String

pub record Network : Type 0 where
  pub base_port : ℤ
  pub ipv4_range : String
  pub ipv4_template : String
  pub ipv4_node_template : String
  pub ipv6_range : String
  pub ipv6_template : String
  pub ipv6_node_template : String
  pub link_local_template : String
  pub link_local_net : String
  pub babel_multicast : String
  pub babel_port : ℤ

pub record Templates : Type 0 where
  pub wireguard : String
  pub babel : String

pub record Log : Type 0 where
  pub debug : Bool
  pub file : String

pub record Postgres : Type 0 where
  pub host : String
  pub port : ℤ
  pub user : String
  pub password : String
  pub db_name : String
  pub ssl_mode : String

pub record Storage : Type 0 where
  pub type : String
  pub sqlite_path : String
  pub postgres : Postgres

pub record ServerConfig : Type 0 where
  pub server : ServerSection
  pub network : Network
  pub templates : Templates
  pub log : Log
  pub storage : Storage

-- `if s == "" { return fmt.Errorf(text) }`, and the test of a number that must be positive.
unfoldable pub required : String → String → Result (Unit {0})
required text s = ite (s =? "") (err (message text)) (ok tt)

unfoldable pub positive : String → ℤ → Result (Unit {0})
positive text z = if ltb_ℤ (pos 0) z then ok tt else err (message (text ++ show_ℤ z))

unfoldable pub validate : ServerConfig → Result (Unit {0})
validate c =
    required "server.host is required" c.server.host
    >> positive "invalid server.port: " c.server.port
    >> positive "invalid network.base_port: " c.network.base_port
    >> required "network.ipv4_range is required" c.network.ipv4_range
    >> required "network.ipv6_range is required" c.network.ipv6_range
    >> required "storage.type is required" c.storage.type

-- LoadConfig, for a type of configurations with its parser and its Validate.
unfoldable pub load_config :
    {C : Type 0} → (String → Result C) → (C → Result (Unit {0})) → Result String → Result C
load_config parse valid read = wrapped "reading config file" read >>= λ data_.
    wrapped "parsing config file" (parse data_) >>= λ c.
    wrapped "validating config" (valid c) >> ok c

pub record AgentConfig : Type 0 where
  pub node_id : ℤ
  pub token : String
  pub address : String
  pub grpc_address : String
  pub tls_enabled : Bool
  pub ca_cert : String
  pub wireguard_config_path : String
  pub wireguard_prefix : String
  pub babel_config_path : String
  pub babel_bin_path : String
  pub log_path : String
  pub log_level : String
  pub dry_run : Bool
  pub metrics_port : ℤ

-- LoadAgentConfig; its second argument, the workspace, is not read.
unfoldable pub load_agent_config :
    (String → Result AgentConfig) → Result String → Result AgentConfig
load_agent_config parse read = wrapped "reading config file" read >>= λ data_.
    wrapped "parsing config file" (parse data_) >>= λ c.
    ite (c.node_id =? pos 0) (err (message "node_id is required")) (ok tt)
    >> required "token is required" c.token
    >> required "server.address is required" c.address
    >> required "server.grpc_address is required" c.grpc_address
    >> ok c

module _ (is_abs : String → Bool) (join : String → String → String) where
  -- The log's file, where it has one.
  unfoldable pub resolve_log : String → String → String
  resolve_log base file = ite (file =? "") file (if is_abs file then file else join base file)

  -- `mkdir` is what os.MkdirAll answers for the directory of a path.
  unfoldable pub resolve_relative_paths :
      (String → Option Error) → String → ServerConfig → Result ServerConfig
  resolve_relative_paths mkdir base c =
      let logged = record c { log = record c.log { file = resolve_log base c.log.file } } in
      ite (c.storage.type =? "sqlite")
        (if is_abs c.storage.sqlite_path
          then ok logged
          else let path = join base c.storage.sqlite_path in
            elim (mkdir path) [
              | none ↦ ok (record logged { storage = record c.storage { sqlite_path = path } })
              | some e ↦ err (wrap "creating sqlite directory" e)
            ])
        (ok logged)

  unfoldable pub load_server_config :
      (String → Result ServerConfig)
      → (String → Option Error)
      → String
      → Result String
      → Result ServerConfig
  load_server_config parse mkdir base read = load_config parse validate read >>= λ c.
      wrapped "resolving paths" (resolve_relative_paths mkdir base c)

abbrev pub default_server_config : ServerConfig
default_server_config = record {
  server = record {
    host = "0.0.0.0";
    port = pos 8080;
    tls = record { enabled = false; cert = ""; key = "" };
    secret_key = "";
  };
  network = record {
    base_port = pos 36420;
    ipv4_range = "10.42.0.0/16";
    ipv4_template = "10.42.0.0/16";
    ipv4_node_template = "10.42.0.0/16";
    ipv6_range = "2a13:a5c7:21ff::/48";
    ipv6_template = "2a13:a5c7:21ff::/48";
    ipv6_node_template = "2a13:a5c7:21ff::/48";
    link_local_template = "fe80::/64";
    link_local_net = "fe80::/64";
    babel_multicast = "ff02::1:6/128";
    babel_port = pos 6696;
  };
  templates = record { wireguard = ""; babel = "" };
  log = record { debug = false; file = "data/mesh-server.log" };
  storage = record {
    type = "sqlite";
    sqlite_path = "data/mesh.db";
    postgres = record {
      host = "";
      port = pos 0;
      user = "";
      password = "";
      db_name = "";
      ssl_mode = "";
    };
  };
}

abbrev pub default_agent_config : AgentConfig
default_agent_config = record {
  node_id = pos 0;
  token = "";
  address = "http://localhost:8080";
  grpc_address = "localhost:9090";
  tls_enabled = false;
  ca_cert = "";
  wireguard_config_path = "";
  wireguard_prefix = "";
  babel_config_path = "";
  babel_bin_path = "";
  log_path = "";
  log_level = "info";
  dry_run = false;
  metrics_port = pos 9100;
}
