-- ===== src/Store/Gorm/Filled.antt =====
-- GormStore as a Store, whose CreateTask reads the clock once for both of its times, and the choice that NewStore of pkg/store/store.go makes.
use Prim.Native.String.{◌++◌}
use wireguard_babeld_igp.Base.{String, ite, ◌=?◌, string_key}
use wireguard_babeld_igp.Base.Int.{ℤ}
use wireguard_babeld_igp.Data.Text.{show_ℤ}
use wireguard_babeld_igp.Errors.{Result, ok, err, unsupported_store}
use wireguard_babeld_igp.Store.Memory.{MemoryStore, new_memory_store}
use wireguard_babeld_igp.Store.Interface.{Store}
use wireguard_babeld_igp.Store.Gorm.{Database, new_gorm_store}
use wireguard_babeld_igp.Store.Gorm.Users
use wireguard_babeld_igp.Store.Gorm.Tasks
use wireguard_babeld_igp.Store.Gorm.Nodes
use wireguard_babeld_igp.Store.Gorm.Connections

abbrev pub gorm_store : {D : Type 0} → Database D → Store D
gorm_store db = record {
  create_node = Nodes.create_node db;
  get_node = Nodes.get_node db;
  update_node = Nodes.update_node db;
  delete_node = Nodes.delete_node db;
  list_nodes = Nodes.list_nodes db;
  change_listed = λ f d. d;
  get_or_create_connection = Connections.get_or_create db;
  update_node_status = Nodes.update_node_status db;
  get_node_status = Nodes.get_node_status db;
  list_node_status = Nodes.list_node_status db;
  create_task = λ now p h d. Tasks.create_task db now now p h d;
  update_task = Tasks.update_task db;
  get_task = Tasks.get_task db;
  list_tasks = Tasks.list_tasks db;
  delete_task = Tasks.delete_task db;
  cleanup_tasks = λ now h d. Tasks.cleanup_tasks db now d;
  create_user = Users.create_user db;
  get_user = Users.get_user db;
  get_user_by_username = Users.get_user_by_username db;
  check_user_exists = Users.check_user_exists db;
  update_user = Users.update_user db;
  delete_user = Users.delete_user db;
  close = Nodes.close db;
}

pub record PostgresConfig : Type 0 where
  pub host : String
  pub port : ℤ
  pub user : String
  pub password : String
  pub db_name : String
  pub ssl_mode : String

pub record StoreConfig : Type 0 where
  pub type : String
  pub sqlite_path : String
  pub postgres : PostgresConfig

-- The store behind the interface.
pub data AnyStore (D : Type 0) : Type 0 where
  in_memory : MemoryStore → AnyStore D
  in_database : D → AnyStore D

unfoldable pub data_source : PostgresConfig → String
data_source c =
    "host="
    ++ (c.host
        ++ (" user="
            ++ (c.user
                ++ (" password="
                    ++ (c.password
                        ++ (" dbname="
                            ++ (c.db_name
                                ++ (" port="
                                    ++ (show_ℤ c.port ++ (" sslmode=" ++ c.ssl_mode))))))))))

module _ {D : Type 0} (db : Database D) (open_sqlite open_postgres : String → Result D) where
  behind : Result D → Result (AnyStore D)
  behind (err e) = err e
  behind (ok d) = ok (in_database d)

  unfoldable pub new_store : StoreConfig → Result (AnyStore D)
  unfolding behind
  new_store c = ite (c.type =? "memory") (ok (in_memory new_memory_store)) (
      ite (c.type =? "sqlite") (behind (new_gorm_store db (open_sqlite c.sqlite_path))) (
        ite (c.type =? "postgres")
          (behind (new_gorm_store db (open_postgres (data_source c.postgres))))
          (err (unsupported_store c.type))))
