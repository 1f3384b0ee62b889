-- ===== src/Agent/Tasks.antt =====
-- pkg/agent/handlers/task_handler.go: what the agent does with a task of the server. HandleTask runs
-- in a goroutine per task; here one runs at a time. Logs are left out.
pub mod DryRun
pub mod Reports
pub mod Install
pub mod Retries
pub mod Authorized
use Prim.Native.String.{◌++◌}
use wireguard_babeld_igp.Base.{
  ◌≡◌, ◌≢◌, ap, if_neg, ℕ, zero, suc, String, Bool, true, false, Option, none, some, List, [], ◌∷◌,
  ite, if◌then◌else◌, ◌=?◌, string_key, leb, ◌&&◌,
}
use wireguard_babeld_igp.Base.Int.{ℤ, pos, int_key}
use wireguard_babeld_igp.Data.Map.{get}
use wireguard_babeld_igp.Data.Text.{show_ℤ, replace_all}
use wireguard_babeld_igp.Errors.{
  Error, Result, ok, err, wrap, formatted, wrapped, bad_status, unknown_task_type,
}
use wireguard_babeld_igp.Types.{
  NodeConfig, task_type_update, task_status_failed, task_status_success,
}
use wireguard_babeld_igp.Config.{AgentConfig}
use wireguard_babeld_igp.Agent.System.{
  System, Agent, Command, Response, Report, Done, Handled, handled, exits, and_then, wrapped_in,
  run, write_file,
}

module _ (sys : System) (cfg : AgentConfig) where
  unfoldable pub read_found : String → Option Error → Option String → Result String
  read_found path e none = ok ""
  read_found path none (some text) = ok text
  read_found path (some e) (some text) = err (wrap ("reading file " ++ path) e)

  -- A file that is not there reads as an empty text.
  unfoldable pub read_file_content : String → Agent → Result String
  read_file_content path a =
      if cfg.dry_run then ok "" else read_found path (sys.read_error path) (get a.files path)

  unfoldable pub differs_from : String → Result String → Result Bool
  differs_from text (err e) = err e
  differs_from text (ok current) = ok (ite (current =? text) false true)

  unfoldable pub config_changed : String → String → Agent → Result Bool
  unfolding differs_from
  config_changed path text a =
      if cfg.dry_run then ok true else differs_from text (read_file_content path a)

  -- `if err != nil { return err }; if !changed { return nil }`, then the rest
  unfoldable pub if_changed : Result Bool → (Agent → Done) → Agent → Done
  if_changed (err e) k a = (err e, a)
  if_changed (ok false) k a = (ok tt, a)
  if_changed (ok true) k a = k a

  unfoldable pub unless_dry : (Agent → Done) → Agent → Done
  unless_dry k a = if cfg.dry_run then (ok tt, a) else k a

  abbrev pub systemctl : String → String → Command
  systemctl verb unit = "systemctl" ∷ verb ∷ unit ∷ []

  unfoldable pub enable_wireguard : String → Agent → Done
  unfolding unless_dry
  enable_wireguard name =
      unless_dry (λ a.
        wrapped_in "enabling wireguard" (run sys (systemctl "enable" ("wg-quick@" ++ name)) a))

  unfoldable pub restart_wireguard : String → Agent → Done
  unfolding unless_dry
  restart_wireguard name = unless_dry (λ a.
      wrapped_in "restarting wireguard" (run sys (systemctl "restart" ("wg-quick@" ++ name)) a))

  unfoldable pub restart_babeld : Agent → Done
  unfolding unless_dry
  restart_babeld =
      unless_dry (λ a. wrapped_in "restarting babeld" (run sys (systemctl "restart" "babeld") a))

  -- filepath.Join(ConfigPath, Prefix + peer + ".conf")
  abbrev pub path_of : String → String
  path_of peer = sys.join cfg.wireguard_config_path ((cfg.wireguard_prefix ++ peer) ++ ".conf")

  -- The body of the loop for a peer whose configuration has changed.
  unfoldable pub install_peer : String → String → Agent → Done
  unfolding unless_dry
  install_peer peer text a =
      let name = cfg.wireguard_prefix ++ peer in
      and_then
        (wrapped_in "writing wireguard config" (unless_dry (write_file sys (path_of peer) text) a))
        (λ b.
          and_then (wrapped_in "enabling wireguard" (enable_wireguard name b))
            (λ c. wrapped_in "restarting wireguard" (restart_wireguard name c)))

  unfoldable pub update_peer : String → String → Agent → Done
  update_peer peer text a =
      if_changed (wrapped "checking wireguard config" (config_changed (path_of peer) text a))
        (install_peer peer text) a

  -- The configurations come in the order in which the loop visits them.
  unfoldable pub update_wireguard : List (String × String) → Agent → Done
  update_wireguard [] a = (ok tt, a)
  update_wireguard ((peer, text) ∷ l) a = and_then (update_peer peer text a) (update_wireguard l)

  unfoldable pub install_babel : String → Agent → Done
  unfolding unless_dry
  install_babel text a =
      and_then
        (wrapped_in "writing babeld config"
          (unless_dry (write_file sys cfg.babel_config_path text) a))
        (λ b. wrapped_in "restarting babeld" (restart_babeld b))

  unfoldable pub update_babel : String → Agent → Done
  update_babel config a =
      let text = replace_all "{WGPrefix}" cfg.wireguard_prefix config in
      if_changed (wrapped "checking babeld config" (config_changed cfg.babel_config_path text a))
        (install_babel text) a

  unfoldable pub config_path : String
  config_path = "/api/agent/config/" ++ show_ℤ cfg.node_id

  -- The header Authorization.
  unfoldable pub auth_header : String
  auth_header = "Basic " ++ sys.encode_base64 (show_ℤ cfg.node_id ++ (":" ++ cfg.token))

  -- The request for the configuration, up to its decoded answer.
  unfoldable pub fetch_config : Result NodeConfig
  fetch_config = elim (sys.fetch (cfg.address ++ config_path) auth_header) [
    | Response.not_made e ↦ err (wrap "fetching config" e)
    | Response.not_answered e ↦ err (formatted "发送请求失败:" e)
    | Response.answered status body ↦
        ite (status =? pos 200) (wrapped "decoding config" (sys.decode_config body))
          (err (bad_status status))
  ]

  unfoldable pub report_status : String → String → String → Agent → Agent
  report_status id status error a = record a {
    reports = record { task_id = id; status = status; error = error } ∷ a.reports;
  }

  report_success : String → Done → Done
  report_success id (err e, a) = (err e, a)
  report_success id (ok _, a) = (ok tt, report_status id task_status_success "" a)

  install : NodeConfig → List (String × String) → Agent → Done
  install config texts a =
      and_then (wrapped_in "updating wireguard config" (update_wireguard texts a))
        (λ b. wrapped_in "updating babeld config" (update_babel config.babel b))

  install_texts : String → NodeConfig → Result (List (String × String)) → Agent → Handled Done
  unfolding install report_success
  install_texts id config (err e) a = exits e
  install_texts id config (ok texts) a = handled (report_success id (install config texts a))

  install_fetched : String → Result NodeConfig → Agent → Handled Done
  unfolding install_texts
  install_fetched id (err e) a = handled (err e, a)
  install_fetched id (ok config) a = install_texts id config (sys.decode_texts config.wireguard) a

  unfoldable pub handle_config_update : String → Agent → Handled Done
  unfolding install_fetched
  handle_config_update id a = install_fetched id fetch_config a

  report_failure : String → Done → Agent
  report_failure id (ok _, a) = a
  report_failure id (err e, a) = report_status id task_status_failed (sys.text_of e) a

  finish : String → Handled Done → Handled Agent
  unfolding report_failure
  finish id (exits e) = exits e
  finish id (handled d) = handled (report_failure id d)

  unfoldable pub handle_task : String → String → Agent → Handled Agent
  unfolding finish
  handle_task id type a = finish id (
      ite (type =? task_type_update) (handle_config_update id a)
        (handled (err (unknown_task_type type), a)))

  pub unknown_task_fails :
      (id type : String) (a : Agent)
      → type ≢ task_type_update
      → handle_task id type a
        ≡ handled (report_status id task_status_failed (sys.text_of (unknown_task_type type)) a)
  unfolding handle_task finish report_failure
  unknown_task_fails id type a n = ap (finish id) (
      if_neg (type =? task_type_update) n (handle_config_update id a)
        (handled (err (unknown_task_type type), a)))
