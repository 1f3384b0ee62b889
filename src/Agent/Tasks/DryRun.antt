-- ===== src/Agent/Tasks/DryRun.antt =====
-- Runtime.DryRun: the agent then leaves its node alone.
use wireguard_babeld_igp.Base.{
  ◌≡◌, ◌=?◌, string_key, ite_ind, refl, true, List, [], ◌∷◌, String, ite_ind,
}
use wireguard_babeld_igp.Errors.{ok, err, Result}
use wireguard_babeld_igp.Types.{NodeConfig, task_type_update}
use wireguard_babeld_igp.Config.{AgentConfig}
use wireguard_babeld_igp.Agent.System.{System, Agent, Handled, handled, exits, and_then, wrapped_in}
use wireguard_babeld_igp.Agent.Tasks.{
  config_changed, if_changed, enable_wireguard, restart_wireguard, restart_babeld, install_peer,
  update_peer, update_wireguard, install_babel, update_babel, handle_config_update, handle_task,
  install, install_texts, install_fetched, report_success, report_failure, finish, report_status,
  unless_dry, fetch_config,
}

-- The files and the commands run are those of before; an exit leaves them too.
pub IsIdle : Agent → Handled Agent → Type 0
IsIdle a (exits e) = Unit
IsIdle a (handled b) = (b.files ≡ a.files) × (b.runs ≡ a.runs)

module _ (sys : System) (cfg : AgentConfig) (dry : cfg.dry_run ≡ true) where
  update_peer_dry : (peer text : String) (a : Agent) → update_peer sys cfg peer text a ≡ (ok tt, a)
  unfolding update_peer config_changed if_changed install_peer enable_wireguard restart_wireguard
      and_then wrapped_in unless_dry
  update_peer_dry peer text a = rw dry refl

  update_wireguard_dry :
      (l : List (String × String)) (a : Agent) → update_wireguard sys cfg l a ≡ (ok tt, a)
  unfolding update_wireguard and_then
  update_wireguard_dry [] a = refl
  update_wireguard_dry ((peer, text) ∷ l) a =
      rw (update_peer_dry peer text a) (update_wireguard_dry l a)

  update_babel_dry : (config : String) (a : Agent) → update_babel sys cfg config a ≡ (ok tt, a)
  unfolding update_babel config_changed if_changed install_babel restart_babeld and_then wrapped_in
      unless_dry
  update_babel_dry config a = rw dry refl

  install_dry :
      (config : NodeConfig) (texts : List (String × String)) (a : Agent)
      → install sys cfg config texts a ≡ (ok tt, a)
  unfolding install and_then wrapped_in
  install_dry config texts a =
      rw (update_wireguard_dry texts a, update_babel_dry config.babel a) refl

  finish_dry :
      (id : String) (texts : Result (List (String × String))) (config : NodeConfig) (a : Agent)
      → IsIdle a (finish sys cfg id (install_texts sys cfg id config texts a))
  unfolding finish install_texts IsIdle report_failure report_success report_status
  finish_dry id (err e) config a = tt
  finish_dry id (ok texts) config a = rw (install_dry config texts a) (refl, refl)

  finish_fetched_dry :
      (id : String) (c : Result NodeConfig) (a : Agent)
      → IsIdle a (finish sys cfg id (install_fetched sys cfg id c a))
  unfolding finish install_fetched IsIdle report_failure report_status
  finish_fetched_dry id (err e) a = (refl, refl)
  finish_fetched_dry id (ok config) a = finish_dry id (sys.decode_texts config.wireguard) config a

  -- With dry_run set, the agent handles every task without writing a file or running a command.
  pub handle_task_dry : (id type : String) (a : Agent) → IsIdle a (handle_task sys cfg id type a)
  unfolding handle_task handle_config_update finish report_failure report_status IsIdle
  handle_task_dry id type a =
      ite_ind (λ h. IsIdle a (finish sys cfg id h)) (type =? task_type_update) _ _
        (λ e. finish_fetched_dry id (fetch_config sys cfg) a) (λ n. (refl, refl))
