-- ===== src/Tests/Agents.antt =====
-- The theorems on the agent, on a node whose commands all succeed, and on one whose restarts fail.
use Prim.Native.String.{◌++◌}
use wireguard_babeld_igp.Base.{
  ◌≡◌, refl, List, ◌∷◌, [], String, none, some, true, false, string_key, String_discrete,
}
use wireguard_babeld_igp.Base.Int.{pos}
use wireguard_babeld_igp.Data.Map.{get, put}
use wireguard_babeld_igp.Data.Map as Map
use wireguard_babeld_igp.Errors.{ok, err, Error, message, wrap}
use wireguard_babeld_igp.Types.{zero_node}
use wireguard_babeld_igp.Config.{AgentConfig}
use wireguard_babeld_igp.Agent.System.{
  and_then, wrapped_in, write_file, written, run, ran, System, Agent, answered,
}
use wireguard_babeld_igp.Agent.Tasks.{
  config_changed, read_file_content, read_found, differs_from, if_changed, unless_dry,
  enable_wireguard, restart_wireguard, update_wireguard, update_peer, install_peer, handle_task,
}
use wireguard_babeld_igp.Agent.Tasks.Reports.{IsReported, handle_task-IsReported}
use wireguard_babeld_igp.Agent.Tasks.Install.{
  AreInstalled, Away, text_at, update_wireguard_installs, update_wireguard_twice,
}
use wireguard_babeld_igp.Agent.Tasks.Retries.{failed_restart_skipped}

abbrev pub config : AgentConfig
config = record {
  node_id = pos 1;
  token = "secret";
  address = "http://server";
  grpc_address = "server:9090";
  tls_enabled = false;
  ca_cert = "";
  wireguard_config_path = "wireguard/";
  wireguard_prefix = "wg";
  babel_config_path = "babeld.conf";
  babel_bin_path = "babeld";
  log_path = "";
  log_level = "info";
  dry_run = false;
  metrics_port = pos 9100;
}

abbrev pub works : System
works = record {
  fetch = λ url auth. answered (pos 200) "body";
  decode_config = λ body. ok (record zero_node { babel = "interface {WGPrefix}branch" });
  decode_texts = λ text. ok (("branch", "peer") ∷ []);
  encode_base64 = λ s. s;
  join = λ a b. a ++ b;
  read_error = λ path. none;
  write_error = λ path text files. none;
  run_error = λ runs c. none;
  text_of = λ e. "error";
}

abbrev fails : System
fails = record works { run_error = λ runs c. some (message "exit status 1") }

abbrev fresh : Agent
fresh = record { files = Map.empty; runs = []; reports = [] }

abbrev texts : List (String × String)
texts = ("branch", "peer") ∷ []

abbrev installed : Agent
installed = (update_wireguard works config texts fresh).1

installed_ok : update_wireguard works config texts fresh ≡ (ok tt, installed)
unfolding update_wireguard update_peer config_changed read_file_content read_found differs_from
    if_changed install_peer and_then wrapped_in unless_dry write_file written enable_wireguard
    restart_wireguard run ran get String_discrete
installed_ok = refl

update_wireguard_installs_example :
    AreInstalled works config refl installed.files texts
    × ((q : String)
        → Away works config refl q texts
        → text_at installed.files q ≡ text_at fresh.files q)
update_wireguard_installs_example =
    update_wireguard_installs works config refl texts fresh installed (tt, tt) installed_ok

update_wireguard_twice_example : update_wireguard works config texts installed ≡ (ok tt, installed)
update_wireguard_twice_example =
    update_wireguard_twice works config refl texts fresh installed (λ path. refl) (tt, tt)
      installed_ok

handle_task-IsReported_example :
    IsReported works config "update_1" fresh (handle_task works config "update_1" "update" fresh)
handle_task-IsReported_example = handle_task-IsReported works config "update_1" "update" fresh

abbrev dry : AgentConfig
dry = record config { dry_run = true }

abbrev unstarted : Agent
unstarted = (install_peer fails config "branch" "peer" fresh).1

abbrev enabling : Error
enabling = wrap "enabling wireguard" (wrap "enabling wireguard" (message "exit status 1"))

unstarted_err : install_peer fails config "branch" "peer" fresh ≡ (err enabling, unstarted)
unfolding install_peer and_then wrapped_in unless_dry write_file written enable_wireguard
    restart_wireguard run ran
unstarted_err = refl

failed_restart_skipped_example :
    update_peer fails config "branch" "peer" unstarted ≡ (ok tt, unstarted)
failed_restart_skipped_example =
    failed_restart_skipped fails config refl "branch" "peer" fresh refl refl enabling unstarted
      unstarted_err
