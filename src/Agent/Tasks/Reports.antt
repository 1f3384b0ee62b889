-- ===== src/Agent/Tasks/Reports.antt =====
-- What the agent reports of a task.
use wireguard_babeld_igp.Base.{
  ◌≡◌, ◌⊎◌, inl, inr, ◌=?◌, string_key, ite_ind, refl, true, false, List, [], ◌∷◌, String, Bool,
  Bool-cases, Option, none, some, ◌∙◌,
}
use wireguard_babeld_igp.Errors.{ok, err, Result, Error}
use wireguard_babeld_igp.Types.{
  NodeConfig, task_type_update, task_status_success, task_status_failed,
}
use wireguard_babeld_igp.Config.{AgentConfig}
use wireguard_babeld_igp.Agent.System.{
  System, Agent, Report, Command, Done, Handled, handled, exits, and_then, wrapped_in, run, ran,
  written, write_file, Files,
}
use wireguard_babeld_igp.Agent.Tasks.{
  if_changed, enable_wireguard, restart_wireguard, restart_babeld, install_peer, update_peer,
  update_wireguard, install_babel, update_babel, handle_config_update, handle_task, install,
  install_texts, install_fetched, report_success, report_failure, finish, report_status, unless_dry,
  fetch_config,
}

-- A step that leaves the reports as they are, whatever it returns.
Silent : (Agent → Done) → Type 0
Silent f = (a : Agent) → (f a).1.reports ≡ a.reports

seq_from :
    (a : Agent) (d : Done) (g : Agent → Done)
    → d.1.reports ≡ a.reports
    → Silent g
    → (and_then d g).1.reports ≡ a.reports
unfolding Silent and_then
seq_from a (ok u, b) g e t = t b ∙ e
seq_from a (err x, b) g e t = e

seq-Silent : (f g : Agent → Done) → Silent f → Silent g → Silent (λ a. and_then (f a) g)
unfolding Silent
seq-Silent f g s t a = seq_from a (f a) g (s a) t

wrap_from :
    (text : String) (a : Agent) (d : Done)
    → d.1.reports ≡ a.reports
    → (wrapped_in text d).1.reports ≡ a.reports
unfolding wrapped_in
wrap_from text a (ok u, b) e = e
wrap_from text a (err x, b) e = e

wrap-Silent : (text : String) (f : Agent → Done) → Silent f → Silent (λ a. wrapped_in text (f a))
unfolding Silent
wrap-Silent text f s a = wrap_from text a (f a) (s a)

ran_reports : (a : Agent) (o : Option Error) → (ran a o).1.reports ≡ a.reports
unfolding ran
ran_reports a none = refl
ran_reports a (some e) = refl

run-Silent : (sys : System) (c : Command) → Silent (run sys c)
unfolding Silent run
run-Silent sys c a = ran_reports (record a { runs = c ∷ a.runs }) (sys.run_error a.runs c)

written_reports :
    (path text : String) (o : Option (Error × Files)) (a : Agent)
    → (written path text o a).1.reports ≡ a.reports
unfolding written
written_reports path text none a = refl
written_reports path text (some e) a = refl

write_file-Silent : (sys : System) (path text : String) → Silent (write_file sys path text)
unfolding Silent write_file
write_file-Silent sys path text a = written_reports path text (sys.write_error path text a.files) a

module _ (sys : System) (cfg : AgentConfig) where
  unless_dry-Silent : (f : Agent → Done) → Silent f → Silent (unless_dry sys cfg f)
  unfolding Silent unless_dry
  unless_dry-Silent f s a = elim (Bool-cases cfg.dry_run) [ inl e ↦ rw e refl | inr e ↦ rw e (s a) ]

  if_changed-Silent :
      (r : Result Bool) (k : Agent → Done) → Silent k → Silent (if_changed sys cfg r k)
  unfolding Silent if_changed
  if_changed-Silent (err e) k s a = refl
  if_changed-Silent (ok true) k s a = s a
  if_changed-Silent (ok false) k s a = refl

  command-Silent :
      (text : String) (c : Command)
      → Silent (unless_dry sys cfg (λ a. wrapped_in text (run sys c a)))
  command-Silent text c = unless_dry-Silent _ (wrap-Silent text _ (run-Silent sys c))

  write-Silent :
      (text path body : String)
      → Silent (λ a. wrapped_in text (unless_dry sys cfg (write_file sys path body) a))
  write-Silent text path body =
      wrap-Silent text _ (unless_dry-Silent _ (write_file-Silent sys path body))

  install_peer-Silent : (peer text : String) → Silent (install_peer sys cfg peer text)
  unfolding install_peer enable_wireguard restart_wireguard
  install_peer-Silent peer text =
      seq-Silent _ _ (write-Silent _ _ _) (
        seq-Silent _ _ (wrap-Silent _ _ (command-Silent _ _))
          (wrap-Silent _ _ (command-Silent _ _)))

  update_wireguard-Silent : (l : List (String × String)) → Silent (update_wireguard sys cfg l)
  unfolding Silent update_wireguard update_peer
  update_wireguard-Silent [] a = refl
  update_wireguard-Silent ((peer, text) ∷ l) a =
      seq-Silent (update_peer sys cfg peer text) _
        (λ b. if_changed-Silent _ _ (install_peer-Silent peer text) b) (update_wireguard-Silent l) a

  update_babel-Silent : (config : String) → Silent (update_babel sys cfg config)
  unfolding Silent update_babel install_babel restart_babeld
  update_babel-Silent config a =
      if_changed-Silent _ _
        (seq-Silent _ _ (write-Silent _ _ _) (wrap-Silent _ _ (command-Silent _ _))) a

  install-Silent :
      (config : NodeConfig) (texts : List (String × String)) → Silent (install sys cfg config texts)
  unfolding install
  install-Silent config texts =
      seq-Silent _ _ (wrap-Silent _ _ (update_wireguard-Silent texts))
        (wrap-Silent _ _ (update_babel-Silent config.babel))

  abbrev reported : String → String → String → Agent → List Report
  reported id status error a = record { task_id = id; status = status; error = error } ∷ a.reports

  -- One report more, of the task's success or of its failure with a text, or the exit that a body of
  -- WireGuard configurations brings which does not parse.
  pub IsReported : String → Agent → Handled Agent → Type 0
  IsReported id a (exits e) =
      (config : NodeConfig) × (fetch_config sys cfg ≡ ok config)
      × (sys.decode_texts config.wireguard ≡ err e)
  IsReported id a (handled b) =
      (b.reports ≡ reported id task_status_success "" a)
      ⊎ ((text : String) × (b.reports ≡ reported id task_status_failed text a))

  done-IsReported :
      (id : String) (a : Agent) (d : Done)
      → d.1.reports ≡ a.reports
      → IsReported id a (finish sys cfg id (handled (report_success sys cfg id d)))
  unfolding finish report_success report_failure report_status IsReported
  done-IsReported id a (ok u, b) e = inl (rw e refl)
  done-IsReported id a (err x, b) e = inr (sys.text_of x, rw e refl)

  texts-IsReported :
      (id : String) (a : Agent) (config : NodeConfig)
      → fetch_config sys cfg ≡ ok config
      → (texts : Result (List (String × String))) → sys.decode_texts config.wireguard ≡ texts
      → IsReported id a (finish sys cfg id (install_texts sys cfg id config texts a))
  unfolding finish install_texts IsReported Silent
  texts-IsReported id a config f (err e) g = (config, f, g)
  texts-IsReported id a config f (ok texts) g =
      done-IsReported id a (install sys cfg config texts a) (install-Silent config texts a)

  fetched-IsReported :
      (id : String) (a : Agent) (c : Result NodeConfig)
      → fetch_config sys cfg ≡ c
      → IsReported id a (finish sys cfg id (install_fetched sys cfg id c a))
  unfolding finish install_fetched report_failure report_status IsReported
  fetched-IsReported id a (err e) f = inr (sys.text_of e, refl)
  fetched-IsReported id a (ok config) f =
      texts-IsReported id a config f (sys.decode_texts config.wireguard) refl

  -- A task that the agent handles adds exactly one report, under the task's identifier: of success
  -- without an error's text, or of failure with one. The agent exits without one only when the
  -- configuration that it fetched holds WireGuard texts that do not parse.
  pub handle_task-IsReported :
      (id type : String) (a : Agent) → IsReported id a (handle_task sys cfg id type a)
  unfolding handle_task handle_config_update finish report_failure report_status IsReported
  handle_task-IsReported id type a =
      ite_ind (λ h. IsReported id a (finish sys cfg id h)) (type =? task_type_update) _ _
        (λ e. fetched-IsReported id a (fetch_config sys cfg) refl) (λ n. inr (sys.text_of _, refl))
