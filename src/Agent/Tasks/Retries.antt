-- ===== src/Agent/Tasks/Retries.antt =====
-- An update whose commands fail, and the update after it.
use mathlib.Core.Path.{subst}
use wireguard_babeld_igp.Base.{
  ◌≡◌, ◌∙◌, ap, refl, false, String, Option, none, some, if_pos, if◌then◌else◌, ◌∷◌, ◌=?◌,
  string_key,
}
use wireguard_babeld_igp.Data.Map.{get, put, get-put}
use wireguard_babeld_igp.Errors.{ok, err, Error}
use wireguard_babeld_igp.Config.{AgentConfig}
use wireguard_babeld_igp.Agent.System.{
  System, Agent, Files, Command, Done, and_then, wrapped_in, run, write_file, ran, written,
}
use wireguard_babeld_igp.Agent.Tasks.{
  enable_wireguard, restart_wireguard, install_peer, update_peer, unless_dry, path_of,
}
use wireguard_babeld_igp.Agent.Tasks.Install.{text_of, text_at, skipped}

-- Whatever it returns, a step leaves these files.
Leaves : Files → Done → Type 0
Leaves f d = d.1.files ≡ f

seq-Leaves :
    (f : Files) (d : Done) (g : Agent → Done)
    → Leaves f d
    → ((a : Agent) → Leaves a.files (g a))
    → Leaves f (and_then d g)
unfolding Leaves and_then
seq-Leaves f (ok u, a) g e k = k a ∙ e
seq-Leaves f (err x, a) g e k = e

wrap-Leaves : (f : Files) (text : String) (d : Done) → Leaves f d → Leaves f (wrapped_in text d)
unfolding Leaves wrapped_in
wrap-Leaves f text (ok u, a) e = e
wrap-Leaves f text (err x, a) e = e

ran-Leaves : (a : Agent) (o : Option Error) → Leaves a.files (ran a o)
unfolding Leaves ran
ran-Leaves a none = refl
ran-Leaves a (some e) = refl

module _ (sys : System) (cfg : AgentConfig) (dry : cfg.dry_run ≡ false) where
  command-Leaves :
      (text : String) (c : Command) (a : Agent)
      → Leaves a.files (unless_dry sys cfg (λ b. wrapped_in text (run sys c b)) a)
  unfolding unless_dry run
  command-Leaves text c a =
      rw dry
        (wrap-Leaves _ _ _ (ran-Leaves (record a { runs = c ∷ a.runs }) (sys.run_error a.runs c)))

  module _ (peer text : String) (a : Agent)
      (written_ok : sys.write_error (path_of sys cfg peer) text a.files ≡ none) where
    write-Leaves :
        Leaves
          (put a.files (path_of sys cfg peer) text)
          (unless_dry sys cfg (write_file sys (path_of sys cfg peer) text) a)
    unfolding Leaves unless_dry write_file written
    write-Leaves = simp (dry, if◌then◌else◌, written_ok)

    install_peer-Leaves :
        Leaves (put a.files (path_of sys cfg peer) text) (install_peer sys cfg peer text a)
    unfolding install_peer enable_wireguard restart_wireguard
    install_peer-Leaves = seq-Leaves _ _ _ (wrap-Leaves _ _ _ write-Leaves) (λ b.
        seq-Leaves _ _ _ (wrap-Leaves _ _ _ (command-Leaves _ _ b))
          (λ c. wrap-Leaves _ _ _ (command-Leaves _ _ c)))

    -- Where files can be read, an installation that wrote its file and then failed, since the interface
    -- could not be enabled or restarted, is not made up for: the update after it succeeds without a
    -- command, so the interface keeps the configuration from before.
    pub failed_restart_skipped :
        sys.read_error (path_of sys cfg peer) ≡ none
        → (e : Error) (b : Agent) → install_peer sys cfg peer text a ≡ (err e, b)
        → update_peer sys cfg peer text b ≡ (ok tt, b)
    unfolding Leaves
    failed_restart_skipped r e b f =
        let path = path_of sys cfg peer in
        let files = subst (λ (d : Done). d.1.files ≡ put a.files path text) f install_peer-Leaves in
        skipped sys cfg dry peer text b r (
          ap (λ g. text_at g path) files
          ∙ ap text_of (
              get-put a.files path path text
              ∙ if_pos (path =? path) refl (some text) (get a.files path)))
