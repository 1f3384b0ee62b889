-- ===== src/Agent/Tasks/Install.antt =====
-- What updateWireGuardConfig leaves in the node's files, when it is not a dry run.
use wireguard_babeld_igp.Base.{
  ◌≡◌, ◌≢◌, ◌⊎◌, inl, inr, ◌∙◌, sym, ◌=?◌, string_key, ite, if◌then◌else◌, refl, true, false, List,
  [], ◌∷◌, String, Bool, Option, none, some, ap, if_pos, if_neg,
}
use wireguard_babeld_igp.Data.Map.{get, put, get-put}
use wireguard_babeld_igp.Errors.{ok, err, wrapped, Error}
use wireguard_babeld_igp.Config.{AgentConfig}
use wireguard_babeld_igp.Agent.Outcomes.{
  OnOk, seq-OnOk, wrap-OnOk, trans-OnOk, mono-OnOk, ok-OnOk, ran-OnOk,
}
use wireguard_babeld_igp.Agent.System.{
  System, Agent, Files, Command, and_then, wrapped_in, run, write_file, written,
}
use wireguard_babeld_igp.Agent.Tasks.{
  config_changed, if_changed, enable_wireguard, restart_wireguard, read_file_content, differs_from,
  read_found, install_peer, update_peer, update_wireguard, unless_dry, path_of,
}

abbrev pub text_of : Option String → String
text_of none = ""
text_of (some text) = text

-- The text of a file, empty for a file that is not there.
abbrev pub text_at : Files → String → String
text_at files path = text_of (get files path)

-- The second files hold the text at the path, and differ nowhere else.
abbrev Wrote : Files → Files → String → String → Type 0
Wrote f g path text =
    (text_at g path ≡ text) × ((q : String) → q ≢ path → text_at g q ≡ text_at f q)

put-Wrote : (f : Files) (path text : String) → Wrote f (put f path text) path text
put-Wrote f path text = (
  ap text_of (get-put f path path text ∙ if_pos (path =? path) refl (some text) (get f path)),
  λ q n.
      ap text_of
        (get-put f path q text ∙ if_neg (path =? q) (λ e. n (sym e)) (some text) (get f q)),
)

module _ (sys : System) (cfg : AgentConfig) (dry : cfg.dry_run ≡ false) where
  abbrev changed : Files → String → String → Bool
  changed files path text = ite (text_at files path =? text) false true

  read_cases :
      (path text : String) (e : Option Error) (o : Option String)
      → (differs_from sys cfg text (read_found sys cfg path e o)
          ≡ ok (ite (text_of o =? text) false true))
        ⊎ ((x : Error) × (differs_from sys cfg text (read_found sys cfg path e o) ≡ err x))
  unfolding differs_from read_found
  read_cases path text e none = inl refl
  read_cases path text none (some v) = inl refl
  read_cases path text (some x) (some v) = inr (_, refl)

  config_changed_cases :
      (path text : String) (a : Agent)
      → (config_changed sys cfg path text a ≡ ok (changed a.files path text))
        ⊎ ((e : Error) × (config_changed sys cfg path text a ≡ err e))
  unfolding config_changed read_file_content
  config_changed_cases path text a =
      simp (dry, if◌then◌else◌) (read_cases path text (sys.read_error path) (get a.files path))

  command-OnOk :
      (text : String) (c : Command) (a : Agent)
      → OnOk (λ b. b.files ≡ a.files) (unless_dry sys cfg (λ b. wrapped_in text (run sys c b)) a)
  unfolding unless_dry run
  command-OnOk text c a =
      rw dry (ran-OnOk text (record a { runs = c ∷ a.runs }) (sys.run_error a.runs c))

  written-OnOk :
      (path text : String) (o : Option (Error × Files)) (a : Agent)
      → OnOk (λ b. b.files ≡ put a.files path text) (written path text o a)
  unfolding OnOk written
  written-OnOk path text none a = refl
  written-OnOk path text (some e) a = tt

  write-OnOk :
      (path text : String) (a : Agent)
      → OnOk
          (λ b. b.files ≡ put a.files path text)
          (unless_dry sys cfg (write_file sys path text) a)
  unfolding unless_dry write_file
  write-OnOk path text a = rw dry (written-OnOk path text (sys.write_error path text a.files) a)

  install_peer-OnOk :
      (peer text : String) (a : Agent)
      → OnOk
          (λ b. b.files ≡ put a.files (path_of sys cfg peer) text)
          (install_peer sys cfg peer text a)
  unfolding install_peer enable_wireguard restart_wireguard
  install_peer-OnOk peer text a =
      let P : Agent → Type 0 = λ b. b.files ≡ put a.files (path_of sys cfg peer) text in
      seq-OnOk P P _ _ (wrap-OnOk P _ _ (write-OnOk (path_of sys cfg peer) text a)) (λ b e.
        seq-OnOk P P _ _ (wrap-OnOk P _ _ (trans-OnOk _ _ _ e (command-OnOk _ _ b)))
          (λ c f. wrap-OnOk P _ _ (trans-OnOk _ _ _ f (command-OnOk _ _ c))))

  compared :
      (peer text : String) (a : Agent) (d : Dec (text_at a.files (path_of sys cfg peer) ≡ text))
      → OnOk
          (λ b. Wrote a.files b.files (path_of sys cfg peer) text)
          (if_changed sys cfg
            (wrapped "checking wireguard config" (ok (ite d false true)))
            (install_peer sys cfg peer text)
            a)
  unfolding OnOk if_changed
  compared peer text a (yes e) = (e, λ q n. refl)
  compared peer text a (no n) =
      mono-OnOk _ _ (install_peer sys cfg peer text a)
        (λ b e. rw e (put-Wrote a.files (path_of sys cfg peer) text))
        (install_peer-OnOk peer text a)

  refused :
      (x : Error) (peer text : String) (a : Agent)
      → OnOk
          (λ b. Wrote a.files b.files (path_of sys cfg peer) text)
          (if_changed sys cfg
            (wrapped "checking wireguard config" (err x))
            (install_peer sys cfg peer text)
            a)
  unfolding OnOk if_changed
  refused x peer text a = tt

  update_peer-OnOk :
      (peer text : String) (a : Agent)
      → OnOk
          (λ b. Wrote a.files b.files (path_of sys cfg peer) text)
          (update_peer sys cfg peer text a)
  unfolding update_peer
  update_peer-OnOk peer text a =
      let path = path_of sys cfg peer in
      elim (config_changed_cases path text a) [
        | inl e ↦ rw e (compared peer text a (text_at a.files path =? text))
        | inr (x, e) ↦ rw e (refused x peer text a)
      ]

  abbrev pub Away : String → List (String × String) → Type 0
  Away q [] = Unit
  Away q ((peer, text) ∷ l) = (q ≢ path_of sys cfg peer) × Away q l

  -- No two peers have one file.
  abbrev pub AreApart : List (String × String) → Type 0
  AreApart [] = Unit
  AreApart ((peer, text) ∷ l) = Away (path_of sys cfg peer) l × AreApart l

  -- Each peer's file holds its text.
  abbrev pub AreInstalled : Files → List (String × String) → Type 0
  AreInstalled f [] = Unit
  AreInstalled f ((peer, text) ∷ l) = (text_at f (path_of sys cfg peer) ≡ text) × AreInstalled f l

  Installs : Files → List (String × String) → Agent → Type 0
  Installs f l b =
      ((q : String) → Away q l → text_at b.files q ≡ text_at f q)
      × (AreApart l → AreInstalled b.files l)

  Installs-cons :
      (f : Files) (peer text : String) (l : List (String × String)) (b c : Agent)
      → Wrote f b.files (path_of sys cfg peer) text
      → Installs b.files l c
      → Installs f ((peer, text) ∷ l) c
  unfolding Installs
  Installs-cons f peer text l b c (held, others) (kept, rest) = (
    λ q (n, away). kept q away ∙ others q n,
    λ (away, apart). (kept (path_of sys cfg peer) away ∙ held, rest apart),
  )

  update_wireguard-OnOk :
      (l : List (String × String)) (a : Agent)
      → OnOk (Installs a.files l) (update_wireguard sys cfg l a)
  unfolding OnOk update_wireguard Installs
  update_wireguard-OnOk [] a = (λ q away. refl, λ apart. tt)
  update_wireguard-OnOk ((peer, text) ∷ l) a =
      seq-OnOk _ (Installs a.files ((peer, text) ∷ l)) (update_peer sys cfg peer text a)
        (update_wireguard sys cfg l) (update_peer-OnOk peer text a)
        (λ b w.
          mono-OnOk _ _ (update_wireguard sys cfg l b)
            (λ c i. Installs-cons a.files peer text l b c w i) (update_wireguard-OnOk l b))

  -- An update that succeeds, of peers with different files, leaves each peer's text in its file, and
  -- every file that belongs to none of the peers as it was.
  pub update_wireguard_installs :
      (l : List (String × String)) (a b : Agent)
      → AreApart l
      → update_wireguard sys cfg l a ≡ (ok tt, b)
      → AreInstalled b.files l × ((q : String) → Away q l → text_at b.files q ≡ text_at a.files q)
  unfolding Installs
  update_wireguard_installs l a b apart e =
      let i = ok-OnOk (Installs a.files l) _ b e (update_wireguard-OnOk l a) in (i.1 apart, i.0)

  readable :
      (path text : String) (o : Option String)
      → differs_from sys cfg text (read_found sys cfg path none o)
        ≡ ok (ite (text_of o =? text) false true)
  unfolding differs_from read_found
  readable path text none = refl
  readable path text (some v) = refl

  config_same :
      (path text : String) (a : Agent)
      → sys.read_error path ≡ none
      → text_at a.files path ≡ text
      → config_changed sys cfg path text a ≡ ok false
  unfolding config_changed read_file_content
  config_same path text a r e =
      simp (dry, if◌then◌else◌, r)
        (readable path text (get a.files path)
          ∙ ap ok (if_pos (text_at a.files path =? text) e false true))

  pub skipped :
      (peer text : String) (a : Agent)
      → sys.read_error (path_of sys cfg peer) ≡ none
      → text_at a.files (path_of sys cfg peer) ≡ text
      → update_peer sys cfg peer text a ≡ (ok tt, a)
  unfolding update_peer if_changed
  skipped peer text a r e = rw (config_same (path_of sys cfg peer) text a r e) refl

  -- Where each file can be read and holds its text, an update runs nothing and writes nothing.
  pub update_wireguard_idle :
      (l : List (String × String)) (a : Agent)
      → ((path : String) → sys.read_error path ≡ none)
      → AreInstalled a.files l
      → update_wireguard sys cfg l a ≡ (ok tt, a)
  unfolding update_wireguard and_then
  update_wireguard_idle [] a r i = refl
  update_wireguard_idle ((peer, text) ∷ l) a r (e, i) =
      rw (skipped peer text a (r _) e) (update_wireguard_idle l a r i)

  -- Where files can be read, an update that has succeeded, of peers with different files, is not
  -- repeated by a second one: it succeeds at once and changes nothing.
  pub update_wireguard_twice :
      (l : List (String × String)) (a b : Agent)
      → ((path : String) → sys.read_error path ≡ none)
      → AreApart l
      → update_wireguard sys cfg l a ≡ (ok tt, b)
      → update_wireguard sys cfg l b ≡ (ok tt, b)
  update_wireguard_twice l a b r apart e =
      update_wireguard_idle l b r (update_wireguard_installs l a b apart e).0
