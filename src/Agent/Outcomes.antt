-- ===== src/Agent/Outcomes.antt =====
-- What holds after the steps of the agent, by how they end.
use mathlib.Core.Path.{subst}
use wireguard_babeld_igp.Base.{◌≡◌, ◌∙◌, refl, String, Option, none, some}
use wireguard_babeld_igp.Errors.{ok, err, Error}
use wireguard_babeld_igp.Agent.System.{Agent, Files, Done, and_then, wrapped_in, ran}

-- What holds after a step that succeeds.
unfoldable pub OnOk : (Agent → Type 0) → Done → Type 0
OnOk P (ok u, a) = P a
OnOk P (err e, a) = Unit

pub seq-OnOk :
    (P Q : Agent → Type 0) (d : Done) (g : Agent → Done)
    → OnOk P d
    → ((b : Agent) → P b → OnOk Q (g b))
    → OnOk Q (and_then d g)
unfolding OnOk and_then
seq-OnOk P Q (ok u, a) g h k = k a h
seq-OnOk P Q (err e, a) g h k = tt

pub wrap-OnOk :
    (P : Agent → Type 0) (text : String) (d : Done) → OnOk P d → OnOk P (wrapped_in text d)
unfolding OnOk wrapped_in
wrap-OnOk P text (ok u, a) h = h
wrap-OnOk P text (err e, a) h = tt

pub trans-OnOk :
    (F G : Files) (d : Done) → G ≡ F → OnOk (λ c. c.files ≡ G) d → OnOk (λ c. c.files ≡ F) d
unfolding OnOk
trans-OnOk F G (ok u, a) e h = h ∙ e
trans-OnOk F G (err x, a) e h = tt

pub mono-OnOk : (P Q : Agent → Type 0) (d : Done) → ((b : Agent) → P b → Q b) → OnOk P d → OnOk Q d
unfolding OnOk
mono-OnOk P Q (ok u, a) k h = k a h
mono-OnOk P Q (err x, a) k h = tt

pub ok-OnOk : (P : Agent → Type 0) (d : Done) (b : Agent) → d ≡ (ok tt, b) → OnOk P d → P b
unfolding OnOk
ok-OnOk P d b e h = subst (OnOk P) e h

pub ran-OnOk :
    (text : String) (a : Agent) (o : Option Error)
    → OnOk (λ b. b.files ≡ a.files) (wrapped_in text (ran a o))
unfolding OnOk wrapped_in ran
ran-OnOk text a none = refl
ran-OnOk text a (some e) = tt
