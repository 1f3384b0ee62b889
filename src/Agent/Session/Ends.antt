-- ===== src/Agent/Session/Ends.antt =====
-- What holds after the functions of the agent's session, by whether they return an error.
use wireguard_babeld_igp.Base.{◌≡◌, arith, String}
use wireguard_babeld_igp.Errors.{ok, err}
use wireguard_babeld_igp.Agent.System.{Outcome, and_then, wrapped_in}

-- One predicate for the state of a success, one for that of an error.
unfoldable pub Ends : {S : Type 0} → (S → Type 0) → (S → Type 0) → Outcome S → Type 0
Ends P Q (ok u, s) = P s
Ends P Q (err e, s) = Q s

-- A predicate that holds however the function ends.
abbrev pub Always : {S : Type 0} → (S → Type 0) → Outcome S → Type 0
Always P d = Ends P P d

module _ {S : Type 0} (P Q R : S → Type 0) where
  pub seq-Ends :
      (d : Outcome S) (g : S → Outcome S)
      → Ends P Q d
      → ((s : S) → P s → Ends R Q (g s))
      → Ends R Q (and_then d g)
  unfolding Ends and_then
  seq-Ends (ok u, s) g h k = k s h
  seq-Ends (err e, s) g h k = h

module _ {S : Type 0} (P Q : S → Type 0) where
  pub wrap-Ends : (text : String) (d : Outcome S) → Ends P Q d → Ends P Q (wrapped_in text d)
  unfolding Ends wrapped_in
  wrap-Ends text (ok u, s) h = h
  wrap-Ends text (err e, s) h = h

  pub last-Ends : (d : Outcome S) → Always P d → P d.1
  unfolding Ends
  last-Ends (ok u, s) h = h
  last-Ends (err e, s) h = h

  pub ok-Ends : (d : Outcome S) (t : S) → d ≡ (ok tt, t) → Ends P Q d → P t
  unfolding Ends
  ok-Ends d t e h = ground (arith, e, h)
