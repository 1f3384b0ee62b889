-- ===== src/Agent/Stream/Rejoin.antt =====
-- The agent's way back to a server that does not know its node, with the server's answers.
use Prim.Native.String.{◌++◌}
use wireguard_babeld_igp.Base.{
  ℕ, suc, ◌≡◌, refl, sym, ◌∙◌, ap, String, true, Option, none, some, List, ◌∷◌,
}
use wireguard_babeld_igp.Base.Int.{ℤ, int_key, to_int32}
use wireguard_babeld_igp.Data.Map.{get}
use wireguard_babeld_igp.Data.Text.{contains, contains_end}
use wireguard_babeld_igp.Errors.{Code, Error, ok, err, grpc}
use wireguard_babeld_igp.Types.{Time}
use wireguard_babeld_igp.Config.{AgentConfig}
use wireguard_babeld_igp.Store.Interface.{Store}
use wireguard_babeld_igp.Server.Middleware.Node.{validate_token}
use wireguard_babeld_igp.Server.Services.Tasks as Server
use wireguard_babeld_igp.Server.Services.Tasks.{TaskService, NodeState, Stream}
use wireguard_babeld_igp.Server.Services.Tasks.Streams.{
  subscribe-register, unknown_refused, register_succeeds,
}
use wireguard_babeld_igp.Agent.System.{Outcome, and_then}
use wireguard_babeld_igp.Agent.Session.{
  Call, failed, receive, register_node, subscribe, log_call, Grpc, reading, Session, rejoin,
  register, registered, subscribe_tasks, subscribed,
}
use wireguard_babeld_igp.Agent.Stream.{pause_or_return, handle_received, advance}

module _ {S : Type 0} (store : Store S) (g : Grpc) (cfg : AgentConfig) where
  abbrev node : ℤ
  node = to_int32 cfg.node_id

  -- The calls by which the agent registers and then subscribes, the last one first.
  abbrev pub rejoin_calls : Session → List Call
  rejoin_calls s =
      subscribe s.client node cfg.token ∷ register_node s.client node cfg.token ∷ s.calls

  -- The readers and the calls of a session that has joined again.
  abbrev Rejoined : Session → Session → Type 0
  Rejoined s u = (u.readers ≡ reading (suc s.streams) ∷ s.readers) × (u.calls ≡ rejoin_calls s)

  rejoin_ok :
      (s : Session) (text : String)
      → ((l : List Call) → g.registration l ≡ ok (true, text))
      → ((l : List Call) → g.subscribe_error l ≡ none)
      → ((rejoin g cfg s).0 ≡ ok tt) × Rejoined s (rejoin g cfg s).1
  unfolding rejoin and_then register registered subscribe_tasks subscribed
  rejoin_ok s text r e = rw (r, e) (refl, (refl, refl))

  back_ok :
      (n : ℕ) (s : Session) (d : Outcome Session)
      → (d.0 ≡ ok tt) × Rejoined s d.1
      → Rejoined s (pause_or_return n d)
  unfolding pause_or_return
  back_ok n s (ok u, t) (e, h) = h
  back_ok n s (err x, t) (e, h) = cc

  recovers :
      (n : ℕ) (s : Session) (e : Error) (text : String)
      → ((l : List Call) → g.registration l ≡ ok (true, text))
      → ((l : List Call) → g.subscribe_error l ≡ none)
      → contains "node not registered" (g.text_of e) ≡ true
      → Rejoined s (handle_received g cfg n (failed e) s)
  unfolding handle_received
  recovers n s e text r o c = rw c (back_ok n s (rejoin g cfg s) (rejoin_ok s text r o))

  error_text : Option Error → String
  error_text none = ""
  error_text (some e) = g.text_of e

  module _ (t : TaskService S) (valid : validate_token store node cfg.token t.store ≡ true)
      (unknown : get t.nodes node ≡ none) (text : Error → String)
      (answers : (now : Time) (l : List Call)
        → let (r, e, t') = Server.register store now node cfg.token t in
          g.registration l ≡ ok (r.success, text r.message))
      (opens : (l : List Call) → g.subscribe_error l ≡ none) (prefix : String)
      (formats : g.text_of (grpc Code.not_found "node not registered")
        ≡ prefix ++ "node not registered") where
    -- If the server does not know the node of a stream, and so refuses the subscription, but its token
    -- is valid, the reader that gets the refusal makes two calls and no other, to register the node and
    -- to subscribe again, and a new stream takes its place. By these two calls the server, which
    -- answers the first, has the node connected.
    pub reader_rejoins :
        (now later last : Time) (n : ℕ) (s : Session) (e : Error)
        → (Server.subscribe store now node cfg.token n t).0 ≡ some e
        → g.received s.calls n ≡ failed e
        → let (r, x, t') = Server.register store later node cfg.token t in
          let (x', t'') = Server.subscribe store last node cfg.token (suc s.streams) t' in
          ((advance g cfg (reading n) s).readers ≡ reading (suc s.streams) ∷ s.readers)
          × ((advance g cfg (reading n) s).calls
              ≡ subscribe s.client node cfg.token
                ∷ register_node s.client node cfg.token
                ∷ receive n (failed e)
                ∷ s.calls)
          × (x' ≡ none)
          × (get t''.nodes node
              ≡ some
                  (record { token = cfg.token; last_seen = last; stream = some (suc s.streams) }))
    unfolding advance error_text
    reader_rejoins now later last n s e refused received =
        let (a, b, c) =
          subscribe-register store node cfg.token t valid later last (suc s.streams) in
        let reason =
          ap error_text (sym refused ∙ unknown_refused store node cfg.token t valid now n unknown)
          ∙ formats in
        let known = λ (l : List Call).
          answers later l
          ∙ ap (λ r. ok (r.success, text r.message))
              (register_succeeds store node cfg.token t valid later) in
        let (readers, calls) = recovers n (log_call (receive n (failed e)) s) e _ known opens (
          ap (contains "node not registered") reason ∙ contains_end "node not registered" prefix) in
        (rw received readers, rw received calls, b, c)
