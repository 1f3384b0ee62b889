-- ===== src/Agent/Stream/Clients.antt =====
-- The connections over the steps of the agent, and the client of its task handler.
use wireguard_babeld_igp.Base.{ℕ, suc, ◌≡◌, ◌≢◌, ◌<◌, String, refl, ap, ◌∙◌, arith}
use wireguard_babeld_igp.Errors.{Result, ok, err}
use wireguard_babeld_igp.Config.{AgentConfig}
use wireguard_babeld_igp.Agent.System.{Outcome, and_then}
use wireguard_babeld_igp.Agent.Session.{
  receive, sleep, Grpc, Session, start, start_handler, start_reporting, new_agent,
}
use wireguard_babeld_igp.Agent.Session.Ends.{Ends, Always, seq-Ends, wrap-Ends, ok-Ends}
use wireguard_babeld_igp.Agent.Stream.{Steps}
use wireguard_babeld_igp.Agent.Stream.Kept.{IsKept, steps_keeps}
use wireguard_babeld_igp.Agent.Stream.Connections.{
  Current, Holds, IsClosed, Same-Current, register-Same, subscribe-Same, stop-Same, logged-Same,
  connect-Current, connect_opens, Same-ends, rejoin-Current, reconnect-Current, moved-Current,
}

module _ (grpc : Grpc) (cfg : AgentConfig) where
  Current-IsKept : (k : ℕ) → IsKept grpc cfg (Current k)
  Current-IsKept k = record {
    rejoins = rejoin-Current grpc cfg k;
    reconnects = reconnect-Current grpc cfg k;
    stops = λ s h. Same-Current k s _ (stop-Same grpc cfg s) h;
    logs = λ s n r h. Same-Current k s _ (logged-Same grpc cfg (receive n r) s) h;
    pauses = λ s h. Same-Current k s _ (logged-Same grpc cfg (sleep 5) s) h;
    moves = λ s rs q st b h. moved-Current grpc cfg k s _ refl refl refl refl refl refl h;
  }

  handler-Current : (t : Session) → Current 0 t → t.opened ≡ 1 → Current 1 (start_handler t)
  unfolding Current IsClosed
  handler-Current t h e = record {
    conn = h.conn;
    client = h.client;
    status_client = h.status_client;
    task_client = h.client ∙ e;
    closed = h.closed;
  }

  reporting-Current :
      (d : Outcome Session)
      → Always (Current 1) d
      → Ends (Current 1) (λ u. Unit) (and_then d (start_reporting grpc cfg))
  unfolding Ends and_then
  reporting-Current (ok u, t) h = moved-Current grpc cfg 1 t _ refl refl refl refl refl refl h
  reporting-Current (err e, t) h = tt

  both-Ends :
      (P Q : Session → Type 0) (d : Outcome Session)
      → Always P d
      → Ends Q (λ t. Unit) d
      → Ends (λ t. P t × Q t) (λ t. Unit) d
  unfolding Ends
  both-Ends P Q (ok u, t) h g = (h, g)
  both-Ends P Q (err e, t) h g = tt

  some-Ends : (P : Session → Type 0) (d : Outcome Session) → Always P d → Ends P (λ t. Unit) d
  unfolding Ends
  some-Ends P (ok u, t) h = h
  some-Ends P (err e, t) h = tt

  opens_one :
      (s : Session)
      → s.opened ≡ 0
      → (d : Outcome Session) → Ends (λ t. t.opened ≡ suc s.opened) (λ t. t.opened ≡ s.opened) d
      → Ends (λ t. t.opened ≡ 1) (λ t. Unit) d
  unfolding Ends
  opens_one s z (ok u, t) e = e ∙ ap suc z
  opens_one s z (err x, t) e = tt

  new-Holds : (name : Result String) → Holds 0 1 (new_agent cfg name)
  unfolding new_agent
  new-Holds name = record {
    conn = refl;
    client = refl;
    status_client = refl;
    task_client = refl;
    closed = λ n p q. ground arith;
  }

  new_opened : (name : Result String) → (new_agent cfg name).opened ≡ 0
  unfolding new_agent
  new_opened name = refl

  start-Current :
      (name : Result String) → Ends (Current 1) (λ t. Unit) (start grpc cfg (new_agent cfg name))
  unfolding Current IsClosed start new_agent
  start-Current name =
      let s = new_agent cfg name in
      seq-Ends (λ t. Current 0 t × (t.opened ≡ 1)) (λ t. Unit) (Current 1) _ _
        (wrap-Ends _ _ _ _ (
          both-Ends (Current 0) (λ t. t.opened ≡ 1) _
            (connect-Current grpc cfg 0 s (new-Holds name))
            (opens_one s (new_opened name) _ (connect_opens grpc cfg s))))
        (λ t g.
          seq-Ends (Current 1) (λ t. Unit) (Current 1) _ _
            (wrap-Ends _ _ _ _ (
              some-Ends (Current 1) _ (
                Same-ends grpc cfg 1 (start_handler t) _ (register-Same grpc cfg (start_handler t))
                  (handler-Current t g.0 g.1))))
            (λ u h.
              reporting-Current _
                (wrap-Ends _ _ _ _ (Same-ends grpc cfg 1 u _ (subscribe-Same grpc cfg u) h))))

  module _ (name : Result String) (s t : Session)
      (up : start grpc cfg (new_agent cfg name) ≡ (ok tt, s)) (path : Steps grpc cfg s t) where
    -- After a Start that succeeds, over any steps of the agent, its clients for tasks and for the status
    -- are on the connection that was opened last, the client of the task handler stays on the first
    -- one, and every connection but the last has been closed.
    pub steps-start-Current : Current 1 t
    steps-start-Current =
        steps_keeps grpc cfg (Current 1) (Current-IsKept 1) s t path
          (ok-Ends _ _ _ s up (start-Current name))

    -- Once the agent has opened a second connection, the task handler's client is on a closed
    -- connection, which is not the one of the agent's client.
    pub stale_handler_client : 1 < t.opened → IsClosed t.task_client t × (t.task_client ≢ t.client)
    unfolding Current IsClosed
    stale_handler_client more =
        let c = steps-start-Current in
        (
          rw c.task_client (c.closed 1 (omega arith) more),
          λ e. ground (arith, c.task_client, c.client),
        )
