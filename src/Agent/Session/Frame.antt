-- ===== src/Agent/Session/Frame.antt =====
-- What the functions of the agent's session leave alone: the tasks, and all readers but a new one.
use wireguard_babeld_igp.Base.{
  ℕ, suc, ◌≡◌, refl, ap, ◌∙◌, arith, true, List, [], ◌∷◌, Option, none, some, string_key, nat_key,
}
use wireguard_babeld_igp.Errors.{Error, ok, err}
use wireguard_babeld_igp.Config.{AgentConfig}
use wireguard_babeld_igp.Server.Services.Tasks.{PbTask}
use wireguard_babeld_igp.Agent.System.{Outcome, and_then}
use wireguard_babeld_igp.Agent.Session.{
  Call, load_cert, dial, close, register_node, subscribe, receive, sleep, cancel, task, failed,
  Grpc, Reader, reading, Session, connect, credentials, load_credentials, loaded, dial_with, dialed,
  register, registered, subscribe_tasks, subscribed, rejoin, reconnect, close_conn, start,
  start_handler, start_reporting, stop, close_last,
}
use wireguard_babeld_igp.Agent.Session.Ends.{Ends, Always, seq-Ends, wrap-Ends}

-- The tasks that Recv has answered, the last first.
unfoldable pub tasks_of : List Call → List PbTask
tasks_of [] = []
tasks_of (receive n (task t) ∷ l) = t ∷ tasks_of l
tasks_of (receive n (failed e) ∷ l) = tasks_of l
tasks_of (load_cert path ∷ l) = tasks_of l
tasks_of (dial c a ∷ l) = tasks_of l
tasks_of (close n ∷ l) = tasks_of l
tasks_of (register_node n id token ∷ l) = tasks_of l
tasks_of (subscribe n id token ∷ l) = tasks_of l
tasks_of (sleep n ∷ l) = tasks_of l
tasks_of (cancel ∷ l) = tasks_of l

-- From `s` to `t` the tasks stay, and the readers become `rs`.
pub record Frame (s : Session) (rs : List Reader) (t : Session) : Type 0 where
  pub readers : t.readers ≡ rs
  pub queue : t.queue ≡ s.queue
  pub started : t.started ≡ s.started
  pub tasks : tasks_of t.calls ≡ tasks_of s.calls

pub trans-Frame :
    (s t u : Session) (rs rs' : List Reader) → Frame s rs t → Frame t rs' u → Frame s rs' u
trans-Frame s t u rs rs' f g = record {
  readers = g.readers;
  queue = g.queue ∙ f.queue;
  started = g.started ∙ f.started;
  tasks = g.tasks ∙ f.tasks;
}

-- One reader more, of some stream.
unfoldable pub Joined : Session → Session → Type 0
Joined s t = (n : ℕ) × Frame s (reading n ∷ s.readers) t

module _ (grpc : Grpc) (cfg : AgentConfig) where
  pub connect-Frame : (s : Session) → Always (Frame s s.readers) (connect grpc cfg s)
  unfolding tasks_of Ends connect credentials load_credentials loaded dial_with dialed
  connect-Frame s = ground arith

  pub register-Frame : (s : Session) → Always (Frame s s.readers) (register grpc cfg s)
  unfolding tasks_of Ends register registered
  register-Frame s = ground arith

  pub close_conn-Frame : (s : Session) → Frame s s.readers (close_conn s)
  unfolding tasks_of close_conn
  close_conn-Frame s = ground arith

  pub stop-Frame : (s : Session) → Frame s s.readers (stop grpc cfg s).1
  unfolding tasks_of stop close_last
  stop-Frame s = ground arith

  subscribed-Frame :
      (s t : Session)
      → Frame s s.readers t
      → (o : Option Error) → Ends (Joined s) (Frame s s.readers) (subscribed grpc cfg o t)
  unfolding Joined Ends subscribed
  subscribed-Frame s t f none = (
    suc t.streams,
    record {
      readers = ap (λ rs. reading (suc t.streams) ∷ rs) f.readers;
      queue = f.queue;
      started = f.started;
      tasks = f.tasks;
    },
  )
  subscribed-Frame s t f (some e) = f

  pub subscribe-Frame :
      (s : Session) → Ends (Joined s) (Frame s s.readers) (subscribe_tasks grpc cfg s)
  unfolding tasks_of subscribe_tasks
  subscribe-Frame s =
      subscribed-Frame s _ (record { readers = refl; queue = refl; started = refl; tasks = refl }) _

  Joined-from : (s t : Session) → Frame s s.readers t → (u : Session) → Joined t u → Joined s u
  unfolding Joined
  Joined-from s t f u (n, g) = (
    n,
    record {
      readers = g.readers ∙ ap (λ rs. reading n ∷ rs) f.readers;
      queue = g.queue ∙ f.queue;
      started = g.started ∙ f.started;
      tasks = g.tasks ∙ f.tasks;
    },
  )

  left_from :
      (s t : Session)
      → Frame s s.readers t
      → (u : Session) → Frame t t.readers u
      → Frame s s.readers u
  left_from s t f u g = record {
    readers = g.readers ∙ f.readers;
    queue = g.queue ∙ f.queue;
    started = g.started ∙ f.started;
    tasks = g.tasks ∙ f.tasks;
  }

  -- A step after steps that leave the readers.
  pub after-Frame :
      (s t : Session)
      → Frame s s.readers t
      → (d : Outcome Session) → Ends (Joined t) (Frame t t.readers) d
      → Ends (Joined s) (Frame s s.readers) d
  unfolding Ends
  after-Frame s t f (ok u, v) h = Joined-from s t f v h
  after-Frame s t f (err e, v) h = left_from s t f v h

  Always-from :
      (s t : Session)
      → Frame s s.readers t
      → (d : Outcome Session) → Always (Frame t t.readers) d
      → Always (Frame s s.readers) d
  unfolding Ends
  Always-from s t f (ok u, v) h = left_from s t f v h
  Always-from s t f (err e, v) h = left_from s t f v h

  -- A call that returns leaves one reader more, and a call that fails none.
  pub rejoin-Frame : (s : Session) → Ends (Joined s) (Frame s s.readers) (rejoin grpc cfg s)
  unfolding rejoin
  rejoin-Frame s =
      seq-Ends (Frame s s.readers) (Frame s s.readers) (Joined s) (register grpc cfg s) _
        (register-Frame s) (λ t f. after-Frame s t f _ (subscribe-Frame t))

  pub reconnect-Frame : (s : Session) → Ends (Joined s) (Frame s s.readers) (reconnect grpc cfg s)
  unfolding reconnect
  reconnect-Frame s = after-Frame s (close_conn s) (close_conn-Frame s) _ (
      seq-Ends (Frame (close_conn s) (close_conn s).readers)
        (Frame (close_conn s) (close_conn s).readers) (Joined (close_conn s))
        (connect grpc cfg (close_conn s)) _ (connect-Frame (close_conn s))
        (λ t f. after-Frame (close_conn s) t f _ (rejoin-Frame t)))

  ending-Frame : (s t u : Session) → Joined s t → u ≡ record t { reporting = true } → Joined s u
  unfolding Joined
  ending-Frame s t u (n, f) e = (
    n,
    rw e (record { readers = f.readers; queue = f.queue; started = f.started; tasks = f.tasks }),
  )

  reporting-Frame :
      (s : Session) (d : Outcome Session)
      → Ends (Joined s) (Frame s s.readers) d
      → Ends (Joined s) (Frame s s.readers) (and_then d (start_reporting grpc cfg))
  unfolding Ends and_then
  reporting-Frame s (ok u, t) j = ending-Frame s t _ j refl
  reporting-Frame s (err e, t) f = f

  handled_from : (s t : Session) → Frame s s.readers t → Frame s s.readers (start_handler t)
  handled_from s t f = record {
    readers = f.readers;
    queue = f.queue;
    started = f.started;
    tasks = f.tasks;
  }

  -- Start leaves one reader when it succeeds, and none when it fails.
  pub start-Frame : (s : Session) → Ends (Joined s) (Frame s s.readers) (start grpc cfg s)
  unfolding start
  start-Frame s =
      seq-Ends (Frame s s.readers) (Frame s s.readers) (Joined s) _ _
        (wrap-Ends _ _ _ _ (connect-Frame s))
        (λ t f.
          seq-Ends (Frame s s.readers) (Frame s s.readers) (Joined s) _ _
            (wrap-Ends _ _ _ _ (
              Always-from s (start_handler t) (handled_from s t f) _
                (register-Frame (start_handler t))))
            (λ u g.
              reporting-Frame s _ (wrap-Ends _ _ _ _ (after-Frame s u g _ (subscribe-Frame u)))))
