-- ===== src/Agent/Stream/Drained.antt =====
-- processTasksLoop of pkg/agent/handlers/task_handler.go, until the channel is empty.
use wireguard_babeld_igp.Base.{◌≡◌, refl, sym, ap, ◌∙◌, arith, ℕ, true, String, List, [], ◌∷◌}
use wireguard_babeld_igp.Errors.{Result, ok}
use wireguard_babeld_igp.Config.{AgentConfig}
use wireguard_babeld_igp.Server.Services.Tasks.{PbTask}
use wireguard_babeld_igp.Agent.Session.{Grpc, Reader, reading, sending, Session, start, new_agent}
use wireguard_babeld_igp.Agent.Session.Frame.{tasks_of}
use wireguard_babeld_igp.Agent.Stream.{enqueue_task, advance, Step, Steps}
use wireguard_babeld_igp.Agent.Stream.Readers.{held, given, InOrder, steps-start-Flows}

module _ (grpc : Grpc) (cfg : AgentConfig) where
  -- The steps in front of others.
  before : (s t u : Session) → Step grpc cfg s t → Steps grpc cfg t u → Steps grpc cfg s u
  before s t u p Steps.here = Steps.then Steps.here p
  before s t u p (Steps.then q r) = Steps.then (before s t _ p q) r

  -- A session that some steps lead to, in which all tasks that Recv has answered are started.
  pub record Settled (s : Session) : Type 0 where
    pub session : Session
    pub steps : Steps grpc cfg s session
    pub empty : session.queue ≡ []
    pub all_started : session.started ≡ tasks_of session.calls
    pub none_new : session.calls ≡ s.calls

  -- The same without the reader's task.
  record Drained (s : Session) : Type 0 where
    session : Session
    steps : Steps grpc cfg s session
    empty : session.queue ≡ []
    started : session.started ≡ given s.queue s.started
    readers : session.readers ≡ s.readers
    handling : session.handling ≡ true
    calls : session.calls ≡ s.calls

  drain : (queue : List PbTask) (s : Session) → s.queue ≡ queue → s.handling ≡ true → Drained s
  unfolding given
  drain [] s e h = record {
    session = s;
    steps = Steps.here;
    empty = e;
    started = ap (λ q. given q s.started) (sym e);
    readers = refl;
    handling = h;
    calls = refl;
  }
  drain (t ∷ queue) s e h =
      let d = drain queue (record s { queue = queue; started = t ∷ s.started }) refl h in
      record {
        session = d.session;
        steps = before s _ _ (Step.process t queue e h) d.steps;
        empty = d.empty;
        started = d.started ∙ ap (λ q. given q s.started) (sym e);
        readers = d.readers;
        handling = d.handling;
        calls = d.calls;
      }

  settle_reading : (n : ℕ) (s : Session) → Drained s → InOrder (reading n) s → Settled s
  unfolding InOrder held
  settle_reading n s d o = record {
    session = d.session;
    steps = d.steps;
    empty = d.empty;
    all_started = d.started ∙ sym o ∙ ap tasks_of (sym d.calls);
    none_new = d.calls;
  }

  -- The reader's task goes into the empty channel.
  enqueued : ℕ → PbTask → Session → Session
  enqueued n x s = advance grpc cfg (sending n x) (record s { readers = [] })

  enqueued_queue :
      (n : ℕ) (x : PbTask) (s : Session) → s.queue ≡ [] → (enqueued n x s).queue ≡ x ∷ []
  unfolding enqueued advance enqueue_task
  enqueued_queue n x s q = ground (arith, q)

  enqueued_rest :
      (n : ℕ) (x : PbTask) (s : Session)
      → ((enqueued n x s).started ≡ s.started)
        × ((enqueued n x s).handling ≡ s.handling)
        × ((enqueued n x s).calls ≡ s.calls)
  unfolding enqueued advance enqueue_task
  enqueued_rest n x s = ground arith

  settle_sending :
      (n : ℕ) (x : PbTask) (s : Session)
      → Drained s
      → s.readers ≡ sending n x ∷ []
      → InOrder (sending n x) s
      → Settled s
  unfolding InOrder held enqueued
  settle_sending n x s d r o =
      let (started, handling, calls) = enqueued_rest n x d.session in
      let t = enqueued n x d.session in
      record {
        session = record t { queue = []; started = x ∷ t.started };
        steps =
            Steps.then (Steps.then d.steps (Step.read [] [] (sending n x) (d.readers ∙ r)))
              (Step.process x [] (enqueued_queue n x d.session d.empty) (handling ∙ d.handling));
        empty = refl;
        all_started =
            ap (λ l. x ∷ l) (started ∙ d.started) ∙ sym o ∙ ap tasks_of (sym (calls ∙ d.calls));
        none_new = calls ∙ d.calls;
      }

  settle :
      (r : Reader) (s : Session) → s.readers ≡ r ∷ [] → InOrder r s → s.handling ≡ true → Settled s
  settle (reading n) s r o h = settle_reading n s (drain s.queue s refl h) o
  settle (sending n x) s r o h = settle_sending n x s (drain s.queue s refl h) r o

  -- While processTasksLoop runs, whatever has happened since a Start that succeeded, finitely many
  -- further steps, without another call, give every task that Recv has answered to HandleTask and leave
  -- the channel empty, also where a full channel blocks the reader.
  pub settle-start :
      (name : Result String) (s t : Session)
      → start grpc cfg (new_agent cfg name) ≡ (ok tt, s)
      → Steps grpc cfg s t
      → t.handling ≡ true
      → Settled t
  settle-start name s t e p h =
      let f = steps-start-Flows grpc cfg name s t e p in settle f.reader t f.readers f.in_order h
