-- ===== src/Agent/Stream/Readers.antt =====
-- The goroutine that reads the task stream, and the tasks on their way from Recv to HandleTask.
use wireguard_babeld_igp.Base.{
  ℕ, suc, ◌≡◌, ◌≤◌, refl, sym, ap, ◌∙◌, arith, String, List, [], ◌∷◌, ◌++◌, inl, inr, Bool-cases,
  ltb,
}
use wireguard_babeld_igp.Data.Map.Range.{length}
use wireguard_babeld_igp.Data.Text.{contains}
use wireguard_babeld_igp.Errors.{Result, ok, err}
use wireguard_babeld_igp.Config.{AgentConfig}
use wireguard_babeld_igp.Server.Services.Tasks.{PbTask, chan_size}
use wireguard_babeld_igp.Agent.System.{Outcome}
use wireguard_babeld_igp.Agent.Session.{
  Received, task, failed, receive, Grpc, Reader, reading, sending, Session, log_call, start,
  new_agent,
}
use wireguard_babeld_igp.Agent.Session.Ends.{Ends, ok-Ends}
use wireguard_babeld_igp.Agent.Session.Frame.{
  tasks_of, Frame, Joined, rejoin-Frame, reconnect-Frame, stop-Frame, start-Frame,
}
use wireguard_babeld_igp.Agent.Stream.{
  put_reader, pause, pause_or_return, continue_or_return, handle_received, enqueue_task, advance,
  Step, Steps,
}

-- The task that a reader has and the channel has not.
unfoldable pub held : Reader → List PbTask
held (reading stream) = []
held (sending stream t) = t ∷ []

-- The tasks that have left the reader, the last first: the channel's content, then those started.
unfoldable pub given : List PbTask → List PbTask → List PbTask
given [] started = started
given (t ∷ queue) started = given queue (t ∷ started)

given_last :
    (queue started : List PbTask) (t : PbTask)
    → given (queue ++ (t ∷ [])) started ≡ t ∷ given queue started
unfolding given
given_last [] started t = refl
given_last (x ∷ queue) started t = given_last queue (x ∷ started) t

length_last : (queue : List PbTask) (t : PbTask) → length (queue ++ (t ∷ [])) ≡ suc (length queue)
length_last [] t = refl
length_last (x ∷ queue) t = ap suc (length_last queue t)

-- Each task of Recv is with the reader, in the channel or started, once and in order.
unfoldable pub InOrder : Reader → Session → Type 0
InOrder r s = tasks_of s.calls ≡ held r ++ given s.queue s.started

-- One reader, whose tasks are in order, and a channel that is not over its size.
pub record Flows (s : Session) : Type 0 where
  pub reader : Reader
  pub readers : s.readers ≡ reader ∷ []
  pub in_order : InOrder reader s
  pub fits : length s.queue ≤ chan_size

-- A session without its reader.
record Paused (r : Reader) (s : Session) : Type 0 where
  readers : s.readers ≡ []
  in_order : InOrder r s
  fits : length s.queue ≤ chan_size

put_reader-Flows : (r : Reader) (s : Session) → Paused r s → Flows (put_reader r s)
unfolding InOrder
put_reader-Flows r s p = record {
  reader = r;
  readers = ap (λ rs. r ∷ rs) p.readers;
  in_order = p.in_order;
  fits = p.fits;
}

Frame-Paused : (r : Reader) (s t : Session) → Frame s s.readers t → Paused r s → Paused r t
unfolding InOrder
Frame-Paused r s t f p = record {
  readers = f.readers ∙ p.readers;
  in_order = rw (f.tasks, f.queue, f.started) p.in_order;
  fits = rw f.queue p.fits;
}

Joined-Flows : (n : ℕ) (s t : Session) → Joined s t → Paused (reading n) s → Flows t
unfolding InOrder held Joined
Joined-Flows n s t (m, f) p = record {
  reader = reading m;
  readers = f.readers ∙ ap (λ rs. reading m ∷ rs) p.readers;
  in_order = rw (f.tasks, f.queue, f.started) p.in_order;
  fits = rw f.queue p.fits;
}

module _ (grpc : Grpc) (cfg : AgentConfig) where
  pause_or_return-Flows :
      (n : ℕ) (s : Session) (d : Outcome Session)
      → Ends (Joined s) (Frame s s.readers) d
      → Paused (reading n) s
      → Flows (pause_or_return n d)
  unfolding Ends pause_or_return tasks_of InOrder
  pause_or_return-Flows n s (ok u, t) j p = Joined-Flows n s t j p
  pause_or_return-Flows n s (err e, t) f p =
      let q = Frame-Paused (reading n) s t f p in
      put_reader-Flows (reading n) (pause t)
        (record { readers = q.readers; in_order = q.in_order; fits = q.fits })

  continue_or_return-Flows :
      (n : ℕ) (s : Session) (d : Outcome Session)
      → Ends (Joined s) (Frame s s.readers) d
      → Paused (reading n) s
      → Flows (continue_or_return n d)
  unfolding Ends continue_or_return
  continue_or_return-Flows n s (ok u, t) j p = Joined-Flows n s t j p
  continue_or_return-Flows n s (err e, t) f p =
      put_reader-Flows (reading n) t (Frame-Paused (reading n) s t f p)

  received-Flows :
      (n : ℕ) (r : Received) (s : Session)
      → Paused (reading n) s
      → Flows (handle_received grpc cfg n r (log_call (receive n r) s))
  unfolding handle_received tasks_of InOrder held
  received-Flows n (task t) s p =
      put_reader-Flows (sending n t) _
        (record { readers = p.readers; in_order = ap (λ l. t ∷ l) p.in_order; fits = p.fits })
  received-Flows n (failed e) s p =
      let t = log_call (receive n (failed e)) s in
      elim (Bool-cases (contains "node not registered" (grpc.text_of e))) [
        | inl c ↦ rw c (
            pause_or_return-Flows n t _ (rejoin-Frame grpc cfg t)
              (record { readers = p.readers; in_order = p.in_order; fits = p.fits }))
        | inr c ↦ rw c (
            continue_or_return-Flows n (pause t) _ (reconnect-Frame grpc cfg (pause t))
              (record { readers = p.readers; in_order = p.in_order; fits = p.fits }))
      ]

  enqueue-Flows :
      (n : ℕ) (x : PbTask) (s : Session)
      → Paused (sending n x) s
      → Flows (enqueue_task grpc cfg n x s)
  unfolding enqueue_task InOrder held
  enqueue-Flows n x s p = elim (Bool-cases (ltb (length s.queue) chan_size)) [
    | inl c ↦ rw c (
        put_reader-Flows (reading n) _ (record {
          readers = p.readers;
          in_order = p.in_order ∙ sym (given_last s.queue s.started x);
          fits = ground (arith, length_last s.queue x, c);
        }))
    | inr c ↦ rw c (put_reader-Flows (sending n x) s p)
  ]

  advance-Flows : (r : Reader) (s : Session) → Paused r s → Flows (advance grpc cfg r s)
  unfolding advance
  advance-Flows (reading n) s p = received-Flows n (grpc.received s.calls n) s p
  advance-Flows (sending n x) s p = enqueue-Flows n x s p

  -- The only reader of a list is the one that it splits at.
  only_reader :
      (before after : List Reader) (r only : Reader)
      → only ∷ [] ≡ before ++ (r ∷ after)
      → (r ≡ only) × (before ++ after ≡ [])
  only_reader [] [] r only e = ground arith
  only_reader [] (x ∷ after) r only e = ground arith
  only_reader (x ∷ []) after r only e = ground arith
  only_reader (x ∷ (y ∷ before)) after r only e = ground arith

  read-Flows :
      (s : Session) (before after : List Reader) (r : Reader)
      → s.readers ≡ before ++ (r ∷ after)
      → Flows s
      → Flows (advance grpc cfg r (record s { readers = before ++ after }))
  unfolding InOrder
  read-Flows s before after r e f =
      let (same, alone) = only_reader before after r f.reader (sym f.readers ∙ e) in
      advance-Flows r (record s { readers = before ++ after })
        (record { readers = alone; in_order = rw same f.in_order; fits = f.fits })

  process-Flows :
      (s : Session) (t : PbTask) (rest : List PbTask)
      → s.queue ≡ t ∷ rest
      → Flows s
      → Flows (record s { queue = rest; started = t ∷ s.started })
  unfolding InOrder given
  process-Flows s t rest e f = record {
    reader = f.reader;
    readers = f.readers;
    in_order = f.in_order ∙ ap (λ q. held f.reader ++ given q s.started) e;
    fits = ground (arith, f.fits, ap length e);
  }

  framed-Flows : (s t : Session) → Frame s s.readers t → Flows s → Flows t
  unfolding InOrder
  framed-Flows s t f g = record {
    reader = g.reader;
    readers = f.readers ∙ g.readers;
    in_order = rw (f.tasks, f.queue, f.started) g.in_order;
    fits = rw f.queue g.fits;
  }

  step-Flows : (s t : Session) → Step grpc cfg s t → Flows s → Flows t
  unfolding InOrder
  step-Flows s t (Step.read before after r e) f = read-Flows s before after r e f
  step-Flows s t (Step.process x rest e h) f = process-Flows s x rest e f
  step-Flows s t Step.finish f = record {
    reader = f.reader;
    readers = f.readers;
    in_order = f.in_order;
    fits = f.fits;
  }
  step-Flows s t Step.shut f = framed-Flows s _ (stop-Frame grpc cfg s) f

  pub steps-Flows : (s t : Session) → Steps grpc cfg s t → Flows s → Flows t
  steps-Flows s t Steps.here f = f
  steps-Flows s t (Steps.then p q) f = step-Flows _ t q (steps-Flows s _ p f)

  started-Flows : (name : Result String) (t : Session) → Joined (new_agent cfg name) t → Flows t
  unfolding Joined new_agent tasks_of InOrder held given
  started-Flows name t (n, f) = record {
    reader = reading n;
    readers = f.readers;
    in_order = rw (f.tasks, f.queue, f.started) refl;
    fits = rw f.queue (omega arith);
  }

  -- After a Start that succeeds, whatever the server, the network and the other goroutines do, Stop
  -- included, exactly one goroutine reads a task stream, the channel holds at most 100 tasks, and the
  -- tasks that Recv has answered are the reader's, the channel's and the started ones, each once and
  -- in order.
  pub steps-start-Flows :
      (name : Result String) (s t : Session)
      → start grpc cfg (new_agent cfg name) ≡ (ok tt, s)
      → Steps grpc cfg s t
      → Flows t
  steps-start-Flows name s t e p =
      steps-Flows s t p
        (started-Flows name s (ok-Ends _ _ _ s e (start-Frame grpc cfg (new_agent cfg name))))
