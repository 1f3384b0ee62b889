-- ===== src/Agent/Stream/Kept.antt =====
-- What the steps of the agent keep, from what its calls keep.
use wireguard_babeld_igp.Base.{ℕ, Bool, List, ◌∷◌, Bool-cases, inl, inr, ltb}
use wireguard_babeld_igp.Data.Map.Range.{length}
use wireguard_babeld_igp.Data.Text.{contains}
use wireguard_babeld_igp.Errors.{ok, err}
use wireguard_babeld_igp.Config.{AgentConfig}
use wireguard_babeld_igp.Server.Services.Tasks.{PbTask, chan_size}
use wireguard_babeld_igp.Agent.System.{Outcome}
use wireguard_babeld_igp.Agent.Session.{
  Received, task, failed, receive, Grpc, Reader, reading, sending, Session, log_call, rejoin,
  reconnect, stop,
}
use wireguard_babeld_igp.Agent.Session.Ends.{Ends, Always}
use wireguard_babeld_igp.Agent.Stream.{
  put_reader, pause, pause_or_return, continue_or_return, handle_received, enqueue_task, advance,
  Step, Steps,
}

-- What the reader's calls and Stop keep, and what does not depend on the readers and the tasks.
pub record IsKept (grpc : Grpc) (cfg : AgentConfig) (P : Session → Type 0) : Type 0 where
  pub rejoins : (s : Session) → P s → Always P (rejoin grpc cfg s)
  pub reconnects : (s : Session) → P s → Always P (reconnect grpc cfg s)
  pub stops : (s : Session) → P s → P (stop grpc cfg s).1
  pub logs : (s : Session) (n : ℕ) (r : Received) → P s → P (log_call (receive n r) s)
  pub pauses : (s : Session) → P s → P (pause s)
  pub moves :
      (s : Session) (readers : List Reader) (queue started : List PbTask) (handling : Bool)
      → P s
      → P (record s { readers = readers; queue = queue; started = started; handling = handling })

module _ (grpc : Grpc) (cfg : AgentConfig) (P : Session → Type 0) (kept : IsKept grpc cfg P) where
  put_keeps : (r : Reader) (s : Session) → P s → P (put_reader r s)
  put_keeps r s h = kept.moves s (r ∷ s.readers) s.queue s.started s.handling h

  pause_or_return_keeps : (n : ℕ) (d : Outcome Session) → Always (P) d → P (pause_or_return n d)
  unfolding Ends pause_or_return
  pause_or_return_keeps n (ok u, s) h = h
  pause_or_return_keeps n (err e, s) h = put_keeps (reading n) (pause s) (kept.pauses s h)

  continue_or_return_keeps :
      (n : ℕ) (d : Outcome Session) → Always (P) d → P (continue_or_return n d)
  unfolding Ends continue_or_return
  continue_or_return_keeps n (ok u, s) h = h
  continue_or_return_keeps n (err e, s) h = put_keeps (reading n) s h

  received_keeps : (n : ℕ) (r : Received) (s : Session) → P s → P (handle_received grpc cfg n r s)
  unfolding handle_received
  received_keeps n (task t) s h = put_keeps (sending n t) s h
  received_keeps n (failed e) s h =
      elim (Bool-cases (contains "node not registered" (grpc.text_of e))) [
        | inl c ↦ rw c (pause_or_return_keeps n _ (kept.rejoins s h))
        | inr c ↦ rw c (continue_or_return_keeps n _ (kept.reconnects (pause s) (kept.pauses s h)))
      ]

  enqueue_keeps : (n : ℕ) (x : PbTask) (s : Session) → P s → P (enqueue_task grpc cfg n x s)
  unfolding enqueue_task
  enqueue_keeps n x s h = elim (Bool-cases (ltb (length s.queue) chan_size)) [
    | inl c ↦ rw c (kept.moves s _ _ _ _ h)
    | inr c ↦ rw c (put_keeps (sending n x) s h)
  ]

  advance_keeps : (r : Reader) (s : Session) → P s → P (advance grpc cfg r s)
  unfolding advance
  advance_keeps (reading n) s h =
      let answer = grpc.received s.calls n in
      received_keeps n answer (log_call (receive n answer) s) (kept.logs s n answer h)
  advance_keeps (sending n x) s h = enqueue_keeps n x s h

  step_keeps : (s t : Session) → Step grpc cfg s t → P s → P t
  step_keeps s t (Step.read before after r e) h = advance_keeps r _ (kept.moves s _ _ _ _ h)
  step_keeps s t (Step.process x rest e g) h = kept.moves s _ _ _ _ h
  step_keeps s t Step.finish h = kept.moves s _ _ _ _ h
  step_keeps s t Step.shut h = kept.stops s h

  pub steps_keeps : (s t : Session) → Steps grpc cfg s t → P s → P t
  steps_keeps s t Steps.here h = h
  steps_keeps s t (Steps.then p q) h = step_keeps _ t q (steps_keeps s _ p h)
