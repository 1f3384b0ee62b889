-- ===== src/Agent/Stream.antt =====
-- handleTaskStream of pkg/agent/agent.go, one round of its loop at a time, with the channel of
-- task_handler.go that it fills, and the steps that the agent's goroutines take in any order.
pub mod Readers
pub mod Rejoin
pub mod Drained
pub mod Kept
pub mod Calls
pub mod Connections
pub mod Clients
use wireguard_babeld_igp.Base.{
  ℕ, zero, suc, ◌<◌, String, Bool, true, false, List, [], ◌∷◌, ◌++◌, if◌then◌else◌, ◌≡◌, ltb,
}
use wireguard_babeld_igp.Data.Map.Range.{length}
use wireguard_babeld_igp.Data.Text.{contains}
use wireguard_babeld_igp.Errors.{Error, ok, err}
use wireguard_babeld_igp.Config.{AgentConfig}
use wireguard_babeld_igp.Server.Services.Tasks.{PbTask, chan_size}
use wireguard_babeld_igp.Agent.System.{Outcome}
use wireguard_babeld_igp.Agent.Session.{
  Received, task, failed, sleep, receive, Grpc, Reader, reading, sending, Session, log_call, rejoin,
  reconnect, stop,
}

abbrev pub put_reader : Reader → Session → Session
put_reader r s = record s { readers = r ∷ s.readers }

-- `time.Sleep(5 * time.Second)`
abbrev pub pause : Session → Session
pause = log_call (sleep 5)

-- `return` without an error; with one, a pause and the next round.
unfoldable pub pause_or_return : ℕ → Outcome Session → Session
pause_or_return stream (ok _, s) = s
pause_or_return stream (err e, s) = put_reader (reading stream) (pause s)

unfoldable pub continue_or_return : ℕ → Outcome Session → Session
continue_or_return stream (ok _, s) = s
continue_or_return stream (err e, s) = put_reader (reading stream) s

module _ (grpc : Grpc) (cfg : AgentConfig) where
  -- A round after its Recv.
  unfoldable pub handle_received : ℕ → Received → Session → Session
  unfolding pause_or_return continue_or_return
  handle_received stream (task t) s = put_reader (sending stream t) s
  handle_received stream (failed e) s =
      if contains "node not registered" (grpc.text_of e)
      then pause_or_return stream (rejoin grpc cfg s)
      else continue_or_return stream (reconnect grpc cfg (pause s))

  -- EnqueueTask, which waits while the channel is full.
  unfoldable pub enqueue_task : ℕ → PbTask → Session → Session
  enqueue_task stream t s =
      if ltb (length s.queue) chan_size
      then put_reader (reading stream) (record s { queue = s.queue ++ (t ∷ []) })
      else put_reader (sending stream t) s

  -- What a reader does next, in a session whose readers are the others. A reader that goes on is put
  -- back.
  unfoldable pub advance : Reader → Session → Session
  unfolding handle_received enqueue_task
  advance (reading stream) s =
      let answer = grpc.received s.calls stream in
      handle_received stream answer (log_call (receive stream answer) s)
  advance (sending stream t) s = enqueue_task stream t s

  -- `process` is a round of processTasksLoop, which starts HandleTask; `finish` is its end, which the
  -- cancelled context brings.
  pub data Step : Session → Session → Type 0 where
    read :
        {s : Session} (before after : List Reader) (r : Reader)
        → s.readers ≡ before ++ (r ∷ after)
        → Step s (advance r (record s { readers = before ++ after }))
    process :
        {s : Session} (t : PbTask) (rest : List PbTask)
        → s.queue ≡ t ∷ rest
        → s.handling ≡ true
        → Step s (record s { queue = rest; started = t ∷ s.started })
    finish : {s : Session} → Step s (record s { handling = false })
    shut : {s : Session} → Step s (stop grpc cfg s).1

  pub data Steps (s : Session) : Session → Type 0 where
    here : Steps s s
    then : {t u : Session} → Steps s t → Step t u → Steps s u
