-- ===== src/Server/Services/Tasks/Queue.antt =====
-- The channel of the task service, which is filled and never emptied.
use Prim.Native.Nat.{min}
use wireguard_babeld_igp.Base.{
  refl, ◌∙◌, ltb, if◌then◌else◌, ℕ, suc, ◌+◌, ◌≤◌, ◌≡◌, String, Option, none, some, List, [], ◌∷◌,
  arith,
}
use wireguard_babeld_igp.Base.Int.{ℤ, int_key}
use wireguard_babeld_igp.Data.Heap.{Ptr}
use wireguard_babeld_igp.Data.Map.Range.{length, range}
use wireguard_babeld_igp.Errors.{Result}
use wireguard_babeld_igp.Types.{Time, TaskType, TaskStatus}
use wireguard_babeld_igp.Store.Interface.{Store}
use wireguard_babeld_igp.Server.Services.Tasks.{
  Stream, NodeState, PbTask, TaskService, blocked, chan_size, register, subscribe, unsubscribe,
  update_task_status, create_task, delivered, push_to, push_task, broadcast_to, broadcast_task,
}

-- The calls that the service takes, each with its arguments and the clock's answers.
pub data Call : Type 0 where
  registers : Time → ℤ → String → Call
  subscribes : Time → ℤ → String → Stream → Call
  unsubscribes : ℤ → Call
  updates : Time → Time → String → TaskStatus → String → Call
  creates : Time → Time → TaskType → ℤ → Call
  pushes : Time → Time → Ptr → Call
  broadcasts : (List (ℤ × NodeState) → List (ℤ × NodeState)) → Ptr → Call

module _ {S : Type 0} (store : Store S) (send : Stream → PbTask → Result (Unit {0})) where
  unfoldable pub step : TaskService S → Call → TaskService S
  step t (registers now id token) = (register store now id token t).2
  step t (subscribes now id token stream) = (subscribe store now id token stream t).1
  step t (unsubscribes id) = unsubscribe store id t
  step t (updates now later id status error) =
      (update_task_status store now later id status error t).2
  step t (creates nanos now type node) = (create_task store nanos now type node t).1
  step t (pushes now later p) = (push_task store send now later p t).1
  step t (broadcasts visit p) = (broadcast_task store send visit p t).1

  unfoldable pub run : TaskService S → List Call → TaskService S
  run t [] = t
  run t (c ∷ cs) = run (step t c) cs

abbrev pub count_creates : List Call → ℕ
count_creates [] = 0
count_creates (creates _ _ _ _ ∷ cs) = suc (count_creates cs)
count_creates (_ ∷ cs) = count_creates cs

module _ {S : Type 0} (store : Store S) (send : Stream → PbTask → Result (Unit {0})) where
  abbrev queued : TaskService S → ℕ
  queued t = length t.task_chan

  queued-delivered :
      (m : PbTask) (o : Option Stream) (t : TaskService S)
      → queued
          (elim o [ none ↦ t | some stream ↦ (delivered store send stream m (send stream m) t).1 ])
        ≡ queued t
  unfolding delivered
  queued-delivered m o t = ground arith

  queued-broadcast_to :
      (m : PbTask) (l : List (ℤ × NodeState)) (t : TaskService S)
      → queued (broadcast_to store send m l t) ≡ queued t
  unfolding broadcast_to
  queued-broadcast_to m [] t = omega arith
  queued-broadcast_to m ((k, node) ∷ l) t =
      queued-broadcast_to m l (elim node.stream [
        | none ↦ t
        | some stream ↦ (delivered store send stream m (send stream m) t).1
      ])
      ∙ queued-delivered m node.stream t

  queued-push_to :
      (id : ℤ) (m : PbTask) (o : Option NodeState) (t : TaskService S)
      → queued (push_to store send id m o t).1 ≡ queued t
  unfolding push_to
  queued-push_to id m o t = ground arith

  queued-push_task :
      (now later : Time) (p : Ptr) (t : TaskService S)
      → queued (push_task store send now later p t).1 ≡ queued t
  unfolding push_task
  queued-push_task now later p t = queued-push_to _ _ _ _

  -- The length of the queue after a call.
  abbrev grown : Call → ℕ → ℕ
  grown (creates _ _ _ _) n = if ltb n chan_size then suc n else n
  grown _ n = n

  step-queued : (c : Call) (t : TaskService S) → queued (step store send t c) ≡ grown c (queued t)
  unfolding step register subscribe unsubscribe update_task_status create_task broadcast_task
  step-queued (registers now id token) t = ground arith
  step-queued (subscribes now id token stream) t = ground arith
  step-queued (unsubscribes id) t = ground arith
  step-queued (updates now later id status error) t = ground arith
  step-queued (creates nanos now type node) t = ground arith
  step-queued (pushes now later p) t = queued-push_task now later p t
  step-queued (broadcasts visit p) t =
      queued-broadcast_to (record { id = (t.heap.cell p).id; type = (t.heap.cell p).type })
        (range visit t.nodes) t

  grown_count :
      (c : Call) (cs : List Call) (n : ℕ)
      → n ≤ chan_size
      → (grown c n ≤ chan_size)
        × (min (grown c n + count_creates cs) chan_size
            ≡ min (n + count_creates (c ∷ cs)) chan_size)
  grown_count (creates nanos now type node) cs n h = ground arith
  grown_count (registers now id token) cs n h = (h, refl)
  grown_count _ cs n h = (h, refl)

  -- From a queue within its size, a history fills it by one for each task that it creates, up to the
  -- size: no call takes a task out.
  pub run-queued :
      (cs : List Call) (t : TaskService S)
      → queued t ≤ chan_size
      → queued (run store send t cs) ≡ min (queued t + count_creates cs) chan_size
  unfolding run
  run-queued [] t h = omega arith
  run-queued (c ∷ cs) t h =
      let e = step-queued c t in
      let (below, same) = grown_count c cs (queued t) h in
      run-queued cs (step store send t c) (rw e below) ∙ rw e same

  -- Once a history has created as many tasks as the channel holds, every further CreateTask waits
  -- for ever, and its task never reaches the store.
  pub create_task-blocked :
      (cs : List Call) (t : TaskService S) (nanos now : Time) (type : TaskType) (node : ℤ)
      → queued t ≤ chan_size
      → chan_size ≤ count_creates cs
      → let (r, t') = create_task store nanos now type node (run store send t cs) in
        (r ≡ blocked) × (t'.store ≡ (run store send t cs).store)
  unfolding create_task
  create_task-blocked cs t nanos now type node h full = ground (arith, run-queued cs t h)
