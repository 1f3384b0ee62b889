-- ===== src/Server/Services/Tasks/Delivery.antt =====
-- Where PushTask sends a task.
use wireguard_babeld_igp.Base.{◌≡◌, refl, Option, none, some, List, ◌∷◌}
use wireguard_babeld_igp.Base.Int.{ℤ, int_key, to_int32}
use wireguard_babeld_igp.Data.Heap.{Ptr}
use wireguard_babeld_igp.Data.Map.{get}
use wireguard_babeld_igp.Errors.{Result, ok, err, Error, wrap, node_offline, stream_missing}
use wireguard_babeld_igp.Types.{Time}
use wireguard_babeld_igp.Store.Interface.{Store}
use wireguard_babeld_igp.Server.Services.Tasks.{
  Stream, NodeState, PbTask, TaskService, delivered, push_stream, push_to, push_task,
}

module _ {S : Type 0} (store : Store S) (send : Stream → PbTask → Result (Unit {0})) where
  -- The ways in which a push can end, by the state of the node and of its stream.
  pub data Pushed (id : ℤ) (m : PbTask) (o : Option NodeState)
      (before after : List (Stream × PbTask)) : Result (Unit {0}) → Type 0 where
    no_node :
        {r : Result (Unit {0})}
        → r ≡ err (node_offline id)
        → o ≡ none
        → after ≡ before
        → Pushed id m o before after r
    no_stream :
        {r : Result (Unit {0})} (n : NodeState)
        → r ≡ err (stream_missing id)
        → o ≡ some n
        → n.stream ≡ none
        → after ≡ before
        → Pushed id m o before after r
    lost :
        {r : Result (Unit {0})} (n : NodeState) (st : Stream) (e : Error)
        → r ≡ err (wrap "sending task" e)
        → o ≡ some n
        → n.stream ≡ some st
        → send st m ≡ err e
        → after ≡ before
        → Pushed id m o before after r
    arrived :
        {r : Result (Unit {0})} (n : NodeState) (st : Stream)
        → r ≡ ok tt
        → o ≡ some n
        → n.stream ≡ some st
        → send st m ≡ ok tt
        → after ≡ (st, m) ∷ before
        → Pushed id m o before after r

  delivered-Pushed :
      (id : ℤ) (m : PbTask) (n : NodeState) (st : Stream) (r : Result (Unit {0}))
      (t : TaskService S)
      → n.stream ≡ some st
      → send st m ≡ r
      → let (r', t') = delivered store send st m r t in Pushed id m (some n) t.sent t'.sent r'
  unfolding delivered
  delivered-Pushed id m n st (err e) t f g = lost n st e refl refl f g refl
  delivered-Pushed id m n st (ok tt) t f g = arrived n st refl refl f g refl

  push_stream-Pushed :
      (id : ℤ) (m : PbTask) (n : NodeState) (o : Option Stream) (t : TaskService S)
      → n.stream ≡ o
      → let (r, t') = push_stream store send id m o t in Pushed id m (some n) t.sent t'.sent r
  unfolding push_stream
  push_stream-Pushed id m n none t e = no_stream n refl refl e refl
  push_stream-Pushed id m n (some st) t e = delivered-Pushed id m n st (send st m) t e refl

  push_to-Pushed :
      (id : ℤ) (m : PbTask) (o : Option NodeState) (t : TaskService S)
      → let (r, t') = push_to store send id m o t in Pushed id m o t.sent t'.sent r
  unfolding push_to
  push_to-Pushed id m none t = no_node refl refl refl
  push_to-Pushed id m (some n) t = push_stream-Pushed id m n n.stream t refl

  -- PushTask succeeds exactly when the node that the task names is connected and its stream takes the
  -- message, which is then the one message sent, and it went to that stream.
  pub push_task-Pushed :
      (now later : Time) (p : Ptr) (t : TaskService S)
      → let task = t.heap.cell p in
        let id = to_int32 task.node_id in
        let (r, t') = push_task store send now later p t in
        Pushed id (record { id = task.id; type = task.type }) (get t.nodes id) t.sent t'.sent r
  unfolding push_task
  push_task-Pushed now later p t = push_to-Pushed _ _ _ _
