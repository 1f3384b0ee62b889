-- ===== src/Store/Memory/Tasks/Results.antt =====
-- What UpdateTask comes to when the store holds the task's identifier, and when it does not.
use wireguard_babeld_igp.Base.{◌≡◌, none, some, arith, string_key}
use wireguard_babeld_igp.Data.Heap.{Ptr, Heap}
use wireguard_babeld_igp.Data.Map.{get, put}
use wireguard_babeld_igp.Errors.{ok, err, task_missing}
use wireguard_babeld_igp.Types.{Task}
use wireguard_babeld_igp.Store.Memory.{MemoryStore}
use wireguard_babeld_igp.Store.Memory.Tasks.{update_task}

module _ (h : Heap Task) (p : Ptr) (s : MemoryStore) where
  pub update_task_held :
      (q : Ptr)
      → get s.tasks (h.cell p).id ≡ some q
      → update_task h p s ≡ (ok tt, record s { tasks = put s.tasks (h.cell p).id p })
  unfolding update_task
  update_task_held q e = ground (arith, e)

  pub update_task_gone :
      get s.tasks (h.cell p).id ≡ none → update_task h p s ≡ (err (task_missing (h.cell p).id), s)
  unfolding update_task
  update_task_gone e = ground (arith, e)
