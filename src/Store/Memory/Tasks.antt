-- ===== src/Store/Memory/Tasks.antt =====
-- CreateTask, UpdateTask, GetTask, ListTasks, matchesFilter, DeleteTask and CleanupTasks of
-- pkg/store/memory_store.go. The map holds pointers; a method that reads a task is given the heap.
pub mod Cleanup
pub mod Listing
pub mod Results
use wireguard_babeld_igp.Base.{
  ℕ, ◌+◌, ◌*◌, String, Bool, true, false, Option, none, some, List, [], ◌∷◌, ite, ltb,
  if◌then◌else◌, ◌=?◌, string_key, Key,
}
use wireguard_babeld_igp.Base.Int.{ℤ, int_key}
use wireguard_babeld_igp.Data.Heap.{Ptr, Heap}
use wireguard_babeld_igp.Data.Map.{Map, get, put, delete}
use wireguard_babeld_igp.Data.Map.Range.{range}
use wireguard_babeld_igp.Errors.{Result, ok, err, task_missing}
use wireguard_babeld_igp.Types.{Time, Task, TaskStatus, TaskType}
use wireguard_babeld_igp.Store.Memory.{MemoryStore}

-- A field that is a nil pointer does not filter.
pub record TaskFilter : Type 0 where
  pub node_id : Option ℤ
  pub status : Option TaskStatus
  pub type : Option TaskType

abbrev pub Visits : Type 0
Visits = List (String × Ptr) → List (String × Ptr)

unfoldable pub create_task : Heap Task → Ptr → MemoryStore → Result (Unit {0}) × MemoryStore
create_task h p s = (ok tt, record s { tasks = put s.tasks (h.cell p).id p })

-- The write of UpdateTask and DeleteTask, behind their test that the task is there.
if_task : String → Option Ptr → MemoryStore → MemoryStore → Result (Unit {0}) × MemoryStore
if_task id none s written = (err (task_missing id), s)
if_task id (some _) s written = (ok tt, written)

unfoldable pub update_task : Heap Task → Ptr → MemoryStore → Result (Unit {0}) × MemoryStore
unfolding if_task
update_task h p s =
    let id = (h.cell p).id in if_task id (get s.tasks id) s (record s { tasks = put s.tasks id p })

unfoldable pub get_task : String → MemoryStore → Result Ptr
get_task id s = elim (get s.tasks id) [ none ↦ err (task_missing id) | some p ↦ ok p ]

-- `f != nil && v != *f`
abbrev differs : {K : Type 0} ⦃k : Key K⦄ → Option K → K → Bool
differs none v = false
differs (some f) v = ite (v =? f) false true

unfoldable pub matches_filter : Task → TaskFilter → Bool
matches_filter task filter =
    if differs filter.node_id task.node_id
    then false
    else if differs filter.status task.status
    then false
    else if differs filter.type task.type
    then false
    else true

-- The loop of ListTasks.
list_from : Heap Task → TaskFilter → List (String × Ptr) → List Ptr
unfolding matches_filter
list_from h filter [] = []
list_from h filter ((_, p) ∷ l) =
    let rest = list_from h filter l in if matches_filter (h.cell p) filter then p ∷ rest else rest

unfoldable pub list_tasks : Visits → Heap Task → TaskFilter → MemoryStore → List Ptr
unfolding list_from
list_tasks visit h filter s = list_from h filter (range visit s.tasks)

unfoldable pub delete_task : String → MemoryStore → Result (Unit {0}) × MemoryStore
unfolding if_task
delete_task id s = if_task id (get s.tasks id) s (record s { tasks = delete s.tasks id })

-- 24 * time.Hour
abbrev pub day : Time
day = 24 * 3_600_000_000_000

-- `task.CompletedAt != nil && task.CompletedAt.Before(now - 24h)`
unfoldable pub is_stale : Time → Task → Bool
is_stale now task = elim task.completed_at [ none ↦ false | some t ↦ ltb (t + day) now ]

-- The loop of CleanupTasks. An entry that the loop deletes is the one that it visits.
cleanup_from : Heap Task → Time → List (String × Ptr) → Map String Ptr → Map String Ptr
unfolding is_stale
cleanup_from h now [] m = m
cleanup_from h now ((id, p) ∷ l) m =
    cleanup_from h now l (if is_stale now (h.cell p) then delete m id else m)

unfoldable pub cleanup_tasks : Visits → Heap Task → Time → MemoryStore → MemoryStore
unfolding cleanup_from
cleanup_tasks visit h now s = record s { tasks = cleanup_from h now (range visit s.tasks) s.tasks }
