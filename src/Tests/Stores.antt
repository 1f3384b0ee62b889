-- ===== src/Tests/Stores.antt =====
-- The theorems on MemoryStore, at nodes, users and tasks.
use wireguard_babeld_igp.Base.{◌≡◌, ◌↔◌, String, none, some, string_key}
use wireguard_babeld_igp.Base.Int.{int_key}
use wireguard_babeld_igp.Data.Map.{get, put}
use wireguard_babeld_igp.Data.Map as Map
use wireguard_babeld_igp.Data.Heap.{Heap, Ptr}
use wireguard_babeld_igp.Data.Map.Range.{In}
use wireguard_babeld_igp.Types.{User, Task, zero_user, zero_task}
use wireguard_babeld_igp.Store.Memory.{MemoryStore, new_memory_store}
use wireguard_babeld_igp.Store.Memory.Tasks.{cleanup_tasks, list_tasks, TaskFilter}
use wireguard_babeld_igp.Store.Memory.Tasks.Cleanup.{IsOld, get-cleanup_tasks}
use wireguard_babeld_igp.Store.Memory.Tasks.Listing.{Matches, list_tasks_lem}
use wireguard_babeld_igp.Tests.Fixtures.{as_listed}

abbrev alice : User
alice = record zero_user { username = "alice"; password = "hash" }

abbrev old_task : Task
old_task = record zero_task { id = "update_1"; status = "success"; completed_at = some 1 }

abbrev old_tasks : Heap Task
old_tasks = record { cell = λ p. old_task; next = 1 }

abbrev with_task : MemoryStore
with_task = record new_memory_store { tasks = put Map.empty "update_1" 0 }

get-cleanup_tasks_example :
    let cleaned = cleanup_tasks (λ l. l) old_tasks 90_000_000_000_000 with_task in
    (get with_task.tasks "update_1" ≡ none → get cleaned.tasks "update_1" ≡ none)
    × ((p : Ptr)
        → get with_task.tasks "update_1" ≡ some p
        → (IsOld 90_000_000_000_000 (old_tasks.cell p) → get cleaned.tasks "update_1" ≡ none)
          × (¬ IsOld 90_000_000_000_000 (old_tasks.cell p) → get cleaned.tasks "update_1" ≡ some p))
get-cleanup_tasks_example =
    get-cleanup_tasks old_tasks 90_000_000_000_000 "update_1" (λ l. l) with_task as_listed

abbrev succeeded : TaskFilter
succeeded = record { node_id = none; status = some "success"; type = none }

list_tasks_lem_example :
    In 0 (list_tasks (λ l. l) old_tasks succeeded with_task)
    ↔ ((id : String) × (get with_task.tasks id ≡ some 0) × Matches (old_tasks.cell 0) succeeded)
list_tasks_lem_example = list_tasks_lem old_tasks succeeded (λ l. l) with_task 0 as_listed
