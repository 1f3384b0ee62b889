-- ===== src/Store/Gorm/Tasks.antt =====
-- CreateTask to CleanupTasks of pkg/store/gorm_store.go, on the tasks of a heap that the caller
-- shares. A call gets the clock's answers as arguments; `none` is a column that is NULL.
use wireguard_babeld_igp.Base.{
  ◌+◌, ◌*◌, String, Bool, Option, none, some, List, [], ltb, ite, true, false, ◌=?◌, string_key,
}
use wireguard_babeld_igp.Data.Heap.{Ptr, Heap, write, alloc}
use wireguard_babeld_igp.Errors.{Error, Result, ok, err, wrap, wrapped}
use wireguard_babeld_igp.Types.{Time, Task}
use wireguard_babeld_igp.Store.Memory.Tasks.{TaskFilter}
use wireguard_babeld_igp.Store.Gorm.{Database, deleted}

abbrev pub has_id : String → Task → Bool
has_id id t = ite (t.id =? id) true false

-- completed_at < time.Now().Add(-24*time.Hour)
abbrev pub completed_before : Time → Option Time → Bool
completed_before now none = false
completed_before now (some t) = ltb (t + 24 * 3600 * 1000000000) now

module _ {D : Type 0} (db : Database D) where
  with_cell :
      String → Ptr → Heap Task → Task × (Option Error × D) → Result (Unit {0}) × (Heap Task × D)
  with_cell s p h (t, (none, d)) = (ok tt, (write h p t, d))
  with_cell s p h (t, (some e, d)) = (err (wrap s e), (write h p t, d))

  unfoldable pub create_task :
      Time → Time → Ptr → Heap Task → D → Result (Unit {0}) × (Heap Task × D)
  unfolding with_cell
  create_task now later p h d =
      with_cell "inserting task" p h
        (db.tasks.create (record (h.cell p) { created_at = now; updated_at = later }) d)

  unfoldable pub update_task : Time → Ptr → Heap Task → D → Result (Unit {0}) × (Heap Task × D)
  unfolding with_cell
  update_task now p h d =
      let t = record (h.cell p) { updated_at = now } in
      with_cell "updating task" p h (t, db.tasks.save t d)

  allocated : Heap Task → Result Task → Result Ptr × Heap Task
  allocated h (err e) = (err e, h)
  allocated h (ok t) = let (p, h') = alloc h t in (ok p, h')

  -- A task that is found is a new object.
  unfoldable pub get_task : String → Heap Task → D → Result Ptr × Heap Task
  unfolding allocated
  get_task id h d = allocated h (wrapped "querying task" (db.tasks.query.first (has_id id) d))

  -- Not implemented: the slice is nil.
  unfoldable pub list_tasks : TaskFilter → Heap Task → D → Result (List Ptr)
  list_tasks filter h d = ok []

  unfoldable pub delete_task : String → D → Result (Unit {0}) × D
  delete_task id d = deleted "deleting task" (db.tasks.delete (has_id id) d)

  unfoldable pub cleanup_tasks : Time → D → Result (Unit {0}) × D
  cleanup_tasks now d =
      deleted "deleting tasks" (db.tasks.delete (λ t. completed_before now t.completed_at) d)
