-- ===== src/Store/Memory/Tasks/Cleanup.antt =====
-- CleanupTasks removes the stale tasks and no other, in whatever order it visits them.
use wireguard_babeld_igp.Base.{
  if◌then◌else◌, ◌=?◌, ◌∙◌, ◌+◌, ◌*◌, ◌<◌, String, ◌≡◌, refl, inl, inr, ap, List, [], ◌∷◌, none,
  some, true, false, arith, Bool-cases, Option-cases, string_key,
}
use wireguard_babeld_igp.Data.Heap.{Ptr, Heap}
use wireguard_babeld_igp.Data.Map.{Map, get, delete, get-delete}
use wireguard_babeld_igp.Data.Map.Range.{In, IsOrder, range, get-range, range-get}
use wireguard_babeld_igp.Types.{Time, Task}
use wireguard_babeld_igp.Store.Memory.{MemoryStore}
use wireguard_babeld_igp.Store.Memory.Tasks.{Visits, is_stale, cleanup_from, cleanup_tasks}

-- Completed, and more than 24 hours ago; times are in nanoseconds.
pub IsOld : Time → Task → Type 0
IsOld now task =
    (t : Time) × (task.completed_at ≡ some t) × (t + 24 * (60 * (60 * 1_000_000_000)) < now)

is_stale-IsOld : (now : Time) (task : Task) → is_stale now task ≡ true → IsOld now task
unfolding is_stale IsOld
is_stale-IsOld now task h = elim (Option-cases task.completed_at) [
  | inl e ↦ absurd (ground (arith, e, h))
  | inr (t, e) ↦ (t, e, ground (arith, e, h))
]

IsOld-is_stale : (now : Time) (task : Task) → IsOld now task → is_stale now task ≡ true
unfolding is_stale IsOld
IsOld-is_stale now task (t, e, lt) = ground (arith, e, lt)

module _ (h : Heap Task) (now : Time) (id : String) where
  cleanup_none :
      (l : List (String × Ptr)) (m : Map String Ptr)
      → get m id ≡ none
      → get (cleanup_from h now l m) id ≡ none
  unfolding cleanup_from
  cleanup_none [] m e = e
  cleanup_none ((j, q) ∷ l) m e =
      cleanup_none l (if is_stale now (h.cell q) then delete m j else m)
        (ground (arith, get-delete m j id))

  cleanup_stale :
      (l : List (String × Ptr)) (m : Map String Ptr) (p : Ptr)
      → is_stale now (h.cell p) ≡ true
      → In (id, p) l
      → get (cleanup_from h now l m) id ≡ none
  unfolding cleanup_from
  cleanup_stale [] m p t i = absurd i
  cleanup_stale ((j, q) ∷ l) m p t (inl e) =
      cleanup_none l (if is_stale now (h.cell q) then delete m j else m) (
        ground (
          arith,
          get-delete m j id,
          ap (λ (x : String × Ptr). x.0) e,
          ap (λ (x : String × Ptr). x.1) e,
        ))
  cleanup_stale ((j, q) ∷ l) m p t (inr i) =
      cleanup_stale l (if is_stale now (h.cell q) then delete m j else m) p t i

  cleanup_fresh :
      (l : List (String × Ptr)) (m : Map String Ptr)
      → ((p : Ptr) → In (id, p) l → is_stale now (h.cell p) ≡ false)
      → get (cleanup_from h now l m) id ≡ get m id
  unfolding cleanup_from
  cleanup_fresh [] m f = refl
  cleanup_fresh ((j, q) ∷ l) m f =
      let next : Map String Ptr = if is_stale now (h.cell q) then delete m j else m in
      let rest = cleanup_fresh l next (λ p i. f p (inr i)) in
      elim (id =? j) [
        | yes e ↦ ground (arith, rest, f q (inl (λ i. (e i, q))))
        | no n ↦ ground (arith, rest, get-delete m j id)
      ]

  -- In any order of its loop, CleanupTasks drops a stored task if it was completed more than 24 hours
  -- ago, keeps every other one, and adds none.
  pub get-cleanup_tasks :
      (visit : Visits) (s : MemoryStore)
      → IsOrder visit
      → (get s.tasks id ≡ none → get (cleanup_tasks visit h now s).tasks id ≡ none)
        × ((p : Ptr)
            → get s.tasks id ≡ some p
            → (IsOld now (h.cell p) → get (cleanup_tasks visit h now s).tasks id ≡ none)
              × (¬ IsOld now (h.cell p) → get (cleanup_tasks visit h now s).tasks id ≡ some p))
  unfolding cleanup_tasks
  get-cleanup_tasks visit s order = (
    cleanup_none (range visit s.tasks) s.tasks,
    λ p e. (
      λ old.
          cleanup_stale (range visit s.tasks) s.tasks p (IsOld-is_stale now (h.cell p) old)
            (range-get visit s.tasks id p order e),
      λ new.
          cleanup_fresh (range visit s.tasks) s.tasks (λ q i.
            elim (Bool-cases (is_stale now (h.cell q))) [
              | inl t ↦ absurd (
                  new (
                    is_stale-IsOld now (h.cell p)
                      (ground (arith, t, get-range visit s.tasks id q order i))))
              | inr f ↦ f
            ])
          ∙ e,
    ),
  )
