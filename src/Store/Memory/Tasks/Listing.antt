-- ===== src/Store/Memory/Tasks/Listing.antt =====
-- ListTasks answers with the stored tasks that match the filter, and with no other.
use wireguard_babeld_igp.Base.{
  ◌⊎◌, String, ◌≡◌, ◌↔◌, inl, inr, ap, List, [], ◌∷◌, Option, none, some, true, false, arith,
  Bool-cases, string_key,
}
use wireguard_babeld_igp.Data.Heap.{Ptr, Heap}
use wireguard_babeld_igp.Data.Map.{get}
use wireguard_babeld_igp.Data.Map.Range.{In, IsOrder, range, get-range, range-get}
use wireguard_babeld_igp.Types.{Task}
use wireguard_babeld_igp.Store.Memory.{MemoryStore}
use wireguard_babeld_igp.Store.Memory.Tasks.{
  Visits, TaskFilter, matches_filter, list_from, list_tasks,
}

-- A pointer to a field's wanted value, or to no value, agrees with the field.
abbrev pub Agrees : {K : Type 0} → Option K → K → Type 0
Agrees none v = Unit {0}
Agrees (some f) v = v ≡ f

abbrev pub Matches : Task → TaskFilter → Type 0
Matches t f = Agrees f.node_id t.node_id × Agrees f.status t.status × Agrees f.type t.type

pub matches_filter_sound : (t : Task) (f : TaskFilter) → matches_filter t f ≡ true → Matches t f
unfolding matches_filter
matches_filter_sound t f h = ground arith

pub matches_filter_complete : (t : Task) (f : TaskFilter) → Matches t f → matches_filter t f ≡ true
unfolding matches_filter
matches_filter_complete t f h = ground arith

module _ (h : Heap Task) (f : TaskFilter) where
  list_from_sound :
      (l : List (String × Ptr)) (p : Ptr)
      → In p (list_from h f l)
      → (id : String) × In (id, p) l × Matches (h.cell p) f
  unfolding list_from
  list_from_sound [] p i = absurd i
  list_from_sound ((j, q) ∷ l) p i =
      found (list_from_sound l p) (Bool-cases (matches_filter (h.cell q) f)) i
    where
      found :
          (In p (list_from h f l) → (id : String) × In (id, p) l × Matches (h.cell p) f)
          → (matches_filter (h.cell q) f ≡ true) ⊎ (matches_filter (h.cell q) f ≡ false)
          → In p (list_from h f ((j, q) ∷ l))
          → (id : String) × In (id, p) ((j, q) ∷ l) × Matches (h.cell p) f
      found rec (inl t) i = elim (rw t at i) [
        | inl e ↦ (j, inl (λ k. (j, e k)), rw e (matches_filter_sound (h.cell q) f t))
        | inr m ↦ let (id, n, a) = rec m in (id, inr n, a)
      ]
      found rec (inr t) i = let (id, n, a) = rec (rw t at i) in (id, inr n, a)

  list_from_complete :
      (l : List (String × Ptr)) (id : String) (p : Ptr)
      → In (id, p) l
      → Matches (h.cell p) f
      → In p (list_from h f l)
  unfolding list_from
  list_from_complete [] id p i m = absurd i
  list_from_complete ((j, q) ∷ l) id p (inl e) m =
      ground (arith, ap (λ (x : String × Ptr). x.1) e, matches_filter_complete (h.cell p) f m)
  list_from_complete ((j, q) ∷ l) id p (inr i) m = ground (arith, list_from_complete l id p i m)

  -- A pointer is listed exactly when the store holds it under some key and its task matches.
  pub list_tasks_lem :
      (visit : Visits) (s : MemoryStore) (p : Ptr)
      → IsOrder visit
      → In p (list_tasks visit h f s)
        ↔ ((id : String) × (get s.tasks id ≡ some p) × Matches (h.cell p) f)
  unfolding list_tasks
  list_tasks_lem visit s p order = (
    λ i.
        let (id, m, a) = list_from_sound (range visit s.tasks) p i in
        (id, get-range visit s.tasks id p order m, a),
    λ (id, e, a).
        list_from_complete (range visit s.tasks) id p (range-get visit s.tasks id p order e) a,
  )
