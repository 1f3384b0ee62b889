-- ===== src/Store/Memory/Nodes/Ids.antt =====
-- What CreateNode, UpdateNode and DeleteNode do to the identifiers of the nodes.
use wireguard_babeld_igp.Base.{
  ◌≡◌, refl, inl, inr, Option, none, some, arith, Option-cases, ◌≢◌, ◌⊎◌,
}
use wireguard_babeld_igp.Base.Int.{
  ℤ, pos, int_key, ◌≤ℤ◌, ◌<ℤ◌, IsInt, max_int, inc, inc_bounds, inc_parts,
}
use wireguard_babeld_igp.Data.Map.{get, put, get-put, get-delete, get-empty}
use wireguard_babeld_igp.Errors.{ok, err, node_exists}
use wireguard_babeld_igp.Types.{NodeConfig}
use wireguard_babeld_igp.Store.Memory.{MemoryStore, new_memory_store}
use wireguard_babeld_igp.Store.Memory.Nodes.{
  assign_id, insert_node, if_node, create_node, get_node, update_node, delete_node,
}

-- Nodes stand under their own identifiers, none of which is above `max_node_id`.
pub record IsNumbered (s : MemoryStore) : Type 0 where
  pub nonneg : pos 0 ≤ℤ s.max_node_id
  pub int : IsInt s.max_node_id
  pub keyed : (k : ℤ) (n : NodeConfig) → get s.nodes k ≡ some n → (n.id ≡ k) × (k ≤ℤ s.max_node_id)

insert_node_keeps :
    (P : MemoryStore → Type 0) (node : NodeConfig) (s : MemoryStore) (o : Option NodeConfig)
    → P s
    → P (record s { nodes = put s.nodes node.id node })
    → P (insert_node node s o).1
unfolding insert_node
insert_node_keeps P node s (some old) h k = h
insert_node_keeps P node s none h k = k

if_node_keeps :
    (P : MemoryStore → Type 0) (id : ℤ) (o : Option NodeConfig) (s written : MemoryStore)
    → P s
    → ((old : NodeConfig) → o ≡ some old → P written)
    → P (if_node id o s written).1
unfolding if_node
if_node_keeps P id none s written h k = h
if_node_keeps P id (some old) s written h k = k old refl

pub new-IsNumbered : IsNumbered new_memory_store
new-IsNumbered = record {
  nonneg = omega arith;
  int = omega arith;
  keyed = λ k n h. cc (get-empty {V = NodeConfig} k);
}

module _ (s : MemoryStore) (v : IsNumbered s) (room : s.max_node_id <ℤ pos max_int) where
  abbrev next : ℤ
  next = inc s.max_node_id

  next_free : get s.nodes next ≡ none
  next_free = elim (Option-cases (get s.nodes next)) [
    | inl e ↦ e
    | inr (n, e) ↦ absurd (omega (arith, (v.keyed next n e).1, inc_parts s.max_node_id v.int))
  ]

  -- In a numbered store whose last identifier is below the largest `int`, a node without an
  -- identifier is accepted. It gets the next identifier, which no node had, and is found under it.
  pub create_node_auto :
      (node : NodeConfig)
      → node.id ≡ pos 0
      → let (node', (r, s')) = create_node node s in
        (r ≡ ok tt) × (node'.id ≡ next) × (get s.nodes next ≡ none) × (get_node next s' ≡ ok node')
  unfolding create_node get_node
  create_node_auto node e =
      let numbered : NodeConfig = record node { id = next } in
      ground (arith, next_free, get-put s.nodes next next numbered)

  assign_id_bounds :
      (id : ℤ)
      → IsInt id
      → let (id', top) = assign_id id s.max_node_id in
        IsInt top × (pos 0 ≤ℤ top) × (s.max_node_id ≤ℤ top) × (id' ≤ℤ top)
  unfolding assign_id
  assign_id_bounds id i = ground (arith, inc_bounds s.max_node_id, inc_parts s.max_node_id v.int)

  -- CreateNode keeps a store numbered whose last identifier is below the largest `int`, whatever
  -- identifier the node asks for.
  pub create_node-IsNumbered :
      (node : NodeConfig) → IsInt node.id → IsNumbered (create_node node s).1.1
  unfolding create_node
  create_node-IsNumbered node i =
      let (id, top) = assign_id node.id s.max_node_id in
      let (int, nonneg, above, fits) = assign_id_bounds node.id i in
      let numbered : NodeConfig = record node { id = id } in
      insert_node_keeps IsNumbered numbered _ (get s.nodes id)
        (record { nonneg = nonneg; int = int; keyed = λ k n h. ground (arith, v.keyed k n) })
        (record {
          nonneg = nonneg;
          int = int;
          keyed = λ k n h. ground (arith, get-put s.nodes id k numbered, v.keyed k n);
        })

-- UpdateNode keeps a store numbered, where the node has the identifier that it is stored under.
pub update_node-IsNumbered :
    (id : ℤ) (node : NodeConfig) (s : MemoryStore)
    → node.id ≡ id
    → IsNumbered s
    → IsNumbered (update_node id node s).1
unfolding update_node
update_node-IsNumbered id node s e v =
    if_node_keeps IsNumbered id (get s.nodes id) s _ v λ old found. record {
      nonneg = v.nonneg;
      int = v.int;
      keyed = λ k n h. ground (arith, get-put s.nodes id k node, v.keyed k n, v.keyed id old found);
    }

-- DeleteNode keeps a store numbered.
pub delete_node-IsNumbered :
    (id : ℤ) (s : MemoryStore) → IsNumbered s → IsNumbered (delete_node id s).1
unfolding delete_node
delete_node-IsNumbered id s v = if_node_keeps IsNumbered id (get s.nodes id) s _ v λ old found.
    record {
      nonneg = v.nonneg;
      int = v.int;
      keyed = λ k n h. ground (arith, get-delete s.nodes id k, v.keyed k n);
    }

-- A node that CreateNode accepts is found under the identifier that it got, and no other node has
-- changed; one that it refuses was there before, and nothing changes but `max_node_id`.
pub create_node_cases :
    (node : NodeConfig) (s : MemoryStore)
    → let (node', (r, s')) = create_node node s in
      ((r ≡ ok tt)
        × (get s.nodes node'.id ≡ none)
        × (get_node node'.id s' ≡ ok node')
        × ((k : ℤ) → k ≢ node'.id → get s'.nodes k ≡ get s.nodes k))
      ⊎ ((r ≡ err (node_exists node'.id))
          × (get s.nodes node'.id ≢ none)
          × ((k : ℤ) → get s'.nodes k ≡ get s.nodes k))
unfolding create_node get_node
create_node_cases node s =
    let (id, top) = assign_id node.id s.max_node_id in
    let numbered : NodeConfig = record node { id = id } in
    elim (Option-cases (get s.nodes id)) [
      | inl free ↦ inl (
        rw (free, insert_node),
        free,
        rw (free, insert_node) (ground (arith, get-put s.nodes id id numbered)),
        λ k n. rw (free, insert_node) (ground (arith, get-put s.nodes id k numbered)),
      )
      | inr (old, there) ↦
          inr (rw (there, insert_node), λ e. ground arith, λ k. rw (there, insert_node))
    ]

-- CreateNode changes nothing of the caller's node but its identifier.
pub create_node_same :
    (node : NodeConfig) (s : MemoryStore)
    → let node' = (create_node node s).0 in node' ≡ record node { id = node'.id }
unfolding create_node
create_node_same node s = refl
