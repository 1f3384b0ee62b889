-- ===== src/Server/Services/Nodes/Listing.antt =====
-- ListNodes over MemoryStore, whose nodes it rounds in place.
use mathlib.Core.Option
use wireguard_babeld_igp.Base.{
  ◌≡◌, ◌∙◌, refl, ap, String, none, some, inl, inr, arith, Option-cases,
}
use wireguard_babeld_igp.Base.Int.{ℤ, int_key}
use wireguard_babeld_igp.Data.Map.{get, get-change_values}
use wireguard_babeld_igp.Types.{NodeConfig, Floats, hundred}
use wireguard_babeld_igp.Store.Memory.{MemoryStore}
use wireguard_babeld_igp.Store.Memory.Nodes
use wireguard_babeld_igp.Store.Interface.{MapOrders, memory_store}
use wireguard_babeld_igp.Server.Middleware.Node.{validate_token}
use wireguard_babeld_igp.Server.Services.Nodes.Handlers.{round_metrics, list_nodes}

module _ (orders : MapOrders) (floats : Floats) (s : MemoryStore) where
  abbrev after : MemoryStore → MemoryStore
  after x = (list_nodes (memory_store orders) floats x).1

  get-list_nodes :
      (x : MemoryStore) (id : ℤ)
      → get (after x).nodes id ≡ Option.map (round_metrics floats) (get x.nodes id)
  unfolding list_nodes Nodes.change_nodes
  get-list_nodes x id = get-change_values (round_metrics floats) x.nodes id

  validate_token-list_nodes :
      (id : ℤ) (token : String)
      → validate_token (memory_store orders) id token (after s)
        ≡ validate_token (memory_store orders) id token s
  unfolding validate_token Nodes.get_node round_metrics
  validate_token-list_nodes id token = elim (Option-cases (get s.nodes id)) [
    | inl e ↦ ground (arith, get-list_nodes s id)
    | inr (n, e) ↦ ground (arith, get-list_nodes s id)
  ]

  -- ListNodes changes stored nodes in place: the usage of CPU and disk of each becomes its hundredfold,
  -- rounded, divided by a hundred. It changes nothing else, so that the same tokens are accepted
  -- afterwards.
  pub list_nodes_lem :
      (id : ℤ) (token : String)
      → (get s.nodes id ≡ none → get (after s).nodes id ≡ none)
        × ((n : NodeConfig)
            → get s.nodes id ≡ some n
            → let m = n.status.metrics in
              get (after s).nodes id
              ≡ some (record n {
                status = record n.status {
                  metrics = record m {
                    cpu_usage = floats.div (floats.round (floats.mul m.cpu_usage hundred)) hundred;
                    disk_usage =
                        floats.div (floats.round (floats.mul m.disk_usage hundred)) hundred;
                  };
                };
              }))
        × (after s ≡ record s { nodes = (after s).nodes })
        × (validate_token (memory_store orders) id token (after s)
            ≡ validate_token (memory_store orders) id token s)
  unfolding list_nodes Nodes.change_nodes round_metrics
  list_nodes_lem id token = (
    λ e. get-list_nodes s id ∙ ap (Option.map (round_metrics floats)) e,
    λ n e. get-list_nodes s id ∙ ap (Option.map (round_metrics floats)) e,
    refl,
    validate_token-list_nodes id token,
  )
