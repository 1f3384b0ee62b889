-- ===== src/Server/Services/Nodes/Handlers.antt =====
-- The HTTP handlers of pkg/server/services/node_service.go, and the methods that they call.
use wireguard_babeld_igp.Base.{
  String, Bool, true, false, Option, none, some, List, [], ◌∷◌, map, ite, ◌=?◌, if◌then◌else◌,
}
use wireguard_babeld_igp.Base.Int.{ℤ, pos, int_key, ltb_ℤ}
use wireguard_babeld_igp.Data.Text.{atoi}
use wireguard_babeld_igp.Errors.{Result, ok, err, wrapped, wrap, message, id_taken}
use wireguard_babeld_igp.Types.{Time, NodeConfig, Float64, Floats, hundred}
use wireguard_babeld_igp.Store.Interface.{Store}
use wireguard_babeld_igp.Server.Http.{Response, respond, reject}
use wireguard_babeld_igp.Server.Services.Tasks.{Stream, PbTask, TaskService, Outcome, done, blocked}
use wireguard_babeld_igp.Server.Services.Nodes.{
  Fresh, CreateRequest, Created, Times, new_node, trigger_each, trigger_config_update,
}

-- math.Round(x*100) / 100
unfoldable pub two_digits : Floats → Float64 → Float64
two_digits floats x = floats.div (floats.round (floats.mul x hundred)) hundred

unfoldable pub round_metrics : Floats → NodeConfig → NodeConfig
unfolding two_digits
round_metrics floats node = record node {
  status = record node.status {
    metrics = record node.status.metrics {
      cpu_usage = two_digits floats node.status.metrics.cpu_usage;
      disk_usage = two_digits floats node.status.metrics.disk_usage;
    };
  };
}

module _ {S : Type 0} (store : Store S) (floats : Floats) where
  listed : Result (List NodeConfig) → S → Result (List NodeConfig) × S
  listed (err e) s = (err (wrap "querying nodes" e), s)
  listed (ok nodes) s =
      (ok (map (round_metrics floats) nodes), store.change_listed (round_metrics floats) s)

  -- ListNodes, which rounds the nodes where they are stored, if the store shares them.
  unfoldable pub list_nodes : S → Result (List NodeConfig) × S
  unfolding listed
  list_nodes s = listed (store.list_nodes s) s

  nodes_response : Result (List NodeConfig) × S → Response (List NodeConfig) × S
  nodes_response (err e, s) = (reject 500 e, s)
  nodes_response (ok nodes, s) = (respond 200 nodes, s)

  unfoldable pub handle_list_nodes : S → Response (List NodeConfig) × S
  unfolding list_nodes nodes_response
  handle_list_nodes s = nodes_response (list_nodes s)

  node_response : Result NodeConfig → Response NodeConfig
  node_response (err e) = reject 500 e
  node_response (ok node) = respond 200 node

  -- The argument is the `id` of the path.
  unfoldable pub handle_get_node : String → S → Response NodeConfig
  unfolding node_response
  handle_get_node param s = elim (atoi param) [
    | none ↦ reject 400 (message "Invalid node ID")
    | some id ↦ node_response (store.get_node id s)
  ]

  unfoldable pub created :
      String
      → NodeConfig × (Result (Unit {0}) × S)
      → TaskService S
      → Response Created × Option ℤ × TaskService S
  created token (node, (err e, s)) t = (reject 500 e, none, record t { store = s })
  created token (node, (ok _, s)) t = (
    respond 200
        (record { id = node.id; name = node.name; token = token; public_key = node.public_key }),
    some node.id,
    record t { store = s },
  )

  unfoldable pub create_keyed :
      Fresh
      → Time
      → CreateRequest
      → String
      → Result (String × String)
      → TaskService S
      → Response Created × Option ℤ × TaskService S
  unfolding created
  create_keyed f now req token (err e) t = (reject 500 e, none, t)
  create_keyed f now req token (ok keys) t =
      created token (store.create_node (new_node f now req token keys) t.store) t

  unfoldable pub create_with :
      Fresh
      → Time
      → CreateRequest
      → Result String
      → TaskService S
      → Response Created × Option ℤ × TaskService S
  unfolding create_keyed
  create_with f now req (err e) t = (reject 500 e, none, t)
  create_with f now req (ok token) t = create_keyed f now req token f.keys t

  -- Whether the request names an identifier that the store has.
  unfoldable pub id_is_taken : ℤ → S → Bool
  id_is_taken id s =
      if ltb_ℤ (pos 0) id then elim (store.get_node id s) [ err _ ↦ false | ok _ ↦ true ] else false

  -- The second part is the node that the goroutine of a successful call skips.
  unfoldable pub handle_create_node :
      Fresh
      → Time
      → Option CreateRequest
      → TaskService S
      → Response Created × Option ℤ × TaskService S
  unfolding create_with id_is_taken
  handle_create_node f now none t = (reject 400 (message "Invalid request body"), none, t)
  handle_create_node f now (some req) t =
      if id_is_taken req.id t.store
      then (reject 400 (id_taken req.id), none, t)
      else create_with f now req f.token t

  -- DeleteNode, and UpdateNode up to its goroutine, which runs if the result is no error.
  unfoldable pub delete_node : ℤ → S → Result (Unit {0}) × S
  delete_node id s = store.delete_node id s

  wrap_result : Result (Unit {0}) × S → Result (Unit {0}) × S
  wrap_result (r, s) = (wrapped "update node" r, s)

  unfoldable pub update_node : ℤ → NodeConfig → S → Result (Unit {0}) × S
  unfolding wrap_result
  update_node id config s = elim (store.get_node id s) [
    | err e ↦ (err (wrap "get old node" e), s)
    | ok _ ↦ wrap_result (store.update_node id config s)
  ]

  -- The nodes for which a goroutine's loop triggers an update, without the one to skip.
  unfoldable pub ids_but : Option ℤ → List NodeConfig → List ℤ
  ids_but skip [] = []
  ids_but none (node ∷ nodes) = node.id ∷ ids_but none nodes
  ids_but (some id) (node ∷ nodes) =
      let rest = ids_but (some id) nodes in ite (node.id =? id) rest (node.id ∷ rest)

  module _ (send : Stream → PbTask → Result (Unit {0})) where
    trigger_listed :
        (ℤ → Times) → Option ℤ → TaskService S → Result (List NodeConfig) × S → TaskService S
    unfolding ids_but trigger_each
    trigger_listed times skip t (err _, s) = record t { store = s }
    trigger_listed times skip t (ok nodes, s) =
        trigger_each store send times (ids_but skip nodes) (record t { store = s })

    -- The goroutine of HandleCreateNode, with the new node to skip, and that of UpdateNode.
    unfoldable pub update_all : (ℤ → Times) → Option ℤ → TaskService S → TaskService S
    unfolding list_nodes trigger_listed
    update_all times skip t = trigger_listed times skip t (list_nodes t.store)

    triggered : Outcome (Unit {0}) → Option (Response (Unit {0}))
    triggered blocked = none
    triggered (done (err e)) = some (reject 500 e)
    triggered (done (ok _)) = some (respond 200 tt)

    -- `none` is a request that is never answered.
    unfoldable pub handle_trigger_config_update :
        Times → String → TaskService S → Option (Response (Unit {0})) × TaskService S
    unfolding triggered
    handle_trigger_config_update times param t = elim (atoi param) [
      | none ↦ (some (reject 400 (message "Invalid node ID")), t)
      | some id ↦ let (o, t') = trigger_config_update store send times id t in (triggered o, t')
    ]
