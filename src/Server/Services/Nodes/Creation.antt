-- ===== src/Server/Services/Nodes/Creation.antt =====
-- What HandleCreateNode promises, over MemoryStore.
use wireguard_babeld_igp.Base.{◌≡◌, String, Option, none, some, true, arith}
use wireguard_babeld_igp.Base.Int.{ℤ, pos, ◌<ℤ◌, max_int, inc, int_key}
use wireguard_babeld_igp.Data.Map.{get}
use wireguard_babeld_igp.Errors.{ok, id_taken}
use wireguard_babeld_igp.Types.{Time, NodeConfig, Floats}
use wireguard_babeld_igp.Store.Memory.{MemoryStore}
use wireguard_babeld_igp.Store.Memory.Nodes
use wireguard_babeld_igp.Store.Memory.Nodes.Ids.{IsNumbered, create_node_auto, create_node_same}
use wireguard_babeld_igp.Store.Interface.{Store, MapOrders, memory_store}
use wireguard_babeld_igp.Server.Http.{Response, respond, reject}
use wireguard_babeld_igp.Server.Middleware.Node.{validate_token}
use wireguard_babeld_igp.Server.Services.Tasks.{TaskService}
use wireguard_babeld_igp.Server.Services.Nodes.{Fresh, CreateRequest, Created, new_node}
use wireguard_babeld_igp.Server.Services.Nodes.Handlers.{handle_create_node}

module _ (orders : MapOrders) (floats : Floats) (f : Fresh) (now : Time)
    (t : TaskService MemoryStore) where
  abbrev store : Store MemoryStore
  store = memory_store orders

  -- The answer is the node's account, under which it can authenticate, and the goroutine skips it.
  record Accepted (req : CreateRequest) (c : Created) (background : Option ℤ)
      (t' : TaskService MemoryStore) : Type 0 where
    authenticates : validate_token store c.id c.token t'.store ≡ true
    name : c.name ≡ req.name
    skips : background ≡ some c.id

  module _ (req : CreateRequest) (c : Created) where
    abbrev Sound : Response Created × Option ℤ × TaskService MemoryStore → Type 0
    Sound (r, background, t') = r ≡ respond 200 c → Accepted req c background t'

  -- Without an identifier in the request, the node gets one that no node has, if the random bytes
  -- can be read: the call does not fail.
  pub handle_create_node_auto :
      (req : CreateRequest) (token private public : String)
      → f.token ≡ ok token
      → f.keys ≡ ok (private, public)
      → req.id ≡ pos 0
      → IsNumbered t.store
      → t.store.max_node_id <ℤ pos max_int
      → ((handle_create_node store floats f now (some req) t).0
          ≡ respond 200 (record {
            id = inc t.store.max_node_id;
            name = req.name;
            token = token;
            public_key = public;
          }))
        × (get t.store.nodes (inc t.store.max_node_id) ≡ none)
  unfolding handle_create_node new_node
  handle_create_node_auto req token private public e g zero v room =
      let node : NodeConfig = new_node f now req token (private, public) in
      let (accepted, numbered, free, _) = create_node_auto t.store v room node zero in
      (ground (arith, e, g, accepted, numbered, create_node_same node t.store), free)

  -- An identifier that is taken is refused, and nothing changes.
  pub handle_create_node_taken :
      (req : CreateRequest) (node : NodeConfig)
      → pos 0 <ℤ req.id
      → Nodes.get_node req.id t.store ≡ ok node
      → handle_create_node store floats f now (some req) t ≡ (reject 400 (id_taken req.id), none, t)
  unfolding handle_create_node
  handle_create_node_taken req node p h = ground (arith, h)
