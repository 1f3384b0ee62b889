-- ===== src/Server/Services/Tasks/Streams.antt =====
-- The stream of a node, over registrations, subscriptions and their ends.
use wireguard_babeld_igp.Base.{◌≡◌, refl, String, none, some, true, arith}
use wireguard_babeld_igp.Base.Int.{ℤ, int_key, IsInt32, to_int32_self}
use wireguard_babeld_igp.Data.Heap.{Ptr}
use wireguard_babeld_igp.Data.Map.{get, put, get-put}
use wireguard_babeld_igp.Errors.{Code, Result, err, grpc, message, stream_missing}
use wireguard_babeld_igp.Types.{Time}
use wireguard_babeld_igp.Store.Interface.{Store}
use wireguard_babeld_igp.Server.Middleware.Node.{validate_token}
use wireguard_babeld_igp.Server.Services.Tasks.{
  Stream, NodeState, PbTask, TaskService, register, attach, subscribe, unsubscribe, push_task,
}

module _ {S : Type 0} (store : Store S) (id : ℤ) (token : String) (t : TaskService S)
    (valid : validate_token store id token t.store ≡ true) where
  -- A node with a valid token that registers and then subscribes is connected by its stream.
  pub subscribe-register :
      (now later : Time) (stream : Stream)
      → let (r, e, t') = register store now id token t in
        let (e', t'') = subscribe store later id token stream t' in
        (e ≡ none)
        × (e' ≡ none)
        × (get t''.nodes id
            ≡ some (record { token = token; last_seen = later; stream = some stream }))
  unfolding register subscribe attach
  subscribe-register now later stream =
      let node : NodeState = record { token = token; last_seen = now; stream = none } in
      let node' : NodeState = record { token = token; last_seen = later; stream = some stream } in
      ground (arith, valid, get-put t.nodes id id node, get-put (put t.nodes id node) id id node')

  pub register_succeeds :
      (now : Time)
      → (register store now id token t).0
        ≡ record { success = true; message = message "Registration successful" }
  unfolding register
  register_succeeds now = rw valid refl

  -- A node that has not registered is refused.
  pub unknown_refused :
      (now : Time) (stream : Stream)
      → get t.nodes id ≡ none
      → (subscribe store now id token stream t).0 ≡ some (grpc Code.not_found "node not registered")
  unfolding subscribe attach
  unknown_refused now stream e = rw (valid, e) refl

  module _ (send : Stream → PbTask → Result (Unit {0})) (n : NodeState)
      (here : get t.nodes id ≡ some n) (small : IsInt32 id) where
    -- If the end of an earlier stream is handled after the node has subscribed again, the node loses
    -- its new stream: no task reaches it, though it is connected.
    pub stale_unsubscribe :
        (now later : Time) (new : Stream) (p : Ptr)
        → (t.heap.cell p).node_id ≡ id
        → let (e, t') = subscribe store now id token new t in
          let t'' = unsubscribe store id t' in
          (e ≡ none)
          × (get t'.nodes id ≡ some (record n { stream = some new; last_seen = now }))
          × ((push_task store send now later p t'').0 ≡ err (stream_missing id))
    unfolding subscribe unsubscribe push_task
    stale_unsubscribe now later new p e =
        let node : NodeState = record n { stream = some new; last_seen = now } in
        let nodes' = put t.nodes id node in
        ground (
          arith,
          valid,
          here,
          get-put t.nodes id id node,
          get-put nodes' id id (record node { stream = none }),
          to_int32_self id,
        )
