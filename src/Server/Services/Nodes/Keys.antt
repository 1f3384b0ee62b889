-- ===== src/Server/Services/Nodes/Keys.antt =====
-- The keys and tokens that pkg/server/services/node_service.go makes for a node, and the token of
-- pkg/server/middleware/node.go. base64 and curve25519 are parameters, with the random bytes.
use wireguard_babeld_igp.Base.{
  ◌≡◌, ◌∙◌, sym, refl, ap, String, Option, some, arith, inl, inr, Bool-cases, List,
}
use wireguard_babeld_igp.Base.Int.{ℤ}
use wireguard_babeld_igp.Errors.{Result, ok, err, wrap, wrapped}
use wireguard_babeld_igp.Password.{Bytes}
use wireguard_babeld_igp.Types.{Time, NodeConfig, Floats}
use wireguard_babeld_igp.Store.Memory.{MemoryStore}
use wireguard_babeld_igp.Store.Memory.Nodes
use wireguard_babeld_igp.Store.Memory.Nodes.Ids.{create_node_cases, create_node_same}
use wireguard_babeld_igp.Store.Interface.{MapOrders, memory_store}
use wireguard_babeld_igp.Server.Http.{Response, respond}
use wireguard_babeld_igp.Server.Services.Tasks.{TaskService}
use wireguard_babeld_igp.Server.Services.Nodes.{Fresh, CreateRequest, Created, new_node}
use wireguard_babeld_igp.Server.Services.Nodes.Handlers.{
  created, create_keyed, create_with, id_is_taken, handle_create_node,
}

pub record KeyLibrary : Type 0 where
  -- base64.StdEncoding and base64.URLEncoding
  pub encode : Bytes → String
  pub url_encode : Bytes → String
  -- curve25519.ScalarBaseMult
  pub scalar_base_mult : Bytes → Bytes
  -- json.Marshal on a list of strings
  pub marshal : List String → String

module _ (lib : KeyLibrary) where
  -- The argument of each is the answer of rand.Read for 32 bytes.
  unfoldable pub generate_key_pair : Result Bytes → Result (String × String)
  generate_key_pair (err e) = err (wrap "generating private key" e)
  generate_key_pair (ok private) =
      ok (lib.encode private, lib.encode (lib.scalar_base_mult private))

  unfoldable pub generate_node_token : Result Bytes → Result String
  generate_node_token (err e) = err (wrap "generating token" e)
  generate_node_token (ok token) = ok (lib.url_encode token)

  -- GenerateToken of NodeAuthenticator
  unfoldable pub generate_token : Result Bytes → Result String
  generate_token (err e) = err e
  generate_token (ok token) = ok (lib.url_encode token)

  -- What HandleCreateNode takes from the two.
  abbrev pub fresh : Result Bytes → Result Bytes → Fresh
  fresh for_token for_key = record {
    token = generate_node_token for_token;
    keys = generate_key_pair for_key;
    marshal = lib.marshal;
  }

  -- The two generators of tokens differ in their errors alone.
  pub generate_token_lem :
      (r : Result Bytes) → generate_node_token r ≡ wrapped "generating token" (generate_token r)
  unfolding generate_node_token generate_token
  generate_token_lem (err e) = refl
  generate_token_lem (ok token) = refl

record Kept (c : Created) (private public : String) (s : MemoryStore) : Type 0 where
  node : NodeConfig
  stored : Nodes.get_node c.id s ≡ ok node
  private_key : node.private_key ≡ private
  public_key : node.public_key ≡ public
  shown : c.public_key ≡ public

module _ (orders : MapOrders) (floats : Floats) (f : Fresh) (now : Time)
    (t : TaskService MemoryStore) (req : CreateRequest) (c : Created) where
  abbrev Pair : Response Created × Option ℤ × TaskService MemoryStore → Type 0
  Pair (r, background, t') =
      r ≡ respond 200 c
      → (private : String) × (public : String) × (f.keys ≡ ok (private, public))
        × Kept c private public t'.store

  created_clause :
      (token private public : String) (node : NodeConfig) (r : Result (Unit {0})) (s : MemoryStore)
      → f.keys ≡ ok (private, public)
      → node.private_key ≡ private
      → node.public_key ≡ public
      → (r ≡ ok tt → Nodes.get_node node.id s ≡ ok node)
      → Pair (created (memory_store orders) floats token (node, (r, s)) t)
  unfolding created
  created_clause token private public node (err e) s keys e1 e2 found h = absurd (ground arith)
  created_clause token private public node (ok tt) s keys e1 e2 found h =
      let at = found refl in
      (
        private,
        public,
        keys,
        record {
          node = node;
          stored = ground arith;
          private_key = e1;
          public_key = e2;
          shown = ground arith;
        },
      )

  created-Pair :
      (token private public : String)
      → f.keys ≡ ok (private, public)
      → Pair (
          created
            (memory_store orders)
            floats
            token
            (Nodes.create_node (new_node f now req token (private, public)) t.store)
            t)
  unfolding new_node
  created-Pair token private public keys =
      let node : NodeConfig = new_node f now req token (private, public) in
      let same = create_node_same node t.store in
      let (node', (r, s')) = Nodes.create_node node t.store in
      created_clause token private public node' r s' keys
        (ap (λ (n : NodeConfig). n.private_key) same) (ap (λ (n : NodeConfig). n.public_key) same)
        (λ e. elim (create_node_cases node t.store) [
          | inl (_, _, found, _) ↦ found
          | inr (refused, _, _) ↦ absurd (ground arith)
        ])

  create_keyed-Pair :
      (token : String) (r : Result (String × String))
      → f.keys ≡ r
      → Pair (create_keyed (memory_store orders) floats f now req token r t)
  unfolding create_keyed
  create_keyed-Pair token (err e) keys h = absurd (ground arith)
  create_keyed-Pair token (ok (private, public)) keys h = created-Pair token private public keys h

  create_with-Pair :
      (r : Result String) → Pair (create_with (memory_store orders) floats f now req r t)
  unfolding create_with
  create_with-Pair (err e) h = absurd (ground arith)
  create_with-Pair (ok token) h = create_keyed-Pair token f.keys refl h

  handle_create_node-Pair :
      Pair (handle_create_node (memory_store orders) floats f now (some req) t)
  unfolding handle_create_node
  handle_create_node-Pair h =
      elim (Bool-cases (id_is_taken (memory_store orders) floats req.id t.store)) [
        | inl taken ↦ absurd (ground arith)
        | inr free ↦ rw free (create_with-Pair f.token (rw free at h))
      ]

generate_key_pair_sound :
    (lib : KeyLibrary) (r : Result Bytes) (private public : String)
    → generate_key_pair lib r ≡ ok (private, public)
    → (secret : Bytes) × (r ≡ ok secret)
      × (private ≡ lib.encode secret)
      × (public ≡ lib.encode (lib.scalar_base_mult secret))
unfolding generate_key_pair
generate_key_pair_sound lib (err e) private public h = cc
generate_key_pair_sound lib (ok secret) private public h = (secret, refl, cc, cc)

-- Where base64 decodes what it encodes: a node whose creation is answered with 200 is stored, under the
-- identifier of the answer, with the random bytes as its private key and their curve25519 point as its
-- public key, which the answer shows.
pub handle_create_node_keys :
    (lib : KeyLibrary) (decode : String → Result Bytes)
    → ((x : Bytes) → decode (lib.encode x) ≡ ok x)
    → (orders : MapOrders) (floats : Floats) (now : Time) (for_token for_key : Result Bytes)
      (t : TaskService MemoryStore) (req : CreateRequest) (c : Created)
    → let (r, _, t') =
        handle_create_node
          (memory_store orders)
          floats
          (fresh lib for_token for_key)
          now
          (some req)
          t in
      r ≡ respond 200 c
      → (secret : Bytes) × (node : NodeConfig) × (for_key ≡ ok secret)
        × (Nodes.get_node c.id t'.store ≡ ok node)
        × (decode node.private_key ≡ ok secret)
        × (decode node.public_key ≡ ok (lib.scalar_base_mult secret))
        × (c.public_key ≡ node.public_key)
handle_create_node_keys lib decode decodes orders floats now for_token for_key t req c h =
    let (private, public, keys, k) =
      handle_create_node-Pair orders floats (fresh lib for_token for_key) now t req c h in
    let (secret, e, e1, e2) = generate_key_pair_sound lib for_key private public keys in
    (
      secret,
      k.node,
      e,
      k.stored,
      ap decode (k.private_key ∙ e1) ∙ decodes secret,
      ap decode (k.public_key ∙ e2) ∙ decodes (lib.scalar_base_mult secret),
      k.shown ∙ sym k.public_key,
    )
