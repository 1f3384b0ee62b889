-- ===== src/Server/Services/Configs/Interfaces.antt =====
-- The interfaces that babeld gets, and those that WireGuard gets.
use mathlib.Core.Path.{subst}
use wireguard_babeld_igp.Base.{
  ◌≡◌, ◌≢◌, ◌⊎◌, ◌∙◌, ap, refl, sym, inl, inr, String, none, some, List, [], ◌∷◌, ◌++◌, ite,
  ite_ind, if_pos, if_neg, arith, ◌=?◌, string_key,
}
use wireguard_babeld_igp.Base.Int.{int_key}
use wireguard_babeld_igp.Data.Map.{Map, get, put, get-put, get-empty}
use wireguard_babeld_igp.Data.Map as Map
use wireguard_babeld_igp.Data.Map.Range.{In}
use wireguard_babeld_igp.Errors.{Result, ok, err}
use wireguard_babeld_igp.Types.{NodeConfig, WireguardConnection}
use wireguard_babeld_igp.Store.Interface.{Store}
use wireguard_babeld_igp.Config.{Network}
use wireguard_babeld_igp.Server.Services.Configs.{
  Formats, add_interfaces, babel_data, wireguard_data, executed, connected, add_config, continue,
  add_configs, generate_wireguard,
}

-- The names of the other nodes, in their order.
abbrev pub others : NodeConfig → List NodeConfig → List String
others node [] = []
others node (peer ∷ l) = ite (peer.id =? node.id) (others node l) (peer.name ∷ others node l)

some_same : (a b : String) → some a ≡ some b → a ≡ b
some_same a b e = cc

none-some : (a : String) → none ≡ some a → ⊥
none-some a e = cc

module _ (network : Network) (formats : Formats) (node : NodeConfig) where
  append_step :
      (names : List String) (x : String) (l : List String)
      → (names ++ (x ∷ [])) ++ l ≡ names ++ (x ∷ l)
  append_step [] x l = refl
  append_step (y ∷ names) x l = ap (λ r. y ∷ r) (append_step names x l)

  append_nil : (names : List String) → names ++ [] ≡ names
  append_nil [] = refl
  append_nil (y ∷ names) = ap (λ r. y ∷ r) (append_nil names)

  add_interfaces_lem :
      (l : List NodeConfig) (names : List String)
      → add_interfaces network formats node l names ≡ names ++ others node l
  unfolding add_interfaces
  add_interfaces_lem [] names = sym (append_nil names)
  add_interfaces_lem (peer ∷ l) names = ground (
    arith,
    add_interfaces_lem l names,
    add_interfaces_lem l (names ++ (peer.name ∷ [])),
    append_step names peer.name (others node l),
  )

  -- The interfaces that babeld gets are the names of the other nodes, in the order of the list.
  pub interfaces-others :
      (l : List NodeConfig) → (babel_data network formats node l).interfaces ≡ others node l
  unfolding babel_data
  interfaces-others l = add_interfaces_lem l []

  -- The template's text for another node of the list, which has the name.
  abbrev pub Origin : List NodeConfig → String → String → Type 0
  Origin l key text =
      (peer : NodeConfig) × (connection : WireguardConnection) × (In peer l)
      × (peer.id ≢ node.id)
      × (peer.name ≡ key)
      × (formats.wireguard (wireguard_data network formats node peer connection) ≡ ok text)

  widen :
      (peer : NodeConfig) (l : List NodeConfig) (key text : String)
      → Origin l key text
      → Origin (peer ∷ l) key text
  widen peer l key text (p, c, i, n, e, w) = (p, c, inr i, n, e, w)

  Made : List NodeConfig → Map String String → Map String String → Type 0
  Made l before after =
      (key : String)
      → (In key (others node l) → (text : String) × (get after key ≡ some text))
        × ((text : String)
            → get before key ≡ some text
            → (text' : String) × (get after key ≡ some text'))
        × ((text : String)
            → get after key ≡ some text
            → (get before key ≡ some text) ⊎ Origin l key text)

  Made-same :
      (peer : NodeConfig) (l : List NodeConfig) (b c : Map String String)
      → peer.id ≡ node.id
      → Made l b c
      → Made (peer ∷ l) b c
  unfolding Made
  Made-same peer l b c e m key =
      let (has, kept, from) = m key in
      (
        λ i. has (
            subst (λ r. In key r)
              (if_pos (peer.id =? node.id) e (others node l) (peer.name ∷ others node l)) i),
        kept,
        λ text g. elim (from text g) [ inl h ↦ inl h | inr o ↦ inr (widen peer l key text o) ],
      )

  Made-put :
      (peer : NodeConfig) (connection : WireguardConnection) (text : String) (l : List NodeConfig)
      (b c : Map String String)
      → peer.id ≢ node.id
      → formats.wireguard (wireguard_data network formats node peer connection) ≡ ok text
      → Made l (put b peer.name text) c
      → Made (peer ∷ l) b c
  unfolding Made
  Made-put peer connection text l b c n w m key =
      let (has, kept, from) = m key in
      let self = get-put b peer.name key text in
      let at_name : peer.name ≡ key → get (put b peer.name text) key ≡ some text =
        λ e. self ∙ if_pos (peer.name =? key) e (some text) (get b key) in
      let elsewhere : peer.name ≢ key → get (put b peer.name text) key ≡ get b key =
        λ o. self ∙ if_neg (peer.name =? key) o (some text) (get b key) in
      (
        λ i.
            elim (subst (λ r. In key r)
              (if_neg (peer.id =? node.id) n (others node l) (peer.name ∷ others node l)) i) [
                | inl e ↦ kept text (at_name (sym e))
                | inr j ↦ has j
              ],
        λ u g. elim (peer.name =? key) [
          | yes e ↦ kept text (at_name e)
          | no o ↦ kept u (elsewhere o ∙ g)
        ],
        λ u g. elim (from u g) [
          | inl h ↦ elim (peer.name =? key) [
            | yes e ↦ inr (
              peer,
              connection,
              inl refl,
              n,
              e,
              w ∙ ap ok (some_same text u (sym (at_name e) ∙ h)),
            )
            | no o ↦ inl (sym (elsewhere o) ∙ h)
          ]
          | inr o ↦ inr (widen peer l key u o)
        ],
      )

  module _ {S : Type 0} (store : Store S) where
    -- What the loop over `l` leaves, if it succeeds.
    AllMade : List NodeConfig → Map String String → Result (Map String String) × S → Type 0
    AllMade l before (err e, s) = Unit
    AllMade l before (ok after, s) = Made l before after

    same_made :
        (peer : NodeConfig) (l : List NodeConfig) (b : Map String String)
        (r : Result (Map String String) × S)
        → peer.id ≡ node.id
        → AllMade l b r
        → AllMade (peer ∷ l) b r
    unfolding AllMade
    same_made peer l b (err x, s) e m = tt
    same_made peer l b (ok c, s) e m = Made-same peer l b c e m

    put_made :
        (peer : NodeConfig) (connection : WireguardConnection) (text : String) (l : List NodeConfig)
        (b : Map String String) (r : Result (Map String String) × S)
        → peer.id ≢ node.id
        → formats.wireguard (wireguard_data network formats node peer connection) ≡ ok text
        → AllMade l (put b peer.name text) r
        → AllMade (peer ∷ l) b r
    unfolding AllMade
    put_made peer connection text l b (err x, s) n w m = tt
    put_made peer connection text l b (ok c, s) n w m = Made-put peer connection text l b c n w m

    executed_made :
        (peer : NodeConfig) (connection : WireguardConnection) (l : List NodeConfig)
        (b : Map String String) (s : S) (t : Result String)
        → peer.id ≢ node.id
        → formats.wireguard (wireguard_data network formats node peer connection) ≡ t
        → ((c : Map String String) (u : S)
            → AllMade l c (add_configs network formats store node l c u))
        → AllMade (peer ∷ l) b (
            continue network formats store
              (executed network formats store peer.name t b, s)
              (add_configs network formats store node l))
    unfolding AllMade continue executed
    executed_made peer connection l b s (err e) n w m = tt
    executed_made peer connection l b s (ok text) n w m =
        put_made peer connection text l b _ n w (m (put b peer.name text) s)

    connected_made :
        (peer : NodeConfig) (l : List NodeConfig) (b : Map String String)
        (r : Result WireguardConnection) (s : S)
        → peer.id ≢ node.id
        → ((c : Map String String) (u : S)
            → AllMade l c (add_configs network formats store node l c u))
        → AllMade (peer ∷ l) b (
            continue network formats store
              (connected network formats store node peer r b, s)
              (add_configs network formats store node l))
    unfolding AllMade continue connected
    connected_made peer l b (err e) s n m = tt
    connected_made peer l b (ok connection) s n m = executed_made peer connection l b s _ n refl m

    add_configs_made :
        (l : List NodeConfig) (b : Map String String) (s : S)
        → AllMade l b (add_configs network formats store node l b s)
    unfolding AllMade Made add_configs add_config continue
    add_configs_made [] b s = λ key. (λ i. absurd i, λ text g. (text, g), λ text g. inl g)
    add_configs_made (peer ∷ l) b s =
        ite_ind
          (λ r.
            AllMade (peer ∷ l) b
              (continue network formats store r (add_configs network formats store node l)))
          (peer.id =? node.id) _ _ (λ e. same_made peer l b _ e (add_configs_made l b s))
          (λ n. connected_made peer l b _ _ n (add_configs_made l))

    all_made :
        (l : List NodeConfig) (b after : Map String String) (s s' : S)
        (r : Result (Map String String) × S)
        → r ≡ (ok after, s')
        → AllMade l b r
        → Made l b after
    unfolding AllMade
    all_made l b after s s' r e m = subst (AllMade l b) e m

    -- Where the WireGuard configurations of a node are made without an error, each interface that
    -- babeld gets has one under its name; and each of them is the template's text for another node of
    -- the list, which has that name, and a connection.
    pub generate_wireguard-interfaces :
        (l : List NodeConfig) (s s' : S) (configs : Map String String)
        → generate_wireguard network formats store node l s ≡ (ok configs, s')
        → ((name : String)
            → In name (babel_data network formats node l).interfaces
            → (text : String) × (get configs name ≡ some text))
          × ((name text : String) → get configs name ≡ some text → Origin l name text)
    unfolding generate_wireguard Made
    generate_wireguard-interfaces l s s' configs e =
        let made = all_made l Map.empty configs s s' _ e (add_configs_made l Map.empty s) in
        (
          λ name i. (made name).0 (subst (λ r. In name r) (interfaces-others l) i),
          λ name text g. elim ((made name).2 text g) [
            | inl h ↦ absurd (none-some text (sym (get-empty name) ∙ h))
            | inr o ↦ o
          ],
        )
