-- ===== src/Server/Routes/Guards.antt =====
-- Which requests reach a handler.
use mathlib.Core.Path.{subst}
use wireguard_babeld_igp.Base.{
  ◌≡◌, ◌≢◌, refl, ap, ◌∙◌, arith, String, Option, none, some, List, [], ◌∷◌, if_neg, ◌=?◌,
  string_key, String_discrete,
}
use wireguard_babeld_igp.Base.Int.{ℤ}
use wireguard_babeld_igp.Types.{Time}
use wireguard_babeld_igp.Store.Interface.{Store}
use wireguard_babeld_igp.Server.Http.{Filter, next, abort}
use wireguard_babeld_igp.Server.Middleware.Jwt.{JwtLibrary, jwt_auth}
use wireguard_babeld_igp.Server.Middleware.Node.{node_auth}
use wireguard_babeld_igp.Server.Routes.{
  route, Route, text, param, Handler, register, login, get_config, Guard, open_to_all, jwt_guard,
  node_guard, Request, runs, routes, matched, first_or, find_route, passed, run_guard, run_route,
  dispatch, add_param, redirect_or, with_other_slash,
}

-- The guard that a handler should be behind.
abbrev pub guard_for : Handler → Guard
guard_for register = open_to_all
guard_for login = open_to_all
guard_for get_config = node_guard
guard_for _ = jwt_guard

AllGuarded : List Route → Type 0
AllGuarded [] = Unit
AllGuarded (r ∷ l) = (r.guard ≡ guard_for r.handler) × AllGuarded l

routes-AllGuarded : AllGuarded routes
unfolding AllGuarded
routes-AllGuarded = (refl, (refl, (refl, (refl, (refl, (refl, (refl, tt)))))))

first_guarded :
    (r : Route) (o : Option (List String)) (rest : Option (Route × List String)) (q : Route)
    (params : List String)
    → r.guard ≡ guard_for r.handler
    → (rest ≡ some (q, params) → q.guard ≡ guard_for q.handler)
    → first_or r o rest ≡ some (q, params)
    → q.guard ≡ guard_for q.handler
unfolding first_or
first_guarded r (some l) rest q params g h e = ground (arith, g, e)
first_guarded r none rest q params g h e = h e

find_guarded :
    (l : List Route) (req : Request) (q : Route) (params : List String)
    → AllGuarded l
    → find_route l req ≡ some (q, params)
    → q.guard ≡ guard_for q.handler
unfolding find_route AllGuarded
find_guarded [] req q params g e = cc
find_guarded (r ∷ l) req q params (g, gs) e =
    first_guarded r _ (find_route l req) q params g (find_guarded l req q params gs) e

module _ {S : Type 0} (store : Store S) (jwt : JwtLibrary) (secret : String) where
  -- What the middleware of a guard has found, for a request that it lets pass.
  pub Passes : Guard → Time → Request → S → Type 0
  Passes open_to_all now req s = Unit
  Passes jwt_guard now req s =
      (id : ℤ) × (username : String) × (jwt_auth jwt secret now req.authorization
        ≡ next (id, username))
  Passes node_guard now req s = node_auth store req.basic_auth s ≡ next tt

  passed_jwt :
      (f : Filter (ℤ × String)) (h k : Handler) (params p : List String)
      → passed k p f ≡ runs h params
      → (id : ℤ) × (username : String) × (f ≡ next (id, username))
  unfolding passed
  passed_jwt (next (id, username)) h k params p e = (id, username, refl)
  passed_jwt (abort code x) h k params p e = cc

  passed_node :
      (f : Filter (Unit {0})) (h k : Handler) (params p : List String)
      → passed k p f ≡ runs h params
      → f ≡ next tt
  unfolding passed
  passed_node (next u) h k params p e = refl
  passed_node (abort code x) h k params p e = cc

  guard-Passes :
      (g : Guard) (now : Time) (req : Request) (s : S) (h k : Handler) (params p : List String)
      → run_guard store jwt secret g now req s k p ≡ runs h params
      → Passes g now req s
  unfolding run_guard Passes
  guard-Passes open_to_all now req s h k params p e = tt
  guard-Passes jwt_guard now req s h k params p e = passed_jwt _ h k params p e
  guard-Passes node_guard now req s h k params p e = passed_node _ h k params p e

  passed_same :
      {A : Type 0} (f : Filter A) (h k : Handler) (params p : List String)
      → passed k p f ≡ runs h params
      → k ≡ h
  unfolding passed
  passed_same (next a) h k params p e = cc
  passed_same (abort code x) h k params p e = cc

  guard_same :
      (g : Guard) (now : Time) (req : Request) (s : S) (h k : Handler) (params p : List String)
      → run_guard store jwt secret g now req s k p ≡ runs h params
      → k ≡ h
  unfolding run_guard
  guard_same open_to_all now req s h k params p e = cc
  guard_same jwt_guard now req s h k params p e = passed_same _ h k params p e
  guard_same node_guard now req s h k params p e = passed_same _ h k params p e

  redirect_or-runs :
      (req : Request) (o : Option (Route × List String)) (h : Handler) (params : List String)
      → redirect_or req o ≢ runs h params
  unfolding redirect_or
  redirect_or-runs req none h params e = cc
  redirect_or-runs req (some r) h params e = cc

  route-Passes :
      (o : Option (Route × List String)) (now : Time) (req : Request) (s : S) (h : Handler)
      (params : List String)
      → ((q : Route) (p : List String) → o ≡ some (q, p) → q.guard ≡ guard_for q.handler)
      → run_route store jwt secret o now req s ≡ runs h params
      → Passes (guard_for h) now req s
  unfolding run_route
  route-Passes none now req s h params g e =
      absurd (redirect_or-runs req (find_route routes (with_other_slash req)) h params e)
  route-Passes (some (q, p)) now req s h params g e =
      subst (λ k. Passes k now req s)
        (g q p refl ∙ ap guard_for (guard_same q.guard now req s h q.handler params p e))
        (guard-Passes q.guard now req s h q.handler params p e)

  -- A request that reaches a handler has passed the handler's middleware: JWTAuth for the handlers of
  -- the dashboard, NodeAuth for that of a node's configuration. Only registration and login are open.
  pub dispatch-Passes :
      (now : Time) (req : Request) (s : S) (h : Handler) (params : List String)
      → dispatch store jwt secret now req s ≡ runs h params
      → Passes (guard_for h) now req s
  unfolding dispatch
  dispatch-Passes now req s h params e =
      route-Passes (find_route routes req) now req s h params
        (λ q p f. find_guarded routes req q p routes-AllGuarded f) e

  abbrev pub config_request : String → String → Option (String × String) → Request
  config_request id header credentials = record {
    verb = "GET";
    path = "api" ∷ "agent" ∷ "config" ∷ id ∷ [];
    authorization = header;
    basic_auth = credentials;
  }

  config_route :
      (id header : String) (credentials : Option (String × String))
      → id ≢ ""
      → find_route routes (config_request id header credentials)
        ≡ some (
          record {
            verb = "GET";
            path = text "api" ∷ text "agent" ∷ text "config" ∷ param ∷ [];
            guard = node_guard;
            handler = get_config;
          },
          id ∷ [],
        )
  unfolding find_route matched first_or add_param String_discrete
  config_route id header credentials n =
      ap
        (λ o.
          first_or
            (route "GET" (text "api" ∷ text "agent" ∷ text "config" ∷ param ∷ []) node_guard
              get_config)
            o none)
        (if_neg (id =? "") n none (some (id ∷ [])))

  -- Credentials that NodeAuth accepts, of whatever node, reach the configuration of every node: the
  -- identifier in the path is not compared with the one that authenticates.
  pub any_config_reached :
      (now : Time) (s : S) (id header : String) (credentials : Option (String × String))
      → id ≢ ""
      → node_auth store credentials s ≡ next tt
      → dispatch store jwt secret now (config_request id header credentials) s
        ≡ runs get_config (id ∷ [])
  unfolding dispatch run_route run_guard passed
  any_config_reached now s id header credentials n e =
      rw (config_route id header credentials n, e) refl
