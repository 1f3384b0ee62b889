-- ===== src/Server/Routes.antt =====
-- The routes that New of pkg/server/server.go registers with gin, and the middleware before them.
pub mod Guards
use wireguard_babeld_igp.Base.{
  ℕ, String, Bool, true, false, Option, none, some, List, [], ◌∷◌, ◌++◌, map, ite, ◌=?◌, string_key,
}
use wireguard_babeld_igp.Base.Int.{ℤ}
use wireguard_babeld_igp.Errors.{Error, Result, ok, err, message}
use wireguard_babeld_igp.Types.{Time}
use wireguard_babeld_igp.Store.Interface.{Store}
use wireguard_babeld_igp.Server.Http.{Filter, next, abort}
use wireguard_babeld_igp.Server.Middleware.Jwt.{JwtLibrary, jwt_auth}
use wireguard_babeld_igp.Server.Middleware.Node.{node_auth}

-- A segment of a route's path: a text, or a parameter such as `:id`.
pub data Segment : Type 0 where
  text : String → Segment
  param : Segment

pub data Handler : Type 0 where
  register login list_nodes create_node get_node trigger_config_update get_config : Handler

pub data Guard : Type 0 where
  open_to_all jwt_guard node_guard : Guard

pub record Route : Type 0 where
  pub verb : String
  pub path : List Segment
  pub guard : Guard
  pub handler : Handler

-- The path is cut at its slashes; the headers are those that the middleware reads.
pub record Request : Type 0 where
  pub verb : String
  pub path : List String
  pub authorization : String
  pub basic_auth : Option (String × String)

-- What becomes of a request: a handler runs, with the parameters of its path, or the middleware
-- answers, or gin redirects it with a status to another path, or no route is there for it.
pub data Dispatched : Type 0 where
  runs : Handler → List String → Dispatched
  refused : ℕ → Error → Dispatched
  redirected : ℕ → List String → Dispatched
  unrouted : Dispatched

abbrev pub route : String → List Segment → Guard → Handler → Route
route verb path guard handler = record {
  verb = verb;
  path = path;
  guard = guard;
  handler = handler;
}

-- RegisterRoutes of user_service.go, node_service.go and config_service.go, in their groups.
abbrev pub user_routes : List Segment → Guard → List Route
user_routes group guard =
    route "POST" (group ++ (text "register" ∷ [])) guard register
    ∷ route "POST" (group ++ (text "login" ∷ [])) guard login
    ∷ []

abbrev pub node_routes : List Segment → Guard → List Route
node_routes group guard =
    route "GET" (group ++ (text "nodes" ∷ [])) guard list_nodes
    ∷ route "POST" (group ++ (text "nodes" ∷ [])) guard create_node
    ∷ route "GET" (group ++ (text "nodes" ∷ param ∷ [])) guard get_node
    ∷ route "POST" (group ++ (text "nodes" ∷ text "config" ∷ param ∷ [])) guard
        trigger_config_update
    ∷ []

abbrev pub config_routes : List Segment → Guard → List Route
config_routes group guard =
    route "GET" (group ++ (text "config" ∷ param ∷ [])) guard get_config ∷ []

abbrev pub routes : List Route
routes =
    user_routes (text "api" ∷ text "auth" ∷ []) open_to_all
    ++ (node_routes (text "api" ∷ text "dashboard" ∷ []) jwt_guard
        ++ config_routes (text "api" ∷ text "agent" ∷ []) node_guard)

add_param : String → Option (List String) → Option (List String)
add_param s none = none
add_param s (some l) = some (s ∷ l)

-- The parameters of a path that a route has. A parameter is not empty.
unfoldable pub matched : List Segment → List String → Option (List String)
unfolding add_param
matched [] [] = some []
matched [] (s ∷ path) = none
matched (x ∷ pattern) [] = none
matched (text t ∷ pattern) (s ∷ path) = let rest = matched pattern path in ite (s =? t) rest none
matched (param ∷ pattern) (s ∷ path) =
    let rest = matched pattern path in ite (s =? "") none (add_param s rest)

abbrev pub on_verb : String → Route → Option (List String) → Option (List String)
on_verb verb r params = ite (verb =? r.verb) params none

first_or :
    Route → Option (List String) → Option (Route × List String) → Option (Route × List String)
first_or r (some params) rest = some (r, params)
first_or r none rest = rest

unfoldable pub find_route : List Route → Request → Option (Route × List String)
unfolding first_or
find_route [] req = none
find_route (r ∷ l) req =
    let rest = find_route l req in first_or r (on_verb req.verb r (matched r.path req.path)) rest

-- A path with a slash more at its end, or with the one at its end left out.
unfoldable pub other_slash : List String → List String
other_slash [] = "" ∷ []
other_slash (s ∷ []) = ite (s =? "") [] (s ∷ "" ∷ [])
other_slash (s ∷ t ∷ path) = s ∷ other_slash (t ∷ path)

abbrev pub with_other_slash : Request → Request
with_other_slash req = record req { path = other_slash req.path }

-- RedirectTrailingSlash, which is on in gin.New: a request without a route is redirected to the path
-- with the other end, if that has a route. X-Forwarded-Prefix is left out.
unfoldable pub redirect_or : Request → Option (Route × List String) → Dispatched
redirect_or req none = unrouted
redirect_or req (some r) = redirected (ite (req.verb =? "GET") 301 307) (other_slash req.path)

unfoldable pub passed : {A : Type 0} → Handler → List String → Filter A → Dispatched
passed handler params (next a) = runs handler params
passed handler params (abort code e) = refused code e

module _ {S : Type 0} (store : Store S) (jwt : JwtLibrary) (secret : String) where
  unfoldable pub run_guard : Guard → Time → Request → S → Handler → List String → Dispatched
  unfolding passed
  run_guard open_to_all now req s handler params = runs handler params
  run_guard jwt_guard now req s handler params =
      passed handler params (jwt_auth jwt secret now req.authorization)
  run_guard node_guard now req s handler params =
      passed handler params (node_auth store req.basic_auth s)

  unfoldable pub run_route : Option (Route × List String) → Time → Request → S → Dispatched
  unfolding run_guard redirect_or
  run_route none now req s = redirect_or req (find_route routes (with_other_slash req))
  run_route (some (r, params)) now req s = run_guard r.guard now req s r.handler params

  unfoldable pub dispatch : Time → Request → S → Dispatched
  unfolding run_route
  dispatch now req s = run_route (find_route routes req) now req s
