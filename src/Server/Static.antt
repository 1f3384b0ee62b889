-- ===== src/Server/Static.antt =====
-- pkg/server/static/static.go: the files of the dashboard, and the page for a path without a route.
-- The embedded files, the disk and path.Join are parameters; a URL's escaped form is left out.
pub mod Pages
use Prim.Native.String.{[], ◌∷◌, ◌++◌}
use wireguard_babeld_igp.Base.{
  ℕ, zero, suc, String, Bool, true, false, Option, none, some, ite, if◌then◌else◌, ◌=?◌, ltb,
  string_key,
}
use wireguard_babeld_igp.Base.{List}
use wireguard_babeld_igp.Base.{[], ◌∷◌}
use wireguard_babeld_igp.Data.Text.Scan.{strip_prefix}
use wireguard_babeld_igp.Errors.{Error, Result, ok, err}
use wireguard_babeld_igp.Types.{Time}
use wireguard_babeld_igp.Store.Interface.{Store}
use wireguard_babeld_igp.Server.Middleware.Jwt.{JwtLibrary}
use wireguard_babeld_igp.Server.Routes.{
  Request, Dispatched, dispatch, runs, refused, redirected, unrouted,
}

-- len, for the comparison of a text with what is left of it.
unfoldable pub len : String → ℕ
len [] = 0
len (c ∷ s) = suc (len s)

or_whole : String → Option String → String
or_whole s none = s
or_whole s (some rest) = rest

-- strings.TrimPrefix, with the prefix first
unfoldable pub trim_prefix : String → String → String
unfolding or_whole
trim_prefix prefix s = or_whole s (strip_prefix prefix s)

-- What os.Stat finds.
pub data Stat : Type 0 where
  absent file directory : Stat

pub record LocalFileSystem : Type 0 where
  pub root : String
  pub indexes : Bool

unfoldable pub is_there : Stat → Bool
is_there absent = false
is_there file = true
is_there directory = true

module _ (stat : String → Stat) (join : String → String → String) where
  unfoldable pub stat_exists : LocalFileSystem → String → Stat → Bool
  unfolding is_there
  stat_exists l name absent = false
  stat_exists l name file = true
  stat_exists l name directory =
      if l.indexes then true else is_there (stat (join name "index.html"))

  -- Exists of a localFileSystem
  unfoldable pub local_exists : LocalFileSystem → String → String → Bool
  unfolding stat_exists
  local_exists l prefix path =
      let p = trim_prefix prefix path in
      let name = join l.root p in
      if ltb (len p) (len path) then stat_exists l name (stat name) else false

-- The name under which http.FS opens a path.
unfoldable pub http_name : String → String
http_name path = if ite (path =? "/") true false then "." else trim_prefix "/" path

-- Exists of an embedFileSystem; `opens` tells whether a file of the embedded folder opens. The prefix
-- is not used.
unfoldable pub embed_exists : (String → Bool) → String → String → Bool
embed_exists opens prefix path = opens (http_name path)

-- An answer with a page: the file server is asked for a path, http.StripPrefix does not find its
-- prefix, the handler writes a document with a status, or it fails.
pub data Page : Type 0 where
  from_files : String → Page
  not_found : Page
  document : ℕ → String → Page
  failed : ℕ → Error → Page

-- http.FileServer, behind http.StripPrefix when there is a prefix.
unfoldable pub file_server : String → String → Page
file_server [] path = from_files path
file_server (c ∷ prefix) path =
    let p = trim_prefix (c ∷ prefix) path in
    if ltb (len p) (len path) then from_files p else not_found

-- The middleware: `none` when it leaves the request to the next handler.
unfoldable pub serve : String → (String → String → Bool) → String → Option Page
serve prefix exists path = if exists prefix path then some (file_server prefix path) else none

-- The handler of NoRoute; the argument is what ReadFile gives for dist/index.html.
unfoldable pub no_route : Result String → Page
no_route (err e) = failed 500 e
no_route (ok text) = document 200 text

page_or : Option Page → Page → Page
page_or (some p) q = p
page_or none q = q

-- Register: gin runs this middleware and this handler for a request that it neither routes nor
-- redirects, since the other routes are registered before the call of Use.
unfoldable pub static_page : (String → Bool) → Result String → String → Page
unfolding page_or
static_page opens index path = page_or (serve "/" (embed_exists opens) path) (no_route index)

-- The path of a URL from its segments.
unfoldable pub url_path : List String → String
url_path [] = ""
url_path (s ∷ l) = "/" ∷ (s ++ url_path l)

-- What the server's gin engine does with a request.
pub data Answer : Type 0 where
  dispatched : Dispatched → Answer
  page : Page → Answer

unfoldable pub answered : Dispatched → Page → Answer
answered (runs h params) p = dispatched (runs h params)
answered (refused code e) p = dispatched (refused code e)
answered (redirected code path) p = dispatched (redirected code path)
answered unrouted p = page p

module _ {S : Type 0} (store : Store S) (jwt : JwtLibrary) (secret : String) (opens : String → Bool)
    (index : Result String) where
  unfoldable pub answer : Time → Request → S → Answer
  unfolding answered
  answer now req s =
      answered (dispatch store jwt secret now req s) (static_page opens index (url_path req.path))
